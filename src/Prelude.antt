-- ===== src/Prelude.antt =====
-- The names that the other modules share: the libraries', passed on, and those of the children:
-- Boolean tests and options (Tests), lists over the native numbers (Lists), results (Results), ascending lists (Sorted), maps (Dict), signed integers (Int), sorting (Sorting), texts (Texts),
-- calls that change a state (Steps).
mod Tests
mod Lists
mod Results
mod Sorted
pub mod Dict
pub mod Int
pub mod Sorting
pub mod Texts
pub mod Steps
pub use Tests.*
pub use Lists.*
pub use Results.*
pub use Sorted.*
pub use Prim.Native.Nat.{ℕ, zero, suc, ◌+◌, ◌-◌, ◌*◌, ◌/◌, ◌%◌, ◌^◌, ◌≤◌, ◌<◌, min, max}
pub use Prim.Native.String.{String}
pub use mathlib.Core.Path.{◌≡◌, refl, sym, ap, ◌∙◌, subst}
pub use mathlib.Core.Logic.{◌≢◌, ◌↔◌, ◌⊎◌, inl, inr}
pub use mathlib.Core.Bool.{Bool, true, false, not, ◌&&◌, ◌||◌}
pub use mathlib.Core.Option.{Option, none, some}
pub use mathlib.Core.List.{List, [], ◌∷◌, ◌++◌, map, append-nil, append_assoc}
pub use native.Mathlib.Omega.{arith}
pub use text.Mathlib.TextEquality.{eq_iff}
pub use text.Mathlib.TextPositions.{eq_refl}
pub use text.Mathlib.Text.{◌==◌ as str_eq}
