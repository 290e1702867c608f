-- ===== src/Prelude/Sorted.antt =====
-- Membership as a test, strictly ascending lists, and sorting without repeats, over numbers.
use Prim.Native.Nat.{ℕ, suc, ◌≤◌, ◌<◌}
use mathlib.Core.Path.{◌≡◌, refl}
use mathlib.Core.Bool.{Bool, false, ◌||◌}
use mathlib.Core.List.{List, [], ◌∷◌, ◌++◌}
use native.Mathlib.Omega.{arith}
use flockdb.Prelude.Tests.{◌==◌}

abbrev pub contains : ℕ → List ℕ → Bool
contains a [] = false
contains a (x ∷ xs) = a == x || contains a xs

-- Strictly ascending, with every element at least `n`.
abbrev pub AscendsFrom : ℕ → List ℕ → Type 0
AscendsFrom n [] = Unit
AscendsFrom n (x ∷ xs) = (n ≤ x) × AscendsFrom (suc x) xs

pub AscendsFrom-weaken : (m n : ℕ) (xs : List ℕ) → m ≤ n → AscendsFrom n xs → AscendsFrom m xs
AscendsFrom-weaken m n [] p h = tt
AscendsFrom-weaken m n (x ∷ xs) p h = (omega arith, h.1)

-- What lies below an ascending list is not in it.
pub contains_below : (a n : ℕ) (xs : List ℕ) → a < n → AscendsFrom n xs → contains a xs ≡ false
contains_below a n [] p h = refl
contains_below a n (x ∷ xs) p h = ground (arith, contains_below a (suc x) xs (omega arith) h.1)

pub contains-append :
    (a : ℕ) (xs ys : List ℕ) → contains a (xs ++ ys) ≡ (contains a xs || contains a ys)
contains-append a [] ys = refl
contains-append a (x ∷ xs) ys = ground (arith, contains-append a xs ys)
