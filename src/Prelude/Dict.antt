-- ===== src/Prelude/Dict.antt =====
-- A map with text keys as an association list: `BTreeMap` or a directory of named files, where the
-- code does not use the order.
use Prim.Native.String.{String}
use mathlib.Core.Path.{◌≡◌, refl}
use mathlib.Core.Option.{Option, none, some}
use mathlib.Core.List.{List, [], ◌∷◌}
use native.Mathlib.Omega.{arith}
use text.Mathlib.Text.{◌==◌ as str_eq}
use text.Mathlib.TextEquality.{eq_iff}
use flockdb.Prelude.Tests.{if◌then◌else◌}

module _ {ℓ} {Value : Type ℓ} where
  unfoldable pub lookup : String → List (String × Value) → Option Value
  lookup key [] = none
  lookup key ((name, value) ∷ rest) = if str_eq name key then some value else lookup key rest

  unfoldable pub insert : String → Value → List (String × Value) → List (String × Value)
  insert key value [] = (key, value) ∷ []
  insert key value ((name, old) ∷ rest) =
      let kept = insert key value rest in
      if str_eq name key then (key, value) ∷ rest else (name, old) ∷ kept

  pub lookup-insert :
      (key q : String) (value : Value) (dict : List (String × Value))
      → lookup q (insert key value dict) ≡ (if str_eq key q then some value else lookup q dict)
  unfolding lookup insert
  lookup-insert key q value [] = refl
  lookup-insert key q value ((name, old) ∷ rest) =
      let ih = lookup-insert key q value rest in
      ground (arith, eq_iff name q, eq_iff name key, eq_iff key q, ih)
