-- ===== src/Flockd/WarmSet.antt =====
-- crates/flockd/src/scheduler.rs: `WarmSet`. Rust's `binary_search` is specified on a sorted slice
-- alone: the index where the element stands, or else the one where it would keep the order; the
-- model finds that index from the front.
pub mod Learn
pub mod Converge
use flockdb.Prelude.{
  ℕ, zero, suc, Bool, true, false, List, [], ◌∷◌, ◌++◌, ltb, leb, ◌==◌, if◌then◌else◌, length, take,
  drop, Result, ok, err,
}

abbrev pub warm_set_cap : ℕ
warm_set_cap = 8192

pub record WarmSet : Type 0 where
  pub pages : List ℕ
  pub saturated : Bool

unfoldable pub new : WarmSet
new = record { pages = []; saturated = false }

abbrev pub shift : Result ℕ ℕ → Result ℕ ℕ
shift (ok i) = ok (suc i)
shift (err i) = err (suc i)

-- `ok` is `Ok(index)`, `err` is `Err(insertion index)`.
unfoldable pub binary_search : List ℕ → ℕ → Result ℕ ℕ
binary_search [] x = err 0
binary_search (y ∷ ys) x =
    if ltb x y then err 0 else if x == y then ok 0 else shift (binary_search ys x)

-- `Vec::insert`
unfoldable pub insert_at : ℕ → ℕ → List ℕ → List ℕ
insert_at i x xs = take i xs ++ x ∷ drop i xs

-- One round of the loop of `learn`.
unfoldable pub learn_page : WarmSet → ℕ → WarmSet
unfolding binary_search insert_at
learn_page set page = elim (binary_search set.pages page) [
  | ok _ ↦ set
  | err i ↦
      if leb warm_set_cap (length set.pages)
      then record set { saturated = true }
      else record set { pages = insert_at i page set.pages }
]

unfoldable pub learn : WarmSet → List ℕ → WarmSet
learn set [] = set
learn set (page ∷ touched) = learn (learn_page set page) touched

unfoldable pub len : WarmSet → ℕ
len set = length set.pages

unfoldable pub is_empty : WarmSet → Bool
is_empty set = elim set.pages [ [] ↦ true | _ ↦ false ]
