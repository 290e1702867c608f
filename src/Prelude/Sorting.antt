-- ===== src/Prelude/Sorting.antt =====
-- Rust's `sort_unstable` on numbers, as an insertion sort: equal numbers cannot be told apart, so
-- every sort has this result.
use flockdb.Prelude.{
  ℕ, ◌≤◌, ◌≡◌, refl, inl, inr, ◌||◌, List, [], ◌∷◌, arith, tests, leb, ◌==◌, if◌then◌else◌,
  Bool-cases, contains,
}

unfoldable pub insert_sorted : ℕ → List ℕ → List ℕ
insert_sorted x [] = x ∷ []
insert_sorted x (y ∷ ys) = if leb x y then x ∷ y ∷ ys else y ∷ insert_sorted x ys

unfoldable pub sort : List ℕ → List ℕ
unfolding insert_sorted
sort [] = []
sort (x ∷ xs) = insert_sorted x (sort xs)

contains-insert_sorted :
    (q x : ℕ) (ys : List ℕ) → contains q (insert_sorted x ys) ≡ (q == x || contains q ys)
unfolding insert_sorted
contains-insert_sorted q x [] = refl
contains-insert_sorted q x (y ∷ ys) = ground (arith, contains-insert_sorted q x ys)

pub contains-sort : (q : ℕ) (xs : List ℕ) → contains q (sort xs) ≡ contains q xs
unfolding sort
contains-sort q [] = refl
contains-sort q (x ∷ xs) = ground (arith, contains-sort q xs, contains-insert_sorted q x (sort xs))

-- Ascending, repeats allowed.
abbrev pub WeaklyFrom : ℕ → List ℕ → Type 0
WeaklyFrom n [] = Unit
WeaklyFrom n (x ∷ xs) = (n ≤ x) × WeaklyFrom x xs

WeaklyFrom-insert_sorted :
    (n x : ℕ) (ys : List ℕ) → n ≤ x → WeaklyFrom n ys → WeaklyFrom n (insert_sorted x ys)
unfolding insert_sorted
WeaklyFrom-insert_sorted n x [] p h = (p, tt)
WeaklyFrom-insert_sorted n x (y ∷ ys) p h = elim (Bool-cases (leb x y)) [
  | inl below ↦ rw (below, insert_sorted) (p, (omega tests, h.1))
  | inr above ↦ rw (above, insert_sorted) (h.0, WeaklyFrom-insert_sorted y x ys (omega tests) h.1)
]

pub WeaklyFrom-sort : (xs : List ℕ) → WeaklyFrom 0 (sort xs)
unfolding sort
WeaklyFrom-sort [] = tt
WeaklyFrom-sort (x ∷ xs) = WeaklyFrom-insert_sorted 0 x (sort xs) (omega arith) (WeaklyFrom-sort xs)
