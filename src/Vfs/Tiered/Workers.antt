-- ===== src/Vfs/Tiered/Workers.antt =====
-- Sums over the workers of a prefetch.
use flockdb.Prelude.{
  ℕ, zero, suc, ◌+◌, ◌<◌, ◌≤◌, ◌≡◌, refl, ap, inl, inr, false, List, [], ◌∷◌, none, some, arith,
  ◌==◌, ==_iff, Bool-cases, length, get_elem?,
}
use flockdb.Vfs.Tiered.{Worker, update}

unfoldable pub total : (Worker → ℕ) → (ℕ → Worker) → ℕ → ℕ
total f workers zero = 0
total f workers (suc k) = f (workers k) + total f workers k

total-above :
    (f : Worker → ℕ) (new : Worker) (workers : ℕ → Worker) (w k : ℕ)
    → k ≤ w
    → total f (update w new workers) k ≡ total f workers k
unfolding total
total-above f new workers w zero h = refl
total-above f new workers w (suc k) h =
    let n : (k == w) ≡ false = ground (arith, h) in
    rw n (ap (λ t. f (workers k) + t) (total-above f new workers w k (omega (arith, h))))

pub total-update :
    (f : Worker → ℕ) (new : Worker) (workers : ℕ → Worker) (w k : ℕ)
    → w < k
    → total f (update w new workers) k + f (workers w) ≡ total f workers k + f new
unfolding total
total-update f new workers w zero h = absurd (omega (arith, h))
total-update f new workers w (suc k) h = elim (Bool-cases (k == w)) [
  | inl same ↦
      let e : k ≡ w = (==_iff k w).0 same in
      let z = total-above f new workers w k (omega (arith, e)) in
      rw same (rw z (rw e (omega arith)))
  | inr other ↦
      let d : w < k = ground (arith, h, other) in
      let z = total-update f new workers w k d in rw other (omega (arith, z))
]

pub total-zero :
    (f : Worker → ℕ) (workers : ℕ → Worker) (k : ℕ)
    → ((w : ℕ) → w < k → f (workers w) ≡ 0)
    → total f workers k ≡ 0
unfolding total
total-zero f workers zero h = refl
total-zero f workers (suc k) h =
    let a = h k (omega arith) in
    let b = total-zero f workers k (λ w l. h w (omega (arith, l))) in omega (arith, a, b)

pub get_elem?-below :
    {A : Type 0} (xs : List A) (i : ℕ) {a : A} → get_elem? xs i ≡ some a → i < length xs
get_elem?-below [] i h = absurd (cc h)
get_elem?-below (x ∷ xs) zero h = omega arith
get_elem?-below (x ∷ xs) (suc i) h = let z = get_elem?-below xs i h in omega (arith, z)

pub get_elem?-beyond : {A : Type 0} (xs : List A) (i : ℕ) → get_elem? xs i ≡ none → length xs ≤ i
get_elem?-beyond [] i h = omega arith
get_elem?-beyond (x ∷ xs) zero h = absurd (cc h)
get_elem?-beyond (x ∷ xs) (suc i) h = let z = get_elem?-beyond xs i h in omega (arith, z)
