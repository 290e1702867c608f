-- ===== src/Flockd/Recording/Touched.antt =====
-- `touched` is the log as a strictly ascending list of the same pages.
use flockdb.Prelude.{
  ℕ, suc, ◌≡◌, refl, ◌∙◌, inl, inr, ◌||◌, List, [], ◌∷◌, arith, ◌==◌, Bool-cases, ==_iff, contains,
  AscendsFrom,
}
use flockdb.Prelude.Sorting.{sort, WeaklyFrom, WeaklyFrom-sort, contains-sort}
use flockdb.Flockd.Recording.{RecordingSource, dedup_after, dedup, touched}

AscendsFrom-dedup_after :
    (x : ℕ) (ys : List ℕ) → WeaklyFrom x ys → AscendsFrom (suc x) (dedup_after x ys)
unfolding dedup_after
AscendsFrom-dedup_after x [] h = tt
AscendsFrom-dedup_after x (y ∷ ys) h = elim (Bool-cases (x == y)) [
  | inl e ↦
      let p : x ≡ y = (==_iff x y).0 e in
      rw (e, dedup_after) (rw p (AscendsFrom-dedup_after y ys h.1))
  | inr n ↦ rw (n, dedup_after) (ground arith, AscendsFrom-dedup_after y ys h.1)
]

AscendsFrom-dedup : (xs : List ℕ) → WeaklyFrom 0 xs → AscendsFrom 0 (dedup xs)
unfolding dedup
AscendsFrom-dedup [] h = tt
AscendsFrom-dedup (x ∷ xs) h = (h.0, AscendsFrom-dedup_after x xs h.1)

contains-dedup_after :
    (q x : ℕ) (ys : List ℕ) → (q == x || contains q (dedup_after x ys)) ≡ (q == x || contains q ys)
unfolding dedup_after
contains-dedup_after q x [] = refl
contains-dedup_after q x (y ∷ ys) = ground (arith, contains-dedup_after q y ys)

contains-dedup : (q : ℕ) (xs : List ℕ) → contains q (dedup xs) ≡ contains q xs
unfolding dedup
contains-dedup q [] = refl
contains-dedup q (x ∷ xs) = contains-dedup_after q x xs

-- The fault set that a recorder reports is strictly ascending, so sorted and without repeats, and
-- holds exactly the pages in its log.
pub touched_exact :
    {S : Type 0} (r : RecordingSource S)
    → AscendsFrom 0 (touched r) × ((q : ℕ) → contains q (touched r) ≡ contains q r.touched_log)
unfolding touched
touched_exact r = (
  AscendsFrom-dedup (sort r.touched_log) (WeaklyFrom-sort r.touched_log),
  λ q. contains-dedup q (sort r.touched_log) ∙ contains-sort q r.touched_log,
)
