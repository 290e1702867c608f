-- ===== src/Vfs/Tiered/Exclusive.antt =====
-- Two workers never fault the same page at once.
use flockdb.Prelude.{
  ℕ, ◌<◌, ◌≡◌, sym, ◌∙◌, inl, inr, true, false, List, some, arith, ◌==◌, ==_iff, Bool-cases,
}
use flockdb.Vfs.Tiered.{
  TieredPageSource, Worker, idle, stopped, claimed, holding, update, gate, worker_count, Prefetch,
  Moves, claims, stops, locks, reads, Reached, at_start, after, faulter,
}

-- At most one worker holds a gate.
abbrev Exclusive : (count : ℕ) → (ℕ → Worker) → Type 0
Exclusive count workers =
    (v w i j p q : ℕ)
    → v < count
    → w < count
    → workers v ≡ holding i p
    → workers w ≡ holding j q
    → (gate p == gate q) ≡ true
    → v ≡ w

-- Where the new state of a worker holds nothing, the others are as before.
update-Exclusive :
    (count : ℕ) (workers : ℕ → Worker) (x : ℕ) (new : Worker)
    → ((i p : ℕ) → new ≡ holding i p → ⊥)
    → Exclusive count workers
    → Exclusive count (update x new workers)
update-Exclusive count workers x new free ex v w i j p q lv lw hv hw g =
    elim (Bool-cases (v == x)) [
      | inl vx ↦ absurd (free i p (rw vx at hv))
      | inr vn ↦ elim (Bool-cases (w == x)) [
        | inl wx ↦ absurd (free j q (rw wx at hw))
        | inr wn ↦ ex v w i j p q lv lw (rw vn at hv) (rw wn at hw) g
      ]
    ]

page_of : {i j p q : ℕ} → holding i p ≡ holding j q → p ≡ q
page_of e = cc e

gates_apart : (p q : ℕ) → (gate p == gate q) ≡ false → (gate q == gate p) ≡ true → ⊥
gates_apart p q h g = ground (arith, h, g)

lock-Exclusive :
    (count : ℕ) (workers : ℕ → Worker) (x i page : ℕ)
    → ((v j p : ℕ) → v < count → workers v ≡ holding j p → (gate p == gate page) ≡ false)
    → Exclusive count workers
    → Exclusive count (update x (holding i page) workers)
lock-Exclusive count workers x i page free ex v w a b p q lv lw hv hw g =
    elim (Bool-cases (v == x)) [
      | inl vx ↦ elim (Bool-cases (w == x)) [
        | inl wx ↦ (==_iff v x).0 vx ∙ sym ((==_iff w x).0 wx)
        | inr wn ↦
            let e : page ≡ p = page_of (rw vx at hv) in
            let f = free w b q lw (rw wn at hw) in absurd (gates_apart q page f (rw e g))
      ]
      | inr vn ↦ elim (Bool-cases (w == x)) [
        | inl wx ↦
            let e : page ≡ q = page_of (rw wx at hw) in
            let f = free v a p lv (rw vn at hv) in
            absurd (let z : (gate p == gate page) ≡ true = rw e g in cc (f, z))
        | inr wn ↦ ex v w a b p q lv lw (rw vn at hv) (rw wn at hw) g
      ]
    ]

module _ {S : Type 0} (src : TieredPageSource S) (pages : List ℕ) where
  Moves-Exclusive :
      {a b : Prefetch S}
      → Moves src pages a b
      → Exclusive (worker_count pages) a.worker
      → Exclusive (worker_count pages) b.worker
  Moves-Exclusive {a} (claims w page l h found e) ex = rw e (
      update-Exclusive (worker_count pages) a.worker w (claimed a.cursor page)
        (λ i p h. absurd (cc h)) ex)
  Moves-Exclusive {a} (stops w l h found e) ex =
      rw e (update-Exclusive (worker_count pages) a.worker w stopped (λ i p h. absurd (cc h)) ex)
  Moves-Exclusive {a} (locks w i page l h free e) ex =
      rw e (lock-Exclusive (worker_count pages) a.worker w i page free ex)
  Moves-Exclusive {a} (reads w i page l h e) ex =
      rw e (update-Exclusive (worker_count pages) a.worker w idle (λ i p h. absurd (cc h)) ex)

  Reached-Exclusive :
      {s : S} {n : ℕ} {b : Prefetch S}
      → Reached src pages s n b
      → Exclusive (worker_count pages) b.worker
  Reached-Exclusive at_start = λ v w i j p q lv lw hv hw g. absurd (cc hv)
  Reached-Exclusive (after r m) = Moves-Exclusive m (Reached-Exclusive r)

  faulter-holding :
      {b c : Prefetch S} (m : Moves src pages b c) (w page : ℕ)
      → faulter m ≡ some (w, page)
      → (w < worker_count pages) × (i : ℕ) × (b.worker w ≡ holding i page)
  unfolding faulter
  faulter-holding (claims v p l h found e) w page f = absurd (cc f)
  faulter-holding (stops v l h found e) w page f = absurd (cc f)
  faulter-holding (locks v i p l h free e) w page f = absurd (cc f)
  faulter-holding {b} (reads v i p l h e) w page f =
      let vw : v ≡ w = cc f in
      let pp : p ≡ page = cc f in (rw vw at l, i, let z = rw vw at h in rw pp at z)

  -- However the workers of a prefetch are interleaved: a worker that faults a page holds that page's
  -- gate, and every worker that holds the gate then, for this page or for another one of the same
  -- stripe, is that worker. So no two workers fault the same page at once.
  pub prefetch-Exclusive :
      (s : S) (n : ℕ) (b c : Prefetch S)
      → Reached src pages s n b
      → (m : Moves src pages b c) (w page : ℕ) → faulter m ≡ some (w, page)
      → ((i : ℕ) × (b.worker w ≡ holding i page))
        × ((v j p : ℕ)
            → v < worker_count pages
            → b.worker v ≡ holding j p
            → (gate p == gate page) ≡ true
            → v ≡ w)
  prefetch-Exclusive s n b c r m w page f =
      let (l, i, held) = faulter-holding m w page f in
      ((i, held), λ v j p lv hv g. Reached-Exclusive r v w j i p page lv l hv held g)
