-- ===== src/Vfs/Tiered/Ends.antt =====
-- A prefetch comes to its end, and is never stuck on the way.
use flockdb.Prelude.{
  ℕ, zero, suc, ◌+◌, ◌-◌, ◌*◌, ◌<◌, ◌≤◌, ◌≡◌, refl, sym, ◌∙◌, ◌⊎◌, inl, inr, List, arith, ◌==◌,
  ==_iff, Bool-cases, Option-cases, length, get_elem?,
}
use flockdb.Vfs.Tiered.{
  TieredPageSource, Worker, idle, stopped, claimed, holding, worker_count, Free, Prefetch, Moves,
  claims, stops, locks, reads, Reached, at_start, after,
}
use flockdb.Vfs.Tiered.Workers.{total, total-update, get_elem?-below}

-- The steps that a worker has left for the index that it has drawn, and the last one.
abbrev left : Worker → ℕ
left stopped = 0
left idle = 1
left (holding i page) = 2
left (claimed i page) = 3

total-idle : (k : ℕ) → total left (λ w. idle) k ≡ k
unfolding total
total-idle zero = refl
total-idle (suc k) = let z = total-idle k in omega (arith, z)

-- A worker that is not done.
data Busy (workers : ℕ → Worker) (w : ℕ) : Type 0 where
  at_rest : workers w ≡ idle → Busy workers w
  waits : (i page : ℕ) → workers w ≡ claimed i page → Busy workers w
  holds : (i page : ℕ) → workers w ≡ holding i page → Busy workers w

worker_cases : (workers : ℕ → Worker) (w : ℕ) → (workers w ≡ stopped) ⊎ Busy workers w
worker_cases workers w = split (workers w) refl
  where
    split : (x : Worker) → workers w ≡ x → (workers w ≡ stopped) ⊎ Busy workers w
    split stopped e = inl e
    split idle e = inr (at_rest e)
    split (claimed i page) e = inr (waits i page e)
    split (holding i page) e = inr (holds i page e)

abbrev pub AllStopped : (count : ℕ) → (ℕ → Worker) → Type 0
AllStopped zero workers = Unit {0}
AllStopped (suc k) workers = (workers k ≡ stopped) × AllStopped k workers

workers_cases :
    (workers : ℕ → Worker) (k : ℕ) → AllStopped k workers ⊎ ((w : ℕ) × (w < k) × Busy workers w)
workers_cases workers zero = inl tt
workers_cases workers (suc k) = elim (worker_cases workers k) [
  | inr busy ↦ inr (k, omega arith, busy)
  | inl here ↦ elim (workers_cases workers k) [
    | inr (w, l, busy) ↦ inr (w, omega (arith, l), busy)
    | inl below ↦ inl (here, below)
  ]
]

-- A gate is free, or some worker holds one.
abbrev Gate : (ℕ → Worker) → (page k : ℕ) → Type 0
Gate workers page k = Free k workers page ⊎ ((v j p : ℕ) × (v < k) × (workers v ≡ holding j p))

Gate-widen :
    (workers : ℕ → Worker) (page k : ℕ)
    → ((j p : ℕ) → workers k ≡ holding j p → ⊥)
    → Gate workers page k
    → Gate workers page (suc k)
Gate-widen workers page k none_here (inr (v, j, p, l, e)) = inr (v, j, p, omega (arith, l), e)
Gate-widen workers page k none_here (inl free) = inl (λ v j p l h. elim (Bool-cases (v == k)) [
  | inl same ↦ let z : v ≡ k = (==_iff v k).0 same in absurd (none_here j p (rw z at h))
  | inr other ↦ free v j p (ground (arith, l, other)) h
])

free_or_held : (workers : ℕ → Worker) (page k : ℕ) → Gate workers page k
free_or_held workers page zero = inl (λ v j p l h. absurd (omega (arith, l)))
free_or_held workers page (suc k) =
    let below = free_or_held workers page k in
    elim (worker_cases workers k) [
      | inr (holds j p e) ↦ inr (k, j, p, omega arith, e)
      | inl e ↦ Gate-widen workers page k (λ j p h. absurd (let z = sym e ∙ h in cc z)) below
      | inr (at_rest e) ↦
          Gate-widen workers page k (λ j p h. absurd (let z = sym e ∙ h in cc z)) below
      | inr (waits i q e) ↦
          Gate-widen workers page k (λ j p h. absurd (let z = sym e ∙ h in cc z)) below
    ]

module _ {S : Type 0} (src : TieredPageSource S) (pages : List ℕ) where
  abbrev measure : Prefetch S → ℕ
  measure b = 3 * (length pages - b.cursor) + total left b.worker (worker_count pages)

  Moves-measure : {a b : Prefetch S} → Moves src pages a b → suc (measure b) ≤ measure a
  Moves-measure {a} (claims w page l h found e) =
      let z = total-update left (claimed a.cursor page) a.worker w (worker_count pages) l in
      let one : left (a.worker w) ≡ 1 = rw h refl in
      let below = get_elem?-below pages a.cursor found in rw e (omega (arith, z, one, below))
  Moves-measure {a} (stops w l h found e) =
      let z = total-update left stopped a.worker w (worker_count pages) l in
      let one : left (a.worker w) ≡ 1 = rw h refl in rw e (omega (arith, z, one))
  Moves-measure {a} (locks w i page l h free e) =
      let z = total-update left (holding i page) a.worker w (worker_count pages) l in
      let three : left (a.worker w) ≡ 3 = rw h refl in rw e (omega (arith, z, three))
  Moves-measure {a} (reads w i page l h e) =
      let z = total-update left idle a.worker w (worker_count pages) l in
      let two : left (a.worker w) ≡ 2 = rw h refl in rw e (omega (arith, z, two))

  Reached-measure :
      {s : S} {n : ℕ} {b : Prefetch S}
      → Reached src pages s n b
      → n + measure b ≤ 3 * length pages + worker_count pages
  Reached-measure at_start = let z = total-idle (worker_count pages) in omega (arith, z)
  Reached-measure (after r m) =
      let z = Reached-measure r in let d = Moves-measure m in omega (arith, z, d)

  Busy-Moves :
      (a : Prefetch S) (w : ℕ)
      → w < worker_count pages
      → Busy a.worker w
      → (b : Prefetch S) × Moves src pages a b
  Busy-Moves a w l (at_rest h) = elim (Option-cases (get_elem? pages a.cursor)) [
    | inl end ↦ (_, stops w l h end refl)
    | inr (page, found) ↦ (_, claims w page l h found refl)
  ]
  Busy-Moves a w l (holds i page h) = (_, reads w i page l h refl)
  Busy-Moves a w l (waits i page h) = elim (free_or_held a.worker page (worker_count pages)) [
    | inl free ↦ (_, locks w i page l h free refl)
    | inr (v, j, p, lv, hv) ↦ (_, reads v j p lv hv refl)
  ]

  -- However the workers of a prefetch are interleaved: it takes at most three steps for each page and
  -- one for each worker; and as long as not all workers have stopped, some worker can take a step, so
  -- that the gates never lock them all out.
  pub prefetch_ends :
      (s : S) (n : ℕ) (b : Prefetch S)
      → Reached src pages s n b
      → (n ≤ 3 * length pages + worker_count pages)
        × (AllStopped (worker_count pages) b.worker ⊎ ((c : Prefetch S) × Moves src pages b c))
  prefetch_ends s n b r =
      let z = Reached-measure r in
      (
        omega (arith, z),
        elim (workers_cases b.worker (worker_count pages)) [
          | inl all ↦ inl all
          | inr (w, l, busy) ↦ inr (Busy-Moves b w l busy)
        ],
      )
