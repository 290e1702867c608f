-- ===== src/Vfs/TieredExamples.antt =====
-- A prefetch of one page twice, by two workers: the second waits for the first one's gate.
use flockdb.Prelude.{
  ℕ, ◌+◌, ◌*◌, ◌<◌, ◌≤◌, ◌≡◌, refl, ◌⊎◌, inl, inr, true, false, List, [], ◌∷◌, arith, ◌==◌,
  Bool-cases, length, ok, if◌then◌else◌,
}
use flockdb.Vfs.Tiered.{
  TieredPageSource, idle, stopped, claimed, holding, gate, worker_count, Prefetch, Moves, claims,
  stops, locks, reads, Reached, at_start, after, read_page, faulter,
}
use flockdb.Vfs.Tiered.Exclusive.{prefetch-Exclusive}
use flockdb.Vfs.Tiered.Once.{count, Counts, prefetch_once}
use flockdb.Vfs.Tiered.Ends.{AllStopped, prefetch_ends}

-- The store remembers the pages read from it.
abbrev counting : TieredPageSource (List ℕ)
counting = record {
  store = record { page_size = 4; head = λ s. 1; read = λ m page s. (ok [], page ∷ s) };
  total_len = 4096;
}

abbrev pages : List ℕ
pages = 7 ∷ 7 ∷ []

two_workers : worker_count pages ≡ 2
unfolding worker_count
two_workers = refl

numbered : (w : ℕ) → w < 2 → w < worker_count pages
numbered w h = rw two_workers h

-- Both have claimed.
abbrev both : Prefetch (List ℕ)
both = record {
  cursor = 2;
  worker = λ w. if w == 1 then claimed 1 7 else if w == 0 then claimed 0 7 else idle;
  store = [];
}

both_claimed : Reached counting pages [] 2 both
both_claimed =
    after (after at_start (claims 0 7 (numbered 0 (omega arith)) refl refl refl))
      (claims 1 7 (numbered 1 (omega arith)) refl refl refl)

nobody_holds :
    (v j p : ℕ) → v < worker_count pages → both.worker v ≡ holding j p → (gate p == gate 7) ≡ false
nobody_holds v j p l h = elim (Bool-cases (v == 1)) [
  | inl one ↦ absurd (let z = rw one at h in cc z)
  | inr other ↦ elim (Bool-cases (v == 0)) [
    | inl zero_ ↦ absurd (let z = rw (other, zero_) at h in cc z)
    | inr none_ ↦ absurd (let z = rw (other, none_) at h in cc z)
  ]
]

abbrev locked : Prefetch (List ℕ)
locked = record {
  cursor = 2;
  worker = λ w. if w == 0 then holding 0 7 else both.worker w;
  store = [];
}

first_locked : Reached counting pages [] 3 locked
first_locked = after both_claimed (locks 0 0 7 (numbered 0 (omega arith)) refl nobody_holds refl)

-- The first has read.
abbrev read_once : Prefetch (List ℕ)
read_once = record {
  cursor = 2;
  worker = λ w. if w == 0 then idle else locked.worker w;
  store = 7 ∷ [];
}

first_reads : Moves counting pages locked read_once
unfolding read_page
first_reads = reads 0 0 7 (numbered 0 (omega arith)) refl refl

prefetch-Exclusive_example :
    ((i : ℕ) × (locked.worker 0 ≡ holding i 7))
    × ((v j p : ℕ)
        → v < worker_count pages
        → locked.worker v ≡ holding j p
        → (gate p == gate 7) ≡ true
        → v ≡ 0)
unfolding faulter first_reads
prefetch-Exclusive_example =
    prefetch-Exclusive counting pages [] 3 locked read_once first_locked first_reads 0 7 refl

prefetch_ends_example :
    (3 ≤ 3 * length pages + worker_count pages)
    × (AllStopped (worker_count pages) locked.worker
        ⊎ ((c : Prefetch (List ℕ)) × Moves counting pages locked c))
prefetch_ends_example = prefetch_ends counting pages [] 3 locked first_locked

released :
    (v j p : ℕ)
    → v < worker_count pages
    → read_once.worker v ≡ holding j p
    → (gate p == gate 7) ≡ false
released v j p l h = elim (Bool-cases (v == 0)) [
  | inl first ↦ absurd (let z = rw first at h in cc z)
  | inr other ↦ elim (Bool-cases (v == 1)) [
    | inl one ↦ absurd (let z = rw (other, one) at h in cc z)
    | inr none_ ↦ absurd (let z = rw (other, none_) at h in cc z)
  ]
]

abbrev finished : Prefetch (List ℕ)
finished = record {
  cursor = 4;
  worker = λ w.
      if w == 1
      then stopped
      else if w == 0
      then stopped
      else if w == 1
      then idle
      else if w == 1
      then holding 1 7
      else read_once.worker w;
  store = 7 ∷ 7 ∷ [];
}

all_read : Reached counting pages [] 8 finished
unfolding read_page
all_read =
    after
      (after
        (after
          (after (after first_locked (reads 0 0 7 (numbered 0 (omega arith)) refl refl))
            (locks 1 1 7 (numbered 1 (omega arith)) refl released refl))
          (reads 1 1 7 (numbered 1 (omega arith)) refl refl))
        (stops 0 (numbered 0 (omega arith)) refl refl refl))
      (stops 1 (numbered 1 (omega arith)) refl refl refl)

all_stopped : (w : ℕ) → w < worker_count pages → finished.worker w ≡ stopped
all_stopped w h =
    let below : w < 2 = rw two_workers at h in
    elim (Bool-cases (w == 1)) [
      | inl one ↦ rw one refl
      | inr other ↦
          let first : (w == 0) ≡ true = ground (arith, below, other) in rw other (rw first refl)
    ]

abbrev seen : List ℕ → ℕ → ℕ
seen s q = count q s

counting-Counts : Counts counting seen
counting-Counts = record { counts = λ m page q s. refl }

prefetch_once_example : seen finished.store 7 ≡ seen [] 7 + count 7 pages
prefetch_once_example =
    prefetch_once counting pages seen counting-Counts [] 8 finished all_read all_stopped 7
