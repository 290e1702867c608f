-- ===== src/Vfs/Tiered/Once.antt =====
-- Every page of a prefetch is read as often as it is asked for.
use flockdb.Prelude.{
  ℕ, zero, suc, ◌+◌, ◌<◌, ◌≤◌, ◌≡◌, refl, inl, inr, List, [], ◌∷◌, some, arith, ◌==◌, Bool-cases,
  length, get_elem?, if◌then◌else◌,
}
use flockdb.Foreign.{ManifestId}
use flockdb.Vfs.Tiered.{
  TieredPageSource, read_page, Worker, idle, stopped, claimed, holding, update, worker_count,
  Prefetch, Moves, claims, stops, locks, reads, Reached, at_start, after,
}
use flockdb.Vfs.Tiered.Workers.{total, total-update, total-zero, get_elem?-beyond}

abbrev one : (q page : ℕ) → ℕ
one q page = if q == page then 1 else 0

-- How often a page is in a list.
abbrev pub count : ℕ → List ℕ → ℕ
count q [] = 0
count q (page ∷ pages) = one q page + count q pages

-- Whether a worker has drawn a page that it has not read yet.
abbrev has : ℕ → Worker → ℕ
has q idle = 0
has q stopped = 0
has q (claimed i page) = one q page
has q (holding i page) = one q page

-- How often a page is among those before the cursor.
abbrev drawn : (q cursor : ℕ) → List ℕ → ℕ
drawn q zero pages = 0
drawn q (suc c) [] = 0
drawn q (suc c) (page ∷ pages) = one q page + drawn q c pages

drawn-claims :
    (q cursor page : ℕ) (pages : List ℕ)
    → get_elem? pages cursor ≡ some page
    → drawn q (suc cursor) pages ≡ one q page + drawn q cursor pages
drawn-claims q cursor page [] h = absurd (cc h)
drawn-claims q zero page (p ∷ ps) h = let e : p ≡ page = cc h in rw e refl
drawn-claims q (suc c) page (p ∷ ps) h = let z = drawn-claims q c page ps h in omega (arith, z)

drawn-stops :
    (q cursor : ℕ) (pages : List ℕ) → length pages ≤ cursor → drawn q cursor pages ≡ count q pages
drawn-stops q zero [] h = refl
drawn-stops q (suc c) [] h = refl
drawn-stops q zero (p ∷ ps) h = absurd (omega (arith, h))
drawn-stops q (suc c) (p ∷ ps) h = let z = drawn-stops q c ps (omega (arith, h)) in omega (arith, z)

-- A store that keeps count of the pages that are read from it.
pub record Counts {S : Type 0} (src : TieredPageSource S) (seen : S → ℕ → ℕ) : Type 0 where
  pub counts :
      (m : ManifestId) (page q : ℕ) (s : S)
      → seen (src.store.read m page s).1 q ≡ (if q == page then 1 else 0) + seen s q

read_page-Counts :
    {S : Type 0} (src : TieredPageSource S) (seen : S → ℕ → ℕ)
    → Counts src seen
    → (page q : ℕ) (s : S) → seen (read_page src page s).1 q ≡ one q page + seen s q
unfolding read_page
read_page-Counts src seen c page q s = c.counts (src.store.head s) page q s

finished :
    (pages : List ℕ) (workers : ℕ → Worker) (cursor : ℕ)
    → ((w : ℕ) → workers w ≡ stopped → length pages ≤ cursor)
    → ((w : ℕ) → w < worker_count pages → workers w ≡ stopped)
    → length pages ≤ cursor
unfolding worker_count
finished [] workers cursor last all = omega arith
finished (p ∷ ps) workers cursor last all = last 0 (all 0 (ground arith))

module _ {S : Type 0} (src : TieredPageSource S) (pages : List ℕ) (seen : S → ℕ → ℕ)
    (counting : Counts src seen) (s : S) where
  -- A page that was drawn is read or with one worker; and a worker stops only behind the last page.
  record Counted (b : Prefetch S) : Type 0 where
    each :
        (q : ℕ)
        → seen b.store q + total (has q) b.worker (worker_count pages)
          ≡ seen s q + drawn q b.cursor pages
    last : (w : ℕ) → b.worker w ≡ stopped → length pages ≤ b.cursor

  stays_last :
      (workers : ℕ → Worker) (x : ℕ) (new : Worker) (cursor : ℕ)
      → (new ≡ stopped → length pages ≤ cursor)
      → ((w : ℕ) → workers w ≡ stopped → length pages ≤ cursor)
      → (w : ℕ) → update x new workers w ≡ stopped
      → length pages ≤ cursor
  stays_last workers x new cursor here there w h = elim (Bool-cases (w == x)) [
    | inl same ↦ here (rw same at h)
    | inr other ↦ there w (rw other at h)
  ]

  Moves-Counted : {a b : Prefetch S} → Moves src pages a b → Counted a → Counted b
  Moves-Counted {a} (claims w page l h found e) c = rw e (record {
    each = λ q.
        let z = total-update (has q) (claimed a.cursor page) a.worker w (worker_count pages) l in
        let none_before : has q (a.worker w) ≡ 0 = rw h refl in
        let old = c.each q in
        let grows = drawn-claims q a.cursor page pages found in
        omega (arith, z, none_before, old, grows);
    last =
        stays_last a.worker w (claimed a.cursor page) (suc a.cursor) (λ e. absurd (cc e))
          (λ v e. let z = c.last v e in omega (arith, z));
  })
  Moves-Counted {a} (stops w l h found e) c =
      let beyond = get_elem?-beyond pages a.cursor found in
      rw e (record {
        each = λ q.
            let z = total-update (has q) stopped a.worker w (worker_count pages) l in
            let none_before : has q (a.worker w) ≡ 0 = rw h refl in
            let old = c.each q in
            let stays = drawn-stops q a.cursor pages beyond in
            let stays' = drawn-stops q (suc a.cursor) pages (omega (arith, beyond)) in
            omega (arith, z, none_before, old, stays, stays');
        last =
            stays_last a.worker w stopped (suc a.cursor) (λ e. omega (arith, beyond))
              (λ v e. let z = c.last v e in omega (arith, z));
      })
  Moves-Counted {a} (locks w i page l h free e) c = rw e (record {
    each = λ q.
        let z = total-update (has q) (holding i page) a.worker w (worker_count pages) l in
        let before : has q (a.worker w) ≡ (if q == page then 1 else 0) = rw h refl in
        let old = c.each q in omega (arith, z, before, old);
    last = stays_last a.worker w (holding i page) a.cursor (λ e. absurd (cc e)) c.last;
  })
  Moves-Counted {a} (reads w i page l h e) c = rw e (record {
    each = λ q.
        let z = total-update (has q) idle a.worker w (worker_count pages) l in
        let before : has q (a.worker w) ≡ (if q == page then 1 else 0) = rw h refl in
        let old = c.each q in
        let now = read_page-Counts src seen counting page q a.store in
        omega (arith, z, before, old, now);
    last = stays_last a.worker w idle a.cursor (λ e. absurd (cc e)) c.last;
  })

  Reached-Counted : {n : ℕ} {b : Prefetch S} → Reached src pages s n b → Counted b
  Reached-Counted at_start = record {
    each = λ q.
        let z = total-zero (has q) (λ w. idle) (worker_count pages) (λ w l. refl) in
        omega (arith, z);
    last = λ w h. absurd (cc h);
  }
  Reached-Counted (after r m) = Moves-Counted m (Reached-Counted r)

  -- However the workers of a prefetch are interleaved, over a store that keeps count of the pages that
  -- are read from it: when all workers have stopped, each page number has been read exactly as often
  -- as it is among the given pages, so that these have all been read and nothing else has.
  pub prefetch_once :
      (n : ℕ) (b : Prefetch S)
      → Reached src pages s n b
      → ((w : ℕ) → w < worker_count pages → b.worker w ≡ stopped)
      → (q : ℕ) → seen b.store q ≡ seen s q + count q pages
  unfolding worker_count
  prefetch_once n b r all q =
      let c = Reached-Counted r in
      let rest : total (has q) b.worker (worker_count pages) ≡ 0 =
        total-zero (has q) b.worker (worker_count pages) (λ w l. rw (all w l) refl) in
      let each = c.each q in
      let whole = drawn-stops q b.cursor pages (finished pages b.worker b.cursor c.last all) in
      omega (arith, each, rest, whole)
