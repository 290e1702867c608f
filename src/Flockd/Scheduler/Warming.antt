-- ===== src/Flockd/Scheduler/Warming.antt =====
-- What the scheduler learns of one database, and that it hands just that to the source it warms.
use flockdb.Prelude.{
  ℕ, ◌+◌, ◌/◌, ◌<◌, ◌∙◌, ok, Result, ◌≡◌, List, true, false, arith, length, contains, str_eq,
  eq_refl, if◌then◌else◌, inl, inr, Bool-cases,
}
use flockdb.Prelude.Dict.{lookup, lookup-insert}
use flockdb.Vfs.Error.{VfsError}
use flockdb.Vfs.Source.{PageSource}
use flockdb.Flockd.WarmSet.{WarmSet, new, learn}
use flockdb.Flockd.WarmSet.Learn.{IsValid, learn-IsValid, contains-learn}
use flockdb.Foreign.{Bytes}
use flockdb.Vfs.Read.{serve_read}
use flockdb.Flockd.Recording.{RecordingSource, start, recording, touched}
use flockdb.Flockd.Recording.Touched.{touched_exact}
use flockdb.Flockd.Recording.Transparent.{serve_read_records}
use flockdb.Flockd.Scheduler.{DbId, WakeScheduler, empty, prewarm, observe, warm_set}

-- Observing a trace learns it into the database's own set, and leaves every other database's alone.
pub warm_set-observe :
    (sched : WakeScheduler) (db other : DbId) (touched : List ℕ)
    → warm_set (observe sched db touched) other
      ≡ (if str_eq db.id other.id then learn (warm_set sched db) touched else warm_set sched other)
unfolding warm_set observe
warm_set-observe sched db other touched =
    rw (lookup-insert db.id other.id)
      (elim (Bool-cases (str_eq db.id other.id)) [ inl same ↦ rw same | inr differ ↦ rw differ ])

-- Prewarming hands exactly the learned pages to the source's `prefetch` and reports their number;
-- for a database never observed those are none.
pub prewarm_lem :
    {S : Type 0} (sched : WakeScheduler) (db : DbId) (src : PageSource S) (s : S)
    → prewarm sched db src s
      ≡ (length (warm_set sched db).pages, src.prefetch (warm_set sched db).pages s)
unfolding prewarm warm_set new
prewarm_lem sched db src s = ground arith

-- Every warm set of the scheduler is valid.
abbrev pub AllValid : WakeScheduler → Type 0
AllValid sched = (db : DbId) → IsValid (warm_set sched db)

new-IsValid : IsValid new
unfolding new
new-IsValid = record { ascends = tt; bounded = omega arith; full = λ h. cc }

pub empty-AllValid : AllValid empty
unfolding empty warm_set lookup
empty-AllValid db = new-IsValid

-- Observing a trace of any database keeps every database's warm set valid.
pub observe-AllValid :
    (sched : WakeScheduler) (db : DbId) (touched : List ℕ)
    → AllValid sched
    → AllValid (observe sched db touched)
observe-AllValid sched db touched valid other =
    rw (warm_set-observe sched db other touched) (elim (Bool-cases (str_eq db.id other.id)) [
      | inl same ↦ rw same (learn-IsValid (warm_set sched db) touched (valid db))
      | inr differ ↦ rw differ (valid other)
    ])

-- The recorder after a read served through a fresh one, and the database's warm set after the
-- recorded fault set has been observed.
module _ {S : Type 0} (src : PageSource S) (total_len offset : ℕ) (buf : Bytes) (s : S) where
  abbrev pub recorded_read : Result VfsError ℕ × Bytes × RecordingSource S
  recorded_read = serve_read (recording src) total_len offset buf (start s)

  abbrev pub warmed : WakeScheduler → DbId → WarmSet
  warmed sched db = warm_set (observe sched db (touched recorded_read.2)) db

  warm_set-read :
      (sched : WakeScheduler) (db : DbId) (n : ℕ)
      → AllValid sched
      → recorded_read.0 ≡ ok n
      → (warmed sched db).saturated ≡ false
      → (i : ℕ) → i < n
      → contains ((offset + i) / src.page_size) (warmed sched db).pages ≡ true
  warm_set-read sched db n valid read room i h =
      let r = recorded_read.2 in
      let q = (offset + i) / src.page_size in
      let own = warm_set-observe sched db db (touched r) ∙ (λ j.
        if eq_refl db.id j then learn (warm_set sched db) (touched r) else warm_set sched db) in
      rw own (
        rw (contains-learn (warm_set sched db) (touched r) (valid db) (rw own at room) q) (
          rw ((touched_exact r).1 q)
            (rw (serve_read_records src total_len offset buf (start s) n read i h) (ground arith))))

  -- A read served through a fresh recorder, its fault set observed by a scheduler with valid warm
  -- sets: unless the database's warm set then reports that it is saturated, the database's next
  -- prewarm of any source calls that source's `prefetch` with pages among which is the page of every
  -- byte that the read reported, and returns how many pages these are.
  pub warmed_what_was_read :
      {T : Type 0} (next : PageSource T) (t : T) (sched : WakeScheduler) (db : DbId) (n : ℕ)
      → AllValid sched
      → recorded_read.0 ≡ ok n
      → (warmed sched db).saturated ≡ false
      → (handed : List ℕ) × (prewarm (observe sched db (touched recorded_read.2)) db next t
          ≡ (length handed, next.prefetch handed t))
        × ((i : ℕ) → i < n → contains ((offset + i) / src.page_size) handed ≡ true)
  warmed_what_was_read next t sched db n valid read room = (
    (warmed sched db).pages,
    prewarm_lem (observe sched db (touched recorded_read.2)) db next t,
    warm_set-read sched db n valid read room,
  )
