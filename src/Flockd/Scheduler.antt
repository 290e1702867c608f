-- ===== src/Flockd/Scheduler.antt =====
-- crates/flockd/src/scheduler.rs: `DbId` and `WakeScheduler`. The lock round the map is taken for each
-- operation as a whole, so an operation is a function on the map.
pub mod Warming
use flockdb.Prelude.{ℕ, String, List, [], ◌∷◌, Option, none, some, length}
use flockdb.Prelude.Dict.{lookup, insert}
use flockdb.Vfs.Source.{PageSource}
use flockdb.Flockd.WarmSet.{WarmSet, new, learn}

pub record DbId : Type 0 where
  pub id : String

pub record WakeScheduler : Type 0 where
  pub warm : List (String × WarmSet)

unfoldable pub empty : WakeScheduler
empty = record { warm = [] }

abbrev pub or_default : Option WarmSet → WarmSet
or_default none = new
or_default (some set) = set

abbrev pub pages_of : Option WarmSet → List ℕ
pages_of none = []
pages_of (some set) = set.pages

-- The prefetched source and the number of pages handed to it.
unfoldable pub prewarm : {S : Type 0} → WakeScheduler → DbId → PageSource S → S → ℕ × S
unfolding lookup
prewarm sched db src s =
    let pages = pages_of (lookup db.id sched.warm) in (length pages, src.prefetch pages s)

unfoldable pub observe : WakeScheduler → DbId → List ℕ → WakeScheduler
unfolding insert lookup
observe sched db touched =
    let set = or_default (lookup db.id sched.warm) in
    record { warm = insert db.id (learn set touched) sched.warm }

unfoldable pub warm_set : WakeScheduler → DbId → WarmSet
unfolding lookup
warm_set sched db = or_default (lookup db.id sched.warm)
