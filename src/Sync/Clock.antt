-- ===== src/Sync/Clock.antt =====
-- crates/flock-sync/src/clock.rs: `ReplayClock`, an atomic number that one replica sets and reads.
use flockdb.Prelude.{ℕ}

pub record ReplayClock : Type 0 where
  pub now_ms : ℕ

unfoldable pub new : ReplayClock
new = record { now_ms = 0 }

abbrev pub set : ℕ → ReplayClock → ReplayClock
set now_ms clock = record { now_ms = now_ms }
