-- ===== src/Lib.antt =====
-- FlockDB: SQL databases whose pages live in a content-addressed store, which can sleep in object
-- storage, wake one page at a time, fork, and ship their commits to followers.
--
-- The parts that are modelled, and how they work together:
--
-- * crates/flock-vfs (Vfs). `serve_read` turns a byte range of a database file into page faults on a
--   `PageSource` (Vfs/Source, Vfs/Read; its proofs in Vfs/Read/Loop, Bytewise, Complete). A woken store
--   faults behind striped gates and prefetches with a pool of workers, whose interleavings are a step
--   relation (Vfs/Tiered). The C ABI wakes a store from an object-store tier (Vfs/Backend) and serves
--   `pread` through it (Vfs/Ffi). A source's calls take its state and return it, so that a source may
--   fail, misreport its pages or answer differently each time. The buffer is returned beside the
--   result.
-- * crates/flockd (Flockd). A `WakeScheduler` (Flockd/Scheduler) keeps a bounded `WarmSet`
--   (Flockd/WarmSet) for each database; it learns the pages that a `RecordingSource`
--   (Flockd/Recording) saw, and hands them to the source of the next wake. Every operation holds its
--   lock as a whole, so an operation is a function on the state.
-- * crates/flock-sync (Sync). A `WalSource` reads a primary's write-ahead log (Sync/Log), folds it
--   into shipments (Sync/Source, Sync/Stream), and tells a follower where to resume. A `Replica`
--   (Sync/Replica) applies shipments, catches up, and restores to a point in time. Each operation
--   returns the follower beside its result, with what it did before an error.
-- * crates/flock-kernel (Kernel). `persist` cuts a database file into pages and commits those that
--   changed; `hydrate` puts a file together again (Kernel/Paging). `DuckDbKernel` opens DuckDB on a
--   hydrated file, runs SQL, checkpoints it back into pages, and exports it (Kernel/Duck).
-- * crates/flock-core (Core). The layout of a pool, the names of its databases, and the linking of a
--   database to the pool's shared store (Core/Pool); the two stores that a database may sit on
--   (Core/Store); databases, which open, wake, snapshot, fork, restore, sleep and export (Core/Db, with
--   what `sleep` stages in Core/Staging); and the follower that serves queries (Core/Replica).
-- * crates/flock-cli (Cli). The pool on disk as the command line sees it: HEAD, the branches, and the
--   records of those that sleep (Cli/Workspace); `import` (Cli/Import), `sql` and the commands on
--   branches (Cli/Command); `sleep` and `wake` (Cli/Tier).
--
-- Foreign holds the types of the crates that FlockDB builds on, and Prelude what the parts share; a
-- call that changes a state is a `Step` (Prelude/Steps), from a state to a result and the next state.
-- From the kernel up the state is the stores and the pool's file system beside DuckDB and its scratch
-- files. Examples modules run the definitions on small inputs.
--
-- Numbers are natural numbers; where the source's arithmetic checks or wraps, the bound is written
-- out: `serve_read` checks a position against 2^64, the C ABI casts at 2^63, segment numbers are
-- below 2^64. LSNs, row counts and the cursor of a prefetch are taken to stay below 2^64. Fuel: the
-- loop of `serve_read` gets as much as there are bytes wanted, and each round serves one or more; the
-- loop over a segment gets one more than the segment has bytes, and each frame consumes one or more;
-- the walk over a database's ancestry (Core/Staging) gets any amount and says when it is used up, and
-- twice the number of manifests and one more is enough (Core/Staging/Walk/Fuel).
--
-- Parameters: the decoder of log frames, the files and the page store (fields of `WalSource`), the
-- follower's store (`DurableStore` of Sync/Replica, with the laws in Sync/Replica/Outcome and
-- Sync/Replica/Live), the page store and the scratch file of a kernel (`PageStore`, `ScratchFile`, with
-- the laws in Kernel/Paging/Store), DuckDB (`DuckDb`), substrate's stores and their constructors
-- (`Pager`, `DurableStore`, `TieredStore`, `Substrate`, with the laws in Core/Db and
-- Core/Staging/Walk), the file system as the code calls it (`PoolFs`, `CliEnv`, `TierFs`, with the
-- laws in Cli/Workspace/Head and Cli/Tier/Fate), Arrow's arrays (`Arrow`), the object-store clients,
-- the environment and the waking of a store (`TierEnv`, `OpenEnv`).
--
-- Not modelled: DuckDB and SQL themselves, the deletion of scratch directories, futures as concurrent
-- tasks (each runs to its end), what the commands print, argument parsing, and the bindings for Python
-- and for the DuckDB extension, which are glue.
pub mod Prelude
pub mod Foreign
pub mod Vfs
pub mod Flockd
pub mod Sync
pub mod Kernel
pub mod Core
pub mod Cli
