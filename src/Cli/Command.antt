-- ===== src/Cli/Command.antt =====
-- crates/flock-cli/src/cmd: `import`, `sql`, `branch`, `branches` and `checkout`, over the workspace
-- and the databases. The pool's file system and the stores have state `S`, DuckDB has `F`. What is
-- printed is left out, except for the rows that `branches` lists.
use flockdb.Prelude.{
  suc, Bool, true, false, List, [], ◌∷◌, map, Option, none, some, Result, ok, err, if◌then◌else◌,
}
use flockdb.Prelude.Int.{ℤ, pos}
use flockdb.Prelude.Texts.{same_text, contains_text}
use flockdb.Prelude.Steps.{Step, ◌>>=◌, ◌>>◌, give, look, on_err, on_left}
use flockdb.Foreign.{Text, FilePath}
use flockdb.Kernel.Duck.{DuckDb, KernelOpts, ArrowStream}
use flockdb.Core.Db.{Substrate, Db, Database, open_with, query, execute, snapshot}
use flockdb.Core.Db as Db
use flockdb.Cli.Error.{
  CliError, flock, no_pool, unknown_branch, branch_asleep, no_such_file, table_exists,
}
use flockdb.Cli.Workspace.{CliEnv, exists, head, set_head, branches, is_asleep, resolve}
use flockdb.Cli.Import.{
  default_branch, reader_for, table_name_from, check_identifier, create_statement, count_statement,
  exists_statement,
}

-- Of Arrow's arrays: the columns of a batch, and a column of 64-bit integers as its values.
pub record Arrow (Batch Column : Type 0) : Type 0 where
  pub columns : Batch → List Column
  pub as_i64 : Column → Option (List ℤ)

abbrev pub first : {A : Type 0} → List A → Option A
first [] = none
first (a ∷ as') = some a

-- `?` on an option.
abbrev pub and_then : {A B : Type 0} → Option A → (A → Option B) → Option B
and_then none f = none
and_then (some a) f = f a

unfoldable pub first_i64 :
    {Schema Batch Column : Type 0} → Arrow Batch Column → ArrowStream Schema Batch → Option ℤ
first_i64 arrow rows =
    and_then (and_then (and_then (first rows.batches) (λ b. first (arrow.columns b))) arrow.as_i64)
      first

-- `unwrap_or(0) > 0`
abbrev pub positive : Option ℤ → Bool
positive (some (pos (suc n))) = true
positive _ = false

abbrev pub refuse : Bool → CliError → Result CliError (Unit {0})
refuse true e = err e
refuse false e = ok tt

abbrev pub default_opts : KernelOpts
default_opts = record { threads = none; max_memory = none }

-- A row of `flock branches`: whether it is the head, its name, and whether it sleeps.
pub record BranchLine : Type 0 where
  pub current : Bool
  pub name : Text
  pub asleep : Bool

module _ {S Txn Manifest Page Token Tier Source F Conn Config Stmt Schema Batch : Type 0}
    (sub : Substrate S Txn Manifest Page Token Tier Source)
    (duck : DuckDb F Conn Config Stmt Schema Batch) (env : CliEnv S) where
  -- `Flock::open`, and the library's errors as the command line's.
  abbrev pub open_db : FilePath → Text → Step (S × F) CliError (Database sub duck)
  open_db root branch = on_err flock (open_with sub duck root branch default_opts)

  module _ {Column : Type 0} (arrow : Arrow Batch Column) (display : FilePath → Text) where
    unfoldable pub has_table : Database sub duck → Text → Step (S × F) CliError Bool
    unfolding query first_i64
    has_table db table = do
      rows ← on_err flock (query sub duck db (exists_statement table))
      give (positive (first_i64 arrow rows))

    abbrev pub target_branch : FilePath → Option Text → S → Result CliError Text
    target_branch root (some b) s = ok b
    target_branch root none s = if exists env root s then head env root s else ok default_branch

    abbrev pub chosen_table : FilePath → Option Text → Result CliError Text
    chosen_table file (some t) = ok t
    chosen_table file none = table_name_from file

    -- What is done before the database is opened: the branch, the table, and the statement.
    unfoldable pub plan :
        FilePath → Option Text → FilePath → Option Text → S → Result CliError (Text × (Text × Text))
    unfolding reader_for table_name_from check_identifier is_asleep head exists
    plan root branch file table s = elim (target_branch root branch s) [
      | err e ↦ err e
      | ok b ↦
          if is_asleep env root b s
          then err (branch_asleep b)
          else if env.is_file file s
          then elim (reader_for display file) [
            | err e ↦ err e
            | ok reader ↦ elim (chosen_table file table) [
              | err e ↦ err e
              | ok t ↦ elim (check_identifier t) [
                | err e ↦ err e
                | ok done ↦ ok (b, (t, create_statement t reader (display file)))
              ]
            ]
          ]
          else err (no_such_file (display file))
    ]

    -- The branch of a new pool becomes its head.
    abbrev pub if_fresh : Bool → FilePath → Text → Step S CliError (Unit {0})
    if_fresh false root branch = set_head env root branch
    if_fresh true root branch = give tt

    unfoldable pub import :
        FilePath → Option Text → FilePath → Option Text → Step (S × F) CliError (Unit {0})
    unfolding plan open_with has_table query execute snapshot set_head exists
    import root branch file table w =
        let there = exists env root w.0 in
        (do
          planned ← look (λ w. plan root branch file table w.0)
          db ← open_db root planned.0
          taken ← has_table db planned.1.0
          look (λ w. refuse taken (table_exists planned.1.0 planned.0))
          changed ← on_err flock (execute sub duck db planned.1.1)
          rows ← on_err flock (query sub duck db (count_statement planned.1.0))
          m ← on_err flock (snapshot sub duck db)
          on_left (if_fresh there root planned.0))
          w

  -- The rows that are printed once they are durable.
  unfoldable pub sql :
      FilePath → Option Text → Text → Step (S × F) CliError (ArrowStream Schema Batch)
  unfolding resolve open_with query snapshot
  sql root branch text = do
    b ← look (λ w. resolve env root branch w.0)
    db ← open_db root b
    rows ← on_err flock (query sub duck db text)
    m ← on_err flock (snapshot sub duck db)
    give rows

  abbrev pub switch : Bool → FilePath → Text → Step S CliError (Unit {0})
  switch true root name = give tt
  switch false root name = set_head env root name

  unfoldable pub fork :
      FilePath → Option Text → Text → (no_checkout : Bool) → Step (S × F) CliError (Unit {0})
  unfolding resolve open_with Db.fork set_head
  fork root from name no_checkout = do
    parent ← look (λ w. resolve env root from w.0)
    db ← open_db root parent
    forked ← on_err flock (Db.fork sub duck db name)
    on_left (switch no_checkout root name)

abbrev pub map_ok : {A B : Type 0} → (A → B) → Result CliError A → Result CliError B
map_ok f (ok a) = ok (f a)
map_ok f (err e) = err e

module _ {S : Type 0} (env : CliEnv S) where
  unfoldable pub list : FilePath → S → Result CliError (List BranchLine)
  unfolding exists head branches is_asleep same_text
  list root s =
      if exists env root s
      then elim (head env root s) [
        | err e ↦ err e
        | ok current ↦
            map_ok
              (map (λ name. record {
                current = same_text name current;
                name = name;
                asleep = is_asleep env root name s;
              }))
              (branches env root s)
      ]
      else err (no_pool root)

  unfoldable pub checkout : FilePath → Text → Step S CliError (Unit {0})
  unfolding exists branches contains_text set_head
  checkout root name s =
      if exists env root s
      then elim (branches env root s) [
        | err e ↦ (err e, s)
        | ok known ↦
            if contains_text name known
            then set_head env root name s
            else (err (unknown_branch name known), s)
      ]
      else (err (no_pool root), s)
