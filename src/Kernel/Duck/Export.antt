-- ===== src/Kernel/Duck/Export.antt =====
-- What an export asked of DuckDB.
use flockdb.Prelude.{◌≡◌, refl, inl, inr, false, ◌++◌, some, ok, Bool-cases}
use flockdb.Prelude.Texts.{codes}
use flockdb.Prelude.Steps.{after-Ok, blame, blame-Ok}
use flockdb.Foreign.{Text, FilePath}
use flockdb.Kernel.Error.{sql, export_failed, refused}
use flockdb.Kernel.Duck.{
  DuckDb, DuckDbKernel, sql_string_literal, sql_identifier, export_script, current_database,
  execute_batch, export,
}
use flockdb.Kernel.Duck.Quote.{read_token, quoting_lem}

-- The script as SQL reads it: a path to attach, and the database that is copied into it.
pub record Copies (script target source : Text) : Type 0 where
  pub behind_target : Text
  pub attaches : Text
  pub begins : script ≡ codes "ATTACH " ++ attaches
  pub the_target : read_token b'\'' attaches ≡ some (target, behind_target)
  pub copies : Text
  pub goes_on :
      behind_target ≡ codes " AS flock_export (TYPE DUCKDB); COPY FROM DATABASE " ++ copies
  pub the_source :
      read_token b'"' copies ≡ some (source, codes " TO flock_export; DETACH flock_export;")

pub export_script-Copies :
    (target source : Text) → Copies (export_script target source) target source
unfolding export_script
export_script-Copies target source =
    let last = codes " TO flock_export; DETACH flock_export;" in
    let copies = sql_identifier source ++ last in
    let behind = codes " AS flock_export (TYPE DUCKDB); COPY FROM DATABASE " ++ copies in
    record {
      behind_target = behind;
      attaches = sql_string_literal target ++ behind;
      begins = refl;
      the_target = (quoting_lem target behind refl refl).0;
      copies = copies;
      goes_on = refl;
      the_source = (quoting_lem source last refl refl).1;
    }

module _ {F Conn Config Stmt Schema Batch S Txn : Type 0}
    (duck : DuckDb F Conn Config Stmt Schema Batch) (k : DuckDbKernel S Txn Conn) where
  -- An export that returned success: nothing was at its path before; DuckDB named its database, and
  -- then ran one script, which SQL reads as attaching a file under `to_string_lossy` of the path, which
  -- is another path where the given one is not UTF-8, and copying exactly that database there,
  -- whatever quotes are in these two texts.
  pub export-Copies :
      (path : FilePath) (f f' : F)
      → export duck k path f ≡ (ok tt, f')
      → (duck.exists path f ≡ false)
        × (source : Text) × (g : F) × (script : Text) × (duck.query_row k.conn
              (codes "SELECT current_database()")
              f
            ≡ (ok source, g))
        × (duck.execute_batch k.conn script g ≡ (ok tt, f'))
        × Copies script (duck.to_string_lossy path) source
  unfolding export current_database execute_batch
  export-Copies path f f' h = elim (Bool-cases (duck.exists path f)) [
    | inl there ↦ absurd (let z = rw there at h in cc z)
    | inr free ↦
        let statement = codes "SELECT current_database()" in
        let (source, g, named, ran) =
          after-Ok (blame (sql statement) (duck.query_row k.conn statement f)) _ (rw free at h) in
        let script = export_script (duck.to_string_lossy path) source in
        (
          free,
          source,
          g,
          script,
          blame-Ok (sql statement) _ named,
          blame-Ok (sql script) _ (blame-Ok (λ e. export_failed path (refused e)) _ ran),
          export_script-Copies (duck.to_string_lossy path) source,
        )
  ]
