-- ===== src/Kernel/DuckExamples.antt =====
-- A DuckDB in memory: a database file is the bytes of the statements executed on it, a connection is
-- its file's number, and directories are numbered.
use flockdb.Prelude.{
  ℕ, suc, ◌≡◌, refl, ◌⊎◌, false, List, [], ◌∷◌, ◌++◌, Option, none, some, String, ◌==◌, Result, ok,
  err, if◌then◌else◌,
}
use flockdb.Prelude.Texts.{codes}
use flockdb.Foreign.{ManifestId, Bytes, Text, FilePath}
use flockdb.Kernel.Error.{KernelError}
use flockdb.Kernel.Paging.{ScratchFile, removed}
use flockdb.Kernel.Examples.{Slots, Edits, memory, ten, two_pages}
use flockdb.Kernel.Duck.{
  DuckDb, DuckDbKernel, gone, wal_path, persisted, current_database, execute_batch, checkpoint,
  export, sql_string_literal, sql_identifier,
}
use flockdb.Kernel.Duck.Quote.{read_token, quoting_lem}
use flockdb.Kernel.Duck.Sealed.{Emptied, checkpoint-Sealed}
use flockdb.Kernel.Duck.Export.{Copies, export-Copies}

-- The next directory's number, and the files.
abbrev pub Disk : Type 0
Disk = ℕ × List (ℕ × Bytes)

abbrev number_of_text : Text → ℕ
number_of_text [] = 0
number_of_text (n ∷ text) = n

abbrev pub number_of : FilePath → ℕ
number_of [] = 0
number_of (name ∷ path) = number_of_text name

abbrev pub file_at : ℕ → List (ℕ × Bytes) → Option Bytes
file_at n [] = none
file_at n ((m, bytes) ∷ files) = if m == n then some bytes else file_at n files

abbrev pub bytes_or_none : Option Bytes → Bytes
bytes_or_none none = []
bytes_or_none (some bytes) = bytes

abbrev pub read_or_missing : Option Bytes → Result String Bytes
read_or_missing none = err "no such file"
read_or_missing (some bytes) = ok bytes

abbrev pub disk_file : FilePath → ScratchFile Disk
disk_file path = record {
  read = λ f. read_or_missing (file_at (number_of path) f.1);
  write = λ bytes f. (ok tt, (f.0, (number_of path, bytes) ∷ f.1));
  remove_file = λ f. (removed, (f.0, (number_of path, []) ∷ f.1));
}

abbrev pub duck : DuckDb Disk ℕ (Unit {0}) (ℕ × Text) Text Bytes
duck = record {
  temp_dir = λ f. (ok ((f.0 ∷ []) ∷ []), (suc f.0, f.1));
  scratch_file = disk_file;
  metadata = λ path f. gone;
  exists = λ path f. number_of path == 0;
  to_string_lossy = λ path. number_of path ∷ codes "it's";
  default_config = tt;
  threads = λ n config. ok config;
  max_memory = λ limit config. ok config;
  open_with_flags = λ path config f. (ok (number_of path), f);
  execute_batch = λ conn text f. (ok tt, f);
  execute = λ conn text f. (ok 1, (f.0, (conn, bytes_or_none (file_at conn f.1) ++ text) ∷ f.1));
  prepare = λ conn text f. (ok (conn, text), f);
  query_arrow = λ stmt f.
      (ok (record { schema = stmt.1; batches = bytes_or_none (file_at stmt.0 f.1) ∷ [] }), f);
  query_row = λ conn text f. (ok (codes "flock\"s"), f);
  num_rows = number_of_text;
}

abbrev pub kernel : DuckDbKernel (ManifestId × Slots) Edits ℕ
kernel = record { store = memory; conn = 5; path = (5 ∷ []) ∷ codes "flock.duckdb" ∷ [] }

abbrev pub disk : Disk
disk = (6, (5, ten) ∷ [])

quoting_lem_example :
    (read_token b'\'' (sql_string_literal (codes "o'brien") ++ codes " AS")
      ≡ some (codes "o'brien", codes " AS"))
    × (read_token b'"' (sql_identifier (codes "o'brien") ++ codes " AS")
        ≡ some (codes "o'brien", codes " AS"))
quoting_lem_example = quoting_lem (codes "o'brien") (codes " AS") refl refl

checkpoint-Sealed_example :
    ((e : KernelError) × (f' : Disk) × (checkpoint duck kernel ((7, two_pages), disk)
        ≡ (err e, ((7, two_pages), f'))))
    ⊎ ((f' : Disk) × (duck.execute_batch 5 (codes "CHECKPOINT") disk ≡ (ok tt, f'))
        × Emptied (duck.metadata (wal_path kernel.path) f')
        × (checkpoint duck kernel ((7, two_pages), disk)
            ≡ persisted duck kernel ((7, two_pages), f')))
checkpoint-Sealed_example = checkpoint-Sealed duck kernel (7, two_pages) disk

exported : export duck kernel ((3 ∷ []) ∷ []) disk ≡ (ok tt, disk)
unfolding export current_database execute_batch
exported = refl

export-Copies_example :
    (duck.exists ((3 ∷ []) ∷ []) disk ≡ false)
    × (source : Text) × (g : Disk) × (script : Text) × (duck.query_row 5
          (codes "SELECT current_database()")
          disk
        ≡ (ok source, g))
    × (duck.execute_batch 5 script g ≡ (ok tt, disk))
    × Copies script (duck.to_string_lossy ((3 ∷ []) ∷ [])) source
export-Copies_example = export-Copies duck kernel ((3 ∷ []) ∷ []) disk disk exported
