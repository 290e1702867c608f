-- ===== src/Cli/CommandExamples.antt =====
-- Commands in a pool with the one branch `main`, over the small stores of flock-core's examples.
use flockdb.Prelude.{
  ◌≡◌, refl, Bool, ◌||◌, false, [], ◌∷◌, ◌++◌, none, some, ok, err, if◌then◌else◌,
}
use flockdb.Prelude.Int.{pos}
use flockdb.Prelude.Texts.{
  codes, replace, same_text, strip_suffix, contains_text, text_leb, insert_text, sort_texts,
  rsplit_once,
}
use flockdb.Foreign.{Bytes, Text, FilePath}
use flockdb.Kernel.Paging.{
  put_file, hydrate, assemble, hydrate_pages, persist, chunks, chunks_of, stage_chunks, stage_chunk,
  remove_tail,
}
use flockdb.Kernel.Duck.{
  ArrowStream, open_kernel, checkpoint, fold_wal_into_main_file, with_extension,
}
use flockdb.Kernel.Duck as Duck
use flockdb.Kernel.Duck.Quote.{read_token}
use flockdb.Kernel.DuckExamples.{Disk, duck, disk}
use flockdb.Core.Pool.{
  validate_name, is_name_char, is_ascii_alphanumeric, all_chars, link_db_to_shared_cas,
  create_shared, link_subs, link_sub, cas_dir, db_dir,
}
use flockdb.Core.Store.{page_store, durable_handle}
use flockdb.Core.Db as Db
use flockdb.Core.Db.{open_with, query, execute, snapshot}
use flockdb.Core.Examples.{Shelf, sub, shelf_now}
use flockdb.Cli.Workspace.{
  CliEnv, entries, gone, exists, head, trim, trim_start, trim_end, is_blank, branches, add_names,
  is_asleep, resolve, set_head,
}
use flockdb.Cli.Import.{
  file_name, to_ascii_lowercase, ends_with, reader_for, before_dot, clean_char, is_ascii_digit,
  is_ascii_alphabetic, is_identifier_char, is_first_char, check_identifier, table_name_from,
  create_statement, count_statement, exists_statement,
}
use flockdb.Cli.Import.Names.{table_name_from_succeeds}
use flockdb.Cli.Import.Statement.{create_statement_lem}
use flockdb.Cli.Error.{branch_asleep}
use flockdb.Cli.Command.{Arrow, first_i64, has_table, plan, import, sql, fork}

abbrev pub last_of : FilePath → Text
last_of [] = []
last_of (name ∷ []) = name
last_of (dir ∷ name ∷ path) = last_of (name ∷ path)

abbrev csv : FilePath
csv = codes "daily-trades.csv" ∷ []

-- `HEAD` and the file to import are the files there are.
unfoldable pub known_file : Text → Bool
unfolding same_text
known_file name = same_text name (codes "HEAD") || same_text name (codes "daily-trades.csv")

abbrev pub env : CliEnv Shelf
env = record {
  flock_pool = none;
  is_file = λ path s. known_file (last_of path);
  read_to_string = λ path s. ok (codes "main\n");
  create_dir_all = λ path s. (ok tt, s);
  write = λ path text s. (ok tt, s);
  read_dir = λ path s. entries (codes "main" ∷ []);
  remove_file = λ path s. (ok tt, s);
  remove_dir_all = λ path s. (gone, s);
  to_json = λ rec. ok [];
  from_json = λ text. err "no record";
}

-- Every count is 0.
abbrev arrow : Arrow Bytes Bytes
arrow = record { columns = λ b. b ∷ []; as_i64 = λ column. some (pos 0 ∷ []) }

abbrev display : FilePath → Text
display path = last_of path

table_name_from_succeeds_example :
    (table : Text) × (table_name_from csv ≡ ok table) × (check_identifier table ≡ ok tt)
unfolding before_dot file_name
table_name_from_succeeds_example = table_name_from_succeeds csv b'd' (codes "aily-trades") refl

accepted : check_identifier (codes "daily_trades") ≡ ok tt
unfolding check_identifier is_identifier_char is_first_char is_ascii_alphabetic
    is_ascii_alphanumeric all_chars
accepted = refl

create_statement_lem_example :
    (name call literal : Text) × (create_statement
        (codes "daily_trades")
        (codes "read_csv_auto")
        (codes "o'brien.csv")
      ≡ codes "CREATE TABLE " ++ name)
    × (read_token b'"' name ≡ some (codes "daily_trades", call))
    × (call ≡ codes " AS SELECT * FROM " ++ (codes "read_csv_auto" ++ b'(' ∷ literal))
    × (read_token b'\'' literal ≡ some (codes "o'brien.csv", codes ")"))
create_statement_lem_example =
    create_statement_lem (codes "daily_trades") (codes "read_csv_auto") (codes "o'brien.csv")
      accepted

abbrev statement : Text
statement =
    create_statement (codes "daily_trades") (codes "read_csv_auto") (codes "daily-trades.csv")

-- The files after the statement was run on an empty database.
abbrev disk_after : Disk
disk_after = (7, (6, statement) ∷ (6, []) ∷ disk.1)

planned :
    plan sub duck env arrow display [] none csv none shelf_now
    ≡ ok (codes "main", (codes "daily_trades", statement))
unfolding plan exists head trim trim_start trim_end is_blank is_asleep known_file same_text
    reader_for file_name to_ascii_lowercase ends_with strip_suffix rsplit_once table_name_from
    before_dot clean_char is_ascii_digit is_ascii_alphabetic is_identifier_char is_first_char
    check_identifier is_ascii_alphanumeric all_chars
planned = refl

imported :
    import sub duck env arrow display [] none csv none (shelf_now, disk)
    ≡ (ok tt, (shelf_now, disk_after))
unfolding import plan exists head trim trim_start trim_end is_blank is_asleep known_file same_text
    reader_for file_name to_ascii_lowercase ends_with strip_suffix rsplit_once table_name_from
    before_dot clean_char is_ascii_digit is_ascii_alphabetic is_identifier_char is_first_char
    check_identifier is_ascii_alphanumeric all_chars has_table exists_statement replace query
    Duck.query first_i64 execute Duck.execute count_statement snapshot checkpoint
    fold_wal_into_main_file Duck.execute_batch with_extension persist chunks chunks_of stage_chunks
    stage_chunk remove_tail create_statement open_with validate_name is_name_char
    link_db_to_shared_cas create_shared link_subs link_sub cas_dir db_dir open_kernel hydrate
    assemble hydrate_pages put_file page_store durable_handle set_head
imported = refl

-- The empty database's file.
abbrev no_rows : ArrowStream Text Bytes
no_rows = record { schema = codes "SELECT 1"; batches = [] ∷ [] }

abbrev disk_open : Disk
disk_open = (7, (6, []) ∷ disk.1)

asked :
    sql sub duck env [] none (codes "SELECT 1") (shelf_now, disk)
    ≡ (ok no_rows, (shelf_now, disk_open))
unfolding sql resolve branches add_names sort_texts insert_text text_leb contains_text exists head
    trim trim_start trim_end is_blank is_asleep known_file same_text strip_suffix query Duck.query
    snapshot checkpoint fold_wal_into_main_file Duck.execute_batch with_extension rsplit_once
    persist chunks chunks_of stage_chunks stage_chunk remove_tail open_with validate_name
    is_name_char is_ascii_alphanumeric all_chars link_db_to_shared_cas create_shared link_subs
    link_sub cas_dir db_dir open_kernel hydrate assemble hydrate_pages put_file page_store
    durable_handle
asked = refl

-- The same pool, where a branch `b2` sleeps: its record is there, its directory is not.
abbrev sleeping_env : CliEnv Shelf
sleeping_env = record {
  flock_pool = none;
  is_file = λ path s. known_file (last_of path) || same_text (last_of path) (codes "b2.json");
  read_to_string = λ path s. ok (codes "main");
  create_dir_all = λ path s. (ok tt, s);
  write = λ path text s. (ok tt, s);
  read_dir = λ path s.
      if same_text (last_of path) (codes "dbs")
      then entries (codes "main" ∷ [])
      else entries (codes "b2.json" ∷ []);
  remove_file = λ path s. (ok tt, s);
  remove_dir_all = λ path s. (gone, s);
  to_json = λ rec. ok [];
  from_json = λ text. err "no record";
}

-- A fork takes the sleeping branch's name, which other commands then refuse.
fork_over_asleep :
    ((fork sub duck sleeping_env [] none (codes "b2") false (shelf_now, disk)).0 ≡ ok tt)
    × (resolve sleeping_env [] (some (codes "b2")) shelf_now ≡ err (branch_asleep (codes "b2")))
unfolding fork resolve branches add_names sort_texts insert_text text_leb contains_text exists head
    trim trim_start trim_end is_blank is_asleep known_file same_text strip_suffix open_with
    validate_name is_name_char is_ascii_alphanumeric all_chars link_db_to_shared_cas create_shared
    link_subs link_sub cas_dir db_dir open_kernel hydrate assemble hydrate_pages put_file page_store
    durable_handle Db.fork snapshot checkpoint fold_wal_into_main_file Duck.execute_batch
    with_extension rsplit_once persist chunks chunks_of stage_chunks stage_chunk remove_tail
    set_head
fork_over_asleep = (refl, refl)
