-- ===== src/Cli/Import.antt =====
-- crates/flock-cli/src/cmd/import.rs and sql.rs: a file into a table, and a query. `display` is a
-- path as text; of Arrow's arrays, the code looks at the columns of a batch and the numbers in one.
pub mod Names
pub mod Statement
use flockdb.Prelude.{
  ℕ, ◌+◌, Bool, true, false, not, ◌&&◌, ◌||◌, List, [], ◌∷◌, ◌++◌, map, Option, none, some, Result,
  ok, err, map_err, ltb, leb, ◌==◌, if◌then◌else◌,
}
use flockdb.Prelude.Int.{ℤ, pos, negsuc}
use flockdb.Prelude.Texts.{codes, replace, rsplit_once, strip_suffix, same_text}
use flockdb.Prelude.Steps.{Step, ◌>>=◌, ◌>>◌, give, fail, look, on_err, on_left}
use flockdb.Foreign.{ManifestId, Text, FilePath}
use flockdb.Kernel.Duck.{DuckDb, KernelOpts, ArrowStream}
use flockdb.Core.Error.{FlockError}
use flockdb.Core.Pool.{is_ascii_alphanumeric, all_chars, is_empty}
use flockdb.Core.Db.{Substrate, Db, open_with, query, execute, snapshot}
use flockdb.Cli.Error.{
  CliError, flock, branch_asleep, unknown_format, no_such_file, bad_table_name, table_exists,
}
use flockdb.Cli.Workspace.{CliEnv, exists, head, set_head, is_asleep, resolve}

abbrev pub default_branch : Text
default_branch = codes "main"

-- The last component of a path, or nothing.
unfoldable pub file_name : FilePath → Text
file_name [] = []
file_name (name ∷ []) = name
file_name (dir ∷ name ∷ path) = file_name (name ∷ path)

unfoldable pub to_ascii_lowercase : ℕ → ℕ
to_ascii_lowercase c = if leb b'A' c && leb c b'Z' then c + 32 else c

abbrev pub is_some : Option Text → Bool
is_some none = false
is_some (some stem) = true

unfoldable pub ends_with : Text → Text → Bool
unfolding strip_suffix
ends_with name suffix = is_some (strip_suffix suffix name)

-- `rsplit_once('.')` of the name, with its dot again.
abbrev pub format_of : Option (Text × Text) → Text
format_of none = codes "(none)"
format_of (some (stem, ext)) = b'.' ∷ ext

unfoldable pub reader_for : (FilePath → Text) → FilePath → Result CliError Text
unfolding file_name to_ascii_lowercase ends_with rsplit_once
reader_for display file =
    let name = map to_ascii_lowercase (file_name file) in
    if ends_with name (codes ".csv")
      || ends_with name (codes ".tsv")
      || ends_with name (codes ".csv.gz")
      || ends_with name (codes ".tsv.gz")
    then ok (codes "read_csv_auto")
    else if ends_with name (codes ".parquet")
    then ok (codes "read_parquet")
    else err (unknown_format (display file) (format_of (rsplit_once b'.' name)))

-- `split('.').next()`: what comes before the first dot.
unfoldable pub before_dot : Text → Text
before_dot [] = []
before_dot (c ∷ cs) = if c == b'.' then [] else c ∷ before_dot cs

unfoldable pub clean_char : ℕ → ℕ
unfolding is_ascii_alphanumeric
clean_char c = if is_ascii_alphanumeric c then c else b'_'

unfoldable pub is_ascii_digit : ℕ → Bool
is_ascii_digit c = leb b'0' c && leb c b'9'

unfoldable pub is_ascii_alphabetic : ℕ → Bool
is_ascii_alphabetic c = (leb b'A' c && leb c b'Z') || (leb b'a' c && leb c b'z')

abbrev pub starts : (ℕ → Bool) → Text → Bool
starts p [] = false
starts p (c ∷ cs) = p c

unfoldable pub is_identifier_char : ℕ → Bool
unfolding is_ascii_alphanumeric
is_identifier_char c = is_ascii_alphanumeric c || c == b'_'

unfoldable pub is_first_char : ℕ → Bool
unfolding is_ascii_alphabetic
is_first_char c = is_ascii_alphabetic c || c == b'_'

unfoldable pub check_identifier : Text → Result CliError (Unit {0})
unfolding is_identifier_char is_first_char all_chars
check_identifier name =
    if not (is_empty name) && starts is_first_char name && all_chars is_identifier_char name
    then ok tt
    else err (bad_table_name name)

-- A name that starts with a digit gets a letter first.
abbrev pub usable : Text → Text
usable cleaned = if starts is_ascii_digit cleaned then codes "t_" ++ cleaned else cleaned

abbrev pub checked_name : Text → Result CliError (Unit {0}) → Result CliError Text
checked_name name (ok done) = ok name
checked_name name (err e) = err e

unfoldable pub table_name_from : FilePath → Result CliError Text
unfolding before_dot clean_char file_name check_identifier is_ascii_digit
table_name_from file =
    let cleaned = usable (map clean_char (before_dot (file_name file))) in
    checked_name cleaned (check_identifier cleaned)

unfoldable pub create_statement : (table reader path : Text) → Text
unfolding replace
create_statement table reader path =
    let literal = b'\'' ∷ replace b'\'' (codes "''") path ++ b'\'' ∷ codes ")" in
    codes "CREATE TABLE \""
    ++ (table ++ (codes "\" AS SELECT * FROM " ++ (reader ++ b'(' ∷ literal)))

unfoldable pub count_statement : Text → Text
count_statement table = codes "SELECT count(*) FROM \"" ++ (table ++ codes "\"")

unfoldable pub exists_statement : Text → Text
unfolding replace
exists_statement table =
    codes "SELECT count(*) FROM duckdb_tables() WHERE table_name = "
    ++ (b'\'' ∷ replace b'\'' (codes "''") table ++ b'\'' ∷ [])
