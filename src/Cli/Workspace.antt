-- ===== src/Cli/Workspace.antt =====
-- crates/flock-cli/src/workspace.rs: the pool on disk and the branch that `HEAD` names. The file
-- system is a record of its calls, with state `S`; a path is its components.
pub mod Head
use flockdb.Prelude.{
  ℕ, String, Bool, true, false, not, ◌&&◌, ◌||◌, List, [], ◌∷◌, ◌++◌, Option, none, some, Result,
  ok, err, ◌>>=◌, map_err, ltb, leb, ◌==◌, if◌then◌else◌,
}
use flockdb.Prelude.Texts.{strip_suffix, contains_text, sort_texts}
use flockdb.Foreign.{IoError, Text, FilePath}
use flockdb.Cli.Error.{CliError, no_pool, unknown_branch, branch_asleep, io, bad_sleep_record}

pub data Removal : Type 0 where
  gone not_found : Removal
  failed : IoError → Removal

pub data Listing : Type 0 where
  missing : Listing
  unreadable : IoError → Listing
  -- The names of the entries that could be read (`flatten` leaves out the others).
  entries : List Text → Listing

pub record SleepRecord : Type 0 where
  pub tier : FilePath
  pub pool : Text
  pub token : Text

-- The file system, the environment, and serde's JSON for sleep records.
pub record CliEnv (S : Type 0) : Type 0 where
  pub flock_pool : Option FilePath
  pub is_file : FilePath → S → Bool
  pub read_to_string : FilePath → S → Result IoError Text
  pub create_dir_all : FilePath → S → Result IoError (Unit {0}) × S
  pub write : FilePath → Text → S → Result IoError (Unit {0}) × S
  pub read_dir : FilePath → S → Listing
  pub remove_file : FilePath → S → Result IoError (Unit {0}) × S
  pub remove_dir_all : FilePath → S → Removal × S
  pub to_json : SleepRecord → Result String Text
  pub from_json : Text → Result String SleepRecord

-- Unicode's `White_Space`, which `str::trim` takes off.
unfoldable pub is_blank : ℕ → Bool
is_blank c =
    (leb 9 c && leb c 13)
    || c == 32
    || c == 133
    || c == 160
    || c == 5760
    || (leb 8192 c && leb c 8202)
    || c == 8232
    || c == 8233
    || c == 8239
    || c == 8287
    || c == 12288

unfoldable pub trim_start : Text → Text
unfolding is_blank
trim_start [] = []
trim_start (c ∷ cs) = if is_blank c then trim_start cs else c ∷ cs

-- A text followed by a character, without the blanks at its end.
abbrev pub drop_blank : ℕ → Text → Text
drop_blank c [] = if is_blank c then [] else c ∷ []
drop_blank c (d ∷ ds) = c ∷ d ∷ ds

unfoldable pub trim_end : Text → Text
unfolding is_blank
trim_end [] = []
trim_end (c ∷ cs) = drop_blank c (trim_end cs)

unfoldable pub trim : Text → Text
unfolding trim_start trim_end
trim text = trim_end (trim_start text)

abbrev pub newline : ℕ
newline = 10

abbrev pub json_suffix : Text
json_suffix = b'.' ∷ b'j' ∷ b's' ∷ b'o' ∷ b'n' ∷ []

abbrev pub head_path : FilePath → FilePath
head_path root = root ++ (b'H' ∷ b'E' ∷ b'A' ∷ b'D' ∷ []) ∷ []

abbrev pub dbs_dir : FilePath → FilePath
dbs_dir root = root ++ (b'd' ∷ b'b' ∷ b's' ∷ []) ∷ []

abbrev pub asleep_dir : FilePath → FilePath
asleep_dir root = root ++ (b'a' ∷ b's' ∷ b'l' ∷ b'e' ∷ b'e' ∷ b'p' ∷ []) ∷ []

abbrev pub sleep_record_path : FilePath → Text → FilePath
sleep_record_path root branch = asleep_dir root ++ (branch ++ json_suffix) ∷ []

abbrev pub default_pool : FilePath
default_pool = (b'.' ∷ b'f' ∷ b'l' ∷ b'o' ∷ b'c' ∷ b'k' ∷ []) ∷ []

abbrev pub without_suffix : Text → Option Text → Text
without_suffix name none = name
without_suffix name (some stem) = stem

-- The names of one directory after those already found.
unfoldable pub add_names : List Text → List Text → List Text
unfolding strip_suffix contains_text
add_names found [] = found
add_names found (entry ∷ rest) =
    let name = without_suffix entry (strip_suffix json_suffix entry) in
    add_names (if contains_text name found then found else found ++ name ∷ []) rest

abbrev pub list_dir : FilePath → List Text → Listing → Result CliError (List Text)
list_dir dir found missing = ok found
list_dir dir found (unreadable e) = err (io "list branches" dir e)
list_dir dir found (entries names) = ok (add_names found names)

module _ {S : Type 0} (env : CliEnv S) where
  abbrev pub or_env : Option FilePath → FilePath
  or_env none = default_pool
  or_env (some root) = root

  unfoldable pub locate : Option FilePath → FilePath
  locate none = or_env env.flock_pool
  locate (some root) = root

  unfoldable pub exists : FilePath → S → Bool
  exists root s = env.is_file (head_path root) s

  unfoldable pub head : FilePath → S → Result CliError Text
  unfolding exists trim
  head root s =
      if exists root s
      then map_err (io "read HEAD" (head_path root)) (env.read_to_string (head_path root) s)
        >>= (λ name. ok (trim name))
      else err (no_pool root)

  abbrev pub and_write :
      String → FilePath → Text → Result CliError (Unit {0}) × S → Result CliError (Unit {0}) × S
  and_write op path text (err e, s) = (err e, s)
  and_write op path text (ok done, s) =
      let (r, s') = env.write path text s in (map_err (io op path) r, s')

  abbrev pub created : String → FilePath → S → Result CliError (Unit {0}) × S
  created op dir s = let (r, s') = env.create_dir_all dir s in (map_err (io op dir) r, s')

  unfoldable pub set_head : FilePath → Text → S → Result CliError (Unit {0}) × S
  set_head root branch s =
      and_write "write HEAD" (head_path root) (branch ++ newline ∷ [])
        (created "create the pool" root s)

  unfoldable pub branches : FilePath → S → Result CliError (List Text)
  unfolding add_names sort_texts
  branches root s = do
    awake ← list_dir (dbs_dir root) [] (env.read_dir (dbs_dir root) s)
    names ← list_dir (asleep_dir root) awake (env.read_dir (asleep_dir root) s)
    ok (sort_texts names)

  unfoldable pub is_asleep : FilePath → Text → S → Bool
  is_asleep root branch s = env.is_file (sleep_record_path root branch) s

  abbrev pub chosen : FilePath → Option Text → S → Result CliError Text
  chosen root none s = head root s
  chosen root (some n) s = ok n

  abbrev pub check_known : FilePath → Text → S → List Text → Result CliError Text
  check_known root name s known =
      if contains_text name known
      then if is_asleep root name s then err (branch_asleep name) else ok name
      else err (unknown_branch name known)

  unfoldable pub resolve : FilePath → Option Text → S → Result CliError Text
  unfolding head exists branches is_asleep contains_text
  resolve root explicit s = do
    name ← chosen root explicit s
    if exists root s then branches root s >>= check_known root name s else err (no_pool root)

  unfoldable pub read_sleep_record : FilePath → Text → S → Result CliError SleepRecord
  read_sleep_record root branch s =
      let path = sleep_record_path root branch in
      do
        text ← map_err (io "read the sleep record" path) (env.read_to_string path s)
        map_err (bad_sleep_record branch path) (env.from_json text)

  abbrev pub write_json :
      FilePath
      → Text
      → FilePath
      → Result String Text
      → Result CliError (Unit {0}) × S
      → Result CliError (Unit {0}) × S
  write_json root branch path json (err e, s) = (err e, s)
  write_json root branch path (err e) (ok done, s) = (err (bad_sleep_record branch path e), s)
  write_json root branch path (ok json) (ok done, s) =
      and_write "write the sleep record" path json (ok done, s)

  unfoldable pub write_sleep_record :
      FilePath → Text → SleepRecord → S → Result CliError (Unit {0}) × S
  write_sleep_record root branch rec s =
      write_json root branch (sleep_record_path root branch) (env.to_json rec)
        (created "create the sleep-record directory" (asleep_dir root) s)

  unfoldable pub remove_sleep_record : FilePath → Text → S → Result CliError (Unit {0}) × S
  remove_sleep_record root branch s =
      let path = sleep_record_path root branch in
      let (r, s') = env.remove_file path s in (map_err (io "remove the sleep record" path) r, s')

  abbrev pub removed_dir : FilePath → Removal × S → Result CliError (Unit {0}) × S
  removed_dir dir (gone, s) = (ok tt, s)
  removed_dir dir (not_found, s) = (ok tt, s)
  removed_dir dir (failed e, s) = (err (io "remove the branch directory" dir e), s)

  unfoldable pub remove_branch_dir : FilePath → Text → S → Result CliError (Unit {0}) × S
  remove_branch_dir root branch s =
      let dir = dbs_dir root ++ branch ∷ [] in removed_dir dir (env.remove_dir_all dir s)
