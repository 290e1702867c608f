-- ===== src/Cli/TierExamples.antt =====
-- `main` goes to sleep and wakes, over the small stores of flock-core's examples; and a small cache is
-- copied.
use flockdb.Prelude.{
  ℕ, Bool, true, false, ◌&&◌, [], ◌∷◌, Option, none, some, Result, ok, err, if◌then◌else◌,
}
use flockdb.Prelude.Texts.{codes, same_text}
use flockdb.Foreign.{Text, FilePath, Bytes, IoError}
use flockdb.Kernel.Duck as Duck
use flockdb.Kernel.DuckExamples.{Disk, disk}
use flockdb.Core.Store as Store
use flockdb.Core.Db as Db
use flockdb.Core.Examples.{Shelf}
use flockdb.Cli.Workspace.{CliEnv, entries, gone, exists}
use flockdb.Cli.CommandExamples.{last_of}
use flockdb.Cli.Tier.{Tree, no_directory, directory, done, file, sub_dir, TierFs, runtime}

abbrev key_of : Text → ℕ
key_of [] = 0
key_of (c ∷ cs) = c

abbrev cache_tree : Tree
cache_tree = directory (
    sub_dir (codes "aa") (directory (file (codes "x1") (file (codes "y2") done)))
      (file (codes "z3") done))

-- The files by their paths.
abbrev Files : Type 0
Files = FilePath → Option Bytes

abbrev same_path : FilePath → FilePath → Bool
same_path [] [] = true
same_path (a ∷ p) (b ∷ q) = same_text a b && same_path p q
same_path [] (b ∷ q) = false
same_path (a ∷ p) [] = false

abbrev is_there : Option Bytes → Bool
is_there none = false
is_there (some b) = true

abbrev with_file : FilePath → Bytes → Files → Files
with_file to b s path = if same_path path to then some b else s path

abbrev copy_file : Option Bytes → FilePath → Files → Result IoError (Unit {0}) × Files
copy_file none to s = (err "no such file", s)
copy_file (some b) to s = (ok tt, with_file to b s)

abbrev files_fs : TierFs Files (Unit {0}) (Unit {0}) (Unit {0})
files_fs = record {
  temp_dir = λ s. (ok [], s);
  canonicalize = λ path s. ok (codes "my pool" ∷ []);
  exists = λ path s. is_there (s path);
  tree = λ path s. cache_tree;
  create_dir_all = λ path s. (ok tt, s);
  copy = λ from to s. copy_file (s from) to s;
  runtime = λ s. (ok tt, s);
  local_file_system = λ path s. (ok tt, s);
  new_remote = λ backend pool. tt;
  to_json = λ token. ok [];
  from_json = λ text. ok tt;
  display = λ path. [];
}

abbrev bytes_at : FilePath → Files → Option Bytes
bytes_at path s = s path

-- The cache has the three files of its tree, and the pool has one of them already.
abbrev held : Files
held path =
    if same_path path (codes "c" ∷ codes "aa" ∷ codes "x1" ∷ [])
    then some (1 ∷ [])
    else if same_path path (codes "c" ∷ codes "aa" ∷ codes "y2" ∷ [])
    then some (2 ∷ [])
    else if same_path path (codes "c" ∷ codes "z3" ∷ [])
    then some (3 ∷ [])
    else if same_path path (codes "p" ∷ codes "aa" ∷ codes "y2" ∷ [])
    then some (2 ∷ [])
    else none

abbrev copied_files : Files
copied_files =
    with_file (codes "p" ∷ codes "z3" ∷ []) (3 ∷ [])
      (with_file (codes "p" ∷ codes "aa" ∷ codes "x1" ∷ []) (1 ∷ []) held)

abbrev head_of : FilePath → Text
head_of [] = []
head_of (name ∷ path) = name

abbrev fs : TierFs Shelf (Unit {0}) (Unit {0}) ℕ
fs = record {
  temp_dir = λ s. (ok (codes "cache" ∷ []), s);
  canonicalize = λ path s. ok path;
  exists = λ path s. true;
  tree = λ path s. no_directory;
  create_dir_all = λ path s. (ok tt, s);
  copy = λ from to s. (ok tt, s);
  runtime = λ s. (ok tt, s);
  local_file_system = λ path s. (ok tt, s);
  new_remote = λ backend pool. tt;
  to_json = λ token. ok (token ∷ []);
  from_json = λ text. ok (key_of text);
  display = last_of;
}

abbrev asleep_now : Shelf
asleep_now = (2, (0 ∷ 1 ∷ 2 ∷ [], 2 ∷ 100 ∷ 1 ∷ 0 ∷ []))

-- The same pool with the record of a sleeping `main`.
abbrev asleep_env : CliEnv Shelf
asleep_env = record {
  flock_pool = none;
  is_file = λ path s. true;
  read_to_string = λ path s. ok (codes "main");
  create_dir_all = λ path s. (ok tt, s);
  write = λ path text s. (ok tt, s);
  read_dir = λ path s. entries (codes "main.json" ∷ []);
  remove_file = λ path s. (ok tt, s);
  remove_dir_all = λ path s. (gone, s);
  to_json = λ rec. ok [];
  from_json = λ text. ok (record { tier = []; pool = codes "p"; token = 2 ∷ [] });
}

abbrev disk_woken : Disk
disk_woken = (9, (8, []) ∷ (7, []) ∷ (6, []) ∷ disk.1)
