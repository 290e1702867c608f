-- ===== src/Cli/Error.antt =====
-- crates/flock-cli/src/error.rs. The errors of other crates are carried as their rendered texts, and
-- an I/O error without its hint, which its operation determines.
use flockdb.Prelude.{String, List}
use flockdb.Foreign.{StoreError, IoError, Text, FilePath}
use flockdb.Core.Error.{FlockError}

pub data CliError : Type 0 where
  flock : FlockError → CliError
  no_pool : (pool : FilePath) → CliError
  unknown_branch : (name : Text) → (known : List Text) → CliError
  branch_asleep branch_awake : (name : Text) → CliError
  unknown_format : (path ext : Text) → CliError
  no_such_file : (path : Text) → CliError
  bad_table_name : (name : Text) → CliError
  table_exists : (table branch : Text) → CliError
  tier_not_supported : (uri : Text) → CliError
  io : (op : String) → (path : FilePath) → (source : IoError) → CliError
  bad_sleep_record : (name : Text) → (path : FilePath) → (source : String) → CliError
  tier : (path : FilePath) → (source : String) → CliError
  store : (op : String) → (source : StoreError) → CliError
  render : String → CliError
