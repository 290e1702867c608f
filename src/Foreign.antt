-- ===== src/Foreign.antt =====
-- The types of the crates that FlockDB builds on (substrate-pager, substrate-wal, substrate-store):
-- a page id and a manifest id are content hashes, read as numbers and only compared; bytes are
-- numbers; an error of such a crate is carried as its rendered text, which is all that FlockDB's
-- own errors do with it (`{source}` in every `#[error]`). Texts are lists of code points, and paths
-- lists of components.
use flockdb.Prelude.{ℕ, String, List}

abbrev pub ManifestId : Type 0
ManifestId = ℕ

abbrev pub PageId : Type 0
PageId = ℕ

abbrev pub LogicalPageNo : Type 0
LogicalPageNo = ℕ

abbrev pub Lsn : Type 0
Lsn = ℕ

abbrev pub Bytes : Type 0
Bytes = List ℕ

abbrev pub PagerError : Type 0
PagerError = String

abbrev pub WalError : Type 0
WalError = String

abbrev pub StoreError : Type 0
StoreError = String

-- DuckDB's errors.
abbrev pub DuckError : Type 0
DuckError = String

abbrev pub IoError : Type 0
IoError = String

abbrev pub Text : Type 0
Text = List ℕ

abbrev pub FilePath : Type 0
FilePath = List Text
