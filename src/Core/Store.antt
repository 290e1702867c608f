-- ===== src/Core/Store.antt =====
-- crates/flock-core/src/store.rs: the two stores that a database may sit on. Substrate's pager,
-- durable store and tiered store are the records below, with state `S`; of the page algebra that the
-- handles pass on to the pager, the calls that FlockDB makes.
use flockdb.Prelude.{List, Option, Result}
use flockdb.Prelude.Steps.{Step, on_err}
use flockdb.Foreign.{ManifestId, PageId, PagerError, WalError, StoreError}
use flockdb.Kernel.Paging.{PageStore}

-- A pager with its content-addressed store and its manifest store; `values` are the pages of a
-- resolved page map.
pub record Pager (S Txn Manifest Page : Type 0) : Type 0 where
  pub pages : PageStore S Txn
  pub manifest : ManifestId → S → Result PagerError Manifest
  pub values : ManifestId → S → Result PagerError (List PageId)
  pub overlay_base : Manifest → Option ManifestId
  pub parent : Manifest → Option ManifestId
  pub rewind : ManifestId → Step S PagerError (Unit {0})
  pub set_head_to : ManifestId → Step S PagerError (Unit {0})
  pub get : PageId → S → Result PagerError Page
  pub put : Page → Step S PagerError (Unit {0})
  pub put_manifest : Manifest → Step S PagerError (Unit {0})

-- `backend` is `PagerError::backend`.
pub record DurableStore (S Txn Manifest Page : Type 0) : Type 0 where
  pub pager : Pager S Txn Manifest Page
  pub backend : WalError → PagerError
  pub commit : Txn → Step S WalError ManifestId
  pub recover : Step S WalError (Unit {0})
  pub checkpoint : Step S WalError (Unit {0})

pub record TieredStore (S Txn Manifest Page Token : Type 0) : Type 0 where
  pub pager : Pager S Txn Manifest Page
  pub ensure_durable : List ManifestId → Step S StoreError (Unit {0})
  pub sleep : Step S StoreError Token

pub data Store (S Txn Manifest Page Token : Type 0) : Type 0 where
  local : DurableStore S Txn Manifest Page → Store S Txn Manifest Page Token
  tiered : TieredStore S Txn Manifest Page Token → Store S Txn Manifest Page Token

-- A pager whose commit is another.
abbrev pub with_commit :
    {S Txn : Type 0} → PageStore S Txn → (Txn → Step S PagerError ManifestId) → PageStore S Txn
with_commit st commit = record {
  page_size = st.page_size;
  head = st.head;
  resolve = st.resolve;
  read = st.read;
  begin = st.begin;
  write = st.write;
  remove = st.remove;
  commit = commit;
}

module _ {S Txn Manifest Page : Type 0} where
  unfoldable pub durable_handle : DurableStore S Txn Manifest Page → PageStore S Txn
  durable_handle d = with_commit d.pager.pages (λ txn. on_err d.backend (d.commit txn))

module _ {S Txn Manifest Page Token : Type 0} where
  unfoldable pub pager : Store S Txn Manifest Page Token → Pager S Txn Manifest Page
  pager (local d) = d.pager
  pager (tiered t) = t.pager

  unfoldable pub head : Store S Txn Manifest Page Token → S → ManifestId
  unfolding pager
  head store s = (pager store).pages.head s

  unfoldable pub tiered_handle : TieredStore S Txn Manifest Page Token → PageStore S Txn
  tiered_handle t = with_commit t.pager.pages t.pager.pages.commit

  unfoldable pub page_store : Store S Txn Manifest Page Token → PageStore S Txn
  unfolding durable_handle tiered_handle
  page_store (local d) = durable_handle d
  page_store (tiered t) = tiered_handle t
