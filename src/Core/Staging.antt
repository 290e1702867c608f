-- ===== src/Core/Staging.antt =====
-- crates/flock-core/src/db.rs: what `Db::sleep` copies into the staging store. The walk stops when
-- its stack is empty; it has fuel, and says so when there is none left. The set of pages is taken in
-- the order in which they were found: a `HashSet` has no order of its own.
pub mod Walk
use flockdb.Prelude.{
  ℕ, zero, suc, Bool, true, false, List, [], ◌∷◌, Option, none, some, Result, ok, err, map_err,
  if◌then◌else◌, contains,
}
use flockdb.Prelude.Steps.{Step, ◌>>=◌, ◌>>◌, give, look, on_err}
use flockdb.Foreign.{ManifestId, PageId}
use flockdb.Core.Error.{FlockError, pager}
use flockdb.Core.Store.{Pager}

abbrev pub push : Option ManifestId → List ManifestId → List ManifestId
push none stack = stack
push (some id) stack = id ∷ stack

unfoldable pub insert_all : List PageId → List PageId → List PageId
insert_all [] found = found
insert_all (id ∷ ids) found = insert_all ids (if contains id found then found else id ∷ found)

module _ {S Txn Manifest Page : Type 0} (src dst : Pager S Txn Manifest Page) where
  -- The body of the loop for a manifest that is new: its pages are found and it is staged.
  unfoldable pub visit : ManifestId → List PageId → Step S FlockError (Manifest × List PageId)
  unfolding insert_all
  visit id page_ids = do
    manifest ← look (λ s. map_err (pager "read manifest") (src.manifest id s))
    values ← look (λ s. map_err (pager "resolve manifest") (src.values id s))
    on_err (pager "stage manifest") (dst.put_manifest manifest)
    give (manifest, insert_all values page_ids)

  abbrev pub edges : Manifest → List ManifestId → List ManifestId
  edges manifest stack = push (src.parent manifest) (push (src.overlay_base manifest) stack)

  -- The loop, with its `seen` and its stack (the top first); `none` where the fuel ran out.
  unfoldable pub walk :
      ℕ → (seen stack : List ManifestId) → List PageId → Step S FlockError (Option (List PageId))
  unfolding visit
  walk fuel seen [] page_ids = give (some page_ids)
  walk zero seen (id ∷ stack) page_ids = give none
  walk (suc fuel) seen (id ∷ stack) page_ids = elim (contains id seen) [
    | true ↦ walk fuel seen stack page_ids
    | false ↦ visit id page_ids >>= λ found. walk fuel (id ∷ seen) (edges found.0 stack) found.1
  ]

  unfoldable pub copy_pages : List PageId → Step S FlockError (Unit {0})
  copy_pages [] = give tt
  copy_pages (id ∷ ids) = do
    page ← look (λ s. map_err (pager "read page for upload") (src.get id s))
    on_err (pager "stage page for upload") (dst.put page)
    copy_pages ids

  abbrev pub copy_found : Option (List PageId) → Step S FlockError (Option (Unit {0}))
  copy_found none = give none
  copy_found (some ids) = copy_pages ids >>= λ _. give (some tt)

  unfoldable pub stage : ℕ → ManifestId → Step S FlockError (Option (Unit {0}))
  unfolding walk copy_pages
  stage fuel head = walk fuel [] (head ∷ []) [] >>= copy_found
