-- ===== src/Core/Pool/Linked.antt =====
-- `link_db_to_shared_cas`: where a linked database is.
use flockdb.Prelude.{◌≡◌, [], ◌∷◌, Result, ok, err}
use flockdb.Foreign.{Text, FilePath}
use flockdb.Core.Error.{FlockError}
use flockdb.Core.Pool.{
  PoolFs, and_then, made, pages, manifests, create_shared, link_subs, db_dir, link_db_to_shared_cas,
}

and_then-Ok :
    {S A : Type 0} (out : Result FlockError (Unit {0}) × S) (k : S → Result FlockError A × S)
    {a : A} {s' : S}
    → and_then out k ≡ (ok a, s')
    → (s : S) × (k s ≡ (ok a, s'))
and_then-Ok (ok done, s) k h = (s, h)
and_then-Ok (err e, s) k h = absurd (cc h)

same_dir :
    {S : Type 0} {a b : FilePath} {x y : S}
    → Path (Result FlockError FilePath × S) (ok a, x) (ok b, y)
    → a ≡ b
same_dir e = cc e

-- The directory that is linked is the one of the name.
pub linked_dir :
    {S : Type 0} (fs : PoolFs S) (root : FilePath) (name : Text) (dir : FilePath) (s s' : S)
    → link_db_to_shared_cas fs root name s ≡ (ok dir, s')
    → db_dir root name ≡ dir
unfolding link_db_to_shared_cas
linked_dir fs root name dir s s' h =
    let subs = pages ∷ manifests ∷ [] in
    let there = db_dir root name in
    let (s1, h1) = and_then-Ok (create_shared fs root subs s) _ h in
    let (s2, h2) =
      and_then-Ok (made "create database directory" there (fs.create_dir_all there s1)) _ h1 in
    let (s3, h3) = and_then-Ok (link_subs fs there subs s2) _ h2 in same_dir h3
