-- ===== src/Core/Staging/Walk.antt =====
-- What the staging of a database reaches, and that it ends.
pub mod Closed
pub mod Fuel
use flockdb.Prelude.{
  ℕ, ◌≡◌, refl, sym, ap, ◌∙◌, inl, inr, Bool, true, false, ◌||◌, List, [], ◌∷◌, Option, none, some,
  arith, ◌==◌, ==_iff, Bool-cases, Result, ok, err, contains, if◌then◌else◌,
}
use flockdb.Foreign.{ManifestId, PageId}
use flockdb.Core.Store.{Pager}
use flockdb.Core.Staging.{push, insert_all}

module _ {S Txn Manifest Page : Type 0} (src : Pager S Txn Manifest Page)
    (Held HeldPage : ℕ → S → Type 0) where
  -- A step after which the source reads as before and the staging store has what it had.
  pub record Keeps (s s' : S) : Type 0 where
    pub manifest : (id : ManifestId) → src.manifest id s' ≡ src.manifest id s
    pub values : (id : ManifestId) → src.values id s' ≡ src.values id s
    pub held : (id : ManifestId) → Held id s → Held id s'
    pub held_page : (id : PageId) → HeldPage id s → HeldPage id s'

  pub Keeps-refl : (s : S) → Keeps s s
  Keeps-refl s = record {
    manifest = λ id. refl;
    values = λ id. refl;
    held = λ id h. h;
    held_page = λ id h. h;
  }

  pub Keeps-trans : (a b c : S) → Keeps a b → Keeps b c → Keeps a c
  Keeps-trans a b c x y = record {
    manifest = λ id. y.manifest id ∙ x.manifest id;
    values = λ id. y.values id ∙ x.values id;
    held = λ id h. y.held id (x.held id h);
    held_page = λ id h. y.held_page id (x.held_page id h);
  }

-- What the source and the staging store do: a manifest or a page that is put is held from then on,
-- and putting it leaves the source as it was; moving the staging store's head leaves both.
pub record Staged {S Txn Manifest Page : Type 0} (src dst : Pager S Txn Manifest Page)
    : Type 1 where
  pub Held : ℕ → S → Type 0
  pub HeldPage : ℕ → S → Type 0
  pub stages :
      (id : ManifestId) (m : Manifest) (s s' : S)
      → src.manifest id s ≡ ok m
      → dst.put_manifest m s ≡ (ok tt, s')
      → Held id s' × Keeps src Held HeldPage s s'
  pub uploads :
      (id : PageId) (page : Page) (s s' : S)
      → src.get id s ≡ ok page
      → dst.put page s ≡ (ok tt, s')
      → HeldPage id s' × Keeps src Held HeldPage s s'
  pub positions :
      (m : ManifestId) (s s' : S)
      → dst.set_head_to m s ≡ (ok tt, s')
      → (dst.pages.head s' ≡ m) × Keeps src Held HeldPage s s'

-- The manifests that are reached from one by overlay and parent edges.
pub data Reach {S Txn Manifest Page : Type 0} (src : Pager S Txn Manifest Page) (s : S)
    (head : ManifestId) : ManifestId → Type 0 where
  start : Reach src s head head
  by_base :
      {id base : ManifestId} {m : Manifest}
      → Reach src s head id
      → src.manifest id s ≡ ok m
      → src.overlay_base m ≡ some base
      → Reach src s head base
  by_parent :
      {id parent : ManifestId} {m : Manifest}
      → Reach src s head id
      → src.manifest id s ≡ ok m
      → src.parent m ≡ some parent
      → Reach src s head parent

-- Where an id is: among those seen, or still on the stack.
abbrev pub known : (seen stack : List ManifestId) → ManifestId → Bool
known seen stack id = contains id seen || contains id stack

pub contains-push :
    (o : Option ManifestId) (stack : List ManifestId) (id : ManifestId)
    → contains id stack ≡ true
    → contains id (push o stack) ≡ true
contains-push none stack id h = h
contains-push (some x) stack id h = ground (arith, h)

pub contains-push_self :
    (o : Option ManifestId) (stack : List ManifestId) (id : ManifestId)
    → o ≡ some id
    → contains id (push o stack) ≡ true
contains-push_self none stack id h = absurd (cc h)
contains-push_self (some x) stack id h = let e : id ≡ x = cc h in rw ((==_iff id x).1 e) refl

pub insert_all-old :
    (ids found : List PageId) (p : PageId)
    → contains p found ≡ true
    → contains p (insert_all ids found) ≡ true
unfolding insert_all
insert_all-old [] found p h = h
insert_all-old (id ∷ ids) found p h = elim (Bool-cases (contains id found)) [
  | inl there ↦ rw (there, insert_all) (insert_all-old ids found p h)
  | inr fresh ↦ rw (fresh, insert_all) (insert_all-old ids (id ∷ found) p (ground (arith, h)))
]

pub insert_all-new :
    (ids found : List PageId) (p : PageId)
    → contains p ids ≡ true
    → contains p (insert_all ids found) ≡ true
unfolding insert_all
insert_all-new [] found p h = absurd (cc h)
insert_all-new (id ∷ ids) found p h = elim (Bool-cases (p == id)) [
  | inl same ↦
      let e : p ≡ id = (==_iff p id).0 same in
      elim (Bool-cases (contains id found)) [
        | inl there ↦ rw (there, insert_all) (insert_all-old ids found p (rw e there))
        | inr fresh ↦ rw (fresh, insert_all) (insert_all-old ids (id ∷ found) p (rw same refl))
      ]
  | inr other ↦
      let rest : contains p ids ≡ true = rw other at h in
      elim (Bool-cases (contains id found)) [
        | inl there ↦ rw (there, insert_all) (insert_all-new ids found p rest)
        | inr fresh ↦ rw (fresh, insert_all) (insert_all-new ids (id ∷ found) p rest)
      ]
]
