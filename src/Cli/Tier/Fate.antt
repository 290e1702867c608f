-- ===== src/Cli/Tier/Fate.antt =====
-- What a copy out of the cache makes of a path of the file system.
use flockdb.Prelude.{
  ℕ, ◌≡◌, refl, sym, ap, ◌∙◌, ◌⊎◌, inl, inr, true, false, ◌++◌, Option, none, some, Bool-cases, ok,
}
use flockdb.Prelude.Steps.{after-err}
use flockdb.Foreign.{Bytes, FilePath}
use flockdb.Cli.Error.{io}
use flockdb.Cli.Tier.{TierFs, adopt_file}

module _ {S Backend Tier Token : Type 0} (fs : TierFs S Backend Tier Token)
    (content : FilePath → S → Option Bytes) where
  abbrev pub Same : S → S → FilePath → Type 0
  Same s s' path = (fs.exists path s' ≡ fs.exists path s) × (content path s' ≡ content path s)

  -- A path at which there is a directory that was not there before; `content` is a file's bytes.
  abbrev pub NewDirectory : S → S → FilePath → Type 0
  NewDirectory s s' path =
      (fs.exists path s ≡ false) × (fs.exists path s' ≡ true) × (content path s' ≡ none)

  -- A copy has the bytes of what was copied, and neither copying nor making directories touches any
  -- other path, but for the directories that are made.
  pub record Additive : Type 0 where
    pub copied :
        (from to : FilePath) (s s' : S)
        → fs.copy from to s ≡ (ok tt, s')
        → (b : Bytes) × (content from s ≡ some b)
          × (content to s' ≡ some b)
          × (fs.exists to s' ≡ true)
          × ((path : FilePath) → (path ≡ to) ⊎ Same s s' path)
    pub made :
        (dir : FilePath) (s s' : S)
        → fs.create_dir_all dir s ≡ (ok tt, s')
        → (path : FilePath) → Same s s' path ⊎ NewDirectory s s' path

  module _ (src dst : FilePath) where
    -- A path under `dst` that was not there and has the bytes of the file at the same place under
    -- `src`.
    pub record Adoption (s s' : S) (path : FilePath) : Type 0 where
      pub place : FilePath
      pub bytes : Bytes
      pub is_at : path ≡ dst ++ place
      pub new : fs.exists path s ≡ false
      pub there : fs.exists path s' ≡ true
      pub in_cache : content (src ++ place) s ≡ some bytes
      pub in_pool : content path s' ≡ some bytes

    abbrev pub Fate : S → S → FilePath → Type 0
    Fate s s' path = Same s s' path ⊎ (NewDirectory s s' path ⊎ Adoption s s' path)

    abbrev pub Fates : S → S → Type 0
    Fates s s' = (path : FilePath) → Fate s s' path

    pub Fates-refl : (s : S) → Fates s s
    Fates-refl s path = inl (refl, refl)

    pub Fates-Keeps :
        (s s' : S)
        → Fates s s'
        → (path : FilePath) → fs.exists path s ≡ true
        → fs.exists path s' ≡ true
    Fates-Keeps s s' fates path h = elim (fates path) [
      | inl same ↦ same.0 ∙ h
      | inr (inl made) ↦ made.1
      | inr (inr adopted) ↦ adopted.there
    ]

    -- What was not there later was not there before.
    Fates-absent :
        (s s' : S) → Fates s s' → (path : FilePath) → fs.exists path s' ≡ false → Same s s' path
    Fates-absent s s' fates path h = elim (fates path) [
      | inl same ↦ same
      | inr (inl made) ↦ absurd (let z = sym made.1 ∙ h in cc z)
      | inr (inr adopted) ↦ absurd (let z = sym adopted.there ∙ h in cc z)
    ]

    -- The files of the cache stay, since nothing under it is under the pool.
    Fates-cache :
        ((p q : FilePath) → src ++ p ≡ dst ++ q → ⊥)
        → (s s' : S) → Fates s s'
        → (place : FilePath) (b : Bytes) → content (src ++ place) s' ≡ some b
        → content (src ++ place) s ≡ some b
    Fates-cache apart s s' fates place b h = elim (fates (src ++ place)) [
      | inl same ↦ sym same.1 ∙ h
      | inr (inl made) ↦ absurd (let z = sym made.2 ∙ h in cc z)
      | inr (inr adopted) ↦ absurd (apart place adopted.place adopted.is_at)
    ]

    pub Fates-trans :
        ((p q : FilePath) → src ++ p ≡ dst ++ q → ⊥)
        → (a b c : S) → Fates a b
        → Fates b c
        → Fates a c
    Fates-trans apart a b c first then path = elim (then path) [
      | inl same ↦ elim (first path) [
        | inl before ↦ inl (same.0 ∙ before.0, same.1 ∙ before.1)
        | inr (inl made) ↦ inr (inl (made.0, same.0 ∙ made.1, same.1 ∙ made.2))
        | inr (inr x) ↦ inr (
            inr (record {
              place = x.place;
              bytes = x.bytes;
              is_at = x.is_at;
              new = x.new;
              there = same.0 ∙ x.there;
              in_cache = x.in_cache;
              in_pool = same.1 ∙ x.in_pool;
            }))
      ]
      | inr (inl made) ↦
          let before = Fates-absent a b first path made.0 in
          inr (inl (sym before.0 ∙ made.0, made.1, made.2))
      | inr (inr x) ↦
          let before = Fates-absent a b first path x.new in
          inr (
            inr (record {
              place = x.place;
              bytes = x.bytes;
              is_at = x.is_at;
              new = sym before.0 ∙ x.new;
              there = x.there;
              in_cache = Fates-cache apart a b first x.place x.bytes x.in_cache;
              in_pool = x.in_pool;
            }))
    ]

    pub made-Fates :
        Additive → (dir : FilePath) (s s' : S) → fs.create_dir_all dir s ≡ (ok tt, s') → Fates s s'
    made-Fates additive dir s s' h path = elim (additive.made dir s s' h path) [
      | inl same ↦ inl same
      | inr made ↦ inr (inl made)
    ]

    pub adopt_file-Fates :
        Additive
        → (from to place : FilePath) (n : ℕ) (s s' : S) → from ≡ src ++ place
        → to ≡ dst ++ place
        → adopt_file fs from to s ≡ (ok n, s')
        → (fs.exists to s' ≡ true) × Fates s s'
    adopt_file-Fates additive from to place n s s' at_src at_dst h =
        elim (Bool-cases (fs.exists to s)) [
          | inl there ↦
              let is : s ≡ s' = ap (λ o. o.1) (rw there at h) in rw (sym is) (there, Fates-refl s)
          | inr new ↦
              let (one, s1, e, last) =
                after-err (io "adopt a page into the pool" to) (fs.copy from to) s _
                  (rw new at h) in
              let is : s1 ≡ s' = ap (λ o. o.1) last in
              let (b, found, wrote, there, others) = additive.copied from to s s' (rw is at e) in
              (
                there,
                λ path. elim (others path) [
                  | inr same ↦ inl same
                  | inl here ↦ inr (
                      inr (record {
                        place = place;
                        bytes = b;
                        is_at = here ∙ at_dst;
                        new = ap (λ p. fs.exists p s) here ∙ new;
                        there = ap (λ p. fs.exists p s') here ∙ there;
                        in_cache = ap (λ p. content p s) (sym at_src) ∙ found;
                        in_pool = ap (λ p. content p s') here ∙ wrote;
                      }))
                ],
              )
        ]
