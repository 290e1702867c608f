-- ===== src/Cli/Tier/Adopted.antt =====
-- What `wake` adopts of the cache.
use flockdb.Prelude.{ℕ, ◌+◌, ◌≡◌, refl, sym, ap, ◌∙◌, true, List, [], ◌∷◌, ◌++◌, Option, ok}
use flockdb.Prelude.Steps.{after-Ok, after-err}
use flockdb.Foreign.{Bytes, Text, FilePath}
use flockdb.Cli.Error.{io}
use flockdb.Cli.Tier.{
  Tree, no_directory, unreadable, directory, Entries, done, failed, file, sub_dir, TierFs,
  adopt_file, copy_tree, copy_entries,
}
use flockdb.Cli.Tier.Fate.{
  Additive, Fates, Fates-refl, Fates-Keeps, Fates-trans, made-Fates, adopt_file-Fates,
}

snoc-append {ℓ} :
    {A : Type ℓ} (xs : List A) (a : A) (ys : List A) → (xs ++ a ∷ []) ++ ys ≡ xs ++ a ∷ ys
snoc-append [] a ys = refl
snoc-append (x ∷ xs) a ys = ap (λ zs. x ∷ zs) (snoc-append xs a ys)

module _ {S Backend Tier Token : Type 0} (fs : TierFs S Backend Tier Token) where
  abbrev Keeps : S → S → Type 0
  Keeps s s' = (path : FilePath) → fs.exists path s ≡ true → fs.exists path s' ≡ true

  -- Every file of a tree is under a path, and the whole tree could be read.
  mutual
    pub AllThere : Tree → FilePath → S → Type 0
    AllThere no_directory dst s = Unit {0}
    AllThere (unreadable e) dst s = ⊥
    AllThere (directory entries) dst s = AllAdopted entries dst s

    pub AllAdopted : Entries → FilePath → S → Type 0
    AllAdopted done dst s = Unit {0}
    AllAdopted (failed e) dst s = ⊥
    AllAdopted (file name rest) dst s =
        (fs.exists (dst ++ name ∷ []) s ≡ true) × AllAdopted rest dst s
    AllAdopted (sub_dir name tree rest) dst s =
        AllThere tree (dst ++ name ∷ []) s × AllAdopted rest dst s

  mutual
    unfolding AllThere AllAdopted

    AllThere-Keeps :
        (t : Tree) (dst : FilePath) (s s' : S) → Keeps s s' → AllThere t dst s → AllThere t dst s'
    AllThere-Keeps no_directory dst s s' k h = tt
    AllThere-Keeps (unreadable e) dst s s' k h = h
    AllThere-Keeps (directory entries) dst s s' k h = AllAdopted-Keeps entries dst s s' k h

    AllAdopted-Keeps :
        (es : Entries) (dst : FilePath) (s s' : S)
        → Keeps s s'
        → AllAdopted es dst s
        → AllAdopted es dst s'
    AllAdopted-Keeps done dst s s' k h = tt
    AllAdopted-Keeps (failed e) dst s s' k h = h
    AllAdopted-Keeps (file name rest) dst s s' k (here, h) =
        (k (dst ++ name ∷ []) here, AllAdopted-Keeps rest dst s s' k h)
    AllAdopted-Keeps (sub_dir name tree rest) dst s s' k (here, h) =
        (AllThere-Keeps tree (dst ++ name ∷ []) s s' k here, AllAdopted-Keeps rest dst s s' k h)

  module _ (content : FilePath → S → Option Bytes) (additive : Additive fs content)
      (src dst : FilePath) (apart : (p q : FilePath) → src ++ p ≡ dst ++ q → ⊥) where
    -- Two paths that are at the same place under the cache and under the pool.
    abbrev Under : FilePath → FilePath → Type 0
    Under from to =
        (rest : FilePath)
        → (place : FilePath) × (from ++ rest ≡ src ++ place) × (to ++ rest ≡ dst ++ place)

    Under-child :
        (from to : FilePath) (name : Text)
        → Under from to
        → Under (from ++ name ∷ []) (to ++ name ∷ [])
    Under-child from to name under rest =
        let (place, at_src, at_dst) = under (name ∷ rest) in
        (place, snoc-append from name rest ∙ at_src, snoc-append to name rest ∙ at_dst)

    mutual
      unfolding copy_tree copy_entries AllThere AllAdopted

      copy_tree-There :
          (t : Tree) (from to : FilePath) (n : ℕ) (s s' : S)
          → Under from to
          → copy_tree fs t from to s ≡ (ok n, s')
          → AllThere t to s' × Fates fs content src dst s s'
      copy_tree-There no_directory from to n s s' under h =
          let is : s ≡ s' = ap (λ o. o.1) h in rw (sym is) (tt, Fates-refl fs content src dst s)
      copy_tree-There (unreadable e) from to n s s' under h =
          let (made, s1, m, h1) =
            after-err (io "create the pool's store" to) (fs.create_dir_all to) s _ h in
          absurd (cc h1)
      copy_tree-There (directory entries) from to n s s' under h =
          let (made, s1, m, h1) =
            after-err (io "create the pool's store" to) (fs.create_dir_all to) s _ h in
          let (all, fates) = copy_entries-There entries from to 0 n s1 s' under h1 in
          let first = made-Fates fs content src dst additive to s s1 m in
          (all, Fates-trans fs content src dst apart s s1 s' first fates)

      copy_entries-There :
          (es : Entries) (from to : FilePath) (before n : ℕ) (s s' : S)
          → Under from to
          → copy_entries fs es from to before s ≡ (ok n, s')
          → AllAdopted es to s' × Fates fs content src dst s s'
      copy_entries-There done from to before n s s' under h =
          let is : s ≡ s' = ap (λ o. o.1) h in rw (sym is) (tt, Fates-refl fs content src dst s)
      copy_entries-There (failed e) from to before n s s' under h = absurd (cc h)
      copy_entries-There (file name rest) from to before n s s' under h =
          let (one, s1, e, h1) =
            after-Ok (adopt_file fs (from ++ name ∷ []) (to ++ name ∷ []) s) _ h in
          let (place, at_src, at_dst) = under (name ∷ []) in
          let (here, fates) =
            adopt_file-Fates fs content src dst additive (from ++ name ∷ []) (to ++ name ∷ []) place
              one s s1 at_src at_dst e in
          let (all, fates') = copy_entries-There rest from to (before + one) n s1 s' under h1 in
          (
            (Fates-Keeps fs content src dst s1 s' fates' (to ++ name ∷ []) here, all),
            Fates-trans fs content src dst apart s s1 s' fates fates',
          )
      copy_entries-There (sub_dir name tree rest) from to before n s s' under h =
          let (more, s1, e, h1) =
            after-Ok (copy_tree fs tree (from ++ name ∷ []) (to ++ name ∷ []) s) _ h in
          let (here, fates) =
            copy_tree-There tree (from ++ name ∷ []) (to ++ name ∷ []) more s s1
              (Under-child from to name under) e in
          let (all, fates') = copy_entries-There rest from to (before + more) n s1 s' under h1 in
          let keeps = Fates-Keeps fs content src dst s1 s' fates' in
          (
            (AllThere-Keeps tree (to ++ name ∷ []) s1 s' keeps here, all),
            Fates-trans fs content src dst apart s s1 s' fates fates',
          )
