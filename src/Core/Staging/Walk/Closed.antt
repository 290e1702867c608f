-- ===== src/Core/Staging/Walk/Closed.antt =====
-- The walk takes in every manifest that is reached, and every page of those is copied.
use flockdb.Prelude.{
  ℕ, zero, suc, ◌≡◌, refl, sym, ap, ◌∙◌, inl, inr, true, List, [], ◌∷◌, Option, none, some, arith,
  ◌==◌, ==_iff, Bool-cases, ok, contains, map_err,
}
use flockdb.Prelude.Steps.{after-Ok, blame, blame-Ok}
use flockdb.Foreign.{ManifestId, PageId}
use flockdb.Core.Error.{pager}
use flockdb.Core.Store.{Pager}
use flockdb.Core.Staging.{push, edges, insert_all, visit, walk, copy_pages, copy_found, stage}
use flockdb.Core.Staging.Walk.{
  Keeps, Keeps-refl, Keeps-trans, Staged, Reach, start, by_base, by_parent, known, contains-push,
  contains-push_self, insert_all-old, insert_all-new,
}

module _ {S Txn Manifest Page : Type 0} (src dst : Pager S Txn Manifest Page)
    (staged : Staged src dst) where
  abbrev pub Kept : S → S → Type 0
  Kept = Keeps src staged.Held staged.HeldPage

  -- The manifest of an id is held, its pages are among those found, and its edges are known.
  record Visited (seen stack : List ManifestId) (ids : List PageId) (s : S) (id : ManifestId)
      : Type 0 where
    manifest : Manifest
    read : src.manifest id s ≡ ok manifest
    held : staged.Held id s
    values : List PageId
    resolved : src.values id s ≡ ok values
    found : (p : PageId) → contains p values ≡ true → contains p ids ≡ true
    base : (b : ManifestId) → src.overlay_base manifest ≡ some b → known seen stack b ≡ true
    parent : (b : ManifestId) → src.parent manifest ≡ some b → known seen stack b ≡ true

  Visited-Kept :
      {seen stack seen' stack' : List ManifestId} {ids ids' : List PageId} {s s' : S}
      {id : ManifestId}
      → Kept s s'
      → ((p : PageId) → contains p ids ≡ true → contains p ids' ≡ true)
      → ((b : ManifestId) → known seen stack b ≡ true → known seen' stack' b ≡ true)
      → Visited seen stack ids s id
      → Visited seen' stack' ids' s' id
  Visited-Kept {id = id} k more wider v = record {
    manifest = v.manifest;
    read = k.manifest id ∙ v.read;
    held = k.held id v.held;
    values = v.values;
    resolved = k.values id ∙ v.resolved;
    found = λ p h. more p (v.found p h);
    base = λ b h. wider b (v.base b h);
    parent = λ b h. wider b (v.parent b h);
  }

  abbrev AllVisited : (seen stack : List ManifestId) → List PageId → S → Type 0
  AllVisited seen stack ids s =
      (id : ManifestId) → contains id seen ≡ true → Visited seen stack ids s id

  pub visit-Ok :
      (id : ManifestId) (ids : List PageId) (s : S) {m : Manifest} {ids' : List PageId} {s' : S}
      → visit src dst id ids s ≡ (ok (m, ids'), s')
      → (src.manifest id s ≡ ok m)
        × (vs : List PageId) × (src.values id s ≡ ok vs)
        × (dst.put_manifest m s ≡ (ok tt, s'))
        × (ids' ≡ insert_all vs ids)
  unfolding visit
  visit-Ok id ids s {m} {ids'} {s'} h =
      let (m1, s1, e1, h1) =
        after-Ok (map_err (pager "read manifest") (src.manifest id s), s) _ h in
      let a1 = blame-Ok (pager "read manifest") (src.manifest id s, s) e1 in
      let (vs, s2, e2, h2) =
        after-Ok (map_err (pager "resolve manifest") (src.values id s1), s1) _ h1 in
      let a2 = blame-Ok (pager "resolve manifest") (src.values id s1, s1) e2 in
      let (done, s3, e3, h3) =
        after-Ok (blame (pager "stage manifest") (dst.put_manifest m1 s2)) _ h2 in
      let a3 = blame-Ok (pager "stage manifest") (dst.put_manifest m1 s2) e3 in
      let m_is : m1 ≡ m = cc h3 in
      let s1_is : s1 ≡ s = sym (ap (λ o. o.1) a1) in
      let s2_is : s2 ≡ s = sym (ap (λ o. o.1) a2) ∙ s1_is in
      let s3_is : s3 ≡ s' = cc h3 in
      (
        ap (λ o. o.0) a1 ∙ ap ok m_is,
        vs,
        rw s1_is at (ap (λ o. o.0) a2),
        rw (m_is, s2_is, s3_is) at a3,
        cc h3,
      )

  known_skip :
      (seen stack : List ManifestId) (id b : ManifestId)
      → contains id seen ≡ true
      → known seen (id ∷ stack) b ≡ true
      → known seen stack b ≡ true
  known_skip seen stack id b there h = elim (Bool-cases (b == id)) [
    | inl same ↦ let e : b ≡ id = (==_iff b id).0 same in rw e (rw there refl)
    | inr other ↦ rw other at h
  ]

  known_visit :
      (seen stack : List ManifestId) (m : Manifest) (id b : ManifestId)
      → known seen (id ∷ stack) b ≡ true
      → known (id ∷ seen) (edges src dst m stack) b ≡ true
  known_visit seen stack m id b h =
      let below = contains-push (src.overlay_base m) stack b in
      let above = contains-push (src.parent m) (push (src.overlay_base m) stack) b in
      ground (arith, h, below, above)

  record Walked (seen stack : List ManifestId) (ids' : List PageId) (s s' : S) : Type 0 where
    last : List ManifestId
    kept : Kept s s'
    all : AllVisited last [] ids' s'
    wide : (b : ManifestId) → known seen stack b ≡ true → contains b last ≡ true

  -- A visited manifest is visited too.
  visit-AllVisited :
      (id : ManifestId) (seen stack : List ManifestId) (ids : List PageId) (s : S) {m : Manifest}
      {ids' : List PageId} {s' : S}
      → AllVisited seen (id ∷ stack) ids s
      → visit src dst id ids s ≡ (ok (m, ids'), s')
      → Kept s s' × AllVisited (id ∷ seen) (edges src dst m stack) ids' s'
  visit-AllVisited id seen stack ids s {m} {ids'} {s'} all h =
      let (read, vs, resolved, put, ids_are) = visit-Ok id ids s h in
      let (held, kept) = staged.stages id m s s' read put in
      let more : (p : PageId) → contains p ids ≡ true → contains p ids' ≡ true =
        λ p q. rw ids_are (insert_all-old vs ids p q) in
      let here : Visited (id ∷ seen) (edges src dst m stack) ids' s' id = record {
        manifest = m;
        read = kept.manifest id ∙ read;
        held = held;
        values = vs;
        resolved = kept.values id ∙ resolved;
        found = λ p q. rw ids_are (insert_all-new vs ids p q);
        base = λ b q.
            let first = contains-push_self (src.overlay_base m) stack b q in
            let z = contains-push (src.parent m) (push (src.overlay_base m) stack) b first in
            ground (arith, z);
        parent = λ b q.
            let z = contains-push_self (src.parent m) (push (src.overlay_base m) stack) b q in
            ground (arith, z);
      } in
      (
        kept,
        λ b q. elim (Bool-cases (b == id)) [
          | inl same ↦ let e : b ≡ id = (==_iff b id).0 same in rw e here
          | inr other ↦
              Visited-Kept kept more (λ c w. known_visit seen stack m id c w)
                (all b (rw other at q))
        ],
      )

  walk-Walked :
      (fuel : ℕ) (seen stack : List ManifestId) (ids : List PageId) (s : S) {ids' : List PageId}
      {s' : S}
      → AllVisited seen stack ids s
      → walk src dst fuel seen stack ids s ≡ (ok (some ids'), s')
      → Walked seen stack ids' s s'
  unfolding walk
  walk-Walked fuel seen [] ids s {ids'} {s'} all h =
      let ids_are : ids ≡ ids' = cc h in
      let s_is : s ≡ s' = cc h in
      rw (sym ids_are) (
        rw (sym s_is) (record {
          last = seen;
          kept = Keeps-refl src staged.Held staged.HeldPage s;
          all = all;
          wide = λ b w. ground (arith, w);
        }))
  walk-Walked zero seen (id ∷ stack) ids s all h = absurd (cc h)
  walk-Walked (suc fuel) seen (id ∷ stack) ids s {ids'} {s'} all h =
      elim (Bool-cases (contains id seen)) [
        | inl there ↦
            let w =
              walk-Walked fuel seen stack ids s
                (λ b q.
                  Visited-Kept (Keeps-refl src staged.Held staged.HeldPage s) (λ p r. r)
                    (λ c r. known_skip seen stack id c there r) (all b q))
                (rw (there, walk) at h) in
            record {
              last = w.last;
              kept = w.kept;
              all = w.all;
              wide = λ b r. w.wide b (known_skip seen stack id b there r);
            }
        | inr fresh ↦
            let ((m, ids1), s1, e, rest) =
              after-Ok (visit src dst id ids s) _ (rw (fresh, walk) at h) in
            let (kept, all1) = visit-AllVisited id seen stack ids s all e in
            let w = walk-Walked fuel (id ∷ seen) (edges src dst m stack) ids1 s1 all1 rest in
            record {
              last = w.last;
              kept = Keeps-trans src staged.Held staged.HeldPage s s1 s' kept w.kept;
              all = w.all;
              wide = λ b r. w.wide b (known_visit seen stack m id b r);
            }
      ]

  Walked-Reach :
      {head : ManifestId} {stack : List ManifestId} {ids' : List PageId} {s s' : S}
      (w : Walked [] (head ∷ stack) ids' s s') {id : ManifestId}
      → Reach src s head id
      → contains id w.last ≡ true
  Walked-Reach {head} w start = w.wide head (rw ((==_iff head head).1 refl) refl)
  Walked-Reach w (by_base {id} {base = b} {m} r read edge) =
      let v = w.all id (Walked-Reach w r) in
      let same : m ≡ v.manifest = let z = sym read ∙ sym (w.kept.manifest id) ∙ v.read in cc z in
      let z = v.base b (rw same at edge) in ground (arith, z)
  Walked-Reach w (by_parent {id} {parent = b} {m} r read edge) =
      let v = w.all id (Walked-Reach w r) in
      let same : m ≡ v.manifest = let z = sym read ∙ sym (w.kept.manifest id) ∙ v.read in cc z in
      let z = v.parent b (rw same at edge) in ground (arith, z)

  -- The pages of a list are all in the staging store.
  abbrev pub AllHeld : List PageId → S → Type 0
  AllHeld [] s = Unit {0}
  AllHeld (id ∷ ids) s = staged.HeldPage id s × AllHeld ids s

  AllHeld-intro :
      (ids : List PageId) (s : S)
      → ((p : PageId) → contains p ids ≡ true → staged.HeldPage p s)
      → AllHeld ids s
  AllHeld-intro [] s h = tt
  AllHeld-intro (id ∷ ids) s h =
      (h id (rw ((==_iff id id).1 refl) refl), AllHeld-intro ids s (λ p r. h p (ground (arith, r))))

  pub AllHeld-Kept : (ids : List PageId) (s s' : S) → Kept s s' → AllHeld ids s → AllHeld ids s'
  AllHeld-Kept [] s s' k h = tt
  AllHeld-Kept (id ∷ ids) s s' k (here, rest) = (k.held_page id here, AllHeld-Kept ids s s' k rest)

  copy_pages-Held :
      (ids : List PageId) (s s' : S)
      → copy_pages src dst ids s ≡ (ok tt, s')
      → Kept s s' × ((p : PageId) → contains p ids ≡ true → staged.HeldPage p s')
  unfolding copy_pages
  copy_pages-Held [] s s' h =
      let e : s ≡ s' = cc h in
      (rw (sym e) (Keeps-refl src staged.Held staged.HeldPage s), λ p r. absurd (cc r))
  copy_pages-Held (id ∷ ids) s s' h =
      let (page, s1, e1, h1) =
        after-Ok (map_err (pager "read page for upload") (src.get id s), s) _ h in
      let a1 = blame-Ok (pager "read page for upload") (src.get id s, s) e1 in
      let s1_is : s1 ≡ s = sym (ap (λ o. o.1) a1) in
      let (done, s2, e2, h2) =
        after-Ok (blame (pager "stage page for upload") (dst.put page s1)) _ h1 in
      let a2 : dst.put page s ≡ (ok tt, s2) =
        rw s1_is at (blame-Ok (pager "stage page for upload") (dst.put page s1) e2) in
      let (held, kept) = staged.uploads id page s s2 (ap (λ o. o.0) a1) a2 in
      let (kept', rest) = copy_pages-Held ids s2 s' h2 in
      (
        Keeps-trans src staged.Held staged.HeldPage s s2 s' kept kept',
        λ p r. elim (Bool-cases (p == id)) [
          | inl same ↦ let e : p ≡ id = (==_iff p id).0 same in rw e (kept'.held_page id held)
          | inr other ↦ rest p (rw other at r)
        ],
      )

  -- A staging that returned, from a source and into a store where what is put is held: every manifest
  -- that is reached from the head by overlay and parent edges is held by the staging store, and so is
  -- every page that it resolves to. This is for any amount of fuel that did not run out.
  pub stage-Held :
      (fuel : ℕ) (head : ManifestId) (s s' : S)
      → stage src dst fuel head s ≡ (ok (some tt), s')
      → (id : ManifestId) → Reach src s head id
      → staged.Held id s'
        × (values : List PageId) × (src.values id s ≡ ok values)
        × AllHeld values s'
  unfolding stage
  stage-Held fuel head s s' h id r =
      let (found, s1, walked, copied) =
        after-Ok (walk src dst fuel [] (head ∷ []) [] s) (copy_found src dst) h in
      ended found s1 walked copied
    where
      ended :
          (found : Option (List PageId)) (s1 : S)
          → walk src dst fuel [] (head ∷ []) [] s ≡ (ok found, s1)
          → copy_found src dst found s1 ≡ (ok (some tt), s')
          → staged.Held id s'
            × (values : List PageId) × (src.values id s ≡ ok values)
            × AllHeld values s'
      ended none s1 walked copied = absurd (cc copied)
      ended (some ids) s1 walked copied =
          let w = walk-Walked fuel [] (head ∷ []) [] s (λ b q. absurd (cc q)) walked in
          let v = w.all id (Walked-Reach w r) in
          let (done, s2, went, last) = after-Ok (copy_pages src dst ids s1) _ copied in
          let s2_is : s2 ≡ s' = cc last in
          let (kept, held) = copy_pages-Held ids s1 s' (rw s2_is at went) in
          (
            kept.held id v.held,
            v.values,
            sym (w.kept.values id) ∙ v.resolved,
            AllHeld-intro v.values s' (λ p q. held p (v.found p q)),
          )
