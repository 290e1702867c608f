-- ===== src/Core/Staging/Walk/Fuel.antt =====
-- The walk ends: a manifest that is seen for the first time adds at most two to the stack, and there
-- are only so many of them.
use flockdb.Prelude.{
  ℕ, zero, suc, ◌+◌, ◌*◌, ◌≤◌, ◌≡◌, refl, sym, ◌∙◌, ◌⊎◌, inl, inr, Bool, true, false, List, [], ◌∷◌,
  Option, none, some, arith, ◌==◌, ==_iff, Bool-cases, Result, ok, err, length, contains,
  if◌then◌else◌,
}
use flockdb.Prelude.Steps.{outcome}
use flockdb.Foreign.{ManifestId, PageId}
use flockdb.Core.Error.{FlockError}
use flockdb.Core.Store.{Pager}
use flockdb.Core.Staging.{push, edges, visit, walk, copy_pages, stage}
use flockdb.Core.Staging.Walk.{Staged}
use flockdb.Core.Staging.Walk.Closed.{visit-Ok, Kept}

-- How many of the manifests have not been seen.
missing : List ManifestId → List ManifestId → ℕ
missing [] seen = 0
missing (u ∷ us) seen = (if contains u seen then 0 else 1) + missing us seen

missing_mono :
    (us seen : List ManifestId) (id : ManifestId) → missing us (id ∷ seen) ≤ missing us seen
unfolding missing
missing_mono [] seen id = omega arith
missing_mono (u ∷ us) seen id = ground (arith, missing_mono us seen id)

missing-new :
    (us seen : List ManifestId) (id : ManifestId)
    → contains id us ≡ true
    → contains id seen ≡ false
    → suc (missing us (id ∷ seen)) ≤ missing us seen
unfolding missing
missing-new [] seen id h fresh = absurd (cc h)
missing-new (u ∷ us) seen id h fresh = elim (Bool-cases (id == u)) [
  | inl same ↦
      let e : u ≡ id = sym ((==_iff id u).0 same) in
      let rest = missing_mono us seen id in
      rw e (rw ((==_iff id id).1 refl) (rw fresh (omega (arith, rest))))
  | inr other ↦ let rest = missing-new us seen id (rw other at h) fresh in ground (arith, rest)
]

missing-none : (us : List ManifestId) → missing us [] ≡ length us
unfolding missing
missing-none [] = refl
missing-none (u ∷ us) = let z = missing-none us in omega (arith, z)

length-push :
    (o : Option ManifestId) (stack : List ManifestId) → length (push o stack) ≤ suc (length stack)
length-push none stack = omega arith
length-push (some id) stack = omega arith

contains_all : List ManifestId → List ManifestId → Bool
contains_all us [] = true
contains_all us (id ∷ ids) = if contains id us then contains_all us ids else false

contains_all-push :
    (us : List ManifestId) (o : Option ManifestId) (stack : List ManifestId)
    → ((id : ManifestId) → o ≡ some id → contains id us ≡ true)
    → contains_all us stack ≡ true
    → contains_all us (push o stack) ≡ true
unfolding contains_all
contains_all-push us none stack h r = r
contains_all-push us (some id) stack h r = rw (h id refl) r

module _ {S Txn Manifest Page : Type 0} (src dst : Pager S Txn Manifest Page)
    (staged : Staged src dst) (us : List ManifestId) where
  -- The manifests of a list have their edges in it.
  pub record Closes (s : S) : Type 0 where
    pub base :
        (id b : ManifestId) (m : Manifest)
        → contains id us ≡ true
        → src.manifest id s ≡ ok m
        → src.overlay_base m ≡ some b
        → contains b us ≡ true
    pub parent :
        (id b : ManifestId) (m : Manifest)
        → contains id us ≡ true
        → src.manifest id s ≡ ok m
        → src.parent m ≡ some b
        → contains b us ≡ true

  Closes-Kept : (s s' : S) → Kept src dst staged s s' → Closes s → Closes s'
  Closes-Kept s s' k c = record {
    base = λ id b m h r. c.base id b m h (sym (k.manifest id) ∙ r);
    parent = λ id b m h r. c.parent id b m h (sym (k.manifest id) ∙ r);
  }

  -- Which outcomes are left when the fuel is enough.
  abbrev pub Ended : {A : Type 0} → Result FlockError (Option A) × S → Type 0
  Ended {A} out =
      ((a : A) × (s' : S) × (out ≡ (ok (some a), s')))
      ⊎ ((e : FlockError) × (s' : S) × (out ≡ (err e, s')))

  walk-Ended :
      (fuel : ℕ) (seen stack : List ManifestId) (ids : List PageId) (s : S)
      → Closes s
      → contains_all us stack ≡ true
      → 2 * missing us seen + length stack ≤ fuel
      → Ended (walk src dst fuel seen stack ids s)
  unfolding walk contains_all
  walk-Ended fuel seen [] ids s c all enough = inl (ids, s, refl)
  walk-Ended zero seen (id ∷ stack) ids s c all enough = absurd (omega (arith, enough))
  walk-Ended (suc fuel) seen (id ∷ stack) ids s c all enough =
      let here : contains id us ≡ true = ground (arith, all) in
      let rest : contains_all us stack ≡ true = rw here at all in
      elim (Bool-cases (contains id seen)) [
        | inl there ↦
            rw (there, walk) (walk-Ended fuel seen stack ids s c rest (omega (arith, enough)))
        | inr fresh ↦ elim (outcome (visit src dst id ids s)) [
          | inr (e, s1, went) ↦ rw (fresh, went, walk) (inr (e, s1, refl))
          | inl ((m, ids1), s1, went) ↦
              let (read, vs, resolved, put, is) = visit-Ok src dst staged id ids s went in
              let (held, kept) = staged.stages id m s s1 read put in
              let fewer = missing-new us seen id here fresh in
              let a = length-push (src.overlay_base m) stack in
              let b = length-push (src.parent m) (push (src.overlay_base m) stack) in
              rw (fresh, went, walk)
                (walk-Ended fuel (id ∷ seen) (edges src dst m stack) ids1 s1
                  (Closes-Kept s s1 kept c)
                  (contains_all-push us (src.parent m) (push (src.overlay_base m) stack)
                    (λ p h. c.parent id p m here read h)
                    (contains_all-push us (src.overlay_base m) stack
                      (λ p h. c.base id p m here read h) rest))
                  (omega (arith, enough, fewer, a, b)))
        ]
      ]

  -- A staging ends: if a list has the head's id and the ids of the edges of each manifest that it has,
  -- then twice its length and one more is fuel enough, and the staging is done or failed with an error.
  pub stage-Ended :
      (head : ManifestId) (s : S)
      → Closes s
      → contains head us ≡ true
      → Ended (stage src dst (2 * length us + 1) head s)
  unfolding stage contains_all
  stage-Ended head s c here =
      let n = missing-none us in
      elim (walk-Ended (2 * length us + 1) [] (head ∷ []) [] s c (rw here refl)
        (omega (arith, n))) [
          | inr (e, s1, went) ↦ rw went (inr (e, s1, refl))
          | inl (ids, s1, went) ↦ rw went (elim (outcome (copy_pages src dst ids s1)) [
            | inr (e, s2, copied) ↦ rw copied (inr (e, s2, refl))
            | inl (done, s2, copied) ↦ rw copied (inl (tt, s2, refl))
          ])
        ]
