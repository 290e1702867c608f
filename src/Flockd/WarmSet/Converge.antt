-- ===== src/Flockd/WarmSet/Converge.antt =====
-- Learning one trace again changes nothing: a stable workload's set converges.
use flockdb.Prelude.{
  ℕ, ◌≡◌, refl, sym, ◌⊎◌, inl, inr, true, List, [], ◌∷◌, arith, Bool-cases, contains,
}
use flockdb.Flockd.WarmSet.{WarmSet, learn_page, learn}
use flockdb.Flockd.WarmSet.Learn.{
  IsValid, Learned, known, dropped, added, learn_page-Learned, learn_page-IsValid, learn_page-Grown,
  learn-IsValid,
}

-- The page is in the set, or the set has already dropped a page.
abbrev Settled : WarmSet → ℕ → Type 0
Settled set q = (contains q set.pages ≡ true) ⊎ (set.saturated ≡ true)

abbrev AllSettled : WarmSet → List ℕ → Type 0
AllSettled set [] = Unit
AllSettled set (q ∷ qs) = Settled set q × AllSettled set qs

Learned-same :
    (set : WarmSet) (q : ℕ) {set' : WarmSet}
    → Learned set q set'
    → IsValid set
    → Settled set q
    → set' ≡ set
Learned-same set q (known h) v s = refl
Learned-same set q (dropped h f) v (inl c) = cc
Learned-same set q (dropped h f) v (inr c) = λ i. record { pages = set.pages; saturated = sym c i }
Learned-same set q (added ys ins room) v (inl c) = let a = ins.absent in cc
Learned-same set q (added ys ins room) v (inr c) = absurd (let f = v.full c in omega arith)

learn-AllSettled :
    (set : WarmSet) (qs : List ℕ) → IsValid set → AllSettled set qs → learn set qs ≡ set
unfolding learn
learn-AllSettled set [] v s = refl
learn-AllSettled set (q ∷ qs) v s =
    let e = Learned-same set q (learn_page-Learned set q v) v s.0 in
    rw e (learn-AllSettled set qs v s.1)

saturated_stays :
    (set : WarmSet) (q : ℕ)
    → IsValid set
    → set.saturated ≡ true
    → (learn_page set q).saturated ≡ true
saturated_stays set q v h = elim (Bool-cases (learn_page set q).saturated) [
  | inl t ↦ t
  | inr f ↦ let s = (learn_page-Grown set q v).saturates f in cc
]

Settled-learn :
    (set : WarmSet) (q : ℕ) (qs : List ℕ) → IsValid set → Settled set q → Settled (learn set qs) q
unfolding learn
Settled-learn set q [] v s = s
Settled-learn set q (p ∷ qs) v s =
    Settled-learn (learn_page set p) q qs (learn_page-IsValid set p v) (after s)
  where
    after : Settled set q → Settled (learn_page set p) q
    after (inl c) = inl ((learn_page-Grown set p v).keeps q c)
    after (inr c) = inr (saturated_stays set p v c)

settles : (set : WarmSet) (q : ℕ) {set' : WarmSet} → Learned set q set' → Settled set' q
settles set q (known h) = inl h
settles set q (dropped h f) = inr refl
settles set q (added ys ins room) = inl (ground (arith, ins.member q))

learn_settles : (set : WarmSet) (qs : List ℕ) → IsValid set → AllSettled (learn set qs) qs
unfolding learn
learn_settles set [] v = tt
learn_settles set (q ∷ qs) v =
    let v' = learn_page-IsValid set q v in
    (
      Settled-learn (learn_page set q) q qs v' (settles set q (learn_page-Learned set q v)),
      learn_settles (learn_page set q) qs v',
    )

-- Observing one trace a second time changes nothing, the saturated set included.
pub learn-learn :
    (set : WarmSet) (touched : List ℕ)
    → IsValid set
    → learn (learn set touched) touched ≡ learn set touched
learn-learn set touched v =
    learn-AllSettled (learn set touched) touched (learn-IsValid set touched v)
      (learn_settles set touched v)
