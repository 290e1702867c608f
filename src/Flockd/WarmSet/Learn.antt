-- ===== src/Flockd/WarmSet/Learn.antt =====
-- What `learn` keeps and what it adds.
use flockdb.Prelude.{
  ℕ, suc, ◌≤◌, ◌<◌, ◌≡◌, refl, ap, inl, inr, Bool, true, false, ◌||◌, List, [], ◌∷◌, arith, tests,
  ltb, leb, ◌==◌, leb→le, leb→lt, ==_iff, Bool-cases, Result-cases, length, Result, ok, err,
  contains, AscendsFrom, contains_below,
}
use flockdb.Flockd.WarmSet.{WarmSet, warm_set_cap, binary_search, insert_at, learn_page, learn}

-- A page that the search finds is in the list.
pub search-ok : (xs : List ℕ) (x : ℕ) {i : ℕ} → binary_search xs x ≡ ok i → contains x xs ≡ true
unfolding binary_search
search-ok [] x h = cc
search-ok (y ∷ ys) x h = elim (Result-cases (binary_search ys x)) [
  | inl (i, e) ↦ ground (arith, search-ok ys x e, e)
  | inr (i, e) ↦ ground (arith, e)
]

err-injective : (i j : ℕ) → ◌≡◌ {A = Result ℕ ℕ} (err i) (err j) → i ≡ j
err-injective i j h = cc

-- Insertion at the index that a failed search reports.
pub record Inserted (lo : ℕ) (xs ys : List ℕ) (x : ℕ) : Type 0 where
  pub ascends : AscendsFrom lo ys
  pub longer : length ys ≡ suc (length xs)
  pub member : (q : ℕ) → contains q ys ≡ (q == x || contains q xs)
  pub absent : contains x xs ≡ false

search-err :
    (lo : ℕ) (xs : List ℕ) (x : ℕ) {i : ℕ}
    → AscendsFrom lo xs
    → lo ≤ x
    → binary_search xs x ≡ err i
    → Inserted lo xs (insert_at i x xs) x
unfolding binary_search insert_at
search-err lo [] x a p h =
    let e = err-injective 0 _ h in
    rw (← e) (record { ascends = (p, tt); longer = refl; member = λ q. refl; absent = refl })
search-err lo (y ∷ ys) x {i} a p h = elim (Bool-cases (ltb x y)) [
  | inl less ↦
      let e : 0 ≡ i = ground (arith, h) in
      rw (← e) (record {
        ascends = (p, (omega tests, a.1));
        longer = refl;
        member = λ q. refl;
        absent = ground (arith, contains_below x (suc y) ys (omega tests) a.1);
      })
  | inr more ↦ elim (Result-cases (binary_search ys x)) [
    | inl (j, e) ↦ absurd (ground (arith, h, e))
    | inr (j, e) ↦
        let s : suc j ≡ i = ground (arith, h, e) in
        let ne : (x == y) ≡ false = ground (arith, h, e) in
        let r = search-err (suc y) ys x a.1 (ground arith) e in
        rw (← s) (record {
          ascends = (a.0, r.ascends);
          longer = ap suc r.longer;
          member = λ q. ground (arith, r.member q);
          absent = ground (arith, r.absent);
        })
  ]
]

or_assoc : (a b c : Bool) → ((a || b) || c) ≡ (b || (a || c))
or_assoc a b c = ground arith

or_cases :
    (a b c d : Bool) → (a || b) ≡ true → (a ≡ true → (c || d) ≡ true) → (d || (c || b)) ≡ true
or_cases true b c d h f = ground (arith, f refl)
or_cases false b c d h f = ground arith

-- The set is ascending, so without repeats, within the cap, and full if it says that it is saturated.
pub record IsValid (set : WarmSet) : Type 0 where
  pub ascends : AscendsFrom 0 set.pages
  pub bounded : length set.pages ≤ warm_set_cap
  pub full : set.saturated ≡ true → warm_set_cap ≤ length set.pages

-- The three outcomes of a round.
pub data Learned (set : WarmSet) (page : ℕ) : WarmSet → Type 0 where
  known : contains page set.pages ≡ true → Learned set page set
  dropped :
      contains page set.pages ≡ false
      → warm_set_cap ≤ length set.pages
      → Learned set page (record set { saturated = true })
  added :
      (ys : List ℕ)
      → Inserted 0 set.pages ys page
      → length set.pages < warm_set_cap
      → Learned set page (record set { pages = ys })

pub learn_page-Learned :
    (set : WarmSet) (page : ℕ) → IsValid set → Learned set page (learn_page set page)
unfolding learn_page
learn_page-Learned set page v = elim (Result-cases (binary_search set.pages page)) [
  | inl (i, e) ↦ rw (e, learn_page) (known (search-ok set.pages page e))
  | inr (i, e) ↦
      let ins = search-err 0 set.pages page v.ascends (omega arith) e in
      elim (Bool-cases (leb warm_set_cap (length set.pages))) [
        | inl is_full ↦ rw (e, is_full, learn_page) (dropped ins.absent (leb→le _ _ is_full))
        | inr room ↦ rw (e, room, learn_page) (added _ ins (leb→lt _ _ room))
      ]
]

Learned-IsValid :
    (set : WarmSet) (page : ℕ) {set' : WarmSet} → Learned set page set' → IsValid set → IsValid set'
Learned-IsValid set page (known h) v = v
Learned-IsValid set page (dropped h f) v = record {
  ascends = v.ascends;
  bounded = v.bounded;
  full = λ _. f;
}
Learned-IsValid set page (added ys ins room) v =
    let l = ins.longer in
    record {
      ascends = ins.ascends;
      bounded = omega arith;
      full = λ s. absurd (let f = v.full s in omega arith);
    }

-- Learning a trace keeps the set strictly ascending, within its cap of 8192 pages, and full where it
-- reports that it is saturated.
pub learn-IsValid : (set : WarmSet) (touched : List ℕ) → IsValid set → IsValid (learn set touched)
unfolding learn
learn-IsValid set [] v = v
learn-IsValid set (page ∷ touched) v =
    learn-IsValid (learn_page set page) touched
      (Learned-IsValid set page (learn_page-Learned set page v) v)

-- A set that is not saturated has learned its page; one that is has dropped it at most.
pub record Grown (set : WarmSet) (page : ℕ) (set' : WarmSet) : Type 0 where
  pub saturates : set'.saturated ≡ false → set.saturated ≡ false
  pub all_in :
      set'.saturated ≡ false → (q : ℕ) → contains q set'.pages ≡ (q == page || contains q set.pages)
  pub keeps : (q : ℕ) → contains q set.pages ≡ true → contains q set'.pages ≡ true
  pub invents_none :
      (q : ℕ) → contains q set'.pages ≡ true → (q == page || contains q set.pages) ≡ true

contains_known :
    (q page : ℕ) (xs : List ℕ)
    → contains page xs ≡ true
    → contains q xs ≡ (q == page || contains q xs)
contains_known q page xs h = elim (Bool-cases (q == page)) [
  | inl e ↦ let p : q ≡ page = (==_iff q page).0 e in rw e (rw p h)
  | inr n ↦ rw n
]

Learned-Grown :
    (set : WarmSet) (page : ℕ) {set' : WarmSet} → Learned set page set' → Grown set page set'
Learned-Grown set page (known h) = record {
  saturates = λ p. p;
  all_in = λ p q. contains_known q page set.pages h;
  keeps = λ q h. h;
  invents_none = λ q h. ground arith;
}
Learned-Grown set page (dropped h f) = record {
  saturates = λ p. cc;
  all_in = λ p q. cc;
  keeps = λ q h. h;
  invents_none = λ q h. ground arith;
}
Learned-Grown set page (added ys ins room) = record {
  saturates = λ p. p;
  all_in = λ p q. ins.member q;
  keeps = λ q h. ground (arith, ins.member q);
  invents_none = λ q h. ground (arith, ins.member q);
}

pub learn_page-Grown :
    (set : WarmSet) (page : ℕ) → IsValid set → Grown set page (learn_page set page)
learn_page-Grown set page v = Learned-Grown set page (learn_page-Learned set page v)

pub learn_page-IsValid : (set : WarmSet) (page : ℕ) → IsValid set → IsValid (learn_page set page)
learn_page-IsValid set page v = Learned-IsValid set page (learn_page-Learned set page v) v

saturated-learn :
    (set : WarmSet) (touched : List ℕ)
    → IsValid set
    → (learn set touched).saturated ≡ false
    → set.saturated ≡ false
unfolding learn
saturated-learn set [] v h = h
saturated-learn set (page ∷ touched) v h =
    (learn_page-Grown set page v).saturates
      (saturated-learn (learn_page set page) touched (learn_page-IsValid set page v) h)

-- A valid set that is not saturated after learning holds exactly the pages that it held and the
-- pages of the trace.
pub contains-learn :
    (set : WarmSet) (touched : List ℕ)
    → IsValid set
    → (learn set touched).saturated ≡ false
    → (q : ℕ) → contains q (learn set touched).pages ≡ (contains q set.pages || contains q touched)
unfolding learn
contains-learn set [] v h q = ground arith
contains-learn set (page ∷ touched) v h q =
    let v' = learn_page-IsValid set page v in
    let set' = learn_page set page in
    let g = (learn_page-Grown set page v).all_in (saturated-learn set' touched v' h) q in
    let ih = contains-learn set' touched v' h q in
    rw (ih, g) (or_assoc (q == page) (contains q set.pages) (contains q touched))

-- Whether or not the cap is hit, a valid set forgets no page by learning, and every page that it
-- holds afterwards it held before or stands in the trace.
pub learn_keeps_and_invents_none :
    (set : WarmSet) (touched : List ℕ) (q : ℕ)
    → IsValid set
    → (contains q set.pages ≡ true → contains q (learn set touched).pages ≡ true)
      × (contains q (learn set touched).pages ≡ true
          → (contains q set.pages || contains q touched) ≡ true)
unfolding learn
learn_keeps_and_invents_none set [] q v = (λ h. h, λ h. ground arith)
learn_keeps_and_invents_none set (page ∷ touched) q v =
    let g = learn_page-Grown set page v in
    let (keep, only) =
      learn_keeps_and_invents_none (learn_page set page) touched q
        (learn_page-IsValid set page v) in
    (
      λ h. keep (g.keeps q h),
      λ h.
          or_cases (contains q (learn_page set page).pages) (contains q touched) _ _ (only h)
            (g.invents_none q),
    )
