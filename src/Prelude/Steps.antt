-- ===== src/Prelude/Steps.antt =====
-- Calls that change a state: from a state to a result and the next one. `>>=` is the `?` after such
-- a call, which keeps the state that the failed call left.
use mathlib.Core.Path.{◌≡◌, refl, sym, ap}
use mathlib.Core.Logic.{◌⊎◌, inl, inr}
use flockdb.Prelude.Results.{Result, ok, err, map_err}

abbrev pub Step {ℓ} : Type 0 → Type 0 → Type ℓ → Type ℓ
Step W E A = W → Result E A × W

abbrev pub after {ℓ κ} :
    {W E : Type 0} {A : Type ℓ} {B : Type κ} → Result E A × W → (A → Step W E B) → Result E B × W
after (ok a, w) k = k a w
after (err e, w) k = (err e, w)

infixl 5 ◌>>=◌ ◌>>◌
abbrev pub ◌>>=◌ {ℓ κ} :
    {W E : Type 0} {A : Type ℓ} {B : Type κ} → Step W E A → (A → Step W E B) → Step W E B
◌>>=◌ m k w = after (m w) k

abbrev pub ◌>>◌ {κ} : {W E : Type 0} {B : Type κ} → Step W E (Unit {0}) → Step W E B → Step W E B
◌>>◌ m k w = after (m w) (λ _. k)

abbrev pub give {ℓ} : {W E : Type 0} {A : Type ℓ} → A → Step W E A
give a w = (ok a, w)

abbrev pub fail {ℓ} : {W E : Type 0} {A : Type ℓ} → E → Step W E A
fail e w = (err e, w)

-- A call that leaves the state.
abbrev pub look {ℓ} : {W E : Type 0} {A : Type ℓ} → (W → Result E A) → Step W E A
look r w = (r w, w)

abbrev pub blame {ℓ} : {W E F : Type 0} {A : Type ℓ} → (E → F) → Result E A × W → Result F A × W
blame f (r, w) = (map_err f r, w)

abbrev pub on_err {ℓ} : {W E F : Type 0} {A : Type ℓ} → (E → F) → Step W E A → Step W F A
on_err f m w = blame f (m w)

-- What stands behind a chain that returned: its first call returned too.
pub after-Ok {ℓ κ} :
    {W E : Type 0} {A : Type ℓ} {B : Type κ} (out : Result E A × W) (k : A → Step W E B) {b : B}
    {w' : W}
    → after out k ≡ (ok b, w')
    → (a : A) × (w : W) × (out ≡ (ok a, w)) × (k a w ≡ (ok b, w'))
after-Ok (ok a, w) k h = (a, w, refl, h)
after-Ok (err e, w) k h = absurd (cc h)

pub blame-Ok {ℓ} :
    {W E F : Type 0} {A : Type ℓ} (f : E → F) (out : Result E A × W) {a : A} {w : W}
    → blame f out ≡ (ok a, w)
    → out ≡ (ok a, w)
blame-Ok f (ok a, w) h = cc h
blame-Ok f (err e, w) h = absurd (cc h)

-- A step of one half of a pair of states.
abbrev pub on_left {ℓ} : {S F E : Type 0} {A : Type ℓ} → Step S E A → Step (S × F) E A
on_left m w = let out = m w.0 in (out.0, (out.1, w.1))

abbrev pub on_right {ℓ} : {S F E : Type 0} {A : Type ℓ} → Step F E A → Step (S × F) E A
on_right m w = let out = m w.1 in (out.0, (w.0, out.1))

pub outcome {ℓ} :
    {W E : Type 0} {A : Type ℓ} (out : Result E A × W)
    → ((a : A) × (w : W) × (out ≡ (ok a, w))) ⊎ ((e : E) × (w : W) × (out ≡ (err e, w)))
outcome (ok a, w) = inl (a, w, refl)
outcome (err e, w) = inr (e, w, refl)

-- The same for each kind of first call, with the call itself.
module _ {ℓ κ} {W E : Type 0} {A : Type ℓ} {B : Type κ} where
  pub after-look :
      (r : W → Result E A) (w : W) (k : A → Step W E B) {b : B} {w' : W}
      → after (look r w) k ≡ (ok b, w')
      → (a : A) × (r w ≡ ok a) × (k a w ≡ (ok b, w'))
  after-look r w k h =
      let (a, w1, e, rest) = after-Ok (r w, w) k h in
      let is : w1 ≡ w = sym (ap (λ o. o.1) e) in (a, ap (λ o. o.0) e, rw is at rest)

  pub after-err :
      {E' : Type 0} (f : E' → E) (m : Step W E' A) (w : W) (k : A → Step W E B) {b : B} {w' : W}
      → after (on_err f m w) k ≡ (ok b, w')
      → (a : A) × (w1 : W) × (m w ≡ (ok a, w1)) × (k a w1 ≡ (ok b, w'))
  after-err f m w k h =
      let (a, w1, e, rest) = after-Ok (blame f (m w)) k h in (a, w1, blame-Ok f (m w) e, rest)

module _ {ℓ κ} {S F E : Type 0} {A : Type ℓ} {B : Type κ} where
  pub after-left :
      (m : Step S E A) (s : S) (g : F) (k : A → Step (S × F) E B) {b : B} {w' : S × F}
      → after (on_left m (s, g)) k ≡ (ok b, w')
      → (a : A) × (s' : S) × (m s ≡ (ok a, s')) × (k a (s', g) ≡ (ok b, w'))
  after-left m s g k h = elim (outcome (m s)) [
    | inl (a, s', e) ↦ (a, s', e, rw e at h)
    | inr (e, s', fails) ↦ absurd (let z = rw fails at h in cc z)
  ]

  pub after-right :
      (m : Step F E A) (s : S) (g : F) (k : A → Step (S × F) E B) {b : B} {w' : S × F}
      → after (on_right m (s, g)) k ≡ (ok b, w')
      → (a : A) × (g' : F) × (m g ≡ (ok a, g')) × (k a (s, g') ≡ (ok b, w'))
  after-right m s g k h = elim (outcome (m g)) [
    | inl (a, g', e) ↦ (a, g', e, rw e at h)
    | inr (e, g', fails) ↦ absurd (let z = rw fails at h in cc z)
  ]

pub give-Ok {ℓ} :
    {W E : Type 0} {A : Type ℓ} {a b : A} {w w' : W}
    → Path (Result E A × W) (ok a, w) (ok b, w')
    → (a ≡ b) × (w ≡ w')
give-Ok h = (cc h, ap (λ o. o.1) h)

pub left-Ok {ℓ} :
    {S F E : Type 0} {A : Type ℓ} (m : Step S E A) (s : S) (g : F) {a : A} {w' : S × F}
    → on_left m (s, g) ≡ (ok a, w')
    → m s ≡ (ok a, w'.0)
left-Ok m s g h = ap (λ o. (o.0, o.1.0)) h
