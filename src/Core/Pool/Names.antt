-- ===== src/Core/Pool/Names.antt =====
-- `validate_name`: which names a database may have.
use flockdb.Foreign.{Text}
use flockdb.Prelude.{
  ℕ, ◌≡◌, ◌↔◌, refl, sym, ◌∙◌, inl, inr, Bool, true, false, not, ◌&&◌, ◌||◌, zero, suc, ◌+◌, ◌++◌,
  leb, ltb, [], ◌∷◌, arith, ◌==◌, ==_iff, Bool-cases, ok, contains,
}
use flockdb.Prelude.Texts.{codes, same_text}
use flockdb.Core.Pool.{
  is_ascii_alphanumeric, is_name_char, all_chars, is_empty, dot, dot_dot, validate_name,
}

all_chars-contains :
    (q : ℕ) (name : Text)
    → is_name_char q ≡ false
    → all_chars is_name_char name ≡ true
    → contains q name ≡ false
unfolding all_chars
all_chars-contains q [] h a = refl
all_chars-contains q (c ∷ cs) h a = elim (Bool-cases (q == c)) [
  | inl e ↦
      let p : q ≡ c = (==_iff q c).0 e in
      let h' : is_name_char c ≡ false = rw (← p) h in ground (arith, h', a)
  | inr n ↦ rw n (all_chars-contains q cs h (ground (arith, a)))
]

-- The characters that a name may have, one by one.
abbrev pub alphabet : Text
alphabet = codes "abcdefghijklmnopqrstuvwxyzABCDEFGHIJKLMNOPQRSTUVWXYZ0123456789-_."

abbrev pub within : Text → Text → Bool
within cs [] = true
within cs (c ∷ name) = contains c cs && within cs name

-- Characters one after the other, from a first one.
abbrev span : (first count : ℕ) → Text
span first zero = []
span first (suc n) = first ∷ span (suc first) n

contains-span : (c first n : ℕ) → contains c (span first n) ≡ (leb first c && ltb c (first + n))
contains-span c first zero = ground arith
contains-span c first (suc n) = ground (arith, contains-span c (suc first) n)

contains-append : (c : ℕ) (xs ys : Text) → contains c (xs ++ ys) ≡ contains c xs || contains c ys
contains-append c [] ys = refl
contains-append c (x ∷ xs) ys = ground (arith, contains-append c xs ys)

contains-spans :
    (c a n b m d k : ℕ) (rest : Text)
    → contains c (span a n ++ (span b m ++ (span d k ++ rest))) ≡ (
        (leb a c && ltb c (a + n))
        || ((leb b c && ltb c (b + m)) || ((leb d c && ltb c (d + k)) || contains c rest)))
contains-spans c a n b m d k rest =
    rw
      (
        contains-append c (span a n) (span b m ++ (span d k ++ rest)),
        contains-append c (span b m) (span d k ++ rest),
        contains-append c (span d k) rest,
        contains-span c a n,
        contains-span c b m,
        contains-span c d k,
      )
      refl

is_name_char-spans :
    (c : ℕ)
    → is_name_char c ≡ (
        (leb b'a' c && ltb c 123)
        || ((leb b'A' c && ltb c 91) || ((leb b'0' c && ltb c 58) || contains c (codes "-_."))))
unfolding is_name_char is_ascii_alphanumeric
is_name_char-spans c = ground arith

is_name_char-contains : (c : ℕ) → is_name_char c ≡ contains c alphabet
is_name_char-contains c =
    is_name_char-spans c ∙ sym (contains-spans c b'a' 26 b'A' 26 b'0' 10 (codes "-_."))

pub all_chars-within : (name : Text) → all_chars is_name_char name ≡ within alphabet name
unfolding all_chars
all_chars-within [] = refl
all_chars-within (c ∷ cs) = rw (is_name_char-contains c, all_chars-within cs) refl

-- The names that are one plain component of a path.
abbrev pub is_plain : Text → Bool
is_plain name =
    not (is_empty name)
    && not (same_text name dot)
    && not (same_text name dot_dot)
    && within alphabet name

-- A name is accepted exactly if it is not empty, is neither `.` nor `..`, and has only characters of
-- the 65 in `alphabet`: the ASCII letters and digits, `-`, `_` and `.`. The tests for separators and
-- NUL refuse nothing that these do not.
pub validate_name_lem : (name : Text) → (validate_name name ≡ ok tt) ↔ (is_plain name ≡ true)
unfolding validate_name is_name_char is_ascii_alphanumeric
validate_name_lem [] = (λ h. absurd (cc h), λ h. absurd (cc h))
validate_name_lem (c ∷ cs) = (λ h. ground (arith, h, all_chars-within (c ∷ cs)), accepted)
  where
    accepted : is_plain (c ∷ cs) ≡ true → validate_name (c ∷ cs) ≡ ok tt
    accepted h =
        let name = c ∷ cs in
        let all : all_chars is_name_char name ≡ true = ground (arith, h, all_chars-within name) in
        ground (
          arith,
          h,
          all,
          all_chars-contains b'/' name refl all,
          all_chars-contains b'\\' name refl all,
          all_chars-contains 0 name refl all,
        )
