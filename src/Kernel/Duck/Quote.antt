-- ===== src/Kernel/Duck/Quote.antt =====
-- What SQL's reader makes of the quoted texts that the kernel puts into its statements.
use flockdb.Prelude.{
  ℕ, ◌≡◌, refl, ap, ◌∙◌, inl, inr, Bool, true, false, [], ◌∷◌, ◌++◌, append_assoc, Option, none,
  some, ◌==◌, ==_iff, Bool-cases, if◌then◌else◌,
}
use flockdb.Prelude.Texts.{codes, replace}
use flockdb.Foreign.{Text}
use flockdb.Kernel.Duck.{sql_string_literal, sql_identifier}

abbrev pub push : ℕ → Option (Text × Text) → Option (Text × Text)
push c none = none
push c (some (read, rest)) = some (c ∷ read, rest)

-- SQL's reader behind an opening quote `q`: what the token denotes, and the text behind it. The
-- flag says that a quote has just been read: another one makes it a quote of the denoted text,
-- anything else makes it the closing one.
unfoldable pub read_quoted : ℕ → Bool → Text → Option (Text × Text)
read_quoted q false [] = none
read_quoted q true [] = some ([], [])
read_quoted q false (c ∷ cs) =
    if c == q then read_quoted q true cs else push c (read_quoted q false cs)
read_quoted q true (c ∷ cs) = if c == q then push q (read_quoted q false cs) else some ([], c ∷ cs)

-- A token that begins with the quote `q`.
unfoldable pub read_token : ℕ → Text → Option (Text × Text)
unfolding read_quoted
read_token q [] = none
read_token q (c ∷ cs) = if c == q then read_quoted q false cs else none

abbrev pub starts_with : ℕ → Text → Bool
starts_with q [] = false
starts_with q (c ∷ cs) = c == q

closed :
    (q : ℕ) (rest : Text) → starts_with q rest ≡ false → read_quoted q true rest ≡ some ([], rest)
unfolding read_quoted
closed q [] h = refl
closed q (c ∷ cs) h = rw h refl

pub read_quoted-replace :
    (q : ℕ) (s rest : Text)
    → starts_with q rest ≡ false
    → read_quoted q false (replace q (q ∷ q ∷ []) s ++ q ∷ rest) ≡ some (s, rest)
unfolding read_quoted replace
read_quoted-replace q [] rest h = rw ((==_iff q q).1 refl) (closed q rest h)
read_quoted-replace q (c ∷ cs) rest h = elim (Bool-cases (c == q)) [
  | inl same ↦
      let e : c ≡ q = (==_iff c q).0 same in
      rw same (rw ((==_iff q q).1 refl) (ap (push q) (read_quoted-replace q cs rest h) ∙ rw e refl))
  | inr other ↦ rw other (rw other (ap (push c) (read_quoted-replace q cs rest h)))
]

-- A string literal or an identifier that the kernel writes is read by SQL as one token that denotes
-- exactly the given text, whatever quotes are in it, and the reader is then at what followed, if
-- that does not begin with a quote.
pub quoting_lem :
    (s rest : Text)
    → starts_with b'\'' rest ≡ false
    → starts_with b'"' rest ≡ false
    → (read_token b'\'' (sql_string_literal s ++ rest) ≡ some (s, rest))
      × (read_token b'"' (sql_identifier s ++ rest) ≡ some (s, rest))
unfolding sql_string_literal sql_identifier read_token
quoting_lem s rest h i = (
  ap (read_quoted b'\'' false) (append_assoc (replace b'\'' (codes "''") s) (b'\'' ∷ []) rest)
      ∙ read_quoted-replace b'\'' s rest h,
  ap (read_quoted b'"' false) (append_assoc (replace b'"' (b'"' ∷ b'"' ∷ []) s) (b'"' ∷ []) rest)
      ∙ read_quoted-replace b'"' s rest i,
)
