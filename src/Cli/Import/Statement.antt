-- ===== src/Cli/Import/Statement.antt =====
-- The statement that makes a table, as SQL reads it.
use flockdb.Prelude.{
  ℕ, ◌≡◌, refl, sym, ap, ◌∙◌, inl, inr, true, false, [], ◌∷◌, ◌++◌, some, ok, arith, Bool-cases,
  ◌==◌, ==_iff,
}
use flockdb.Prelude.Texts.{codes, replace}
use flockdb.Foreign.{Text}
use flockdb.Core.Pool.{is_ascii_alphanumeric, all_chars}
use flockdb.Cli.Import.{is_identifier_char, check_identifier, create_statement}
use flockdb.Kernel.Duck.Quote.{read_token, read_quoted, read_quoted-replace}

-- A text without a character is left as it is.
replace-plain :
    (q : ℕ) (with s : Text)
    → all_chars is_identifier_char s ≡ true
    → is_identifier_char q ≡ false
    → replace q with s ≡ s
unfolding replace all_chars
replace-plain q with [] h n = refl
replace-plain q with (c ∷ cs) h n = elim (Bool-cases (c == q)) [
  | inl same ↦
      let e : c ≡ q = (==_iff c q).0 same in
      let first : is_identifier_char c ≡ true = ground (arith, h) in
      absurd (let z = sym n ∙ ap is_identifier_char (sym e) ∙ first in cc z)
  | inr other ↦ rw other (ap (λ l. c ∷ l) (replace-plain q with cs (ground (arith, h)) n))
]

checked-plain :
    (name : Text) → check_identifier name ≡ ok tt → all_chars is_identifier_char name ≡ true
unfolding check_identifier
checked-plain name h = elim (Bool-cases (all_chars is_identifier_char name)) [
  | inl plain ↦ plain
  | inr other ↦ ground (arith, h, other)
]

not_in_name : is_identifier_char b'"' ≡ false
unfolding is_identifier_char is_ascii_alphanumeric
not_in_name = refl

-- The statement that `import` runs, for an accepted table name, any reader's name and any path: behind
-- `CREATE TABLE` SQL reads one quoted identifier that denotes exactly the table's name, and in the
-- reader's call one string literal that denotes exactly the path, whatever quotes are in it.
pub create_statement_lem :
    (table reader path : Text)
    → check_identifier table ≡ ok tt
    → (name call literal : Text) × (create_statement table reader path
        ≡ codes "CREATE TABLE " ++ name)
      × (read_token b'"' name ≡ some (table, call))
      × (call ≡ codes " AS SELECT * FROM " ++ (reader ++ b'(' ∷ literal))
      × (read_token b'\'' literal ≡ some (path, codes ")"))
unfolding create_statement read_token
create_statement_lem table reader path h =
    let literal = b'\'' ∷ replace b'\'' (codes "''") path ++ b'\'' ∷ codes ")" in
    let call = codes " AS SELECT * FROM " ++ (reader ++ b'(' ∷ literal) in
    let plain = replace-plain b'"' (b'"' ∷ b'"' ∷ []) table (checked-plain table h) not_in_name in
    (
      b'"' ∷ table ++ b'"' ∷ call,
      call,
      literal,
      refl,
      ap (λ t. read_quoted b'"' false (t ++ b'"' ∷ call)) (sym plain)
          ∙ read_quoted-replace b'"' table call refl,
      refl,
      read_quoted-replace b'\'' path (codes ")") refl,
    )
