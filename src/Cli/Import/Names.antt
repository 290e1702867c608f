-- ===== src/Cli/Import/Names.antt =====
-- The table names that `import` makes up.
use flockdb.Prelude.{ℕ, ◌≡◌, refl, inl, inr, true, false, [], ◌∷◌, map, ok, arith, Bool-cases}
use flockdb.Foreign.{Text, FilePath}
use flockdb.Core.Pool.{is_ascii_alphanumeric, all_chars, is_empty}
use flockdb.Cli.Import.{
  file_name, before_dot, clean_char, is_ascii_digit, is_ascii_alphabetic, is_identifier_char,
  is_first_char, starts, usable, check_identifier, table_name_from,
}

clean_char-identifier : (c : ℕ) → is_identifier_char (clean_char c) ≡ true
unfolding is_identifier_char clean_char is_ascii_alphanumeric
clean_char-identifier c = elim (Bool-cases (is_ascii_alphanumeric c)) [
  | inl plain ↦ rw plain (rw plain refl)
  | inr other ↦ rw other refl
]

all_clean : (cs : Text) → all_chars is_identifier_char (map clean_char cs) ≡ true
unfolding all_chars
all_clean [] = refl
all_clean (c ∷ cs) = rw (clean_char-identifier c) (all_clean cs)

-- What is left for a first character that is no digit.
first_clean : (c : ℕ) → is_ascii_digit (clean_char c) ≡ false → is_first_char (clean_char c) ≡ true
unfolding is_first_char is_ascii_alphabetic is_ascii_digit clean_char is_ascii_alphanumeric
first_clean c h = elim (Bool-cases (is_ascii_alphanumeric c)) [
  | inl plain ↦ ground (arith, h, plain)
  | inr other ↦ rw other refl
]

accepts :
    (name : Text)
    → is_empty name ≡ false
    → starts is_first_char name ≡ true
    → all_chars is_identifier_char name ≡ true
    → check_identifier name ≡ ok tt
unfolding check_identifier
accepts name a b c = rw a (rw b (rw c refl))

usable-accepted : (c : ℕ) (cs : Text) → check_identifier (usable (map clean_char (c ∷ cs))) ≡ ok tt
unfolding all_chars is_identifier_char is_first_char is_ascii_alphanumeric is_ascii_alphabetic
usable-accepted c cs = elim (Bool-cases (is_ascii_digit (clean_char c))) [
  | inl digit ↦
      rw digit (accepts (b't' ∷ b'_' ∷ map clean_char (c ∷ cs)) refl refl (all_clean (c ∷ cs)))
  | inr other ↦
      rw other (accepts (map clean_char (c ∷ cs)) refl (first_clean c other) (all_clean (c ∷ cs)))
]

-- A table name that `import` derives from a file's name is always one that it accepts: a file whose
-- name has something before its first dot gets a name, and that name is an accepted identifier.
pub table_name_from_succeeds :
    (file : FilePath) (c : ℕ) (stem : Text)
    → before_dot (file_name file) ≡ c ∷ stem
    → (table : Text) × (table_name_from file ≡ ok table) × (check_identifier table ≡ ok tt)
unfolding table_name_from
table_name_from_succeeds file c stem e =
    let table = usable (map clean_char (c ∷ stem)) in
    let fine = usable-accepted c stem in (table, rw e (rw fine refl), fine)
