-- ===== src/Cli/Examples.antt =====
-- A pool with two branches and an empty one, and the names of branches.
use flockdb.Foreign.{Text, FilePath}
use flockdb.Prelude.{
  ap, ◌≡◌, ◌↔◌, refl, Bool, true, false, [], ◌∷◌, ◌++◌, Option, none, some, Result, ok, err, length,
  ◌==◌, String, if◌then◌else◌,
}
use flockdb.Prelude.Texts.{
  same_text, strip_suffix, contains_text, text_leb, insert_text, sort_texts,
}
use flockdb.Core.Pool.{validate_name, is_name_char, is_ascii_alphanumeric, all_chars}
use flockdb.Core.Pool.Names.{is_plain, validate_name_lem}
use flockdb.Cli.Workspace.{
  CliEnv, gone, Listing, missing, entries, exists, branches, add_names, is_asleep, resolve, head,
  set_head,
}
use flockdb.Cli.Workspace.Head.{head-set_head, KeepsFiles}

abbrev main : Text
main = b'm' ∷ b'a' ∷ b'i' ∷ b'n' ∷ []

abbrev idle : Text
idle = b'i' ∷ b'd' ∷ b'l' ∷ b'e' ∷ []

validate_name_lem_example : (validate_name main ≡ ok tt) ↔ (is_plain main ≡ true)
validate_name_lem_example = validate_name_lem main

abbrev listed : FilePath → Listing
listed [] = missing
listed (dir ∷ _) =
    if same_text dir (b'd' ∷ b'b' ∷ b's' ∷ [])
    then entries (main ∷ [])
    else entries ((idle ++ b'.' ∷ b'j' ∷ b's' ∷ b'o' ∷ b'n' ∷ []) ∷ [])

-- A pool whose files are HEAD alone and whose directories are `listed`.
abbrev pool : CliEnv (Unit {0})
pool = record {
  flock_pool = none;
  is_file = λ path s. length path == 1;
  read_to_string = λ path s. ok main;
  create_dir_all = λ path s. (ok tt, s);
  write = λ path text s. (ok tt, s);
  read_dir = λ path s. listed path;
  remove_file = λ path s. (ok tt, s);
  remove_dir_all = λ path s. (gone, s);
  to_json = λ rec. ok rec.token;
  from_json = λ text. err "not a record";
}

both : branches pool [] tt ≡ ok (idle ∷ main ∷ [])
unfolding branches add_names strip_suffix same_text contains_text sort_texts insert_text text_leb
both = refl

resolved : resolve pool [] (some main) tt ≡ ok main
unfolding resolve exists is_asleep contains_text same_text branches add_names strip_suffix
    sort_texts insert_text text_leb
resolved = refl

-- One file, whatever its path.
abbrev one_file : CliEnv (Option Text)
one_file = record {
  flock_pool = none;
  is_file = λ path s. is_there s;
  read_to_string = λ path s. content s;
  create_dir_all = λ path s. (ok tt, s);
  write = λ path text s. (ok tt, some text);
  read_dir = λ path s. missing;
  remove_file = λ path s. (ok tt, none);
  remove_dir_all = λ path s. (gone, s);
  to_json = λ rec. ok rec.token;
  from_json = λ text. err "not a record";
}
  where
    is_there : Option Text → Bool
    is_there none = false
    is_there (some text) = true

    content : Option Text → Result String Text
    content none = err "no such file"
    content (some text) = ok text

one_file-KeepsFiles : KeepsFiles one_file
one_file-KeepsFiles = record {
  is_file-write = λ path text s s' h. let e : some text ≡ s' = ap (λ t. t.1) h in rw (← e) refl;
  read_to_string-write =
      λ path text s s' h. let e : some text ≡ s' = ap (λ t. t.1) h in rw (← e) refl;
}

abbrev written : Option Text
written = some (main ++ b'\n' ∷ [])

main_valid : validate_name main ≡ ok tt
unfolding validate_name is_name_char is_ascii_alphanumeric all_chars same_text
main_valid = refl

head_set : set_head one_file [] main none ≡ (ok tt, written)
unfolding set_head
head_set = refl

head-set_head_example : head one_file [] written ≡ ok main
head-set_head_example =
    head-set_head one_file one_file-KeepsFiles [] main none written main_valid head_set
