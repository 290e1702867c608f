-- ===== src/Cli/Workspace/Head.antt =====
-- `HEAD`: what is written there is read back.
use flockdb.Foreign.{Text, FilePath}
use flockdb.Prelude.{
  ℕ, ◌≡◌, refl, true, false, [], ◌∷◌, ◌++◌, arith, Result, ok, err, map_err-eq-ok, String, ap,
}
use flockdb.Core.Pool.{is_ascii_alphanumeric, is_name_char, all_chars, validate_name}
use flockdb.Core.Pool.Names.{all_chars-within, validate_name_lem}
use flockdb.Cli.Error.{CliError, io}
use flockdb.Cli.Workspace.{
  CliEnv, head_path, newline, is_blank, trim_start, drop_blank, trim_end, trim, exists, head,
  created, and_write, set_head,
}

-- What a file system promises of a file that it has written.
pub record KeepsFiles {S : Type 0} (env : CliEnv S) : Type 0 where
  pub is_file-write :
      (path : FilePath) (text : Text) (s s' : S)
      → env.write path text s ≡ (ok tt, s')
      → env.is_file path s' ≡ true
  pub read_to_string-write :
      (path : FilePath) (text : Text) (s s' : S)
      → env.write path text s ≡ (ok tt, s')
      → env.read_to_string path s' ≡ ok text

name_char_not_blank : (c : ℕ) → is_name_char c ≡ true → is_blank c ≡ false
unfolding is_name_char is_ascii_alphanumeric is_blank
name_char_not_blank c h = ground (arith, h)

trim_end-name :
    (name : Text) → all_chars is_name_char name ≡ true → trim_end (name ++ newline ∷ []) ≡ name
unfolding trim_end all_chars is_blank
trim_end-name [] h = refl
trim_end-name (c ∷ cs) h =
    let b = name_char_not_blank c (ground (arith, h)) in
    rw (trim_end-name cs (ground (arith, h))) (kept cs b)
  where
    kept : (ds : Text) → is_blank c ≡ false → drop_blank c ds ≡ c ∷ ds
    kept [] b = rw b
    kept (d ∷ ds) b = refl

trim-name : (name : Text) → all_chars is_name_char name ≡ true → trim (name ++ newline ∷ []) ≡ name
unfolding trim trim_start all_chars is_blank
trim-name [] h = refl
trim-name (c ∷ cs) h =
    let b = name_char_not_blank c (ground (arith, h)) in rw b (trim_end-name (c ∷ cs) h)

-- A write that succeeds has happened.
and_write-ok :
    {S : Type 0} (env : CliEnv S) (op : String) (path : FilePath) (text : Text)
    (c : Result CliError (Unit {0}) × S) (s' : S)
    → and_write env op path text c ≡ (ok tt, s')
    → (s : S) × (env.write path text s ≡ (ok tt, s'))
and_write-ok env op path text (err e, s) s' h = absurd (cc (ap (λ t. t.0) h))
and_write-ok env op path text (ok done, s) s' h =
    let r = map_err-eq-ok (io op path) (env.write path text s).0 (ap (λ t. t.0) h) in
    (s, λ i. (r i, (h i).1))

module _ {S : Type 0} (env : CliEnv S) (keeps : KeepsFiles env) where
  -- On a file system that keeps what it has written: where `set_head` succeeds with a name that a
  -- database may have, `HEAD` names that branch from then on.
  pub head-set_head :
      (root : FilePath) (branch : Text) (s s' : S)
      → validate_name branch ≡ ok tt
      → set_head env root branch s ≡ (ok tt, s')
      → head env root s' ≡ ok branch
  unfolding head set_head exists
  head-set_head root branch s s' v h =
      let (s1, wrote) =
        and_write-ok env "write HEAD" (head_path root) (branch ++ newline ∷ [])
          (created env "create the pool" root s) s' h in
      let there = keeps.is_file-write (head_path root) (branch ++ newline ∷ []) s1 s' wrote in
      let text = keeps.read_to_string-write (head_path root) (branch ++ newline ∷ []) s1 s' wrote in
      let plain = (validate_name_lem branch).0 v in
      let name = trim-name branch (rw (all_chars-within branch) (ground (arith, plain))) in
      rw there (rw text (rw name))
