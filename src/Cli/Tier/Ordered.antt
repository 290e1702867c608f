-- ===== src/Cli/Tier/Ordered.antt =====
-- In which order `sleep` and `wake` let go of a branch's two forms.
use flockdb.Prelude.{ℕ, ◌≡◌, [], ◌∷◌, ◌++◌, Option, some, ok}
use flockdb.Foreign.{ManifestId, Text, FilePath}
use flockdb.Kernel.Duck.{DuckDb}
use flockdb.Core.Pool.{cas_dir}
use flockdb.Core.Store as Store
use flockdb.Core.Db.{Substrate, Db, open_with, wake_with, restore}
use flockdb.Core.Db as Db
use flockdb.Cli.Error.{store}
use flockdb.Cli.Workspace.{
  CliEnv, SleepRecord, resolve, read_sleep_record, write_sleep_record, remove_sleep_record,
  remove_branch_dir,
}
use flockdb.Cli.Command.{default_opts, open_db}
use flockdb.Cli.Tier.{
  TierFs, or_cold, pool_name, prepare_tier_dir, remote_tier, runtime, sleep, copy_at, pages_name,
  manifests_name,
}

module _ {S Txn Manifest Page Token Tier Source F Conn Config Stmt Schema Batch Backend : Type 0}
    (sub : Substrate S Txn Manifest Page Token Tier Source)
    (duck : DuckDb F Conn Config Stmt Schema Batch) (env : CliEnv S)
    (fs : TierFs S Backend Tier Token) where
  -- The branch's own database, opened, was put to sleep in a tier: the library's `sleep` returned a
  -- token, the record that names the tier, the pool and the token was written, and the branch's
  -- directory was removed after that, and last.
  pub record SettledIn (fuel : ℕ) (root : FilePath) (branch : Text) (dir : FilePath) (pool : Text)
      (remote : Tier) (w : S × F) (s' : S) : Type 0 where
    pub db : Db S Txn Manifest Page Token Conn
    pub opened : S × F
    pub opens : open_db sub duck env root branch w ≡ (ok db, opened)
    pub started : S
    pub starts : runtime fs opened.0 ≡ (ok tt, started)
    pub token : Token
    pub asleep : S × F
    pub sleeps : Db.sleep sub duck fuel db remote (started, opened.1) ≡ (ok (some token), asleep)
    pub json : Text
    pub encodes : fs.to_json token ≡ ok json
    pub written : S
    pub writes :
        write_sleep_record env root branch
          (record { tier = dir; pool = pool; token = json })
          asleep.0
        ≡ (ok tt, written)
    pub removes : remove_branch_dir env root branch written ≡ (ok tt, s')

  -- The branch that the arguments and the pool name, and the tier that they name, was put to sleep.
  pub record Settled (fuel : ℕ) (root : FilePath) (explicit : Option Text)
      (tier_dir : Option FilePath) (w w' : S × F) : Type 0 where
    pub branch : Text
    pub resolves : resolve env root explicit w.0 ≡ ok branch
    pub dir : FilePath
    pub prepared : S
    pub prepares :
        prepare_tier_dir fs (or_cold sub duck env fs root tier_dir) w.0 ≡ (ok dir, prepared)
    pub remote : Tier
    pub connected : S
    pub connects : remote_tier fs dir (pool_name fs root prepared) prepared ≡ (ok remote, connected)
    pub settled :
        SettledIn fuel root branch dir (pool_name fs root prepared) remote (connected, w.1) w'.0

  -- The fetched pages and manifests were copied into the pool, the branch's own database was restored
  -- to a manifest, and its record was removed after that, and last.
  pub record Adopted (root : FilePath) (branch : Text) (cache : FilePath) (manifest : ManifestId)
      (w : S × F) (s' : S) : Type 0 where
    pub pages : ℕ
    pub with_pages : S
    pub adopts :
        copy_at fs (cache ++ pages_name ∷ []) (cas_dir root ++ pages_name ∷ []) w.0
        ≡ (ok pages, with_pages)
    pub manifests : ℕ
    pub with_manifests : S
    pub adopts_manifests :
        copy_at fs (cache ++ manifests_name ∷ []) (cas_dir root ++ manifests_name ∷ []) with_pages
        ≡ (ok manifests, with_manifests)
    pub own : Db S Txn Manifest Page Token Conn
    pub opened : S × F
    pub opens : open_db sub duck env root branch (with_manifests, w.1) ≡ (ok own, opened)
    pub restored : Db S Txn Manifest Page Token Conn
    pub back : S × F
    pub restores : restore sub duck own manifest opened ≡ (ok restored, back)
    pub removes : remove_sleep_record env root branch back.0 ≡ (ok tt, s')

  -- A branch that was woken: its database was woken out of the tier that its record names, with the
  -- token in it; the fetched pages and manifests were adopted; the branch's own database was restored
  -- to the woken head; and its record was removed after that, and last.
  pub record Woken (root : FilePath) (branch : Text) (w w' : S × F) : Type 0 where
    pub rec : SleepRecord
    pub reads : read_sleep_record env root branch w.0 ≡ ok rec
    pub token : Token
    pub decodes : fs.from_json rec.token ≡ ok token
    pub remote : Tier
    pub connected : S
    pub connects : remote_tier fs rec.tier rec.pool w.0 ≡ (ok remote, connected)
    pub cache : FilePath
    pub cached : S
    pub makes : fs.temp_dir connected ≡ (ok cache, cached)
    pub started : S
    pub starts : runtime fs cached ≡ (ok tt, started)
    pub db : Db S Txn Manifest Page Token Conn
    pub woken : S × F
    pub wakes :
        wake_with sub duck cache branch remote token default_opts (started, w.1) ≡ (ok db, woken)
    pub adopted : Adopted root branch cache (Store.head db.store woken.0) woken w'.0
