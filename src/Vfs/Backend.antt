-- ===== src/Vfs/Backend.antt =====
-- crates/flock-vfs/src/backend.rs: which object store a wake faults from. The build's `s3` feature,
-- the environment and the object-store clients are parameters; a client is what they return.
pub mod Choice
use flockdb.Prelude.{
  Bool, true, false, String, Option, none, some, ◌&&◌, Result, ok, err, ◌>>=◌, map_err,
  if◌then◌else◌,
}
use flockdb.Vfs.Error.{VfsError, tier_config}

-- What `s3_tier` hands to the S3 client's builder.
pub record S3Config : Type 0 where
  pub endpoint : String
  pub allow_http : Bool
  pub bucket : String
  pub region : String
  pub access_key_id : Option String
  pub secret_access_key : Option String

-- The process environment and the two object-store clients.
pub record TierEnv (Client : Type 0) : Type 0 where
  pub s3_feature : Bool
  pub var : String → Option String
  pub local_file_system : String → Result String Client
  pub amazon_s3 : S3Config → Result String Client

pub record RemoteTier (Client : Type 0) : Type 0 where
  pub backend : Client
  pub pool : String

abbrev pub s3_url_env : String
s3_url_env = "FLOCK_VFS_S3_URL"

abbrev pub unwrap_or : Option String → String → String
unwrap_or none d = d
unwrap_or (some v) d = v

abbrev pub is_some : Option String → Bool
is_some none = false
is_some (some _) = true

module _ {Client : Type 0} (env : TierEnv Client) where
  unfoldable pub local_tier : (remote_dir pool : String) → Result VfsError (RemoteTier Client)
  local_tier remote_dir pool = do
    backend ← map_err tier_config (env.local_file_system remote_dir)
    ok (record { backend = backend; pool = pool })

  abbrev pub s3_config : String → S3Config
  s3_config url = record {
    endpoint = url;
    allow_http = true;
    bucket = unwrap_or (env.var "FLOCK_VFS_S3_BUCKET") "flockdb";
    region = unwrap_or (env.var "FLOCK_VFS_S3_REGION") "us-east-1";
    access_key_id = env.var "FLOCK_VFS_S3_KEY_ID";
    secret_access_key = env.var "FLOCK_VFS_S3_SECRET";
  }

  abbrev pub require_url : Option String → Result VfsError String
  require_url none = err (tier_config s3_url_env)
  require_url (some url) = ok url

  unfoldable pub s3_tier : (pool : String) → Result VfsError (RemoteTier Client)
  s3_tier pool = do
    url ← require_url (env.var s3_url_env)
    backend ← map_err tier_config (env.amazon_s3 (s3_config url))
    ok (record { backend = backend; pool = pool })

  unfoldable pub remote_tier : (remote_dir pool : String) → Result VfsError (RemoteTier Client)
  unfolding local_tier s3_tier
  remote_tier remote_dir pool =
      if env.s3_feature && is_some (env.var s3_url_env)
      then s3_tier pool
      else local_tier remote_dir pool
