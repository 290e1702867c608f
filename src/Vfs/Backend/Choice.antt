-- ===== src/Vfs/Backend/Choice.antt =====
-- The tier that a wake faults from.
use flockdb.Prelude.{
  ◌≡◌, String, true, false, ◌&&◌, arith, ok, Result-cases, Option-cases, inl, inr, some, Bool-cases,
}
use flockdb.Vfs.Backend.{TierEnv, RemoteTier, remote_tier, s3_config, s3_url_env, is_some}

-- Where an opened tier's client comes from: the S3 client if the build has the feature and the
-- endpoint variable is set, and the local directory otherwise.
pub data Origin {Client : Type 0} (env : TierEnv Client) (remote_dir : String) (client : Client)
    : Type 0 where
  from_s3 :
      (url : String)
      → env.s3_feature ≡ true
      → env.var s3_url_env ≡ some url
      → env.amazon_s3 (s3_config env url) ≡ ok client
      → Origin env remote_dir client
  from_local :
      (env.s3_feature && is_some (env.var s3_url_env)) ≡ false
      → env.local_file_system remote_dir ≡ ok client
      → Origin env remote_dir client

module _ {Client : Type 0} (env : TierEnv Client) (remote_dir pool : String)
    (tier : RemoteTier Client) where
  -- A tier that is opened is keyed by the given pool, and its client is the S3 client for the
  -- endpoint in the environment exactly where the build has the `s3` feature and the endpoint
  -- variable is set; in any other build or environment it is the local directory's.
  pub remote_tier-Origin :
      remote_tier env remote_dir pool ≡ ok tier
      → (tier.pool ≡ pool) × Origin env remote_dir tier.backend
  unfolding remote_tier
  remote_tier-Origin h = elim (Bool-cases (env.s3_feature && is_some (env.var s3_url_env))) [
    | inl s3 ↦ elim (Option-cases (env.var s3_url_env)) [
      | inl e ↦ absurd (ground (arith, s3, e))
      | inr (url, u) ↦ elim (Result-cases (env.amazon_s3 (s3_config env url))) [
        | inl (c, e) ↦
            let h' = rw (u, e) at (rw s3 at h) in
            (ground (arith, h'), from_s3 url (ground (arith, s3)) u (ground (arith, h', e)))
        | inr (x, e) ↦ let h' = rw (u, e) at (rw s3 at h) in cc h'
      ]
    ]
    | inr local ↦ elim (Result-cases (env.local_file_system remote_dir)) [
      | inl (c, e) ↦
          let h' = rw (local, e) at h in
          (ground (arith, h'), from_local local (ground (arith, h', e)))
      | inr (x, e) ↦ let h' = rw (local, e) at h in cc h'
    ]
  ]
