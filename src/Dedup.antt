-- ===== src/Dedup.antt =====
-- `dedup_seen` of src/aegis_common/redis_util.py.
use aegis_project.Prelude.{ℕ, String, Bool, not}
use aegis_project.Schemas.{◌⧺◌}

-- `SET key "1" NX EX ttl` of the Redis client: whether the key was set, and the store afterwards.
pub record Redis : Type 1 where
  pub Keys : Type 0
  pub set_nx_ex : String → ℕ → Keys → Bool × Keys

module _ (redis : Redis) where
  unfoldable pub dedup_seen : String → ℕ → redis.Keys → Bool × redis.Keys
  dedup_seen fingerprint ttl_seconds keys =
      let (was_set, keys') = redis.set_nx_ex ("aegis:dedup:" ⧺ fingerprint) ttl_seconds keys in
      (not was_set, keys')
