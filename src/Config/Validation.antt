-- ===== src/Config/Validation.antt =====
-- cache_config.go: Validate, and the ranges that the cache assumes.
use httpcache_kit.Common.{◌≡◌, true, pos, ltb_ℤ, ◌≤ℤ◌, arith}
use httpcache_kit.Config.Defs.{CacheConfig, validate}

-- No limit is negative, and markers are kept for some time.
pub record IsValid (c : CacheConfig) : Type 0 where
  pub size : pos 0 ≤ℤ c.max_size
  pub ttl : pos 0 ≤ℤ c.ttl
  pub interval : pos 0 ≤ℤ c.cleanup_interval
  pub stale_map : ltb_ℤ (pos 0) c.stale_map_ttl ≡ true

-- Validate gives a configuration in range, from any, and changes nothing at a second run.
pub validate-IsValid :
    (c : CacheConfig) → IsValid (validate c) × (validate (validate c) ≡ validate c)
unfolding validate
validate-IsValid c = (
  record {
    size = ground arith;
    ttl = ground arith;
    interval = ground arith;
    stale_map = ground arith;
  },
  ground arith,
)
