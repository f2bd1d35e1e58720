-- ===== src/Config/Defs.antt =====
-- cache_config.go: CacheConfig's limits, their defaults, setters and Validate. Sizes and durations
-- are int64, durations in nanoseconds.
use httpcache_kit.Common.{ℕ, ◌*◌, ◌^◌, ℤ, pos, ltb_ℤ, if◌then◌else◌}

pub record CacheConfig : Type 0 where
  pub max_size : ℤ
  pub ttl : ℤ
  pub cleanup_interval : ℤ
  pub stale_map_ttl : ℤ

abbrev pub hour : ℕ
hour = 3600 * 10 ^ 9

abbrev pub default_stale_map_ttl : ℤ
default_stale_map_ttl = pos (24 * hour)

unfoldable pub default_cache_config : CacheConfig
default_cache_config = record {
  max_size = pos (10 * 1024 * 1024 * 1024);
  ttl = pos (7 * 24 * hour);
  cleanup_interval = pos (1 * hour);
  stale_map_ttl = default_stale_map_ttl;
}

unfoldable pub with_max_size : ℤ → CacheConfig → CacheConfig
with_max_size size c = record c { max_size = size }

unfoldable pub with_ttl : ℤ → CacheConfig → CacheConfig
with_ttl ttl c = record c { ttl = ttl }

unfoldable pub with_cleanup_interval : ℤ → CacheConfig → CacheConfig
with_cleanup_interval interval c = record c { cleanup_interval = interval }

unfoldable pub with_stale_map_ttl : ℤ → CacheConfig → CacheConfig
with_stale_map_ttl ttl c = record c { stale_map_ttl = ttl }

abbrev at_least_zero : ℤ → ℤ
at_least_zero z = if ltb_ℤ z (pos 0) then pos 0 else z

unfoldable pub validate : CacheConfig → CacheConfig
validate c = record {
  max_size = at_least_zero c.max_size;
  ttl = at_least_zero c.ttl;
  cleanup_interval = at_least_zero c.cleanup_interval;
  stale_map_ttl = if ltb_ℤ (pos 0) c.stale_map_ttl then c.stale_map_ttl else default_stale_map_ttl;
}
