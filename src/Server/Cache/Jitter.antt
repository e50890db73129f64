-- ===== src/Server/Cache/Jitter.antt =====
-- The time to live of a cached value.
use otus_rusthomework_http_a.Common.{◌+◌, ◌-◌, ◌≤◌, ◌<◌, ◌^◌, ℤ, pos, negsuc, ◌≤ℤ◌, ◌+ℤ◌, arith}
use otus_rusthomework_http_a.Server.Cache.{CacheConfig, jittered_ttl, as_i64, wrapping}

-- The time to live is between the configured one less and plus the jitter, and a second at least,
-- for a positive configured one, sizes that leave room for the sum, and any draw of
-- `-jitter..=jitter`.
pub jittered_ttl_bounds :
    (config : CacheConfig) (offset : ℤ)
    → 0 < config.ttl_secs
    → config.ttl_secs < 2 ^ 62
    → config.jitter_secs < 2 ^ 62
    → pos 0 ≤ℤ (offset +ℤ pos config.jitter_secs)
    → offset ≤ℤ pos config.jitter_secs
    → (1 ≤ jittered_ttl config offset)
      × (config.ttl_secs - config.jitter_secs ≤ jittered_ttl config offset)
      × (jittered_ttl config offset ≤ config.ttl_secs + config.jitter_secs)
unfolding jittered_ttl as_i64 wrapping ◌+ℤ◌
jittered_ttl_bounds config (pos n) full small j low high = ground arith
jittered_ttl_bounds config (negsuc n) full small j low high = ground arith
