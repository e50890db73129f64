-- ===== src/Domain/RateLimit.antt =====
-- crates/domain/src/rate_limit.rs: the token bucket of one client.
pub mod Float
pub mod Consume
use otus_rusthomework_http_a.Common.{ℕ, ◌-◌, Bool, true, false, ◌&&◌, ◌==◌, if◌then◌else◌}
use otus_rusthomework_http_a.Domain.RateLimit.Float.{F64}

-- `Instant` as the nanoseconds since the earliest instant that the platform can represent.
abbrev pub Instant : Type 0
Instant = ℕ

pub record RateLimitConfig : Type 0 where
  pub capacity : ℕ
  pub period_secs : ℕ

module _ (f : F64) where
  open f use {Float, of_u64, as_secs_f64, add, sub, mul, div, min, ceil, as_u64, geb, gtb}

  pub record RateLimitState : Type 0 where
    pub tokens : Float
    pub last_update : Instant

  unfoldable pub refill_rate : RateLimitConfig → Float
  refill_rate config = div (of_u64 config.capacity) (of_u64 config.period_secs)

  -- `created` is the reading of the clock.
  unfoldable pub new_full : ℕ → Instant → RateLimitState
  new_full capacity created = record { tokens = of_u64 capacity; last_update = created }

  -- The tokens after the refill. `duration_since` is zero for an instant that lies ahead.
  unfoldable pub new_tokens : RateLimitState → RateLimitConfig → Instant → Float
  unfolding refill_rate
  new_tokens s config now =
      let elapsed = as_secs_f64 (now - s.last_update) in
      let refill = mul elapsed (refill_rate config) in
      min (add s.tokens refill) (of_u64 config.capacity)

  unfoldable pub retry_after : Float → RateLimitConfig → ℕ
  unfolding refill_rate
  retry_after shortage config =
      let secs = as_u64 (ceil (div shortage (refill_rate config))) in
      if (secs == 0) && gtb shortage (of_u64 0) then 1 else secs

  unfoldable pub try_consume :
      RateLimitState → RateLimitConfig → Instant → Bool × RateLimitState × ℕ
  unfolding new_tokens retry_after
  try_consume s config now =
      let t = new_tokens s config now in
      if geb t (of_u64 1)
      then (true, record { tokens = sub t (of_u64 1); last_update = now }, 0)
      else (false, record { tokens = t; last_update = now }, retry_after (sub (of_u64 1) t) config)
