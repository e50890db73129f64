-- ===== src/Storage/RateLimit.antt =====
-- crates/storage/src/rate_limit_storage.rs: the buckets of all clients. Each call runs on its own
-- state of the map, as the shard locks of DashMap give it for one client.
pub mod Clients
pub mod Burst
pub mod Tests
use otus_rusthomework_http_a.Common.{
  ℕ, ◌-◌, String, Bool, true, false, ◌||◌, Option, none, some, List, [], ltb, leb, filter,
  if◌then◌else◌, length,
}
use otus_rusthomework_http_a.Common.Outcome.{Outcome, ok, err, panic}
use otus_rusthomework_http_a.Common.Dict.{Dict, lookup, insert}
use otus_rusthomework_http_a.Domain.RateLimit.{
  Instant, RateLimitConfig, RateLimitState, new_full, try_consume,
}
use otus_rusthomework_http_a.Domain.RateLimit.Float.{F64}

module _ (f : F64) where
  -- `ttl` is in nanoseconds.
  pub record RateLimitStorage : Type 0 where
    pub inner : Dict (RateLimitState f)
    pub config : RateLimitConfig
    pub ttl : ℕ

  unfoldable pub new : RateLimitConfig → ℕ → RateLimitStorage
  new config ttl = record { inner = []; config = config; ttl = ttl }

  abbrev pub is_fresh : Instant → String × RateLimitState f → Bool
  is_fresh threshold e = leb threshold e.1.last_update

  -- `now - ttl` panics where the instant cannot be represented.
  unfoldable pub cleanup_stale : Instant → RateLimitStorage → Outcome Unit RateLimitStorage
  unfolding filter
  cleanup_stale now s =
      if ltb now s.ttl
      then panic
      else ok (record s { inner = filter (is_fresh (now - s.ttl)) s.inner })

  unfoldable pub entry_or_full : Option (RateLimitState f) → ℕ → Instant → RateLimitState f
  unfolding new_full
  entry_or_full none capacity created = new_full f capacity created
  entry_or_full (some state) capacity created = state

  abbrev pub Answer : Type 0
  Answer = Bool × ℕ

  -- The write of `or_insert_with`, and the write of the new state.
  unfoldable pub consume : String → Instant → Instant → RateLimitStorage → Answer × RateLimitStorage
  unfolding entry_or_full try_consume lookup insert
  consume client_id now created s =
      let state = entry_or_full (lookup client_id s.inner) s.config.capacity created in
      let held = insert client_id state s.inner in
      let (allowed, new_state, retry_after) = try_consume f state s.config now in
      (
        (allowed, retry_after),
        record s {
          inner = if allowed || ltb 0 retry_after then insert client_id new_state held else held;
        },
      )

  unfoldable pub cleaned :
      String
      → Instant
      → Instant
      → Outcome Unit RateLimitStorage
      → Outcome Unit (Answer × RateLimitStorage)
  unfolding consume
  cleaned client_id now created (ok s) = ok (consume client_id now created s)
  cleaned client_id now created (err e) = err e
  cleaned client_id now created panic = panic

  -- `created` is the reading of the clock in `new_full`, after `now` was taken.
  unfoldable pub check_and_consume :
      String → Instant → Instant → RateLimitStorage → Outcome Unit (Answer × RateLimitStorage)
  unfolding cleanup_stale cleaned
  check_and_consume client_id now created s = cleaned client_id now created (cleanup_stale now s)

  unfoldable pub len : RateLimitStorage → ℕ
  len s = length s.inner

  unfoldable pub is_empty : RateLimitStorage → Bool
  is_empty s = elim s.inner [ [] ↦ true | _ ↦ false ]

  unfoldable pub clear : RateLimitStorage → RateLimitStorage
  clear s = record s { inner = [] }
