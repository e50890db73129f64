-- ===== src/Server/Cache.antt =====
-- crates/storage/src/cache.rs: the cache in Redis. The connection to Redis and serde are parameters:
-- a call of Redis answers in time, fails, or times out, and changes the state of the server.
pub mod Jitter
use otus_rusthomework_http_a.Common.{
  ℕ, ◌+◌, ◌-◌, ◌%◌, ◌^◌, String, str_append, Bool, true, false, Option, none, some, ltb, negsuc,
  if◌then◌else◌, ◌≡◌, ◌∙◌, sym, ap, ◌⊎◌, ℤ, pos, pos_part, ◌+ℤ◌, leb_ℤ,
}
use otus_rusthomework_http_a.Common.Text.{strip_prefix, strip_prefix-append}

pub record CacheConfig : Type 0 where
  pub ttl_secs : ℕ
  pub jitter_secs : ℕ
  pub op_timeout_ms : ℕ

pub record CacheStats : Type 0 where
  pub hits : ℕ
  pub misses : ℕ

pub data Reply (A : Type 0) : Type 0 where
  answered : A → Reply A
  failed timed_out : Reply A

-- The commands that the cache sends, over the state `D` of the Redis server and the network. The
-- first argument is the timeout.
pub record Redis (D : Type 0) : Type 0 where
  pub get : ℕ → String → D → Reply (Option String) × D
  pub set_ex : ℕ → String → String → ℕ → D → Reply Unit × D
  pub del : ℕ → String → D → Reply Unit × D

-- serde_json for the cached type.
pub record Serde (T : Type 0) : Type 0 where
  pub to_json : T → Option String
  pub from_json : String → Option T

-- `has_conn` tells whether there is a connection; the state of what it reaches is `server`.
pub record Cache (D : Type 0) : Type 0 where
  pub has_conn : Bool
  pub config : CacheConfig
  pub stats : CacheStats
  pub server : D

abbrev pub default_config : CacheConfig
default_config = record { ttl_secs = 60; jitter_secs = 10; op_timeout_ms = 300 }

abbrev pub no_stats : CacheStats
no_stats = record { hits = 0; misses = 0 }

unfoldable pub from_manager : {D : Type 0} → D → CacheConfig → Cache D
from_manager server config = record {
  has_conn = true;
  config = config;
  stats = no_stats;
  server = server;
}

unfoldable pub disabled : {D : Type 0} → D → Cache D
disabled server = record {
  has_conn = false;
  config = default_config;
  stats = no_stats;
  server = server;
}

-- `connect`: what the connection manager answered, and the configuration.
unfoldable pub connect : {D : Type 0} → Bool → D → CacheConfig → Cache D
unfolding from_manager disabled
connect true server config = from_manager server config
connect false server config = disabled server

-- `fetch_add` wraps.
unfoldable pub record_cache_hit : CacheStats → CacheStats
record_cache_hit s = record s { hits = (s.hits + 1) % 2 ^ 64 }

unfoldable pub record_miss : CacheStats → CacheStats
record_miss s = record s { misses = (s.misses + 1) % 2 ^ 64 }

unfoldable pub link_key : String → String
link_key code = str_append "shorty:v1:link:" code

-- `as i64`
unfoldable pub as_i64 : ℕ → ℤ
as_i64 n = let m = n % 2 ^ 64 in if ltb m (2 ^ 63) then pos m else negsuc (2 ^ 64 - 1 - m)

-- The value of a sum that wraps at 64 bits.
unfoldable pub wrapping : ℤ → ℤ
unfolding as_i64
wrapping (pos n) = as_i64 n
wrapping (negsuc n) = as_i64 (2 ^ 64 - 1 - n % 2 ^ 64)

-- The seconds of `jittered_ttl`; `offset` is the number drawn from `-jitter..=jitter`.
unfoldable pub jittered_ttl : CacheConfig → ℤ → ℕ
unfolding as_i64 wrapping ◌+ℤ◌
jittered_ttl config offset =
    let ttl = wrapping (as_i64 config.ttl_secs +ℤ offset) in
    if leb_ℤ (pos 1) ttl then pos_part ttl else 1

module _ {D T : Type 0} (redis : Redis D) (serde : Serde T) where
  open redis use {get as redis_get, set_ex, del}
  open serde use {to_json, from_json}

  abbrev pub hit : T → Cache D → Option T × Cache D
  hit value c = (some value, record c { stats = record_cache_hit c.stats })

  abbrev pub miss : Cache D → Option T × Cache D
  miss c = (none, record c { stats = record_miss c.stats })

  unfoldable pub parsed : Option T → Cache D → Option T × Cache D
  unfolding record_cache_hit record_miss
  parsed (some value) c = hit value c
  parsed none c = miss c

  -- What `get` makes of the answer of Redis.
  unfoldable pub read_reply : Reply (Option String) → Cache D → Option T × Cache D
  unfolding parsed record_miss
  read_reply (answered (some raw)) c = parsed (from_json raw) c
  read_reply (answered none) c = miss c
  read_reply failed c = miss c
  read_reply timed_out c = miss c

  unfoldable pub get : String → Cache D → Option T × Cache D
  unfolding read_reply record_miss
  get key c =
      if c.has_conn
      then (let (reply, server) = redis_get c.config.op_timeout_ms key c.server in
          read_reply reply (record c { server = server }))
      else miss c

  unfoldable pub set_raw : String → ℤ → Option String → Cache D → Cache D
  unfolding jittered_ttl
  set_raw key offset none c = c
  set_raw key offset (some raw) c = record c {
    server = (set_ex c.config.op_timeout_ms key raw (jittered_ttl c.config offset) c.server).1;
  }

  -- A value that does not serialise is not written.
  unfoldable pub set : String → T → ℤ → Cache D → Cache D
  unfolding set_raw
  set key value offset c = if c.has_conn then set_raw key offset (to_json value) c else c

  unfoldable pub invalidate : String → Cache D → Cache D
  invalidate key c =
      if c.has_conn then record c { server = (del c.config.op_timeout_ms key c.server).1 } else c

-- A server that keeps what it is given, until it expires. `view d key` is the value that the server
-- holds. After a failure or a timeout the command may have run or not.
pub record IsRedis {D : Type 0} (redis : Redis D) (view : D → String → Option String) : Type 0 where
  pub get_reads :
      (t : ℕ) (key : String) (d : D) (raw : String)
      → (redis.get t key d).0 ≡ answered (some raw)
      → view d key ≡ some raw
  pub get_fades :
      (t : ℕ) (key : String) (d : D) (other raw : String)
      → view (redis.get t key d).1 other ≡ some raw
      → view d other ≡ some raw
  pub set_fades :
      (t : ℕ) (key value : String) (ttl : ℕ) (d : D) (other raw : String)
      → view (redis.set_ex t key value ttl d).1 other ≡ some raw
      → (view d other ≡ some raw) ⊎ ((other ≡ key) × (raw ≡ value))
  pub del_fades :
      (t : ℕ) (key : String) (d : D) (other raw : String)
      → view (redis.del t key d).1 other ≡ some raw
      → view d other ≡ some raw
  pub del_removes :
      (t : ℕ) (key : String) (d : D)
      → (redis.del t key d).0 ≡ answered tt
      → view (redis.del t key d).1 key ≡ none

-- What was written is read back.
abbrev pub HasRoundTrip : {T : Type 0} → Serde T → Type 0
HasRoundTrip {T} serde =
    (value : T) (raw : String) → serde.to_json value ≡ some raw → serde.from_json raw ≡ some value

pub link_key-injective : (a b : String) → link_key a ≡ link_key b → a ≡ b
unfolding link_key
link_key-injective a b e =
    let h =
      sym (strip_prefix-append "shorty:v1:link:" a)
      ∙ ap (λ s. strip_prefix s "shorty:v1:link:") e
      ∙ strip_prefix-append "shorty:v1:link:" b in
    cc
