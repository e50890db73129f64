-- ===== src/Server/Handlers/Race.antt =====
-- `get_link` beside other requests: its steps, and other requests between them.
use otus_rusthomework_http_a.Common.{ℕ, ℤ, String, ◌≡◌, refl, true, none, some, List}
use otus_rusthomework_http_a.Common.Outcome.{ok}
use otus_rusthomework_http_a.Domain.Link.{LinkStats, LinkRepository}
use otus_rusthomework_http_a.Server.Dto.{LinkResponse, from_stats, UrlParser}
use otus_rusthomework_http_a.Server.Cache.{
  Redis, Serde, HasRoundTrip, answered, link_key, get, set, set_raw, jittered_ttl, read_reply,
  parsed,
}
use otus_rusthomework_http_a.Server.Handlers.{
  World, CursorCodec, get_link, serve_cached, fetch_link,
}
use otus_rusthomework_http_a.Server.Handlers.Sessions.{Call, serve_all}

-- A value that the server was given is there for the next command.
abbrev pub Keeps : {D : Type 0} → Redis D → Type 0
Keeps {D} redis =
    (t u : ℕ) (key value : String) (ttl : ℕ) (d : D)
    → (redis.get u key (redis.set_ex t key value ttl d).1).0 ≡ answered (some value)

module _ {R D : Type 0} (repo : LinkRepository R) (redis : Redis D)
    (serde : Serde LinkResponse) where
  open serde use {from_json, to_json}

  -- The look into the cache and the read of the repository, and the write to the cache.
  unfoldable pub looked : String → World R D → World R D
  unfolding get link_key
  looked code w = record {
    repo = (repo.stats code w.repo).1;
    cache = (get redis serde (link_key code) w.cache).1;
  }

  unfoldable pub filled : String → LinkStats → ℤ → World R D → World R D
  unfolding set link_key from_stats
  filled code s offset w = record w {
    cache = set redis serde (link_key code) (from_stats s) offset w.cache;
  }

  -- A `get_link` that misses is the two parts.
  get_link-filled :
      (code : String) (offset : ℤ) (w : World R D) (s : LinkStats)
      → (get redis serde (link_key code) w.cache).0 ≡ none
      → (repo.stats code w.repo).0 ≡ ok s
      → get_link repo redis serde code offset w
        ≡ (ok (from_stats s), filled code s offset (looked code w))
  unfolding get_link serve_cached fetch_link filled looked
  get_link-filled code offset w s missed read = rw (missed, read) refl

  get_link_of_filled :
      (code : String) (offset later : ℤ) (w : World R D) (s : LinkStats) (raw : String)
      → HasRoundTrip serde
      → Keeps redis
      → w.cache.has_conn ≡ true
      → to_json (from_stats s) ≡ some raw
      → (get_link repo redis serde code later (filled code s offset w)).0 ≡ ok (from_stats s)
  unfolding get_link serve_cached filled get set set_raw read_reply parsed
  get_link_of_filled code offset later w s raw round keeps on json =
      rw
        (
          on,
          json,
          keeps w.cache.config.op_timeout_ms w.cache.config.op_timeout_ms (link_key code) raw
              (jittered_ttl w.cache.config offset) w.cache.server,
          round (from_stats s) raw json,
        )
        refl

module _ {R D : Type 0} (repo : LinkRepository R) (redis : Redis D) (serde : Serde LinkResponse)
    (urls : UrlParser) (codec : CursorCodec) (attempts : ℕ) where
  open serde use {from_json, to_json}

  -- A `get_link` that misses reads the repository and then writes what it read to the cache. Where
  -- any other requests come between the two, updates and deletions of its link too, the next
  -- `get_link` of the code still answers what was read before them: the serialisation reads back what
  -- it wrote, and the server, which is connected, keeps what it is given.
  pub late_fill-get_link :
      (code : String) (offset later : ℤ) (w : World R D) (s : LinkStats) (raw : String)
      (calls : List Call)
      → HasRoundTrip serde
      → Keeps redis
      → (get redis serde (link_key code) w.cache).0 ≡ none
      → (repo.stats code w.repo).0 ≡ ok s
      → to_json (from_stats s) ≡ some raw
      → (serve_all repo redis serde urls codec attempts calls
          (looked repo redis serde code w)).cache.has_conn
        ≡ true
      → (get_link repo redis serde code offset w ≡ (
        ok (from_stats s),
        filled repo redis serde code s offset (looked repo redis serde code w),
      ))
        × ((get_link repo redis serde code later (
              filled repo redis serde code s offset (
                serve_all repo redis serde urls codec attempts calls
                  (looked repo redis serde code w)))).0
            ≡ ok (from_stats s))
  late_fill-get_link code offset later w s raw calls round keeps missed read json on = (
    get_link-filled repo redis serde code offset w s missed read,
    get_link_of_filled repo redis serde code offset later
        (serve_all repo redis serde urls codec attempts calls (looked repo redis serde code w)) s
        raw round keeps on json,
  )
