-- ===== src/Server/Tests.antt =====
-- The server over a Redis server that is a map, and its theorems at concrete inputs.
use otus_rusthomework_http_a.Common.{
  ℕ, zero, suc, ◌+◌, ◌-◌, negsuc, ◌+ℤ◌, pos, String, ap, str_append, ◌≡◌, refl, ◌↔◌, Bool, true,
  false, ◌&&◌, Option, none, some, List, [], ◌∷◌, arith, str_eq, eq_ℤ, ◌==◌, eq_iff, ◌≤◌, leb_ℤ,
  if◌then◌else◌,
}
use otus_rusthomework_http_a.Common.Outcome.{ok}
use otus_rusthomework_http_a.Common.Dict.{
  Dict, lookup, insert, remove, lookup-insert, lookup-insert_self, lookup-remove,
}
use otus_rusthomework_http_a.Common.Text.{chars, strip_prefix}
use otus_rusthomework_http_a.Common.Time.{SystemTime, at_secs, add_secs}
use otus_rusthomework_http_a.Domain.Link.{is_expired, LinkStats}
use otus_rusthomework_http_a.Storage.InMemory.{
  InMemoryRepo, in_memory, empty, list_sync, remove_sync, update_sync, get_sync, insert_sync,
  stats_sync, record_hit_sync,
}
use otus_rusthomework_http_a.Storage.InMemory.Contract.{in_memory-IsLinkRepository}
use otus_rusthomework_http_a.Server.Dto.{
  CreateLinkRequest, LinkResponse, from_stats, UrlParser, validate_custom_code, expires_at_from_ttl,
}
use otus_rusthomework_http_a.Server.Dto.Checks.{
  IsCodeText, validate_custom_code_iff, expires_at_from_ttl-is_expired,
}
use otus_rusthomework_http_a.Server.Cache.{
  Redis, IsRedis, Serde, HasRoundTrip, answered, get as cache_get, from_manager, default_config,
  jittered_ttl,
}
use otus_rusthomework_http_a.Server.Cache.Jitter.{jittered_ttl_bounds}
use otus_rusthomework_http_a.Server.Handlers.{
  World, CursorCodec, Draw, get_link, generate_code, new_link,
}
use otus_rusthomework_http_a.Server.Handlers.Reading.{repo_answer}
use otus_rusthomework_http_a.Server.Handlers.Sessions.{
  Call, create_call, update_call, get_call, list_call, redirect_call, delete_call, serve_all,
  get_link-serve_all,
}
use otus_rusthomework_http_a.Server.Handlers.Race.{Keeps, looked, filled, late_fill-get_link}
use otus_rusthomework_http_a.Server.Handlers.Generate.{first_free, chosen, generate_code-first_free}

abbrev pub map_redis : Redis (Dict String)
map_redis = record {
  get = λ t key d. (answered (lookup key d), d);
  set_ex = λ t key value ttl d. (answered tt, insert key value d);
  del = λ t key d. (answered tt, remove key d);
}

abbrev pub held : Dict String → String → Option String
held d key = lookup key d

pub map_redis-IsRedis : IsRedis map_redis held
map_redis-IsRedis = record {
  get_reads = λ t key d raw e. cc;
  get_fades = λ t key d other raw e. e;
  set_fades = λ t key value ttl d other raw e.
      ground (arith, lookup-insert key other value d, eq_iff key other);
  del_fades = λ t key d other raw e. ground (arith, lookup-remove key other d);
  del_removes = λ t key d e. ground (arith, lookup-remove key key d, eq_iff key key);
}

-- A serialisation for the links `https://<code>` that have no expiry and no hits.
abbrev plain : String → LinkResponse
plain code = record {
  code = code;
  target_url = str_append "https://" code;
  created_at_unix = 100;
  expires_at_unix = none;
  hits = 0;
  version = pos 1;
}

abbrev is_plain : LinkResponse → Bool
is_plain v =
    str_eq v.target_url (str_append "https://" v.code)
    && v.created_at_unix == 100
    && elim v.expires_at_unix [ none ↦ true | some _ ↦ false ]
    && v.hits == 0
    && eq_ℤ v.version (pos 1)

abbrev pub plain_serde : Serde LinkResponse
plain_serde = record {
  to_json = λ v. if is_plain v then some v.code else none;
  from_json = λ raw. some (plain raw);
}

pub plain_serde-HasRoundTrip : HasRoundTrip plain_serde
plain_serde-HasRoundTrip v raw e =
    ground (arith, eq_iff v.target_url (str_append "https://" v.code))

-- A URL is its text, with `https` for its scheme where it starts so.
abbrev pub plain_urls : UrlParser
plain_urls = record {
  Url = String;
  parse = λ s. ok s;
  scheme = λ s. elim (strip_prefix s "https://") [ none ↦ "other" | some _ ↦ "https" ];
  as_str = λ s. s;
}

abbrev pub no_codec : CursorCodec
no_codec = record {
  decode_base64 = λ s. none;
  from_utf8 = λ b. none;
  pair_from_json = λ s. none;
  pair_to_json = λ p. some p.1;
  encode_base64 = λ s. s;
}

abbrev pub start : World InMemoryRepo (Dict String)
start = record { repo = empty; cache = from_manager [] default_config }

abbrev pub promo : CreateLinkRequest
promo = record { target_url = "https://promo"; custom_code = some "promo"; ttl_seconds = none }

abbrev unnamed : CreateLinkRequest
unnamed = record { target_url = "https://abc"; custom_code = none; ttl_seconds = some 60 }

-- The last attempts draw a code that is free.
abbrev pub draw : ℕ → Draw
draw zero = record { code = "xyz1"; now = at_secs 102 }
draw (suc n) = record { code = "promo"; now = at_secs 101 }

abbrev pub session : List Call
session =
    create_call promo draw (at_secs 100) (at_secs 100)
    ∷ get_call "promo" (pos 0)
    ∷ create_call unnamed draw (at_secs 101) (at_secs 101)
    ∷ redirect_call "promo" (at_secs 102) (at_secs 102)
    ∷ get_call "promo" (pos 3)
    ∷ update_call "xyz1" (record { target_url = "https://xyz2"; version = pos 1 }) (at_secs 103)
    ∷ delete_call "xyz1"
    ∷ list_call []
    ∷ []

abbrev pub after_session : World InMemoryRepo (Dict String)
after_session = serve_all in_memory map_redis plain_serde plain_urls no_codec 3 session start

session_runs :
    ((get_link in_memory map_redis plain_serde "promo" (pos 0) after_session).0
      ≡ ok (record (plain "promo") { hits = 1 }))
    × (after_session.cache.stats.misses ≡ 2)
    × (validate_custom_code "promo" ≡ ok tt)
    × ((generate_code in_memory 1 draw "https://a" none start).0 ≡ ok "xyz1")
unfolding serve_all get_link validate_custom_code generate_code list_sync remove_sync strip_prefix
    update_sync get_sync insert_sync stats_sync from_manager record_hit_sync
session_runs = (refl, refl, refl, refl)

get_link-serve_all_example :
    (get_link in_memory map_redis plain_serde "promo" (pos 0) after_session).0
    ≡ repo_answer in_memory "promo" after_session.repo
unfolding from_manager lookup
get_link-serve_all_example =
    get_link-serve_all in_memory in_memory-IsLinkRepository map_redis held map_redis-IsRedis
      plain_serde plain_serde-HasRoundTrip (λ t key d. refl) plain_urls no_codec 3 session "promo"
      (pos 0) start (λ key. refl)

generate_code-first_free_example :
    generate_code in_memory 3 draw "https://a" none after_session
    ≡ chosen "https://a" none 3 after_session (first_free 3 draw after_session.repo)
generate_code-first_free_example = generate_code-first_free "https://a" none 3 draw after_session

validate_custom_code_iff_example :
    (validate_custom_code "a_b-9" ≡ ok tt)
    ↔ ((4 ≤ chars "a_b-9") × (chars "a_b-9" ≤ 32) × IsCodeText "a_b-9")
validate_custom_code_iff_example = validate_custom_code_iff "a_b-9"

expires_at_from_ttl-is_expired_example :
    (60 ≤ 90)
    × ((code url : String) (created later : SystemTime)
        → is_expired (new_link code url (some (add_secs (at_secs 5) 90)) created) later
          ≡ leb_ℤ (add_secs (at_secs 5) 90) later)
unfolding expires_at_from_ttl
expires_at_from_ttl-is_expired_example =
    expires_at_from_ttl-is_expired 90 (at_secs 5) (some (add_secs (at_secs 5) 90)) refl

jittered_ttl_bounds_example :
    (1 ≤ jittered_ttl default_config (negsuc 9))
    × (60 - 10 ≤ jittered_ttl default_config (negsuc 9))
    × (jittered_ttl default_config (negsuc 9) ≤ 60 + 10)
jittered_ttl_bounds_example =
    jittered_ttl_bounds default_config (negsuc 9) (omega arith) (omega arith) (omega arith)
      (unfold ◌+ℤ◌ in omega arith) (omega arith)

-- The link of `promo` is stored, and is not in the cache.
abbrev stored : World InMemoryRepo (Dict String)
stored =
    serve_all in_memory map_redis plain_serde plain_urls no_codec 3
      (create_call promo draw (at_secs 100) (at_secs 100) ∷ []) start

abbrev promo_stats : LinkStats
promo_stats = record { link = new_link "promo" "https://promo" none (at_secs 100); hits = 0 }

map_redis-Keeps : Keeps map_redis
map_redis-Keeps t u key value ttl d =
    ap (λ (o : Option String). answered o) (lookup-insert_self key value d)

-- The link is deleted between the two parts.
late_fill-get_link_example :
    (get_link in_memory map_redis plain_serde "promo" (pos 0) stored ≡ (
      ok (from_stats promo_stats),
      filled in_memory map_redis plain_serde "promo" promo_stats
          (pos 0)
          (looked in_memory map_redis plain_serde "promo" stored),
    ))
    × ((get_link in_memory map_redis plain_serde "promo" (pos 0) (
          filled in_memory map_redis plain_serde "promo" promo_stats (pos 0) (
            serve_all in_memory map_redis plain_serde plain_urls no_codec 3
              (delete_call "promo" ∷ [])
              (looked in_memory map_redis plain_serde "promo" stored)))).0
        ≡ ok (from_stats promo_stats))
unfolding cache_get serve_all strip_prefix insert_sync stats_sync from_manager remove_sync looked
late_fill-get_link_example =
    late_fill-get_link in_memory map_redis plain_serde plain_urls no_codec 3 "promo" (pos 0) (pos 0)
      stored promo_stats "promo" (delete_call "promo" ∷ []) plain_serde-HasRoundTrip map_redis-Keeps
      refl refl refl refl
