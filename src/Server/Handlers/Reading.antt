-- ===== src/Server/Handlers/Reading.antt =====
-- `get_link` with its cache.
use otus_rusthomework_http_a.Common.{
  ℤ, String, ◌≡◌, refl, sym, ◌∙◌, subst, Bool, true, false, Bool-cases, Option, none, some, inl,
  inr, arith, if◌then◌else◌,
}
use otus_rusthomework_http_a.Common.Outcome.{Outcome, ok, err, panic, map_err, bind}
use otus_rusthomework_http_a.Domain.Link.{LinkStats, LinkRepository, IsLinkRepository, RepoError}
use otus_rusthomework_http_a.Server.Error.{AppError, from_repo_error}
use otus_rusthomework_http_a.Server.Dto.{LinkResponse, from_stats}
use otus_rusthomework_http_a.Server.Cache.{
  Redis, IsRedis, Reply, Serde, HasRoundTrip, Cache, answered, failed, timed_out, link_key,
  link_key-injective, get, set, set_raw, jittered_ttl, read_reply, parsed, record_cache_hit,
  record_miss,
}
use otus_rusthomework_http_a.Server.Handlers.{World, call, get_link, serve_cached, fetch_link}
use otus_rusthomework_http_a.Server.Handlers.Coherence.{IsCoherent, Answers, same_call, after_bind}

module _ {D T : Type 0} (redis : Redis D) (view : D → String → Option String)
    (server_laws : IsRedis redis view) (serde : Serde T) where
  open serde use {from_json, to_json}

  -- What a read of `key` from the cache `c` gives.
  pub record IsRead (key : String) (c : Cache D) (r : Option T × Cache D) : Type 0 where
    pub found :
        (v : T)
        → r.0 ≡ some v
        → (c.has_conn ≡ true)
          × (raw : String) × (view c.server key ≡ some raw)
          × (from_json raw ≡ some v)
    pub conn : r.1.has_conn ≡ c.has_conn
    pub fades :
        (other raw : String) → view r.1.server other ≡ some raw → view c.server other ≡ some raw

  parsed-IsRead :
      (key raw : String) (c : Cache D) (server : D)
      → c.has_conn ≡ true
      → view c.server key ≡ some raw
      → ((other raw' : String) → view server other ≡ some raw' → view c.server other ≡ some raw')
      → (o : Option T) → from_json raw ≡ o
      → IsRead key c (parsed redis serde o (record c { server = server }))
  unfolding parsed record_cache_hit record_miss
  parsed-IsRead key raw c server on e fades none p = record {
    found = λ v. cc;
    conn = refl;
    fades = fades;
  }
  parsed-IsRead key raw c server on e fades (some v) p = record {
    found = λ v' q. (on, raw, e, p ∙ q);
    conn = refl;
    fades = fades;
  }

  read_reply-IsRead :
      (key : String) (c : Cache D) (server : D)
      → c.has_conn ≡ true
      → ((other raw : String) → view server other ≡ some raw → view c.server other ≡ some raw)
      → (reply : Reply (Option String))
      → ((raw : String) → reply ≡ answered (some raw) → view c.server key ≡ some raw)
      → IsRead key c (read_reply redis serde reply (record c { server = server }))
  unfolding read_reply record_miss
  read_reply-IsRead key c server on fades (answered (some raw)) reads =
      parsed-IsRead key raw c server on (reads raw refl) fades (from_json raw) refl
  read_reply-IsRead key c server on fades (answered none) reads = record {
    found = λ v. cc;
    conn = refl;
    fades = fades;
  }
  read_reply-IsRead key c server on fades failed reads = record {
    found = λ v. cc;
    conn = refl;
    fades = fades;
  }
  read_reply-IsRead key c server on fades timed_out reads = record {
    found = λ v. cc;
    conn = refl;
    fades = fades;
  }

  pub get-IsRead : (key : String) (c : Cache D) → IsRead key c (get redis serde key c)
  unfolding get record_miss
  get-IsRead key c = elim (Bool-cases c.has_conn) [
    | inl on ↦
        let t = c.config.op_timeout_ms in
        subst
          (λ (b : Bool). IsRead key c (
            if b
            then read_reply redis serde (redis.get t key c.server).0
                (record c { server = (redis.get t key c.server).1 })
            else (none, record c { stats = record_miss c.stats })))
          (sym on)
          (read_reply-IsRead key c (redis.get t key c.server).1 on
            (server_laws.get_fades t key c.server) (redis.get t key c.server).0
            (server_laws.get_reads t key c.server))
    | inr off ↦
        subst
          (λ (b : Bool). IsRead key c (
            if b
            then read_reply redis serde (redis.get c.config.op_timeout_ms key c.server).0
                (record c { server = (redis.get c.config.op_timeout_ms key c.server).1 })
            else (none, record c { stats = record_miss c.stats })))
          (sym off) (record { found = λ v. cc; conn = refl; fades = λ other raw e. e })
  ]

module _ {R : Type 0} (repo : LinkRepository R) where
  -- What the repository answers, as the handler reports it.
  abbrev pub repo_answer : String → R → Outcome AppError LinkResponse
  repo_answer code r = bind (map_err from_repo_error (repo.stats code r).0) λ s. ok (from_stats s)

module _ {R D : Type 0} (repo : LinkRepository R) (laws : IsLinkRepository repo) (redis : Redis D)
    (view : D → String → Option String) (server_laws : IsRedis redis view)
    (serde : Serde LinkResponse) (round_trip : HasRoundTrip serde) where
  open serde use {from_json, to_json}

  set_raw-IsCoherent :
      (code : String) (offset : ℤ) (s : LinkStats) (o : Option String) (w : World R D)
      → to_json (from_stats s) ≡ o
      → (repo.stats code w.repo).0 ≡ ok s
      → IsCoherent repo view serde w
      → IsCoherent repo view serde
          (record w { cache = set_raw redis serde (link_key code) offset o w.cache })
  unfolding set_raw
  set_raw-IsCoherent code offset s none w p h c = c
  set_raw-IsCoherent code offset s (some written) w p h c = record {
    holds = λ on other raw v e j.
        elim (server_laws.set_fades _ (link_key code) written (jittered_ttl w.cache.config offset) _
          (link_key other) raw e) [
            | inl old ↦ c.holds on other raw v old j
            | inr fresh ↦
                let same = link_key-injective other code fresh.0 in
                let back = round_trip (from_stats s) written p in (s, cc, cc)
          ];
  }

  either-IsCoherent :
      (b : Bool) (x y : Cache D) (w : World R D)
      → IsCoherent repo view serde (record w { cache = x })
      → IsCoherent repo view serde (record w { cache = y })
      → IsCoherent repo view serde (record w { cache = if b then x else y })
  either-IsCoherent true x y w cx cy = cx
  either-IsCoherent false x y w cx cy = cy

  set-IsCoherent :
      (code : String) (offset : ℤ) (s : LinkStats) (w : World R D)
      → (repo.stats code w.repo).0 ≡ ok s
      → IsCoherent repo view serde w
      → IsCoherent repo view serde
          (record w { cache = set redis serde (link_key code) (from_stats s) offset w.cache })
  unfolding set
  set-IsCoherent code offset s w h c =
      either-IsCoherent w.cache.has_conn _ _ w
        (set_raw-IsCoherent code offset s (to_json (from_stats s)) w refl h c) c

  -- The stored answer stays what the repository answers after the call.
  stats_again :
      (code : String) (w : World R D) (o : Outcome RepoError LinkStats)
      → (repo.stats code w.repo).0 ≡ o
      → (repo.stats code (repo.stats code w.repo).1).0 ≡ o
  stats_again code w o e = laws.stats_keeps code w.repo code ∙ e

  ok_of_map_err :
      (o : Outcome RepoError LinkStats) (s : LinkStats)
      → map_err from_repo_error o ≡ ok s
      → o ≡ ok s
  ok_of_map_err (ok t) s e = cc
  ok_of_map_err (err x) s e = cc
  ok_of_map_err panic s e = cc

  fetch_link-IsCoherent :
      (code : String) (offset : ℤ) (w : World R D)
      → IsCoherent repo view serde w
      → IsCoherent repo view serde (fetch_link repo redis serde code offset w).1
  unfolding fetch_link
  fetch_link-IsCoherent code offset w c =
      let kept : IsCoherent repo view serde (call (repo.stats code) w).1 =
        same_call repo laws redis view server_laws serde (repo.stats code) w
          (laws.stats_keeps code w.repo) c in
      after_bind (IsCoherent repo view serde) _ (call (repo.stats code)) w
        (λ s e.
          set-IsCoherent code offset s (call (repo.stats code) w).1
            (stats_again code w (ok s) (ok_of_map_err (repo.stats code w.repo).0 s e)) kept)
        (λ _. kept)

  fetch_link-eq :
      (code : String) (offset : ℤ) (w : World R D)
      → (fetch_link repo redis serde code offset w).0 ≡ repo_answer repo code w.repo
  unfolding fetch_link
  fetch_link-eq code offset w = ground arith

  serve_cached-IsCoherent :
      (code : String) (offset : ℤ) (found : Option LinkResponse) (w : World R D)
      → ((v : LinkResponse) → found ≡ some v → Answers repo view serde code v w.repo)
      → IsCoherent repo view serde w
      → ((serve_cached repo redis serde code offset found w).0 ≡ repo_answer repo code w.repo)
        × IsCoherent repo view serde (serve_cached repo redis serde code offset found w).1
  unfolding serve_cached
  serve_cached-IsCoherent code offset none w h c =
      (fetch_link-eq code offset w, fetch_link-IsCoherent code offset w c)
  serve_cached-IsCoherent code offset (some v) w h c = let (s, e, k) = h v refl in (cc, c)

  -- With a coherent cache, `get_link` answers what the repository would answer at once, whether it
  -- reads the cache or the repository and whatever Redis does, and leaves the cache coherent.
  pub get_link-IsCoherent :
      (code : String) (offset : ℤ) (w : World R D)
      → IsCoherent repo view serde w
      → ((get_link repo redis serde code offset w).0 ≡ repo_answer repo code w.repo)
        × IsCoherent repo view serde (get_link repo redis serde code offset w).1
  unfolding get_link
  get_link-IsCoherent code offset w c =
      let key = link_key code in
      let r = get-IsRead redis view server_laws serde key w.cache in
      serve_cached-IsCoherent code offset (get redis serde key w.cache).0
        (record w { cache = (get redis serde key w.cache).1 })
        (λ v e. let (on, raw, held, j) = r.found v e in c.holds on code raw v held j)
        (record {
          holds = λ on other raw v held j.
              c.holds (sym r.conn ∙ on) other raw v (r.fades (link_key other) raw held) j;
        })
