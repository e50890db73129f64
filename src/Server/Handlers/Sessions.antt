-- ===== src/Server/Handlers/Sessions.antt =====
-- Sequences of requests over one repository and one cache.
use otus_rusthomework_http_a.Common.{
  ℕ, zero, suc, ℤ, String, ◌≡◌, Option, none, some, List, [], ◌∷◌,
}
use otus_rusthomework_http_a.Common.Outcome.{Outcome, ok, err, panic, Exec, lift, pure, ◌>>=◌}
use otus_rusthomework_http_a.Common.Dict.{Dict, lookup}
use otus_rusthomework_http_a.Common.Time.{SystemTime}
use otus_rusthomework_http_a.Domain.Link.{
  LinkRepository, IsLinkRepository, RepoError, code_taken, not_found, version_conflict, unavailable,
  internal,
}
use otus_rusthomework_http_a.Server.Error.{AppError}
use otus_rusthomework_http_a.Server.Dto.{
  CreateLinkRequest, UpdateLinkRequest, LinkResponse, UrlParser, parse_target_url,
  expires_at_from_ttl, validate_custom_code,
}
use otus_rusthomework_http_a.Server.Cache.{Redis, IsRedis, Serde, HasRoundTrip, answered, link_key}
use otus_rusthomework_http_a.Server.Handlers.{
  World, CursorCodec, Draw, call, attempt, next_attempt, generate_from, generate_code, insert_link,
  try_insert_link, new_link, choose_code, create_for, create_link, update_link, get_link,
  delete_link, redirect, list_links, limit_of, decode_cursor, encode_cursor, listed, created,
}
use otus_rusthomework_http_a.Server.Handlers.Coherence.{
  IsCoherent, after_bind, after_outcome, kept_call, same_call, update_link-IsCoherent,
  delete_link-IsCoherent, redirect-IsCoherent,
}
use otus_rusthomework_http_a.Server.Handlers.Reading.{get_link-IsCoherent, repo_answer}

-- A request with what its handler reads of the clock and draws.
pub data Call : Type 0 where
  create_call : CreateLinkRequest → (ℕ → Draw) → SystemTime → SystemTime → Call
  update_call : String → UpdateLinkRequest → SystemTime → Call
  get_call : String → ℤ → Call
  list_call : Dict String → Call
  redirect_call : String → SystemTime → SystemTime → Call
  delete_call : String → Call

module _ {R D : Type 0} (repo : LinkRepository R) (redis : Redis D) (serde : Serde LinkResponse)
    (urls : UrlParser) (codec : CursorCodec) (attempts : ℕ) where
  -- The state after a request; an error or a panic of a handler ends its request only.
  unfoldable pub serve : Call → World R D → World R D
  unfolding create_link update_link get_link list_links redirect delete_link
  serve (create_call req draw now inserted) w =
      (create_link repo urls attempts draw req now inserted w).1
  serve (update_call code req now) w = (update_link repo redis serde urls code req now w).1
  serve (get_call code offset) w = (get_link repo redis serde code offset w).1
  serve (list_call params) w = (list_links repo codec params w).1
  serve (redirect_call code now hit_at) w = (redirect repo redis serde code now hit_at w).1
  serve (delete_call code) w = (delete_link repo redis serde code w).1

  unfoldable pub serve_all : List Call → World R D → World R D
  unfolding serve
  serve_all [] w = w
  serve_all (c ∷ cs) w = serve_all cs (serve c w)

module _ {R D : Type 0} (repo : LinkRepository R) (laws : IsLinkRepository repo) (redis : Redis D)
    (view : D → String → Option String) (server_laws : IsRedis redis view)
    (serde : Serde LinkResponse) where
  abbrev Coherent : World R D → Type 0
  Coherent = IsCoherent repo view serde

  insert-IsCoherent :
      (code url : String) (expires : Option SystemTime) (now : SystemTime) (w : World R D)
      → Coherent w
      → Coherent (call (try_insert_link repo code url expires now) w).1
  unfolding try_insert_link
  insert-IsCoherent code url expires now w c =
      kept_call repo laws redis view server_laws serde (try_insert_link repo code url expires now) w
        (λ other s e. laws.insert_keeps (new_link code url expires now) now w.repo other s e) c

  next_attempt-IsCoherent :
      (code : String) (rest : Exec (World R D) AppError String) (r : Outcome RepoError Unit)
      (w : World R D)
      → ((v : World R D) → Coherent v → Coherent (rest v).1)
      → Coherent w
      → Coherent (next_attempt repo code rest r w).1
  unfolding next_attempt
  next_attempt-IsCoherent code rest (ok _) w h c = c
  next_attempt-IsCoherent code rest (err (code_taken _)) w h c = h w c
  next_attempt-IsCoherent code rest (err (not_found _)) w h c = c
  next_attempt-IsCoherent code rest (err version_conflict) w h c = c
  next_attempt-IsCoherent code rest (err unavailable) w h c = c
  next_attempt-IsCoherent code rest (err (internal _)) w h c = c
  next_attempt-IsCoherent code rest panic w h c = c

  generate_from-IsCoherent :
      (total n : ℕ) (draw : ℕ → Draw) (url : String) (expires : Option SystemTime) (w : World R D)
      → Coherent w
      → Coherent (generate_from repo total n draw url expires w).1
  unfolding generate_from attempt
  generate_from-IsCoherent total zero draw url expires w c = c
  generate_from-IsCoherent total (suc n) draw url expires w c =
      let d = draw n in
      next_attempt-IsCoherent d.code (generate_from repo total n draw url expires)
        (try_insert_link repo d.code url expires d.now w.repo).0 _
        (generate_from-IsCoherent total n draw url expires)
        (insert-IsCoherent d.code url expires d.now w c)

  choose_code-IsCoherent :
      (custom : Option String) (attempts : ℕ) (draw : ℕ → Draw) (url : String)
      (expires : Option SystemTime) (now : SystemTime) (w : World R D)
      → Coherent w
      → Coherent (choose_code repo custom attempts draw url expires now w).1
  unfolding choose_code insert_link generate_code
  choose_code-IsCoherent none attempts draw url expires now w c =
      generate_from-IsCoherent attempts attempts draw url expires w c
  choose_code-IsCoherent (some code) attempts draw url expires now w c =
      after_outcome Coherent _ (validate_custom_code code) w
        (λ u _.
          after_bind Coherent (λ _. pure code) (call (try_insert_link repo code url expires now)) w
            (λ _ _. insert-IsCoherent code url expires now w c)
            (λ _. insert-IsCoherent code url expires now w c))
        (λ _. c)

  stats-IsCoherent :
      (code : String) (w : World R D) → Coherent w → Coherent (call (repo.stats code) w).1
  stats-IsCoherent code w c =
      same_call repo laws redis view server_laws serde (repo.stats code) w
        (laws.stats_keeps code w.repo) c

  create_for-IsCoherent :
      (custom : Option String) (attempts : ℕ) (draw : ℕ → Draw) (url : String)
      (inserted : SystemTime) (expires : Option SystemTime) (w : World R D)
      → Coherent w
      → Coherent (create_for repo custom attempts draw url inserted expires w).1
  unfolding create_for
  create_for-IsCoherent custom attempts draw url inserted expires w c =
      let chosen = choose_code-IsCoherent custom attempts draw url expires inserted w c in
      after_bind Coherent _ (choose_code repo custom attempts draw url expires inserted) w
        (λ code _.
          after_bind Coherent (λ s. pure (created code s)) (call (repo.stats code)) _
            (λ _ _. stats-IsCoherent code _ chosen) (λ _. stats-IsCoherent code _ chosen))
        (λ _. chosen)

  create_link-IsCoherent :
      (urls : UrlParser) (attempts : ℕ) (draw : ℕ → Draw) (req : CreateLinkRequest)
      (now inserted : SystemTime) (w : World R D)
      → Coherent w
      → Coherent (create_link repo urls attempts draw req now inserted w).1
  unfolding create_link
  create_link-IsCoherent urls attempts draw req now inserted w c =
      after_outcome Coherent
        (λ url v.
          (do
            expires_at ← lift (expires_at_from_ttl req.ttl_seconds now)
            create_for repo req.custom_code attempts draw (urls.as_str url) inserted expires_at)
            v)
        (parse_target_url urls req.target_url) w
        (λ url _.
          after_outcome Coherent
            (create_for repo req.custom_code attempts draw (urls.as_str url) inserted)
            (expires_at_from_ttl req.ttl_seconds now) w
            (λ e _.
              create_for-IsCoherent req.custom_code attempts draw (urls.as_str url) inserted e w c)
            (λ _. c))
        (λ _. c)

  list_links-IsCoherent :
      (codec : CursorCodec) (params : Dict String) (w : World R D)
      → Coherent w
      → Coherent (list_links repo codec params w).1
  unfolding list_links
  list_links-IsCoherent codec params w c =
      let limit = limit_of (lookup "limit" params) in
      let cursor = decode_cursor codec (lookup "cursor" params) in
      let kept : Coherent (call (repo.list limit cursor) w).1 =
        same_call repo laws redis view server_laws serde (repo.list limit cursor) w
          (laws.list_keeps limit cursor w.repo) c in
      after_bind Coherent _ (call (repo.list limit cursor)) w
        (λ page _.
          after_outcome Coherent (λ next. pure (listed page.0 next)) (encode_cursor codec page.1) _
            (λ _ _. kept) (λ _. kept))
        (λ _. kept)

  module _ (round_trip : HasRoundTrip serde)
      (answers : (t : ℕ) (key : String) (d : D) → (redis.del t key d).0 ≡ answered tt)
      (urls : UrlParser) (codec : CursorCodec) (attempts : ℕ) where
    serve-IsCoherent :
        (call : Call) (w : World R D)
        → Coherent w
        → Coherent (serve repo redis serde urls codec attempts call w)
    unfolding serve
    serve-IsCoherent (create_call req draw now inserted) w c =
        create_link-IsCoherent urls attempts draw req now inserted w c
    serve-IsCoherent (update_call code req now) w c =
        update_link-IsCoherent repo laws redis view server_laws serde answers urls code req now w c
    serve-IsCoherent (get_call code offset) w c =
        (get_link-IsCoherent repo laws redis view server_laws serde round_trip code offset w c).1
    serve-IsCoherent (list_call params) w c = list_links-IsCoherent codec params w c
    serve-IsCoherent (redirect_call code now hit_at) w c =
        redirect-IsCoherent repo laws redis view server_laws serde answers code now hit_at w c
    serve-IsCoherent (delete_call code) w c =
        delete_link-IsCoherent repo laws redis view server_laws serde answers code w c

    serve_all-IsCoherent :
        (calls : List Call) (w : World R D)
        → Coherent w
        → Coherent (serve_all repo redis serde urls codec attempts calls w)
    unfolding serve_all
    serve_all-IsCoherent [] w c = c
    serve_all-IsCoherent (call ∷ calls) w c =
        serve_all-IsCoherent calls _ (serve-IsCoherent call w c)

    -- After any sequence of requests from an empty cache, `get_link` answers what the repository
    -- would answer at once, for a repository and a Redis server that keep their contracts, a
    -- serialisation that reads back what it wrote, and a server that answers each removal of a key
    -- in time.
    pub get_link-serve_all :
        (calls : List Call) (code : String) (offset : ℤ) (w : World R D)
        → ((key : String) → view w.cache.server key ≡ none)
        → let after = serve_all repo redis serde urls codec attempts calls w in
          (get_link repo redis serde code offset after).0 ≡ repo_answer repo code after.repo
    get_link-serve_all calls code offset w empty =
        (get_link-IsCoherent repo laws redis view server_laws serde round_trip code offset _ (
          serve_all-IsCoherent calls w
            (record { holds = λ on other raw v e j. let gone = empty (link_key other) in cc }))).0
