-- ===== src/Server/Handlers.antt =====
-- shorty-server/src/api/handlers.rs: the handlers over a repository, the cache and the crates that
-- they call. A handler changes the state of the repository and of the cache; a reading of the
-- clock and a random draw are arguments.
pub mod Coherence
pub mod Reading
pub mod Sessions
pub mod Race
pub mod Generate
pub mod Created
pub mod Hits
pub mod Flights
use otus_rusthomework_http_a.Common.{
  ℕ, zero, suc, ℤ, String, str_append, Bool, true, false, Option, none, some, List, map, min,
}
use otus_rusthomework_http_a.Common.Outcome.{
  Outcome, ok, err, panic, map_err, Exec, pure, throw, lift, ◌>>=◌, ◌>>◌,
}
use otus_rusthomework_http_a.Common.Dict.{Dict, lookup}
use otus_rusthomework_http_a.Common.Text.{to_string, parse_u64}
use otus_rusthomework_http_a.Common.Time.{SystemTime}
use otus_rusthomework_http_a.Domain.Link.{
  ShortLink, LinkStats, RepoError, code_taken, not_found, version_conflict, unavailable, internal,
  new, with_expires_at, is_expired, LinkRepository,
}
use otus_rusthomework_http_a.Server.Error.{AppError, app_not_found, app_internal, from_repo_error}
use otus_rusthomework_http_a.Server.Dto.{
  CreateLinkRequest, UpdateLinkRequest, LinkResponse, ListLinksResponse, from_link, from_stats,
  UrlParser, parse_target_url, validate_custom_code, expires_at_from_ttl,
}
use otus_rusthomework_http_a.Server.Cache.{
  Redis, Serde, Cache, Reply, answered, failed, timed_out, link_key, get, set, invalidate,
}

-- What a handler changes.
pub record World (R D : Type 0) : Type 0 where
  pub repo : R
  pub cache : Cache D

pub record Response (B : Type 0) : Type 0 where
  pub status : ℕ
  pub location : Option String
  pub body : B

-- base64 and serde_json for the cursor of the listing.
pub record CursorCodec : Type 1 where
  pub decode_base64 : String → Option (List ℕ)
  pub from_utf8 : List ℕ → Option String
  pub pair_from_json : String → Option (String × String)
  pub pair_to_json : String × String → Option String
  pub encode_base64 : String → String

-- One turn of `generate_code`: the code that nanoid drew, and the clock of the new link.
pub record Draw : Type 0 where
  pub code : String
  pub now : SystemTime

unfoldable pub new_link : String → String → Option SystemTime → SystemTime → ShortLink
unfolding new with_expires_at
new_link code target_url none now = new code target_url now
new_link code target_url (some at) now = with_expires_at (new code target_url now) at

module _ {R D : Type 0} where
  -- `.await?` on a call of the repository.
  abbrev pub call : {A : Type 0} → Exec R RepoError A → Exec (World R D) AppError A
  call m w = let (r, repo) = m w.repo in (map_err from_repo_error r, record w { repo = repo })

  abbrev pub cached : (Cache D → Cache D) → Exec (World R D) AppError Unit
  cached f w = (ok tt, record w { cache = f w.cache })

module _ {R : Type 0} (repo : LinkRepository R) where
  unfoldable pub try_insert_link :
      String → String → Option SystemTime → SystemTime → Exec R RepoError Unit
  unfolding new_link
  try_insert_link code target_url expires_at now =
      repo.insert (new_link code target_url expires_at now) now

unfoldable pub created : String → LinkStats → Response LinkResponse
unfolding from_stats
created code stats = record {
  status = 201;
  location = some (str_append "/api/v1/links/" code);
  body = from_stats stats;
}

module _ {R D : Type 0} (repo : LinkRepository R) where
  unfoldable pub insert_link :
      String → String → Option SystemTime → SystemTime → Exec (World R D) AppError Unit
  unfolding try_insert_link from_repo_error
  insert_link code target_url expires_at now =
      call (try_insert_link repo code target_url expires_at now)

  -- What the loop does with the answer of an insertion: `rest` is the next turn.
  unfoldable pub next_attempt :
      String
      → Exec (World R D) AppError String
      → Outcome RepoError Unit
      → Exec (World R D) AppError String
  unfolding from_repo_error
  next_attempt code rest (ok _) = pure code
  next_attempt code rest (err (code_taken _)) = rest
  next_attempt code rest (err e) = throw (from_repo_error e)
  next_attempt code rest panic = lift panic

  unfoldable pub attempt :
      Draw
      → String
      → Option SystemTime
      → Exec (World R D) AppError String
      → Exec (World R D) AppError String
  unfolding try_insert_link next_attempt
  attempt d target_url expires_at rest w =
      let (r, s) = try_insert_link repo d.code target_url expires_at d.now w.repo in
      next_attempt d.code rest r (record w { repo = s })

  -- The loop over the attempts that are left; `total` is the number in the message.
  unfoldable pub generate_from :
      ℕ → ℕ → (ℕ → Draw) → String → Option SystemTime → Exec (World R D) AppError String
  unfolding attempt to_string
  generate_from total zero draw target_url expires_at = throw (
      app_internal (
        str_append "failed to generate a unique code in "
          (str_append (to_string total) " attempts")))
  generate_from total (suc n) draw target_url expires_at =
      attempt (draw n) target_url expires_at (generate_from total n draw target_url expires_at)

  unfoldable pub generate_code :
      ℕ → (ℕ → Draw) → String → Option SystemTime → Exec (World R D) AppError String
  unfolding generate_from
  generate_code max_generate_attempts draw target_url expires_at =
      generate_from max_generate_attempts max_generate_attempts draw target_url expires_at

  unfoldable pub choose_code :
      Option String
      → ℕ
      → (ℕ → Draw)
      → String
      → Option SystemTime
      → SystemTime
      → Exec (World R D) AppError String
  unfolding validate_custom_code insert_link generate_code
  choose_code none attempts draw target_url expires_at now =
      generate_code attempts draw target_url expires_at
  choose_code (some code) attempts draw target_url expires_at now = do
    lift (validate_custom_code code)
    insert_link code target_url expires_at now
    pure code

  -- The part of `create_link` behind the checks of the URL and of the time to live.
  unfoldable pub create_for :
      Option String
      → ℕ
      → (ℕ → Draw)
      → String
      → SystemTime
      → Option SystemTime
      → Exec (World R D) AppError (Response LinkResponse)
  unfolding choose_code created from_repo_error
  create_for custom_code attempts draw target_url inserted expires_at = do
    code ← choose_code custom_code attempts draw target_url expires_at inserted
    stats ← call (repo.stats code)
    pure (created code stats)

  -- `now` is read for the expiry, and `inserted` for a link with a custom code.
  unfoldable pub create_link :
      UrlParser
      → ℕ
      → (ℕ → Draw)
      → CreateLinkRequest
      → SystemTime
      → SystemTime
      → Exec (World R D) AppError (Response LinkResponse)
  unfolding parse_target_url expires_at_from_ttl create_for
  create_link urls attempts draw req now inserted = do
    url ← lift (parse_target_url urls req.target_url)
    expires_at ← lift (expires_at_from_ttl req.ttl_seconds now)
    create_for req.custom_code attempts draw (urls.as_str url) inserted expires_at

module _ {R D : Type 0} (repo : LinkRepository R) (redis : Redis D)
    (serde : Serde LinkResponse) where
  abbrev invalidate_link : String → Exec (World R D) AppError Unit
  invalidate_link code = cached (invalidate redis serde (link_key code))

  -- The part of `update_link` behind the parse of the URL.
  unfoldable pub update_to :
      String → ℤ → SystemTime → String → Exec (World R D) AppError LinkResponse
  unfolding from_repo_error invalidate link_key from_link
  update_to code version now target_url = do
    link ← call (repo.update code target_url version now)
    invalidate_link code
    pure (from_link link)

  unfoldable pub update_link :
      UrlParser → String → UpdateLinkRequest → SystemTime → Exec (World R D) AppError LinkResponse
  unfolding parse_target_url update_to
  update_link urls code req now = do
    url ← lift (parse_target_url urls req.target_url)
    update_to code req.version now (urls.as_str url)

  unfoldable pub fetch_link : String → ℤ → Exec (World R D) AppError LinkResponse
  unfolding from_repo_error from_stats set link_key
  fetch_link code offset = do
    stats ← call (repo.stats code)
    cached (set redis serde (link_key code) (from_stats stats) offset)
    pure (from_stats stats)

  -- What `get_link` does with the answer of the cache.
  unfoldable pub serve_cached :
      String → ℤ → Option LinkResponse → Exec (World R D) AppError LinkResponse
  unfolding fetch_link
  serve_cached code offset (some response) = pure response
  serve_cached code offset none = fetch_link code offset

  -- `offset` is the draw of the jitter.
  unfoldable pub get_link : String → ℤ → Exec (World R D) AppError LinkResponse
  unfolding get link_key serve_cached
  get_link code offset w =
      let (found, cache) = get redis serde (link_key code) w.cache in
      serve_cached code offset found (record w { cache = cache })

  unfoldable pub delete_link : String → Exec (World R D) AppError ℕ
  unfolding from_repo_error invalidate link_key
  delete_link code = do call (repo.remove code); invalidate_link code; pure 204

  unfoldable pub redirect_live :
      String → SystemTime → ShortLink → Bool → Exec (World R D) AppError (Response Unit)
  unfolding from_repo_error invalidate link_key
  redirect_live code now link true = throw app_not_found
  redirect_live code now link false = do
    call (repo.record_hit code now)
    invalidate_link code
    pure (record { status = 307; location = some link.target_url; body = tt })

  -- `now` is read for the expiry, and `hit_at` in the repository.
  unfoldable pub redirect :
      String → SystemTime → SystemTime → Exec (World R D) AppError (Response Unit)
  unfolding from_repo_error is_expired redirect_live
  redirect code now hit_at = do
    link ← call (repo.get code)
    redirect_live code hit_at link (is_expired link now)

unfoldable pub limit_of : Option String → ℕ
unfolding parse_u64
limit_of none = 20
limit_of (some l) = min (elim (parse_u64 l) [ none ↦ 20 | some n ↦ n ]) 100

abbrev and_then : {A B : Type 0} → Option A → (A → Option B) → Option B
and_then none f = none
and_then (some a) f = f a

-- A cursor that does not decode is no cursor.
unfoldable pub decode_cursor : CursorCodec → Option String → Option (String × String)
decode_cursor codec none = none
decode_cursor codec (some c) =
    and_then (codec.decode_base64 c) λ b. and_then (codec.from_utf8 b) codec.pair_from_json

-- `unwrap` of the serialisation panics.
unfoldable pub encode_cursor :
    CursorCodec → Option (String × String) → Outcome AppError (Option String)
encode_cursor codec none = ok none
encode_cursor codec (some p) = elim (codec.pair_to_json p) [
  | none ↦ panic
  | some json ↦ ok (some (codec.encode_base64 json))
]

unfoldable pub listed : List ShortLink → Option String → ListLinksResponse
unfolding from_link
listed links next_cursor = record { links = map from_link links; next_cursor = next_cursor }

module _ {R D : Type 0} (repo : LinkRepository R) (codec : CursorCodec) where
  unfoldable pub list_links : Dict String → Exec (World R D) AppError ListLinksResponse
  unfolding lookup limit_of decode_cursor from_repo_error encode_cursor listed
  list_links params = do
    page ← call (
        repo.list (limit_of (lookup "limit" params)) (decode_cursor codec (lookup "cursor" params)))
    next_cursor ← lift (encode_cursor codec page.1)
    pure (listed page.0 next_cursor)

-- `database` is what a `SELECT 1` answered within its timeout, where there is a pool.
unfoldable pub readyz : Bool → Option (Reply Unit) → ℕ
readyz true database = 503
readyz false none = 200
readyz false (some (answered _)) = 200
readyz false (some failed) = 503
readyz false (some timed_out) = 503
