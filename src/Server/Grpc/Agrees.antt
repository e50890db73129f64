-- ===== src/Server/Grpc/Agrees.antt =====
-- The link that the HTTP API and the gRPC service tell of a code.
use otus_rusthomework_http_a.Common.{
  ℕ, ℤ, String, ◌≡◌, refl, sym, ap, subst, Option, none, some, List,
}
use otus_rusthomework_http_a.Common.Outcome.{Outcome, ok, err, panic, bind, continue, map_err, pure}
use otus_rusthomework_http_a.Common.Time.{SystemTime}
use otus_rusthomework_http_a.Domain.Link.{
  LinkStats, LinkRepository, IsLinkRepository, RepoError, code_taken, not_found, version_conflict,
  unavailable, internal,
}
use otus_rusthomework_http_a.Server.Error.{
  AppError, app_not_found, app_code_taken, app_version_conflict, app_unavailable, app_internal,
  from_repo_error,
}
use otus_rusthomework_http_a.Server.Dto.{LinkResponse, UrlParser, from_stats, expires_at_unix_of}
use otus_rusthomework_http_a.Server.Cache.{Redis, IsRedis, Serde, HasRoundTrip, answered, as_i64}
use otus_rusthomework_http_a.Server.Handlers
use otus_rusthomework_http_a.Server.Handlers.{World, CursorCodec}
use otus_rusthomework_http_a.Server.Handlers.Reading.{repo_answer}
use otus_rusthomework_http_a.Server.Handlers.Sessions.{Call, serve_all, get_link-serve_all}
use otus_rusthomework_http_a.Server.Grpc
use otus_rusthomework_http_a.Server.Grpc.{
  Status, status_not_found, status_already_exists, status_aborted, status_unavailable,
  status_internal, Timestamp, GrpcLink, grpc_link, map_repo_error, protobuf_timestamp,
  optional_timestamp, call_as,
}

-- An error of the HTTP API and the status of gRPC for it.
abbrev pub SameError : AppError → Status → Type 0
SameError app_not_found (status_not_found text) = Unit
SameError app_code_taken (status_already_exists text) = Unit
SameError app_version_conflict (status_aborted text) = Unit
SameError app_unavailable (status_unavailable text) = Unit
SameError (app_internal message) (status_internal text) = Unit
SameError _ _ = ⊥

-- The expiry in seconds on both sides.
abbrev pub SameExpiry : Option ℕ → Option Timestamp → Type 0
SameExpiry none none = Unit
SameExpiry (some secs) (some at) = at.seconds ≡ as_i64 secs
SameExpiry _ _ = ⊥

expires-SameExpiry :
    (o : Option SystemTime) → SameExpiry (expires_at_unix_of o) (optional_timestamp o)
unfolding expires_at_unix_of optional_timestamp protobuf_timestamp
expires-SameExpiry none = tt
expires-SameExpiry (some t) = refl

-- The fields that both answers have, where the numbers of gRPC are signed.
abbrev pub SameLink : LinkResponse → GrpcLink → Type 0
SameLink l g =
    (g.code ≡ l.code)
    × (g.target_url ≡ l.target_url)
    × (g.version ≡ l.version)
    × (g.hits ≡ as_i64 l.hits)
    × (g.created_at.seconds ≡ as_i64 l.created_at_unix)
    × SameExpiry l.expires_at_unix g.expires_at

abbrev pub Agree : Outcome AppError LinkResponse → Outcome Status GrpcLink → Type 0
Agree (ok l) (ok g) = SameLink l g
Agree (err e) (err s) = SameError e s
Agree panic panic = Unit
Agree _ _ = ⊥

module _ {R : Type 0} (code : String) (r : R) where
  -- Both answers from what the repository told.
  told-Agree :
      (o : Outcome RepoError LinkStats)
      → Agree
          (bind (map_err from_repo_error o) (λ s. ok (from_stats s)))
          (continue
            (map_err (map_repo_error code) o)
            (λ stats. pure (grpc_link stats.link (as_i64 stats.hits)))
            r).0
  unfolding from_stats grpc_link protobuf_timestamp from_repo_error map_repo_error
  told-Agree (ok s) = (refl, refl, refl, refl, refl, expires-SameExpiry s.link.expires_at)
  told-Agree (err (not_found c)) = tt
  told-Agree (err (code_taken c)) = tt
  told-Agree (err version_conflict) = tt
  told-Agree (err unavailable) = tt
  told-Agree (err (internal text)) = tt
  told-Agree panic = tt

module _ {R : Type 0} (repo : LinkRepository R)
    (auth : ℤ → Option String → Outcome Status Unit) where
  grpc_told :
      (now : ℤ) (header : Option String) (code : String) (r : R)
      → auth now header ≡ ok tt
      → Grpc.get_link repo auth now header code r
        ≡ continue
            (map_err (map_repo_error code) (repo.stats code r).0)
            (λ stats. pure (grpc_link stats.link (as_i64 stats.hits)))
            (repo.stats code r).1
  unfolding Grpc.get_link
  grpc_told now header code r passed = rw (passed) refl

module _ {R D : Type 0} (repo : LinkRepository R) (laws : IsLinkRepository repo) (redis : Redis D)
    (view : D → String → Option String) (server_laws : IsRedis redis view)
    (serde : Serde LinkResponse) (round_trip : HasRoundTrip serde)
    (answers : (t : ℕ) (key : String) (d : D) → (redis.del t key d).0 ≡ answered tt)
    (urls : UrlParser) (codec : CursorCodec) (attempts : ℕ)
    (auth : ℤ → Option String → Outcome Status Unit) where
  -- After any sequence of HTTP requests from an empty cache, `get_link` of the HTTP API, through its
  -- cache, and `get_link` of the gRPC service for a caller that is authenticated tell the same link,
  -- with its hits, or the same kind of error: for a repository and a Redis server that keep their
  -- contracts, a serialisation that reads back what it wrote, and a server that answers each removal
  -- of a key in time.
  pub get_link-agrees :
      (calls : List Call) (code : String) (offset now : ℤ) (header : Option String) (w : World R D)
      → ((key : String) → view w.cache.server key ≡ none)
      → auth now header ≡ ok tt
      → let after = serve_all repo redis serde urls codec attempts calls w in
        Agree
          (Handlers.get_link repo redis serde code offset after).0
          (Grpc.get_link repo auth now header code after.repo).0
  get_link-agrees calls code offset now header w empty passed =
      let after = serve_all repo redis serde urls codec attempts calls w in
      let http =
        get_link-serve_all repo laws redis view server_laws serde round_trip answers urls codec
          attempts calls code offset w empty in
      let grpc = ap (λ x. x.0) (grpc_told repo auth now header code after.repo passed) in
      let told = told-Agree code (repo.stats code after.repo).1 (repo.stats code after.repo).0 in
      subst (λ x. Agree x (Grpc.get_link repo auth now header code after.repo).0) (sym http)
        (subst (Agree (repo_answer repo code after.repo)) (sym grpc) told)
