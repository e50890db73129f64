-- ===== src/Server/Router.antt =====
-- shorty-server/src/lib.rs: the routes, the layer of the authentication, and what a request comes
-- to; the other layers are in Layers. How axum matches a path and extracts a body is a parameter; the
-- pages of Swagger UI and the time that `slow` takes are left out.
pub mod Template
pub mod Serve
pub mod Guarded
pub mod Session
pub mod Layers
pub mod Marked
pub mod Created
pub mod RequestIds
pub mod Requests
pub mod LayerTests
pub mod CreationTests
pub mod Tests
use otus_rusthomework_http_a.Common.{
  ℕ, ℤ, String, str_append, Bool, true, false, Option, none, some, List, [], ◌∷◌, ◌++◌, map,
}
use otus_rusthomework_http_a.Common.Outcome.{
  Outcome, ok, err, panic, Exec, map_err, pure, lift, ◌>>=◌,
}
use otus_rusthomework_http_a.Common.Dict.{Dict}
use otus_rusthomework_http_a.Common.Time.{SystemTime}
use otus_rusthomework_http_a.Domain.Link.{LinkRepository}
use otus_rusthomework_http_a.Domain.Stats.{StatsStorage}
use otus_rusthomework_http_a.Server.Error.{
  AppError, app_not_found, ErrorBody, into_response, from_request,
}
use otus_rusthomework_http_a.Server.Dto.{
  CreateLinkRequest, UpdateLinkRequest, LinkResponse, ListLinksResponse, UrlParser,
}
use otus_rusthomework_http_a.Server.Cache.{Redis, Serde, Reply}
use otus_rusthomework_http_a.Server.Handlers
use otus_rusthomework_http_a.Server.Handlers.{World, Response, CursorCodec, Draw}
use otus_rusthomework_http_a.Server.Stats
use otus_rusthomework_http_a.Server.Stats.{LinkStatsResponse}
use otus_rusthomework_http_a.Server.Auth
use otus_rusthomework_http_a.Server.Auth.{
  AuthError, AuthConfig, Crypto, Claims, LoginRequest, LoginResponse, auth_middleware, status_of,
}
use otus_rusthomework_http_a.Server.Config.{Config}

-- The handlers that the routes name; `metrics` is the closure that renders them.
pub data Endpoint : Type 0 where
  healthz readyz version login_handler redirect : Endpoint
  create_link list_links get_link update_link delete_link : Endpoint
  get_link_stats get_top_stats slow slow_blocking metrics : Endpoint

pub data Method : Type 0 where
  get post put delete head other : Method

pub record Route : Type 0 where
  pub path : String
  pub on : List (Method × Endpoint)
  -- The layer of the authentication is around it.
  pub is_guarded : Bool

abbrev pub route : String → List (Method × Endpoint) → Route
route path on = record { path = path; on = on; is_guarded = false }

abbrev pub guard : Route → Route
guard r = record r { is_guarded = true }

abbrev pub nest : String → List Route → List Route
nest prefix = map {A = Route} (λ r. record r { path = str_append prefix r.path })

abbrev pub public_routes : List Route
public_routes =
    route "/healthz" ((get, healthz) ∷ [])
    ∷ route "/readyz" ((get, readyz) ∷ [])
    ∷ route "/version" ((get, version) ∷ [])
    ∷ route "/auth/login" ((post, login_handler) ∷ [])
    ∷ route "/{code}" ((get, redirect) ∷ [])
    ∷ []

abbrev pub protected_routes : List Route
protected_routes = map guard (
    route "/links" ((post, create_link) ∷ (get, list_links) ∷ [])
    ∷ route "/links/{code}" ((get, get_link) ∷ (put, update_link) ∷ (delete, delete_link) ∷ [])
    ∷ route "/links/{code}/stats" ((get, get_link_stats) ∷ [])
    ∷ route "/stats/top" ((get, get_top_stats) ∷ [])
    ∷ [])

abbrev pub build_router : List Route
build_router =
    public_routes
    ++ (nest "/api/v1" protected_routes
        ++ (route "/slow" ((get, slow) ∷ [])
            ∷ route "/slow-blocking" ((get, slow_blocking) ∷ [])
            ∷ route "/metrics" ((get, metrics) ∷ [])
            ∷ []))

-- What is fixed while the server runs. Of the state of the application, the repository and the cache
-- are in the `World`.
pub record AppState : Type 0 where
  pub config : Config
  pub auth : Option AuthConfig
  pub stats_storage : StatsStorage
  pub metrics_text : String
  pub pkg_version : String

-- A header is `none` where it is missing or no visible ASCII. The body and the query are texts.
pub record HttpRequest : Type 0 where
  pub method : Method
  pub path : String
  pub authorization : Option String
  pub body : String
  pub query : String

-- What the server reads from outside while it answers: clocks, draws, the request id, the state of
-- the shutdown and of the database.
pub record Readings : Type 0 where
  pub unix_now : ℤ
  pub now : SystemTime
  pub later : SystemTime
  pub draw : ℕ → Draw
  pub offset : ℤ
  pub request_id : Option String
  pub is_cancelled : Bool
  pub database : Option (Reply Unit)

pub data Payload : Type 0 where
  no_payload : Payload
  text health_json version_json : String → Payload
  link_json : LinkResponse → Payload
  links_json : ListLinksResponse → Payload
  stats_json : LinkStatsResponse → Payload
  top_json : List (String × ℕ) → Payload
  login_json : LoginResponse → Payload
  error_json : ErrorBody → Payload
  auth_error_json : AuthError → Option String → Payload

pub record HttpResponse : Type 0 where
  pub status : ℕ
  pub location : Option String
  pub retry_after : Option String
  pub payload : Payload

abbrev pub reply : ℕ → Payload → HttpResponse
reply status payload = record {
  status = status;
  location = none;
  retry_after = none;
  payload = payload;
}

-- The extractors of axum: a value, or the status and the text of the rejection.
pub record Extractors : Type 0 where
  pub create_body : String → Outcome (ℕ × String) CreateLinkRequest
  pub update_body : String → Outcome (ℕ × String) UpdateLinkRequest
  pub login_body : String → Outcome (ℕ × String) LoginRequest
  pub top_query : String → Outcome (ℕ × String) (Option ℕ)
  pub params : String → Dict String

-- The collaborators of the server.
pub record Services (R D : Type 0) : Type 1 where
  pub repo : LinkRepository R
  pub redis : Redis D
  pub serde : Serde LinkResponse
  pub urls : UrlParser
  pub codec : CursorCodec
  pub crypto : Crypto
  pub manifest_dir : String
  pub extract : Extractors

-- A panic of a handler ends the connection with no response.
abbrev pub Handler : Type 0 → Type 0 → Type 0
Handler R D = Exec (World R D) ⊥ HttpResponse

abbrev pub error_reply : Option String → AppError → HttpResponse
error_reply request_id e =
    let r = into_response request_id e in
    record {
      status = r.status;
      location = none;
      retry_after = r.retry_after;
      payload = error_json r.body;
    }

abbrev pub answer :
    {A : Type 0} → (A → HttpResponse) → Option String → Outcome AppError A → Outcome ⊥ HttpResponse
answer f request_id (ok a) = ok (f a)
answer f request_id (err e) = ok (error_reply request_id e)
answer f request_id panic = panic

abbrev pub auth_reply : Option String → AuthError → HttpResponse
auth_reply request_id e = reply (status_of e) (auth_error_json e request_id)

abbrev pub auth_answer : Option String → Outcome AuthError LoginResponse → Outcome ⊥ HttpResponse
auth_answer request_id (ok r) = ok (reply 200 (login_json r))
auth_answer request_id (err e) = ok (auth_reply request_id e)
auth_answer request_id panic = panic

-- A rejection of an extractor that the handler does not take over.
abbrev pub extracted :
    {A : Type 0} → Outcome (ℕ × String) A → (A → Outcome ⊥ HttpResponse) → Outcome ⊥ HttpResponse
extracted (ok a) f = f a
extracted (err rejection) f = ok (reply rejection.0 (text rejection.1))
extracted panic f = panic

abbrev pub fallback_404 : AppError
fallback_404 = app_not_found
