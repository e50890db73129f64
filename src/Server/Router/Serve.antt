-- ===== src/Server/Router/Serve.antt =====
-- What the server does with a request: the method, the layer of the authentication, the handler.
use otus_rusthomework_http_a.Common.{
  if◌then◌else◌, String, Bool, true, false, Option, none, some, List, [], ◌∷◌,
}
use otus_rusthomework_http_a.Common.Outcome.{Outcome, ok, err, panic, Exec, pure, lift, ◌>>=◌}
use otus_rusthomework_http_a.Server.Error.{AppError, into_response, from_request}
use otus_rusthomework_http_a.Server.Handlers
use otus_rusthomework_http_a.Server.Handlers.{World, Response, CursorCodec, Draw}
use otus_rusthomework_http_a.Server.Dto.{LinkResponse}
use otus_rusthomework_http_a.Server.Stats
use otus_rusthomework_http_a.Server.Stats.{LinkStatsResponse}
use otus_rusthomework_http_a.Server.Auth
use otus_rusthomework_http_a.Server.Auth.{
  AuthError, AuthConfig, Crypto, Claims, LoginRequest, LoginResponse, auth_middleware, status_of,
}
use otus_rusthomework_http_a.Server.Router.{
  Endpoint, Method, Route, build_router, AppState, HttpRequest, Readings, HttpResponse, reply,
  Services, Handler, error_reply, answer, auth_reply, auth_answer, extracted, fallback_404,
  health_json, version_json, no_payload, text, link_json, links_json, stats_json, top_json, healthz,
  readyz, version, login_handler, redirect, create_link, list_links, get_link, update_link,
  delete_link, get_link_stats, get_top_stats, slow, slow_blocking, metrics, get, post, put, delete,
  head,
}

-- The method router: a handler of GET answers HEAD too.
abbrev pub is_for : Method → Method → Bool
is_for get get = true
is_for head get = true
is_for post post = true
is_for put put = true
is_for delete delete = true
is_for _ _ = false

unfoldable pub handler_of : Method → List (Method × Endpoint) → Option Endpoint
handler_of method [] = none
handler_of method (e ∷ on) =
    let rest = handler_of method on in if is_for method e.0 then some e.1 else rest

abbrev pub healthz_reply : HttpResponse
healthz_reply = reply 200 (health_json "ok")

abbrev pub version_reply : String → HttpResponse
version_reply pkg_version = reply 200 (version_json pkg_version)

abbrev pub slow_reply : HttpResponse
slow_reply = reply 200 (text "done: spawn_blocking kept workers free\n")

abbrev pub slow_blocking_reply : HttpResponse
slow_blocking_reply = reply 200 (text "done: but a worker thread was blocked for 2s!\n")

abbrev pub redirect_reply : Response Unit → HttpResponse
redirect_reply r = record {
  status = r.status;
  location = r.location;
  retry_after = none;
  payload = no_payload;
}

abbrev pub created_reply : Response LinkResponse → HttpResponse
created_reply r = record {
  status = r.status;
  location = r.location;
  retry_after = none;
  payload = link_json r.body;
}

module _ {R D : Type 0} (s : Services R D) (state : AppState) where
  abbrev responds :
      {A : Type 0} → (A → HttpResponse) → Option String → Exec (World R D) AppError A → Handler R D
  responds f request_id m w = let (r, w') = m w in (answer f request_id r, w')

  abbrev on_repo : {A : Type 0} → Exec R AppError A → Exec (World R D) AppError A
  on_repo m w = let (r, repo) = m w.repo in (r, record w { repo = repo })

  unfoldable pub handle : Endpoint → String → HttpRequest → Readings → Handler R D
  unfolding Handlers.readyz Handlers.redirect Handlers.create_link Handlers.list_links
      Handlers.get_link Handlers.update_link Handlers.delete_link Stats.get_link_stats
      Stats.get_top_stats Auth.login_handler from_request into_response status_of
  handle healthz code req at = pure healthz_reply
  handle readyz code req at = pure (reply (Handlers.readyz at.is_cancelled at.database) no_payload)
  handle version code req at = pure (version_reply state.pkg_version)
  handle login_handler code req at = lift (
      extracted (s.extract.login_body req.body) λ login.
        auth_answer at.request_id
          (Auth.login_handler s.crypto s.manifest_dir state.config.auth login at.unix_now))
  handle redirect code req at =
      responds redirect_reply at.request_id
        (Handlers.redirect s.repo s.redis s.serde code at.now at.later)
  handle create_link code req at = responds created_reply at.request_id (
      lift (from_request (s.extract.create_body req.body)) >>= λ body.
      Handlers.create_link s.repo s.urls state.config.max_generate_attempts at.draw body at.now
        at.later)
  handle list_links code req at =
      responds (λ page. reply 200 (links_json page)) at.request_id
        (Handlers.list_links s.repo s.codec (s.extract.params req.query))
  handle get_link code req at =
      responds (λ link. reply 200 (link_json link)) at.request_id
        (Handlers.get_link s.repo s.redis s.serde code at.offset)
  handle update_link code req at =
      responds (λ link. reply 200 (link_json link)) at.request_id
        (lift (from_request (s.extract.update_body req.body)) >>= λ body.
          Handlers.update_link s.repo s.redis s.serde s.urls code body at.now)
  handle delete_link code req at =
      responds (λ status. reply status no_payload) at.request_id
        (Handlers.delete_link s.repo s.redis s.serde code)
  handle get_link_stats code req at =
      responds (λ stats. reply 200 (stats_json stats)) at.request_id
        (on_repo (Stats.get_link_stats s.repo state.stats_storage code at.now at.later))
  handle get_top_stats code req at = lift (
      extracted (s.extract.top_query req.query)
        λ query. ok (reply 200 (top_json (Stats.get_top_stats state.stats_storage query))))
  handle slow code req at = pure slow_reply
  handle slow_blocking code req at = pure slow_blocking_reply
  handle metrics code req at = pure (reply 200 (text state.metrics_text))

  unfoldable pub handle_method :
      List (Method × Endpoint) → String → HttpRequest → Readings → Handler R D
  unfolding handler_of handle
  handle_method on code req at = elim (handler_of req.method on) [
    | none ↦ pure (reply 405 no_payload)
    | some e ↦ handle e code req at
  ]

  -- `auth_middleware` around the handlers of a route.
  abbrev pub behind_auth :
      Option String → Outcome AuthError (Option Claims) → Handler R D → Handler R D
  behind_auth request_id (ok claims) next w = next w
  behind_auth request_id (err e) next w = (ok (auth_reply request_id e), w)
  behind_auth request_id panic next w = (panic, w)

  unfoldable pub serve_route : Route → String → HttpRequest → Readings → Handler R D
  unfolding handle_method auth_middleware
  serve_route r code req at =
      let next = handle_method r.on code req at in
      if r.is_guarded
      then behind_auth at.request_id
          (auth_middleware s.crypto s.manifest_dir state.auth req.authorization at.unix_now) next
      else next

  -- `matched` is the router of axum: the route of a path, and the code that the path holds.
  unfoldable pub serve :
      (List Route → String → Option (Route × String)) → HttpRequest → Readings → Handler R D
  unfolding serve_route
  serve matched req at = elim (matched build_router req.path) [
    | none ↦ pure (error_reply at.request_id fallback_404)
    | some (r, code) ↦ serve_route r code req at
  ]
