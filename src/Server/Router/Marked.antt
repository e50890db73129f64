-- ===== src/Server/Router/Marked.antt =====
-- The id of a request, in the JSON body of an error.
use otus_rusthomework_http_a.Common.{
  ℕ, String, ◌≡◌, refl, inl, inr, Bool-cases, Option, Option-cases, List,
}
use otus_rusthomework_http_a.Common.Outcome.{Outcome, ok, err, panic, lift, ◌>>=◌}
use otus_rusthomework_http_a.Server.Error.{AppError, into_response, from_request}
use otus_rusthomework_http_a.Server.Handlers
use otus_rusthomework_http_a.Server.Handlers.{World}
use otus_rusthomework_http_a.Server.Stats
use otus_rusthomework_http_a.Server.Auth.{AuthError, Claims, LoginResponse, auth_middleware}
use otus_rusthomework_http_a.Server.Router.{
  Endpoint, healthz, readyz, version, login_handler, redirect, create_link, list_links, get_link,
  update_link, delete_link, get_link_stats, get_top_stats, slow, slow_blocking, metrics, Route,
  build_router, AppState, HttpRequest, Readings, Services, HttpResponse, Payload, error_json,
  auth_error_json, answer, auth_answer, extracted, reply, links_json, link_json, stats_json,
  no_payload,
}
use otus_rusthomework_http_a.Server.Router.Serve.{
  handler_of, handle, handle_method, serve_route, serve, redirect_reply, created_reply, behind_auth,
}

-- The JSON body of an error holds the id; any other body need not.
abbrev pub IsMarked : Option String → Payload → Type 0
IsMarked id (error_json body) = body.request_id ≡ id
IsMarked id (auth_error_json e shown) = shown ≡ id
IsMarked id _ = Unit

-- An answer, where there is one.
abbrev pub AllMarked : Option String → Outcome ⊥ HttpResponse → Type 0
AllMarked id (ok r) = IsMarked id r.payload
AllMarked id (err e) = Unit
AllMarked id panic = Unit

answer-IsMarked :
    {A : Type 0} (id : Option String) (f : A → HttpResponse) (r : Outcome AppError A)
    → ((a : A) → IsMarked id (f a).payload)
    → AllMarked id (answer f id r)
unfolding into_response
answer-IsMarked id f (ok a) h = h a
answer-IsMarked id f (err e) h = refl
answer-IsMarked id f panic h = tt

extracted-IsMarked :
    {A : Type 0} (id : Option String) (o : Outcome (ℕ × String) A) (f : A → Outcome ⊥ HttpResponse)
    → ((a : A) → AllMarked id (f a))
    → AllMarked id (extracted o f)
extracted-IsMarked id (ok a) f h = h a
extracted-IsMarked id (err rejection) f h = tt
extracted-IsMarked id panic f h = tt

auth_answer-IsMarked :
    (id : Option String) (o : Outcome AuthError LoginResponse) → AllMarked id (auth_answer id o)
auth_answer-IsMarked id (ok r) = tt
auth_answer-IsMarked id (err e) = refl
auth_answer-IsMarked id panic = tt

module _ {R D : Type 0} (s : Services R D) (state : AppState) where
  handle-IsMarked :
      (e : Endpoint) (code : String) (req : HttpRequest) (at : Readings) (w : World R D)
      → AllMarked at.request_id (handle s state e code req at w).0
  unfolding handle
  handle-IsMarked healthz code req at w = tt
  handle-IsMarked readyz code req at w = tt
  handle-IsMarked version code req at w = tt
  handle-IsMarked login_handler code req at w =
      extracted-IsMarked at.request_id (s.extract.login_body req.body) _
        λ login. auth_answer-IsMarked at.request_id _
  handle-IsMarked redirect code req at w =
      answer-IsMarked at.request_id redirect_reply
        (Handlers.redirect s.repo s.redis s.serde code at.now at.later w).0 λ r. tt
  handle-IsMarked create_link code req at w =
      answer-IsMarked at.request_id created_reply
        ((lift (from_request (s.extract.create_body req.body)) >>= λ body.
            Handlers.create_link s.repo s.urls state.config.max_generate_attempts at.draw body
              at.now at.later)
          w).0
        λ r. tt
  handle-IsMarked list_links code req at w =
      answer-IsMarked at.request_id (λ page. reply 200 (links_json page))
        (Handlers.list_links s.repo s.codec (s.extract.params req.query) w).0 λ page. tt
  handle-IsMarked get_link code req at w =
      answer-IsMarked at.request_id (λ link. reply 200 (link_json link))
        (Handlers.get_link s.repo s.redis s.serde code at.offset w).0 λ link. tt
  handle-IsMarked update_link code req at w =
      answer-IsMarked at.request_id (λ link. reply 200 (link_json link))
        ((lift (from_request (s.extract.update_body req.body)) >>= λ body.
            Handlers.update_link s.repo s.redis s.serde s.urls code body at.now)
          w).0
        λ link. tt
  handle-IsMarked delete_link code req at w =
      answer-IsMarked at.request_id (λ status. reply status no_payload)
        (Handlers.delete_link s.repo s.redis s.serde code w).0 λ status. tt
  handle-IsMarked get_link_stats code req at w =
      answer-IsMarked at.request_id (λ stats. reply 200 (stats_json stats))
        (Stats.get_link_stats s.repo state.stats_storage code at.now at.later w.repo).0 λ stats. tt
  handle-IsMarked get_top_stats code req at w =
      extracted-IsMarked at.request_id (s.extract.top_query req.query) _ λ query. tt
  handle-IsMarked slow code req at w = tt
  handle-IsMarked slow_blocking code req at w = tt
  handle-IsMarked metrics code req at w = tt

  module _ (req : HttpRequest) (at : Readings) (w : World R D) where
    method-IsMarked :
        (r : Route) (code : String)
        → AllMarked at.request_id (handle_method s state r.on code req at w).0
    unfolding handle_method
    method-IsMarked r code = elim (Option-cases (handler_of req.method r.on)) [
      | inl gone ↦ rw (handle_method, gone) tt
      | inr (e, here) ↦ rw (handle_method, here) (handle-IsMarked e code req at w)
    ]

    route_of_check :
        (r : Route) (code : String) (checked : Outcome AuthError (Option Claims))
        → AllMarked at.request_id
            (behind_auth s state at.request_id checked (handle_method s state r.on code req at) w).0
    route_of_check r code (ok claims) = method-IsMarked r code
    route_of_check r code (err e) = refl
    route_of_check r code panic = tt

    route-IsMarked :
        (r : Route) (code : String)
        → AllMarked at.request_id (serve_route s state r code req at w).0
    unfolding serve_route
    route-IsMarked r code = elim (Bool-cases r.is_guarded) [
      | inl guarded ↦
          rw (serve_route, guarded)
            (route_of_check r code
              (auth_middleware s.crypto s.manifest_dir state.auth req.authorization at.unix_now))
      | inr free ↦ rw (serve_route, free) (method-IsMarked r code)
    ]

    pub serve-IsMarked :
        (matched : List Route → String → Option (Route × String))
        → AllMarked at.request_id (serve s state matched req at w).0
    unfolding serve into_response
    serve-IsMarked matched = elim (Option-cases (matched build_router req.path)) [
      | inl gone ↦ rw (serve, gone) refl
      | inr ((r, code), here) ↦ rw (serve, here) (route-IsMarked r code)
    ]
