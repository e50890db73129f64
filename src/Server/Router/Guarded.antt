-- ===== src/Server/Router/Guarded.antt =====
-- What a request without a valid token can change.
use otus_rusthomework_http_a.Common.{
  String, ◌≡◌, ◌≢◌, refl, sym, ap, ◌∙◌, subst, ◌⊎◌, inl, inr, Bool, true, false, Option, none, some,
  List, [], ◌∷◌, All, if◌then◌else◌, Bool-cases, Option-cases,
}
use otus_rusthomework_http_a.Common.Outcome.{Outcome, ok, err, pure}
use otus_rusthomework_http_a.Server.Handlers.{World}
use otus_rusthomework_http_a.Server.Auth.{AuthError, auth_middleware}
use otus_rusthomework_http_a.Server.Router.{
  Handler, Endpoint, healthz, readyz, version, login_handler, redirect, create_link, list_links,
  get_link, update_link, delete_link, get_link_stats, get_top_stats, slow, slow_blocking, metrics,
  Method, Route, build_router, AppState, HttpRequest, Readings, Services, HttpResponse, reply,
  no_payload, auth_reply,
}
use otus_rusthomework_http_a.Server.Router.Serve.{
  is_for, handler_of, handle, handle_method, serve_route, serve,
}

-- The router of axum finds a route of the table.
abbrev pub IsIn : Route → List Route → Type 0
IsIn r [] = ⊥
IsIn r (x ∷ routes) = (r ≡ x) ⊎ IsIn r routes

abbrev pub IsMatcher : (List Route → String → Option (Route × String)) → Type 0
IsMatcher matched =
    (routes : List Route) (path : String) (r : Route) (code : String)
    → matched routes path ≡ some (r, code)
    → IsIn r routes

-- The endpoint that a request reaches.
unfoldable pub endpoint_of :
    (List Route → String → Option (Route × String)) → HttpRequest → Option Endpoint
unfolding handler_of
endpoint_of matched req = elim (matched build_router req.path) [
  | none ↦ none
  | some (r, code) ↦ handler_of req.method r.on
]

-- The handlers that call neither the repository nor the cache.
abbrev is_idle : Endpoint → Bool
is_idle healthz = true
is_idle readyz = true
is_idle version = true
is_idle login_handler = true
is_idle get_top_stats = true
is_idle slow = true
is_idle slow_blocking = true
is_idle metrics = true
is_idle _ = false

-- A route that is guarded, or whose handlers are idle or the redirection.
abbrev IsCovered : Route → Type 0
IsCovered r = (r.is_guarded ≡ true) ⊎ All (λ e. (is_idle e.1 ≡ true) ⊎ (e.1 ≡ redirect)) r.on

build_router-IsCovered : All IsCovered build_router
build_router-IsCovered = (
  inr (inl refl, tt),
  (
    inr (inl refl, tt),
    (
      inr (inl refl, tt),
      (
        inr (inl refl, tt),
        (
          inr (inr refl, tt),
          (
            inl refl,
            (
              inl refl,
              (
                inl refl,
                (inl refl, (inr (inl refl, tt), (inr (inl refl, tt), (inr (inl refl, tt), tt)))),
              ),
            ),
          ),
        ),
      ),
    ),
  ),
)

of_IsIn :
    (P : Route → Type 0) (r : Route) (routes : List Route) → All P routes → IsIn r routes → P r
of_IsIn P r [] all i = elim i [ ]
of_IsIn P r (x ∷ routes) (p, all) (inl e) = subst P (sym e) p
of_IsIn P r (x ∷ routes) (p, all) (inr i) = of_IsIn P r routes all i

module _ {R D : Type 0} (s : Services R D) (state : AppState) where
  idle_keeps :
      (e : Endpoint) (code : String) (req : HttpRequest) (at : Readings) (w : World R D)
      → is_idle e ≡ true
      → (handle s state e code req at w).1 ≡ w
  unfolding handle
  idle_keeps healthz code req at w h = refl
  idle_keeps readyz code req at w h = refl
  idle_keeps version code req at w h = refl
  idle_keeps login_handler code req at w h = refl
  idle_keeps get_top_stats code req at w h = refl
  idle_keeps slow code req at w h = refl
  idle_keeps slow_blocking code req at w h = refl
  idle_keeps metrics code req at w h = refl
  idle_keeps redirect code req at w h = cc
  idle_keeps create_link code req at w h = cc
  idle_keeps list_links code req at w h = cc
  idle_keeps get_link code req at w h = cc
  idle_keeps update_link code req at w h = cc
  idle_keeps delete_link code req at w h = cc
  idle_keeps get_link_stats code req at w h = cc

  -- The handler that is found is one of the list's.
  found_is :
      (P : Endpoint → Type 0) (m : Method) (on : List (Method × Endpoint)) (e : Endpoint)
      → All (λ x. P x.1) on
      → handler_of m on ≡ some e
      → P e
  unfolding handler_of
  found_is P m [] e all h = cc
  found_is P m (x ∷ on) e (p, all) h = by_test (is_for m x.0) (λ g. found_is P m on e all g) h
    where
      by_test :
          (b : Bool)
          → (handler_of m on ≡ some e → P e)
          → (if b then some x.1 else handler_of m on) ≡ some e
          → P e
      by_test true later g = let x_e : x.1 ≡ e = cc in subst P x_e p
      by_test false later g = later g

  method_keeps :
      (on : List (Method × Endpoint)) (code : String) (req : HttpRequest) (at : Readings)
      (w : World R D)
      → All (λ e. (is_idle e.1 ≡ true) ⊎ (e.1 ≡ redirect)) on
      → handler_of req.method on ≢ some redirect
      → (handle_method s state on code req at w).1 ≡ w
  unfolding handle_method
  method_keeps on code req at w all other = by_found (handler_of req.method on) refl
    where
      by_found :
          (o : Option Endpoint)
          → handler_of req.method on ≡ o
          → (elim o as (λ x. Handler R D) [
            | none ↦ pure (reply 405 no_payload)
            | some e ↦ handle s state e code req at
          ]
              w).1
            ≡ w
      by_found none h = refl
      by_found (some e) h =
          elim (found_is (λ e. (is_idle e ≡ true) ⊎ (e ≡ redirect)) req.method on e all h) [
            | inl idle ↦ idle_keeps e code req at w idle
            | inr red ↦ absurd (other (h ∙ ap some red))
          ]

  module _ (req : HttpRequest) (at : Readings) (w : World R D) (e : AuthError)
      (refused : auth_middleware s.crypto s.manifest_dir state.auth req.authorization at.unix_now
        ≡ err e) where
    guarded_refuses :
        (r : Route) (code : String)
        → r.is_guarded ≡ true
        → serve_route s state r code req at w ≡ (ok (auth_reply at.request_id e), w)
    unfolding serve_route
    guarded_refuses r code guarded = rw (guarded, refused) refl

    route_keeps :
        (r : Route) (code : String)
        → IsCovered r
        → handler_of req.method r.on ≢ some redirect
        → (serve_route s state r code req at w).1 ≡ w
    unfolding serve_route
    route_keeps r code (inl guarded) other =
        ap (λ (x : Outcome ⊥ HttpResponse × World R D). x.1) (guarded_refuses r code guarded)
    route_keeps r code (inr all) other = elim (Bool-cases r.is_guarded) [
      | inl guarded ↦
          ap (λ (x : Outcome ⊥ HttpResponse × World R D). x.1) (guarded_refuses r code guarded)
      | inr free ↦ rw free (method_keeps r.on code req at w all other)
    ]

  module _ (matched : List Route → String → Option (Route × String)) where
    -- A request to a guarded route whose token is missing or does not pass the check is answered
    -- with the error of the authentication, and neither the repository nor the cache is called.
    pub serve-refuses :
        (req : HttpRequest) (at : Readings) (w : World R D) (e : AuthError) (r : Route)
        (code : String)
        → auth_middleware s.crypto s.manifest_dir state.auth req.authorization at.unix_now ≡ err e
        → matched build_router req.path ≡ some (r, code)
        → r.is_guarded ≡ true
        → serve s state matched req at w ≡ (ok (auth_reply at.request_id e), w)
    unfolding serve endpoint_of
    serve-refuses req at w e r code refused here guarded =
        rw (serve, here) (guarded_refuses req at w e refused r code guarded)

    -- A request whose token is missing or does not pass the check changes neither the repository
    -- nor the cache, whatever its path, unless it reaches the redirection of a code.
    pub serve-keeps :
        (req : HttpRequest) (at : Readings) (w : World R D) (e : AuthError)
        → IsMatcher matched
        → auth_middleware s.crypto s.manifest_dir state.auth req.authorization at.unix_now ≡ err e
        → endpoint_of matched req ≢ some redirect
        → (serve s state matched req at w).1 ≡ w
    unfolding serve endpoint_of
    serve-keeps req at w e law refused other = elim (Option-cases (matched build_router req.path)) [
      | inl gone ↦ rw (serve, gone) refl
      | inr ((r, code), here) ↦
          rw (serve, here)
            (route_keeps req at w e refused r code
              (of_IsIn IsCovered r build_router build_router-IsCovered
                (law build_router req.path r code here))
              (λ h. other (rw (endpoint_of, here) h)))
    ]
