-- ===== src/Server/Router/Session.antt =====
-- A login, and the requests with its token.
use otus_rusthomework_http_a.Common.{
  ℤ, pos, ◌+◌, ◌≤ℤ◌, String, ◌≡◌, refl, sym, ap, ◌∙◌, true, false, Option, some, none, List,
  i64_as_u64,
}
use otus_rusthomework_http_a.Common.Outcome.{Outcome, ok, err, panic}
use otus_rusthomework_http_a.Server.Handlers.{World}
use otus_rusthomework_http_a.Server.Auth
use otus_rusthomework_http_a.Server.Auth.{
  AuthConfig, LoginRequest, LoginResponse, load_keys, auth_middleware, Crypto,
}
use otus_rusthomework_http_a.Server.Auth.Tokens.{IsJwt, bearer, auth_middleware-login_handler}
use otus_rusthomework_http_a.Server.Router.{
  login_handler, Route, build_router, AppState, HttpRequest, HttpResponse, Payload, login_json,
  auth_error_json, reply, Readings, Services, auth_answer,
}
use otus_rusthomework_http_a.Server.Router.Serve.{
  handler_of, handle, handle_method, serve_route, serve,
}

payload_of : Outcome ⊥ HttpResponse → Option Payload
payload_of (ok r) = some r.payload
payload_of (err e) = none
payload_of panic = none

login_of_answer :
    (request_id : Option String) (o : Outcome Auth.AuthError LoginResponse) (l : LoginResponse)
    → auth_answer request_id o ≡ ok (reply 200 (login_json l))
    → o ≡ ok l
unfolding payload_of
login_of_answer request_id (ok r) l h =
    let same : some (login_json r) ≡ some (login_json l) = ap payload_of h in cc
login_of_answer request_id (err e) l h =
    let clash : some (auth_error_json e request_id) ≡ some (login_json l) = ap payload_of h in cc
login_of_answer request_id panic l h = cc

module _ {R D : Type 0} (s : Services R D) (state : AppState)
    (matched : List Route → String → Option (Route × String)) (config : AuthConfig)
    (pairs : s.crypto.EncodingKey → s.crypto.DecodingKey → Type 0)
    (jwt : IsJwt s.crypto pairs) where
  -- The endpoint of the login answers what the handler of the login does.
  serve-login :
      (req : HttpRequest) (at : Readings) (w : World R D) (r : Route) (code : String)
      (login : LoginRequest)
      → matched build_router req.path ≡ some (r, code)
      → r.is_guarded ≡ false
      → handler_of req.method r.on ≡ some login_handler
      → s.extract.login_body req.body ≡ ok login
      → serve s state matched req at w ≡ (
        auth_answer at.request_id
            (Auth.login_handler s.crypto s.manifest_dir state.config.auth login at.unix_now),
        w,
      )
  unfolding serve serve_route handle_method handle
  serve-login req at w r code login here free found body =
      rw (serve, here, free, handle_method, found, handle, body) refl

  -- After a login that is answered with 200, a request to a guarded route with the token of the
  -- answer reaches the handlers of the route, until the expiry of the token and thirty seconds more.
  -- The configuration of the authentication has the default issuer and audience, and its keys load as
  -- a pair; the expiry is the second at which the clock has gone on by the configured time.
  pub serve-login_handler :
      (req next : HttpRequest) (at later : Readings) (w v : World R D) (r g : Route)
      (code other : String) (login : LoginRequest) (l : LoginResponse) (exp : ℤ)
      (keys : s.crypto.EncodingKey × s.crypto.DecodingKey)
      → state.config.auth ≡ some config
      → state.auth ≡ some config
      → config.issuer ≡ "shorty-service"
      → config.audience ≡ "shorty-api"
      → load_keys s.crypto s.manifest_dir config ≡ ok keys
      → pairs keys.0 keys.1
      → s.crypto.add_seconds at.unix_now config.access_token_ttl_secs ≡ ok exp
      → later.unix_now ≤ℤ pos (i64_as_u64 exp + 30)
      → matched build_router req.path ≡ some (r, code)
      → r.is_guarded ≡ false
      → handler_of req.method r.on ≡ some login_handler
      → s.extract.login_body req.body ≡ ok login
      → (serve s state matched req at w).0 ≡ ok (reply 200 (login_json l))
      → next.authorization ≡ bearer s.crypto s.manifest_dir config l.access_token
      → matched build_router next.path ≡ some (g, other)
      → g.is_guarded ≡ true
      → serve s state matched next later v ≡ handle_method s state g.on other next later v
  unfolding serve serve_route
  serve-login_handler req next at later w v r g code other login l exp keys configured on issuer
        audience loaded pair added early here free found body answered shown there guarded =
      let step : auth_answer at.request_id
            (Auth.login_handler s.crypto s.manifest_dir state.config.auth login at.unix_now)
          ≡ ok (reply 200 (login_json l)) =
        ap (λ (x : Outcome ⊥ HttpResponse × World R D). x.0)
          (sym (serve-login req at w r code login here free found body))
        ∙ answered in
      let issued : Auth.login_handler s.crypto s.manifest_dir (some config) login at.unix_now
          ≡ ok l =
        ap
          (λ (a : Option AuthConfig).
            Auth.login_handler s.crypto s.manifest_dir a login at.unix_now)
          (sym configured)
        ∙ login_of_answer at.request_id _ l step in
      let passed =
        auth_middleware-login_handler s.crypto s.manifest_dir config pairs jwt login at.unix_now
          later.unix_now exp l keys issuer audience loaded pair added early issued in
      rw (serve, there, guarded, on, shown, passed) refl
