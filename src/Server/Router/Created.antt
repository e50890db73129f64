-- ===== src/Server/Router/Created.antt =====
-- A link that a client creates over HTTP, and the redirection of its code.
use otus_rusthomework_http_a.Common.{
  ℕ, String, str_append, ◌≡◌, refl, sym, ap, ◌∙◌, Bool, true, false, Option, none, some, List, [],
  ◌∷◌,
}
use otus_rusthomework_http_a.Common.Outcome.{
  Outcome, ok, err, panic, Exec, lift, ◌>>=◌, chain-ok, ok-injective,
}
use otus_rusthomework_http_a.Common.Time.{SystemTime}
use otus_rusthomework_http_a.Storage.InMemory.{InMemoryRepo, in_memory}
use otus_rusthomework_http_a.Server.Error.{AppError, app_not_found, from_request}
use otus_rusthomework_http_a.Server.Dto.{
  CreateLinkRequest, LinkResponse, parse_target_url, expires_at_from_ttl,
}
use otus_rusthomework_http_a.Server.Handlers
use otus_rusthomework_http_a.Server.Handlers.{World, Response, create_for}
use otus_rusthomework_http_a.Server.Handlers.Created.{moved, is_past, create_link-redirect}
use otus_rusthomework_http_a.Server.Auth.{AuthError, Claims, auth_middleware}
use otus_rusthomework_http_a.Server.Router.{
  Route, build_router, AppState, HttpRequest, Readings, Services, HttpResponse, Payload, Handler,
  link_json, no_payload, error_reply, answer, create_link, list_links, redirect, get, post,
}
use otus_rusthomework_http_a.Server.Router.Serve.{
  created_reply, redirect_reply, handler_of, handle, handle_method, behind_auth, serve_route, serve,
}

abbrev pub links_route : Route
links_route = record {
  path = "/api/v1/links";
  on = (post, create_link) ∷ (get, list_links) ∷ [];
  is_guarded = true;
}

abbrev pub code_route : Route
code_route = record { path = "/{code}"; on = (get, redirect) ∷ []; is_guarded = false }

abbrev payload_link : Payload → Option LinkResponse
payload_link (link_json l) = some l
payload_link _ = none

-- The link in the body of an answer.
abbrev linked : Outcome ⊥ HttpResponse → Option LinkResponse
linked (ok r) = payload_link r.payload
linked (err e) = none
linked panic = none

linked_of_payload :
    (r : Outcome ⊥ HttpResponse) (out : HttpResponse) (l : LinkResponse)
    → r ≡ ok out
    → out.payload ≡ link_json l
    → linked r ≡ some l
linked_of_payload r out l e shown = ap linked e ∙ ap payload_link shown

answered_of :
    (id : Option String) (r : Outcome AppError (Response LinkResponse)) (l : LinkResponse)
    → linked (answer created_reply id r) ≡ some l
    → (a : Response LinkResponse) × (r ≡ ok a) × (a.body ≡ l)
answered_of id (ok a) l h = (a, refl, cc)
answered_of id (err e) l h = cc
answered_of id panic l h = cc

read_ok : {A : Type 0} (o : Outcome (ℕ × String) A) (a : A) → from_request o ≡ ok a → o ≡ ok a
unfolding from_request
read_ok (ok b) a h = cc
read_ok (err rejection) a h = cc
read_ok panic a h = cc

-- The answer to the redirection of a link with the URL.
abbrev pub forwarded : Option String → String → Bool → Outcome ⊥ HttpResponse
forwarded id url true = ok (error_reply id app_not_found)
forwarded id url false =
    ok (record { status = 307; location = some url; retry_after = none; payload = no_payload })

moved-forwarded :
    (id : Option String) (url : String) (b : Bool)
    → answer redirect_reply id (moved url b) ≡ forwarded id url b
moved-forwarded id url true = refl
moved-forwarded id url false = refl

module _ {D : Type 0} (services : Services InMemoryRepo D) (state : AppState)
    (matched : List Route → String → Option (Route × String)) where
  abbrev s : Services InMemoryRepo D
  s = record services { repo = in_memory }

  behind :
      (id : Option String) (checked : Outcome AuthError (Option Claims))
      (next : Handler InMemoryRepo D) (w : World InMemoryRepo D) (l : LinkResponse)
      → linked (behind_auth s state id checked next w).0 ≡ some l
      → behind_auth s state id checked next w ≡ next w
  behind id (ok claims) next w l h = refl
  behind id (err e) next w l h = cc
  behind id panic next w l h = cc

  -- What the handler of the creation runs on the body.
  abbrev creation :
      HttpRequest → Readings → Exec (World InMemoryRepo D) AppError (Response LinkResponse)
  creation req at = lift (from_request (s.extract.create_body req.body)) >>= λ body.
      Handlers.create_link s.repo s.urls state.config.max_generate_attempts at.draw body at.now
        at.later

  module _ (req : HttpRequest) (at : Readings) (w : World InMemoryRepo D) where
    handle-create_link :
        (code : String)
        → handle s state create_link code req at w
          ≡ (answer created_reply at.request_id (creation req at w).0, (creation req at w).1)
    unfolding handle
    handle-create_link code = refl

    -- A creation that is answered with a link was served by its handler.
    serve-creation :
        (code : String) (l : LinkResponse)
        → matched build_router req.path ≡ some (links_route, code)
        → req.method ≡ post
        → linked (serve s state matched req at w).0 ≡ some l
        → serve s state matched req at w
          ≡ (answer created_reply at.request_id (creation req at w).0, (creation req at w).1)
    unfolding serve serve_route handle_method handler_of
    serve-creation code l here posted h =
        let next = handle_method s state links_route.on code req at in
        let checked =
          auth_middleware s.crypto s.manifest_dir state.auth req.authorization at.unix_now in
        let e : serve s state matched req at w ≡ behind_auth s state at.request_id checked next w =
          rw (serve, here) refl in
        let through = behind at.request_id checked next w l (ap (λ x. linked x.0) (sym e) ∙ h) in
        let handled : next w ≡ handle s state create_link code req at w =
          rw (handle_method, posted) refl in
        e ∙ through ∙ handled ∙ handle-create_link code

    -- What a creation that is answered with a link has read.
    creation-ok :
        (a : Response LinkResponse)
        → (creation req at w).0 ≡ ok a
        → (body : CreateLinkRequest) × (url : s.urls.Url) × (expires : Option SystemTime)
          × (s.extract.create_body req.body ≡ ok body)
          × (parse_target_url s.urls body.target_url ≡ ok url)
          × (expires_at_from_ttl body.ttl_seconds at.now ≡ ok expires)
          × (creation req at w
              ≡ Handlers.create_link s.repo s.urls state.config.max_generate_attempts at.draw body
                  at.now at.later w)
    unfolding Handlers.create_link
    creation-ok a h =
        let attempts = state.config.max_generate_attempts in
        let (body, read, h1, e1) =
          chain-ok (lift (from_request (s.extract.create_body req.body)))
            (λ body. Handlers.create_link s.repo s.urls attempts at.draw body at.now at.later) w a
            h in
        let (url, parsed, h2, e2) =
          chain-ok (lift (parse_target_url s.urls body.target_url))
            (λ url. lift (expires_at_from_ttl body.ttl_seconds at.now) >>= λ expires.
              create_for s.repo body.custom_code attempts at.draw (s.urls.as_str url) at.later
                expires)
            w a h1 in
        let (expires, timed, h3, e3) =
          chain-ok (lift (expires_at_from_ttl body.ttl_seconds at.now))
            (create_for s.repo body.custom_code attempts at.draw (s.urls.as_str url) at.later) w a
            h2 in
        (body, url, expires, read_ok (s.extract.create_body req.body) body read, parsed, timed, e1)

    serve-redirection :
        (code : String)
        → matched build_router req.path ≡ some (code_route, code)
        → req.method ≡ get
        → (serve s state matched req at w).0
          ≡ answer redirect_reply at.request_id
              (Handlers.redirect s.repo s.redis s.serde code at.now at.later w).0
    unfolding serve serve_route handle_method handler_of handle
    serve-redirection code here got = rw (serve, here, handle_method, got) refl

  -- A POST to the links that is answered with a link has the status 201 and the path of the link.
  -- The next request, a GET that the router takes to the redirection of the code in that answer, is
  -- answered with 307 and the URL in that answer before the expiry that the time to live of the body
  -- asks for, and with the error for a missing link from it on; over the repository in memory.
  pub serve-create_link :
      (req req' : HttpRequest) (at at' : Readings) (w : World InMemoryRepo D) (out : HttpResponse)
      (l : LinkResponse) (code : String)
      → matched build_router req.path ≡ some (links_route, code)
      → req.method ≡ post
      → matched build_router req'.path ≡ some (code_route, l.code)
      → req'.method ≡ get
      → (serve s state matched req at w).0 ≡ ok out
      → out.payload ≡ link_json l
      → (out.status ≡ 201)
        × (out.location ≡ some (str_append "/api/v1/links/" l.code))
        × (body : CreateLinkRequest) × (expires : Option SystemTime) × (s.extract.create_body
              req.body
            ≡ ok body)
        × (expires_at_from_ttl body.ttl_seconds at.now ≡ ok expires)
        × ((serve s state matched req' at' (serve s state matched req at w).1).0
            ≡ forwarded at'.request_id l.target_url (is_past expires at'.now))
  serve-create_link req req' at at' w out l code here posted there got answered shown =
      let linked_l = linked_of_payload (serve s state matched req at w).0 out l answered shown in
      let e = serve-creation req at w code l here posted linked_l in
      let (a, ran, a_l) =
        answered_of at.request_id (creation req at w).0 l
          (ap (λ x. linked x.0) (sym e) ∙ linked_l) in
      let (body, url, expires, read, parsed, timed, e') = creation-ok req at w a ran in
      let attempts = state.config.max_generate_attempts in
      let (status, location, target, free, later) =
        create_link-redirect s.redis s.serde s.urls attempts at.draw body at.now at.later w url
          expires a at'.now at'.later parsed timed (ap (λ x. x.0) (sym e') ∙ ran) in
      let same : created_reply a ≡ out =
        ok-injective
          (sym (ap (answer created_reply at.request_id) ran) ∙ sym (ap (λ x. x.0) e) ∙ answered) in
      let left = ap (λ x. x.1) (e ∙ ap (λ x. (answer created_reply at.request_id x.0, x.1)) e') in
      let forward : String → World InMemoryRepo D → Outcome AppError (Response Unit) =
        λ c v. (Handlers.redirect in_memory s.redis s.serde c at'.now at'.later v).0 in
      let made = (Handlers.create_link s.repo s.urls attempts at.draw body at.now at.later w).1 in
      let told =
        ap (forward l.code) left
        ∙ ap (λ b. forward b.code made) (sym a_l)
        ∙ later
        ∙ ap (λ u. moved u (is_past expires at'.now)) (sym target ∙ ap (λ b. b.target_url) a_l) in
      (
        ap (λ x. x.status) (sym same) ∙ status,
        ap (λ x. x.location) (sym same)
            ∙ location
            ∙ ap (λ b. some (str_append "/api/v1/links/" b.code)) a_l,
        body,
        expires,
        read,
        timed,
        serve-redirection req' at' (serve s state matched req at w).1 l.code there got
            ∙ ap (answer redirect_reply at'.request_id) told
            ∙ moved-forwarded at'.request_id l.target_url (is_past expires at'.now),
      )
