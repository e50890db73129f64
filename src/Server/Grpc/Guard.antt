-- ===== src/Server/Grpc/Guard.antt =====
-- No gRPC method reaches the repository without a token.
use otus_rusthomework_http_a.Common.{
  ℤ, String, ◌≡◌, ◌≢◌, refl, ap, subst, ◌⊎◌, inl, inr, Option, none, some,
}
use otus_rusthomework_http_a.Common.Outcome.{
  Outcome, ok, err, panic, Exec, continue, bind, map_err, bind-ok,
}
use otus_rusthomework_http_a.Common.Text.{strip_prefix}
use otus_rusthomework_http_a.Common.Time.{SystemTime}
use otus_rusthomework_http_a.Domain.Link.{LinkRepository}
use otus_rusthomework_http_a.Server.Auth.{
  AuthConfig, AuthError, Claims, Crypto, load_keys, validate_token,
}
use otus_rusthomework_http_a.Server.Grpc.{
  Status, status_unauthenticated, status_internal, GrpcCreateRequest, GrpcListRequest, authenticate,
  get_link, create_link, list_links,
}
use otus_rusthomework_http_a.Server.Grpc.Stream.{stream_links}

-- The statuses of a failed authentication.
abbrev pub IsAuthStatus : Status → Type 0
IsAuthStatus (status_unauthenticated text) = Unit
IsAuthStatus (status_internal text) = text ≡ "failed to load auth keys"
IsAuthStatus _ = ⊥

-- A method gives no reply, fails with a status of the authentication if it fails, and leaves the
-- repository.
abbrev pub Refused : {R A : Type 0} → R → Outcome Status A × R → Type 0
Refused {A = A} r result =
    ((a : A) → result.0 ≢ ok a)
    × ((e : Status) → result.0 ≡ err e → IsAuthStatus e)
    × (result.1 ≡ r)

continue-Refused :
    {R A B : Type 0} (o : Outcome Status A) (f : A → Exec R Status B) (r : R)
    → ((a : A) → o ≢ ok a)
    → ((e : Status) → o ≡ err e → IsAuthStatus e)
    → Refused r (continue o f r)
continue-Refused (ok a) f r bad statuses = absurd (bad a refl)
continue-Refused (err e) f r bad statuses = (
  (λ a h. cc),
  (λ d h. let same : e ≡ d = cc in statuses d (ap (λ (x : Status). err x) same)),
  refl,
)
continue-Refused panic f r bad statuses = ((λ a h. cc), (λ e h. cc), refl)

ok_cases : {E A : Type 0} (o : Outcome E A) → ((a : A) × (o ≡ ok a)) ⊎ ((a : A) → o ≢ ok a)
ok_cases (ok a) = inl (a, refl)
ok_cases (err e) = inr (λ a h. cc)
ok_cases panic = inr (λ a h. cc)

map_err-ok : {E F A : Type 0} (f : E → F) (o : Outcome E A) (a : A) → map_err f o ≡ ok a → o ≡ ok a
map_err-ok f (ok b) a h = cc
map_err-ok f (err e) a h = cc
map_err-ok f panic a h = cc

module _ (x : Crypto) (dir : String) (config : AuthConfig) where
  -- The header holds a token behind `Bearer `, the keys are there, and the token is valid.
  abbrev pub IsAuthorized : ℤ → Option String → Type 0
  IsAuthorized now header =
      (text : String) × (token : String) × (keys : x.EncodingKey × x.DecodingKey)
      × (claims : Claims) × (header ≡ some text)
      × (strip_prefix text "Bearer " ≡ some token)
      × (load_keys x dir config ≡ ok keys)
      × (validate_token x dir token keys.1 now ≡ ok claims)

  -- The part of `authenticate` behind the token, from what the keys and the validation give.
  abbrev verdict :
      Outcome AuthError (x.EncodingKey × x.DecodingKey)
      → (x.DecodingKey → Outcome AuthError Claims)
      → Outcome Status Unit
  verdict keys validated =
      bind (map_err (λ _. status_internal "failed to load auth keys") keys)
        λ k. bind (map_err (λ _. status_unauthenticated "invalid token") (validated k.1)) λ _. ok tt

  rejected :
      (o : Outcome AuthError Claims) (e : Status)
      → bind (map_err (λ _. status_unauthenticated "invalid token") o) (λ _. ok tt) ≡ err e
      → IsAuthStatus e
  rejected (ok claims) e h = cc
  rejected (err d) e h =
      let same : status_unauthenticated "invalid token" ≡ e = cc in subst IsAuthStatus same tt
  rejected panic e h = cc

  verdict-err :
      (keys : Outcome AuthError (x.EncodingKey × x.DecodingKey))
      (validated : x.DecodingKey → Outcome AuthError Claims) (e : Status)
      → verdict keys validated ≡ err e
      → IsAuthStatus e
  verdict-err (ok k) validated e h = rejected (validated k.1) e h
  verdict-err (err d) validated e h =
      let same : status_internal "failed to load auth keys" ≡ e = cc in subst IsAuthStatus same refl
  verdict-err panic validated e h = cc

  module _ (now : ℤ) where
    authenticate-err :
        (header : Option String) (e : Status)
        → authenticate x dir config now header ≡ err e
        → IsAuthStatus e
    unfolding authenticate
    authenticate-err none e h =
        let same : status_unauthenticated "missing or invalid token" ≡ e = cc in
        subst IsAuthStatus same tt
    authenticate-err (some text) e h = at (strip_prefix text "Bearer ") h
      where
        at :
            (o : Option String)
            → (elim o [
              | none ↦ err (status_unauthenticated "missing or invalid token")
              | some token ↦
                  verdict (load_keys x dir config) (λ key. validate_token x dir token key now)
            ])
              ≡ err e
            → IsAuthStatus e
        at none h =
            let same : status_unauthenticated "missing or invalid token" ≡ e = cc in
            subst IsAuthStatus same tt
        at (some token) h =
            verdict-err (load_keys x dir config) (λ key. validate_token x dir token key now) e h

    validated-ok :
        (text token : String) (u : Unit)
        → strip_prefix text "Bearer " ≡ some token
        → verdict (load_keys x dir config) (λ key. validate_token x dir token key now) ≡ ok u
        → IsAuthorized now (some text)
    validated-ok text token u held h =
        let (keys, loaded, h1) =
          bind-ok
            (map_err (λ _. status_internal "failed to load auth keys") (load_keys x dir config)) _ u
            h in
        let (claims, valid, last) =
          bind-ok
            (map_err (λ _. status_unauthenticated "invalid token")
              (validate_token x dir token keys.1 now))
            _ u h1 in
        (
          text,
          token,
          keys,
          claims,
          refl,
          held,
          map_err-ok _ (load_keys x dir config) keys loaded,
          map_err-ok _ (validate_token x dir token keys.1 now) claims valid,
        )

    authenticate-ok :
        (header : Option String) (u : Unit)
        → authenticate x dir config now header ≡ ok u
        → IsAuthorized now header
    unfolding authenticate
    authenticate-ok none u h = cc
    authenticate-ok (some text) u h = at (strip_prefix text "Bearer ") refl h
      where
        at :
            (o : Option String)
            → strip_prefix text "Bearer " ≡ o
            → (elim o [
              | none ↦ err (status_unauthenticated "missing or invalid token")
              | some token ↦
                  verdict (load_keys x dir config) (λ key. validate_token x dir token key now)
            ])
              ≡ ok u
            → IsAuthorized now (some text)
        at none held h = cc
        at (some token) held h = validated-ok text token u held h

module _ {R : Type 0} (repo : LinkRepository R) (x : Crypto) (dir : String)
    (config : AuthConfig) where
  -- Where the header of a request is not `Bearer ` with a token that the keys of the configuration
  -- validate, none of the four methods gives a reply, each fails with `Unauthenticated` or, for want
  -- of the keys, with an internal error, if it fails, and each leaves the repository as it was.
  pub authenticate-guards :
      (now : ℤ) (header : Option String) (r : R)
      → IsAuthorized x dir config now header
        ⊎ (((code : String)
              → Refused r (get_link repo (authenticate x dir config) now header code r))
            × ((req : GrpcCreateRequest) (generated : String) (created : SystemTime)
                → Refused r (
                    create_link repo
                      (authenticate x dir config)
                      now
                      header
                      req
                      generated
                      created
                      r))
            × ((req : GrpcListRequest)
                → Refused r (list_links repo (authenticate x dir config) now header req r))
            × ((batch_size : ℤ)
                → Refused r (stream_links (authenticate x dir config) now header batch_size r)))
  unfolding get_link create_link list_links stream_links
  authenticate-guards now header r = elim (ok_cases (authenticate x dir config now header)) [
    | inl (u, passed) ↦ inl (authenticate-ok x dir config now header u passed)
    | inr bad ↦
        let statuses = authenticate-err x dir config now header in
        inr (
          (λ code. continue-Refused (authenticate x dir config now header) _ r bad statuses),
          (λ req generated created.
              continue-Refused (authenticate x dir config now header) _ r bad statuses),
          (λ req. continue-Refused (authenticate x dir config now header) _ r bad statuses),
          (λ size. continue-Refused (authenticate x dir config now header) _ r bad statuses),
        )
  ]
