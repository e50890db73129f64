-- ===== src/Server/Auth/Tokens.antt =====
-- The token of a login, shown to the middleware.
use otus_rusthomework_http_a.Common.{
  ◌+◌, ℤ, pos, ◌≤ℤ◌, String, str_append, ◌≡◌, refl, sym, ap, ◌∙◌, ◌≢◌, Bool-cases, inl, inr, str_eq,
  Option, none, some, [], ◌∷◌, i64_as_u64, arith,
}
use otus_rusthomework_http_a.Common.Outcome.{Outcome, ok, err, panic, bind, bind-ok}
use otus_rusthomework_http_a.Common.Text.{strip_prefix-append}
use otus_rusthomework_http_a.Server.Auth.{
  AuthError, AuthConfig, Claims, Crypto, Validation, Algorithm, rs256, LoginRequest, LoginResponse,
  or_else, load_keys, issue_token, login_handler, create_token, new_claims, validation,
  validate_token, decoded, checked_token, claims_of_header, auth_middleware, verify_password,
  default_auth, invalid_token, DecodeError, expired_signature, other_error,
}

-- What the code relies on of jsonwebtoken, for keys that belong together.
pub record IsJwt (x : Crypto) (pairs : x.EncodingKey → x.DecodingKey → Type 0) : Type 0 where
  -- A token is read back by the key of its pair, for an accepted algorithm, issuer and audience,
  -- until it expires, the leeway included.
  pub reads_back :
      (claims : Claims) (ek : x.EncodingKey) (dk : x.DecodingKey) (v : Validation) (now : ℤ)
      (token : String)
      → pairs ek dk
      → x.encode v.algorithm claims ek ≡ some token
      → v.issuer ≡ claims.iss ∷ []
      → v.audience ≡ claims.aud ∷ []
      → now ≤ℤ pos (claims.exp + v.leeway)
      → x.decode token dk v now ≡ ok claims
  -- A token whose issuer is not the accepted one is refused.
  pub checks_issuer :
      (claims c : Claims) (algorithm : Algorithm) (ek : x.EncodingKey) (dk : x.DecodingKey)
      (v : Validation) (now : ℤ) (token issuer : String)
      → x.encode algorithm claims ek ≡ some token
      → v.issuer ≡ issuer ∷ []
      → x.decode token dk v now ≡ ok c
      → claims.iss ≡ issuer

or_else-ok : {A : Type 0} (e : AuthError) (o : Option A) (a : A) → or_else e o ≡ ok a → o ≡ some a
or_else-ok e none a h = cc
or_else-ok e (some b) a h = cc

module _ (x : Crypto) (manifest_dir : String) (config : AuthConfig) where
  abbrev pub claims_at : String → ℤ → ℤ → Claims
  claims_at username now exp = record {
    sub = username;
    exp = i64_as_u64 exp;
    iat = i64_as_u64 now;
    iss = config.issuer;
    aud = config.audience;
    role = "admin";
  }

  -- What a token was made of.
  record IsIssued (username : String) (now : ℤ) (token : String) : Type 0 where
    exp : ℤ
    keys : x.EncodingKey × x.DecodingKey
    added : x.add_seconds now config.access_token_ttl_secs ≡ ok exp
    loaded : load_keys x manifest_dir config ≡ ok keys
    encoded : x.encode rs256 (claims_at username now exp) keys.0 ≡ some token

  issue_token-IsIssued :
      (username : String) (now : ℤ) (r : LoginResponse)
      → issue_token x manifest_dir config username now ≡ ok r
      → IsIssued username now r.access_token
  unfolding issue_token new_claims create_token default_auth
  issue_token-IsIssued username now r h =
      let (claims, made, h1) =
        bind-ok
          (new_claims x manifest_dir username "admin" config.issuer config.audience
            config.access_token_ttl_secs now)
          _ r h in
      let (keys, loaded, h2) = bind-ok (load_keys x manifest_dir config) _ r h1 in
      let (token, created, h3) = bind-ok (create_token x manifest_dir claims keys.0) _ r h2 in
      let (exp, added, h4) =
        bind-ok (x.add_seconds now config.access_token_ttl_secs) _ claims made in
      record {
        exp = exp;
        keys = keys;
        added = added;
        loaded = loaded;
        encoded =
            let e = or_else-ok invalid_token (x.encode rs256 claims keys.0) token created in cc;
      }

  -- The header of a client that shows a token.
  abbrev pub bearer : String → Option String
  bearer token = some (str_append "Bearer " token)

  claims_of_bearer :
      (token : String) (keys : x.EncodingKey × x.DecodingKey) (now : ℤ)
      → load_keys x manifest_dir config ≡ ok keys
      → claims_of_header x manifest_dir config (bearer token) now
        ≡ validate_token x manifest_dir token keys.1 now
  unfolding claims_of_header checked_token
  claims_of_bearer token keys now loaded =
      ap
        (λ (o : Option String).
          bind (or_else invalid_token o) λ t. checked_token x manifest_dir config t now)
        (strip_prefix-append "Bearer " token)
      ∙ ap
          (λ (o : Outcome AuthError (x.EncodingKey × x.DecodingKey)).
            bind o λ k. validate_token x manifest_dir token k.1 now)
          loaded

  middleware_of_bearer :
      (token : String) (keys : x.EncodingKey × x.DecodingKey) (now : ℤ)
      → load_keys x manifest_dir config ≡ ok keys
      → auth_middleware x manifest_dir (some config) (bearer token) now
        ≡ bind (validate_token x manifest_dir token keys.1 now) λ c. ok (some c)
  unfolding auth_middleware
  middleware_of_bearer token keys now loaded =
      ap (λ (o : Outcome AuthError Claims). bind o λ c. ok (some c))
        (claims_of_bearer token keys now loaded)

  login-IsIssued :
      (req : LoginRequest) (now : ℤ) (r : LoginResponse)
      → login_handler x manifest_dir (some config) req now ≡ ok r
      → IsIssued req.username now r.access_token
  unfolding login_handler
  login-IsIssued req now r h = elim (Bool-cases (str_eq req.username config.admin_username)) [
    | inl known ↦
        let (u, checked, issued) =
          bind-ok (verify_password x manifest_dir req.password config.admin_password_hash)
            (λ _. issue_token x manifest_dir config req.username now) r (ground (arith, known)) in
        issue_token-IsIssued req.username now r issued
    | inr unknown ↦ ground (arith, unknown)
  ]

  module _ (pairs : x.EncodingKey → x.DecodingKey → Type 0) (jwt : IsJwt x pairs) where
    -- With the default issuer and audience, the token of a successful login passes the middleware
    -- until its expiry and thirty seconds more, as the administrator who logged in, where the
    -- configured keys load as a pair. The expiry is the second at which the clock has gone on by
    -- the configured time.
    pub auth_middleware-login_handler :
        (req : LoginRequest) (now later exp : ℤ) (r : LoginResponse)
        (keys : x.EncodingKey × x.DecodingKey)
        → config.issuer ≡ "shorty-service"
        → config.audience ≡ "shorty-api"
        → load_keys x manifest_dir config ≡ ok keys
        → pairs keys.0 keys.1
        → x.add_seconds now config.access_token_ttl_secs ≡ ok exp
        → later ≤ℤ pos (i64_as_u64 exp + 30)
        → login_handler x manifest_dir (some config) req now ≡ ok r
        → auth_middleware x manifest_dir (some config) (bearer r.access_token) later
          ≡ ok (some (claims_at req.username now exp))
    unfolding validate_token validation default_auth
    auth_middleware-login_handler req now later exp r keys issuer audience loaded pair added early
          h =
        let i = login-IsIssued req now r h in
        let same_keys : i.keys ≡ keys = cc in
        let same_exp : i.exp ≡ exp = cc in
        let made : x.encode rs256 (claims_at req.username now exp) keys.0 ≡ some r.access_token =
          cc in
        middleware_of_bearer r.access_token keys later loaded
        ∙ ap (λ (o : Outcome DecodeError Claims). bind (decoded x manifest_dir o) λ c. ok (some c))
            (jwt.reads_back (claims_at req.username now exp) keys.0 keys.1
              (validation x manifest_dir) later r.access_token pair made
              (ap (λ (s : String). s ∷ []) (sym issuer))
              (ap (λ (s : String). s ∷ []) (sym audience)) early)

    decoded-ok :
        (o : Outcome DecodeError Claims) (c : Claims) → decoded x manifest_dir o ≡ ok c → o ≡ ok c
    unfolding decoded
    decoded-ok (ok d) c h = cc
    decoded-ok (err expired_signature) c h = cc
    decoded-ok (err other_error) c h = cc
    decoded-ok panic c h = cc

    -- With any other issuer than the default one, no token of a login ever passes the middleware.
    pub auth_middleware_refuses :
        (req : LoginRequest) (now later : ℤ) (r : LoginResponse) (claims : Option Claims)
        → config.issuer ≢ "shorty-service"
        → login_handler x manifest_dir (some config) req now ≡ ok r
        → auth_middleware x manifest_dir (some config) (bearer r.access_token) later ≢ ok claims
    unfolding validate_token validation default_auth
    auth_middleware_refuses req now later r claims other h passed =
        let i = login-IsIssued req now r h in
        let (c, valid, e) =
          bind-ok (validate_token x manifest_dir r.access_token i.keys.1 later) (λ c. ok (some c))
            claims (sym (middleware_of_bearer r.access_token i.keys later i.loaded) ∙ passed) in
        other (
          jwt.checks_issuer (claims_at req.username now i.exp) c rs256 i.keys.0 i.keys.1
            (validation x manifest_dir) later r.access_token "shorty-service" i.encoded refl
            (decoded-ok (x.decode r.access_token i.keys.1 (validation x manifest_dir) later) c
              valid))
