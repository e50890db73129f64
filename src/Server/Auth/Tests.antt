-- ===== src/Server/Auth/Tests.antt =====
-- Logins with keys that are texts, and the theorems on them at concrete inputs.
use otus_rusthomework_http_a.Common.{
  ◌+◌, ◌==◌, pos, leb_ℤ, ◌+ℤ◌, String, str_append, ◌≡◌, refl, ◌≢◌, Bool, true, false, ◌&&◌, none,
  some, List, [], ◌∷◌, str_eq, eq_iff, if◌then◌else◌, arith,
}
use otus_rusthomework_http_a.Common.Outcome.{ok, err}
use otus_rusthomework_http_a.Server.Auth.{
  AuthConfig, Claims, Crypto, LoginRequest, LoginResponse, login_handler, auth_middleware,
  default_auth, expired_signature, other_error,
}
use otus_rusthomework_http_a.Server.Auth.Tokens.{IsJwt, bearer, auth_middleware_refuses}

-- The one person whose tokens this instance of the crates knows.
abbrev admin_at : String → Claims
admin_at iss = record {
  sub = "admin";
  exp = 1900;
  iat = 1000;
  iss = iss;
  aud = "shorty-api";
  role = "admin";
}

abbrev is_admin : Claims → Bool
is_admin c =
    str_eq c.sub "admin"
    && c.exp == 1900
    && c.iat == 1000
    && str_eq c.aud "shorty-api"
    && str_eq c.role "admin"

abbrev holds_text : List String → String → Bool
holds_text [] s = false
holds_text (t ∷ ts) s = str_eq t s && elim ts [ [] ↦ true | _ ↦ false ]

abbrev pub plain_crypto : Crypto
plain_crypto = record {
  EncodingKey = String;
  DecodingKey = String;
  read_to_string = λ path. some path;
  is_absolute = λ path. false;
  join = λ dir path. str_append dir path;
  encoding_from_rsa_pem = λ pem. some pem;
  encoding_from_ec_pem = λ pem. none;
  decoding_from_rsa_pem = λ pem. some pem;
  decoding_from_ec_pem = λ pem. none;
  encode = λ algorithm claims key. if is_admin claims then some claims.iss else none;
  decode = λ token key v now.
      if holds_text v.issuer token
      then if leb_ℤ now (pos (1900 + v.leeway)) then ok (admin_at token) else err expired_signature
      else err other_error;
  add_seconds = λ now secs. ok (now +ℤ secs);
  PasswordHash = String;
  parse_hash = λ hash. some hash;
  verify = λ password hash. str_eq password hash;
}

abbrev pub AnyPair : String → String → Type 0
AnyPair e d = Unit

admin_of :
    (claims : Claims) (token : String)
    → (if is_admin claims then some claims.iss else none) ≡ some token
    → claims ≡ admin_at token
admin_of claims token h =
    ground
      (arith, eq_iff claims.sub "admin", eq_iff claims.aud "shorty-api", eq_iff claims.role "admin")

holds_own : (s : String) (ts : List String) → ts ≡ s ∷ [] → holds_text ts s ≡ true
holds_own s [] h = cc
holds_own s (t ∷ []) h = ground (arith, eq_iff t s)
holds_own s (t ∷ u ∷ ts) h = cc

holds_only : (s t : String) (ts : List String) → ts ≡ t ∷ [] → holds_text ts s ≡ true → t ≡ s
holds_only s t [] h e = cc
holds_only s t (u ∷ []) h e = ground (arith, eq_iff u s)
holds_only s t (u ∷ v ∷ ts) h e = cc

issuer_of :
    (claims : Claims) (token : String)
    → (if is_admin claims then some claims.iss else none) ≡ some token
    → claims.iss ≡ token
issuer_of claims token h = ground arith

pub plain_crypto-IsJwt : IsJwt plain_crypto AnyPair
plain_crypto-IsJwt = record {
  reads_back = λ claims ek dk v now token pair made issuer audience early.
      let iss = issuer_of claims token made in
      let whole = admin_of claims token made in
      let mine : holds_text v.issuer token ≡ true = holds_own token v.issuer cc in
      let e : claims.exp ≡ 1900 = cc in ground (arith, mine, whole, e, early);
  checks_issuer = λ claims c algorithm ek dk v now token issuer made accepted read.
      let iss = issuer_of claims token made in
      let mine : holds_text v.issuer token ≡ true = ground arith in
      let own = holds_only token issuer v.issuer accepted mine in cc;
}

abbrev pub config : AuthConfig
config = record (default_auth "secret") { admin_password_hash = "secret" }

abbrev elsewhere : AuthConfig
elsewhere = record config { issuer = "other-service" }

abbrev pub login : LoginRequest
login = record { username = "admin"; password = "secret" }

abbrev pub answer : String → LoginResponse
answer token = record { access_token = token; token_type = "Bearer"; expires_in = pos 900 }

auth_middleware_refuses_example :
    auth_middleware plain_crypto "/src"
      (some elsewhere)
      (bearer plain_crypto "/src" elsewhere "other-service")
      (pos 1001)
    ≢ ok (some (admin_at "other-service"))
unfolding default_auth login_handler ◌+ℤ◌
auth_middleware_refuses_example =
    auth_middleware_refuses plain_crypto "/src" elsewhere AnyPair plain_crypto-IsJwt login
      (pos 1000) (pos 1001) (answer "other-service") (some (admin_at "other-service"))
      (λ e. ground (arith, eq_iff "other-service" "shorty-service")) refl
