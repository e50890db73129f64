-- ===== src/Server/Auth.antt =====
-- shorty-server/src/auth/mod.rs: keys, tokens, the login and the check of a request. The crates
-- jsonwebtoken, argon2 and chrono and the file system are a parameter.
pub mod Tokens
pub mod Tests
use otus_rusthomework_http_a.Common.{
  ℕ, ℤ, pos, String, Bool, true, false, not, Option, none, some, List, [], ◌∷◌, str_eq, ◌||◌,
  if◌then◌else◌, i64_as_u64,
}
use otus_rusthomework_http_a.Common.Outcome.{Outcome, ok, err, panic, bind}
use otus_rusthomework_http_a.Common.Text.{strip_prefix}

pub data AuthError : Type 0 where
  invalid_credentials missing_token invalid_token token_expired forbidden : AuthError

-- The algorithms that `load_keys` tells apart.
pub data Algorithm : Type 0 where
  rs256 rs384 rs512 es256 es384 other_algorithm : Algorithm

pub record Claims : Type 0 where
  pub sub : String
  pub exp : ℕ
  pub iat : ℕ
  pub iss : String
  pub aud : String
  pub role : String

pub record AuthConfig : Type 0 where
  pub issuer : String
  pub audience : String
  pub access_token_ttl_secs : ℤ
  pub private_key_path : String
  pub public_key_path : String
  pub admin_username : String
  pub admin_password_hash : String
  pub algorithm : Algorithm

-- What the code sets of jsonwebtoken's `Validation`.
pub record Validation : Type 0 where
  pub algorithm : Algorithm
  pub validate_exp : Bool
  pub leeway : ℕ
  pub issuer : List String
  pub audience : List String
  pub required : List String

pub data DecodeError : Type 0 where
  expired_signature other_error : DecodeError

-- The crates and the files. A clock reading is in whole seconds from the epoch.
pub record Crypto : Type 1 where
  pub EncodingKey : Type 0
  pub DecodingKey : Type 0
  pub read_to_string : String → Option String
  pub is_absolute : String → Bool
  pub join : String → String → String
  pub encoding_from_rsa_pem : String → Option EncodingKey
  pub encoding_from_ec_pem : String → Option EncodingKey
  pub decoding_from_rsa_pem : String → Option DecodingKey
  pub decoding_from_ec_pem : String → Option DecodingKey
  pub encode : Algorithm → Claims → EncodingKey → Option String
  pub decode : String → DecodingKey → Validation → ℤ → Outcome DecodeError Claims
  pub add_seconds : ℤ → ℤ → Outcome AuthError ℤ
  pub PasswordHash : Type 0
  pub parse_hash : String → Option PasswordHash
  pub verify : String → PasswordHash → Bool

unfoldable pub status_of : AuthError → ℕ
status_of invalid_credentials = 401
status_of missing_token = 401
status_of invalid_token = 401
status_of token_expired = 401
status_of forbidden = 403

-- `admin_hash` is the salted hash of "admin" that the call draws.
unfoldable pub default_auth : String → AuthConfig
default_auth admin_hash = record {
  issuer = "shorty-service";
  audience = "shorty-api";
  access_token_ttl_secs = pos 900;
  private_key_path = "../keys/jwt_private.pem";
  public_key_path = "../keys/jwt_public.pem";
  admin_username = "admin";
  admin_password_hash = admin_hash;
  algorithm = rs256;
}

abbrev pub or_else : {A : Type 0} → AuthError → Option A → Outcome AuthError A
or_else e none = err e
or_else e (some a) = ok a

abbrev starts_with : String → String → Bool
starts_with s p = elim (strip_prefix s p) [ none ↦ false | some _ ↦ true ]

pub record LoginRequest : Type 0 where
  pub username : String
  pub password : String

pub record LoginResponse : Type 0 where
  pub access_token : String
  pub token_type : String
  pub expires_in : ℤ

module _ (x : Crypto) (manifest_dir : String) where
  open x use {EncodingKey, DecodingKey}

  unfoldable pub new_claims : String → String → String → String → ℤ → ℤ → Outcome AuthError Claims
  unfolding i64_as_u64
  new_claims sub role iss aud ttl_secs now = bind (x.add_seconds now ttl_secs) λ exp. ok (record {
    sub = sub;
    exp = i64_as_u64 exp;
    iat = i64_as_u64 now;
    iss = iss;
    aud = aud;
    role = role;
  })

  unfoldable pub verify_password : String → String → Outcome AuthError Unit
  verify_password password hash =
      bind (or_else invalid_credentials (x.parse_hash hash))
        λ parsed. if x.verify password parsed then ok tt else err invalid_credentials

  unfoldable pub resolve_path : String → String
  unfolding strip_prefix
  resolve_path path =
      if starts_with path "/" || starts_with path "~/" || x.is_absolute path
      then path
      else x.join manifest_dir path

  unfoldable pub encoding_key_of : Algorithm → String → Option EncodingKey
  encoding_key_of rs256 pem = x.encoding_from_rsa_pem pem
  encoding_key_of rs384 pem = x.encoding_from_rsa_pem pem
  encoding_key_of rs512 pem = x.encoding_from_rsa_pem pem
  encoding_key_of es256 pem = x.encoding_from_ec_pem pem
  encoding_key_of es384 pem = x.encoding_from_ec_pem pem
  encoding_key_of other_algorithm pem = none

  unfoldable pub decoding_key_of : Algorithm → String → Option DecodingKey
  decoding_key_of rs256 pem = x.decoding_from_rsa_pem pem
  decoding_key_of rs384 pem = x.decoding_from_rsa_pem pem
  decoding_key_of rs512 pem = x.decoding_from_rsa_pem pem
  decoding_key_of es256 pem = x.decoding_from_ec_pem pem
  decoding_key_of es384 pem = x.decoding_from_ec_pem pem
  decoding_key_of other_algorithm pem = none

  -- Each failure is `InvalidToken`.
  unfoldable pub load_keys : AuthConfig → Outcome AuthError (EncodingKey × DecodingKey)
  unfolding resolve_path encoding_key_of decoding_key_of
  load_keys config =
      bind (or_else invalid_token (x.read_to_string (resolve_path config.private_key_path)))
        λ private_pem.
          bind (or_else invalid_token (x.read_to_string (resolve_path config.public_key_path)))
            λ public_pem.
              bind (or_else invalid_token (encoding_key_of config.algorithm private_pem))
                λ encoding_key.
                  bind (or_else invalid_token (decoding_key_of config.algorithm public_pem))
                    λ decoding_key. ok (encoding_key, decoding_key)

  -- The algorithm is the default configuration's.
  unfoldable pub create_token : Claims → EncodingKey → Outcome AuthError String
  unfolding default_auth
  create_token claims key = or_else invalid_token (x.encode (default_auth "").algorithm claims key)

  -- The issuer and the audience are the default configuration's.
  unfoldable pub validation : Validation
  unfolding default_auth
  validation = record {
    algorithm = (default_auth "").algorithm;
    validate_exp = true;
    leeway = 30;
    issuer = (default_auth "").issuer ∷ [];
    audience = (default_auth "").audience ∷ [];
    required = "exp" ∷ "iss" ∷ "aud" ∷ [];
  }

  unfoldable pub decoded : Outcome DecodeError Claims → Outcome AuthError Claims
  decoded (ok claims) = ok claims
  decoded (err expired_signature) = err token_expired
  decoded (err other_error) = err invalid_token
  decoded panic = panic

  unfoldable pub validate_token : String → DecodingKey → ℤ → Outcome AuthError Claims
  unfolding validation decoded
  validate_token token key now = decoded (x.decode token key validation now)

  unfoldable pub issue_token : AuthConfig → String → ℤ → Outcome AuthError LoginResponse
  unfolding new_claims load_keys create_token
  issue_token config username now =
      bind
        (new_claims username "admin" config.issuer config.audience config.access_token_ttl_secs now)
        λ claims. bind (load_keys config) λ keys. bind (create_token claims keys.0) λ token.
          ok (record {
            access_token = token;
            token_type = "Bearer";
            expires_in = config.access_token_ttl_secs;
          })

  -- `unwrap` panics where the authentication is switched off.
  unfoldable pub login_handler :
      Option AuthConfig → LoginRequest → ℤ → Outcome AuthError LoginResponse
  unfolding verify_password issue_token
  login_handler none req now = panic
  login_handler (some config) req now =
      if not (str_eq req.username config.admin_username)
      then err invalid_credentials
      else bind (verify_password req.password config.admin_password_hash)
          λ _. issue_token config req.username now

  -- The checks that the middleware, the extractor and the gRPC service share: the token behind
  -- `Bearer`, the keys, the claims. The header is `none` where it is missing or no visible ASCII.
  unfoldable pub checked_token : AuthConfig → String → ℤ → Outcome AuthError Claims
  unfolding load_keys validate_token
  checked_token config token now = bind (load_keys config) λ keys. validate_token token keys.1 now

  unfoldable pub claims_of_header : AuthConfig → Option String → ℤ → Outcome AuthError Claims
  unfolding strip_prefix checked_token
  claims_of_header config header now = bind (or_else missing_token header) λ h.
      bind (or_else invalid_token (strip_prefix h "Bearer "))
        λ token. checked_token config token now

  -- What the middleware gives on to the next handler: the claims, or nothing where the
  -- authentication is switched off.
  unfoldable pub auth_middleware :
      Option AuthConfig → Option String → ℤ → Outcome AuthError (Option Claims)
  unfolding claims_of_header
  auth_middleware none header now = ok none
  auth_middleware (some config) header now =
      bind (claims_of_header config header now) λ claims. ok (some claims)

  -- The extractor `AuthUser` loads the keys of the default configuration.
  unfoldable pub from_request_parts : Option String → ℤ → Outcome AuthError Claims
  unfolding claims_of_header default_auth
  from_request_parts header now = claims_of_header (default_auth "") header now
