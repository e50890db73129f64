-- ===== src/Server/Dto.antt =====
-- shorty-server/src/api/dto.rs: requests, responses and the validation of input. `Url::parse` of
-- the crate url is a parameter; a request body is a value that serde has read.
pub mod Checks
use otus_rusthomework_http_a.Common.{
  ℕ, ℤ, ◌+◌, ◌*◌, ◌/◌, ◌^◌, String, str_append, Bool, true, false, ◌&&◌, ◌||◌, not, Option, none,
  some, List, [], ◌∷◌, ◌==◌, ltb, leb, if◌then◌else◌, str_eq, length, pos_part,
}
use otus_rusthomework_http_a.Common.Outcome.{Outcome, ok, err, panic}
use otus_rusthomework_http_a.Common.Text.{to_string, bytes}
use otus_rusthomework_http_a.Common.Time.{SystemTime, as_unix_secs, add_secs, nanos_per_sec}
use otus_rusthomework_http_a.Domain.Link.{ShortLink, LinkStats}
use otus_rusthomework_http_a.Server.Error.{AppError, FieldError, validation}

pub record CreateLinkRequest : Type 0 where
  pub target_url : String
  pub custom_code : Option String
  pub ttl_seconds : Option ℕ

pub record UpdateLinkRequest : Type 0 where
  pub target_url : String
  pub version : ℤ

pub record LinkResponse : Type 0 where
  pub code : String
  pub target_url : String
  pub created_at_unix : ℕ
  pub expires_at_unix : Option ℕ
  pub hits : ℕ
  pub version : ℤ

pub record ListLinksResponse : Type 0 where
  pub links : List LinkResponse
  pub next_cursor : Option String

unfoldable pub unix_secs : SystemTime → ℕ
unfolding as_unix_secs
unix_secs t = as_unix_secs t

unfoldable pub expires_at_unix_of : Option SystemTime → Option ℕ
unfolding unix_secs
expires_at_unix_of none = none
expires_at_unix_of (some t) = some (unix_secs t)

-- `From<ShortLink> for LinkResponse`
unfoldable pub from_link : ShortLink → LinkResponse
unfolding unix_secs expires_at_unix_of
from_link link = record {
  code = link.code;
  target_url = link.target_url;
  created_at_unix = unix_secs link.created_at;
  expires_at_unix = expires_at_unix_of link.expires_at;
  hits = 0;
  version = link.version;
}

-- `From<LinkStats> for LinkResponse`
unfoldable pub from_stats : LinkStats → LinkResponse
unfolding unix_secs expires_at_unix_of
from_stats stats = record {
  code = stats.link.code;
  target_url = stats.link.target_url;
  created_at_unix = unix_secs stats.link.created_at;
  expires_at_unix = expires_at_unix_of stats.link.expires_at;
  hits = stats.hits;
  version = stats.link.version;
}

-- What the code uses of the crate url: a URL or the text of the error, its scheme, its text.
pub record UrlParser : Type 1 where
  pub Url : Type 0
  pub parse : String → Outcome String Url
  pub scheme : Url → String
  pub as_str : Url → String

abbrev one_field : String → String → String → AppError
one_field message field issue = validation message (record { field = field; issue = issue } ∷ [])

unfoldable pub checked_scheme : (p : UrlParser) → p.Url → Outcome AppError p.Url
checked_scheme p url =
    let scheme = p.scheme url in
    if str_eq scheme "http" || str_eq scheme "https"
    then ok url
    else err (
        one_field (str_append "target_url must use http or https, got '" (str_append scheme "'"))
          "target_url" (str_append "scheme must be http or https, got '" (str_append scheme "'")))

unfoldable pub checked_parse : (p : UrlParser) → Outcome String p.Url → Outcome AppError p.Url
unfolding checked_scheme
checked_parse p (ok url) = checked_scheme p url
checked_parse p (err e) =
    err
      (one_field (str_append "invalid target_url: " e) "target_url" (str_append "invalid url: " e))
checked_parse p panic = panic

unfoldable pub parse_target_url : (p : UrlParser) → String → Outcome AppError p.Url
unfolding checked_parse
parse_target_url p raw = checked_parse p (p.parse raw)

-- `u8::is_ascii_alphanumeric`, `_` or `-`.
unfoldable pub is_code_byte : ℕ → Bool
is_code_byte b =
    leb b'0' b && leb b b'9'
    || leb b'A' b && leb b b'Z'
    || leb b'a' b && leb b b'z'
    || b == b'_'
    || b == b'-'

unfoldable pub all_code_bytes : List ℕ → Bool
unfolding is_code_byte
all_code_bytes [] = true
all_code_bytes (b ∷ bs) = is_code_byte b && all_code_bytes bs

-- `str::len` counts bytes.
unfoldable pub validate_custom_code : String → Outcome AppError Unit
unfolding to_string bytes all_code_bytes
validate_custom_code code =
    let size = length (bytes code) in
    if not (leb 4 size && leb size 32)
    then err (
        one_field "custom_code must be 4..=32 characters long" "custom_code"
          (str_append "length is " (str_append (to_string size) " characters, expected 4..=32")))
    else if not (all_code_bytes (bytes code))
    then err (
        one_field "custom_code may contain only [a-zA-Z0-9_-]" "custom_code"
          "contains invalid characters")
    else ok tt

-- `SystemTime + Duration` panics where the sum of seconds leaves `i64`.
unfoldable pub expires_at_from_secs : ℕ → SystemTime → Outcome AppError (Option SystemTime)
unfolding to_string add_secs
expires_at_from_secs secs now =
    if secs == 0
    then err (
        one_field "ttl_seconds must be greater than zero" "ttl_seconds" "must be greater than zero")
    else if ltb secs 60
    then err (
        one_field "ttl_seconds must be at least 60 seconds" "ttl_seconds"
          (str_append "value is " (str_append (to_string secs) " seconds, minimum is 60")))
    else if leb (2 ^ 63) (pos_part (add_secs now secs) / nanos_per_sec)
    then panic
    else ok (some (add_secs now secs))

unfoldable pub expires_at_from_ttl : Option ℕ → SystemTime → Outcome AppError (Option SystemTime)
unfolding expires_at_from_secs
expires_at_from_ttl none now = ok none
expires_at_from_ttl (some secs) now = expires_at_from_secs secs now
