-- ===== src/Server/Grpc.antt =====
-- shorty-server/src/grpc/mod.rs: the gRPC service. The request is what tonic has read, a response
-- is a value, and the generated types of the protocol are records.
pub mod Paging
pub mod Restart
pub mod Stream
pub mod Delivery
pub mod Guard
pub mod Created
pub mod Agrees
pub mod ApiTests
pub mod Tests
use otus_rusthomework_http_a.Common.{
  ℕ, ℤ, pos, pos_part, leb_ℤ, String, str_append, Bool, true, false, Option, none, some, List, [],
  ◌∷◌, map, if◌then◌else◌, str_eq,
}
use otus_rusthomework_http_a.Common.Outcome.{
  Outcome, ok, err, panic, map_err, bind, Exec, pure, throw, lift, ◌>>=◌, ◌>>◌,
}
use otus_rusthomework_http_a.Common.Text.{strip_prefix, split}
use otus_rusthomework_http_a.Common.Time.{SystemTime, as_unix_secs, as_subsec_nanos}
use otus_rusthomework_http_a.Domain.Link.{
  ShortLink, LinkStats, RepoError, code_taken, not_found, version_conflict, unavailable, internal,
  new, LinkRepository,
}
use otus_rusthomework_http_a.Server.Cache.{as_i64}
use otus_rusthomework_http_a.Server.Auth.{AuthConfig, Crypto, load_keys, validate_token}

pub data Status : Type 0 where
  status_not_found status_already_exists status_aborted status_unavailable status_internal
        status_invalid_argument status_unauthenticated :
      String → Status

pub record Timestamp : Type 0 where
  pub seconds : ℤ
  pub nanos : ℤ

pub record GrpcLink : Type 0 where
  pub code : String
  pub target_url : String
  pub created_at : Timestamp
  pub updated_at : Timestamp
  pub expires_at : Option Timestamp
  pub version : ℤ
  pub hits : ℤ

pub record GrpcCreated : Type 0 where
  pub code : String
  pub target_url : String
  pub created_at : Timestamp
  pub expires_at : Option Timestamp
  pub version : ℤ

pub record GrpcCreateRequest : Type 0 where
  pub target_url : String
  pub custom_code : Option String
  pub ttl_seconds : Option ℤ

pub record GrpcListRequest : Type 0 where
  pub page_size : ℤ
  pub page_token : Option String

pub record GrpcPage : Type 0 where
  pub links : List GrpcLink
  pub next_page_token : Option String

unfoldable pub protobuf_timestamp : SystemTime → Timestamp
unfolding as_i64 as_unix_secs as_subsec_nanos
protobuf_timestamp t = record { seconds = as_i64 (as_unix_secs t); nanos = pos (as_subsec_nanos t) }

unfoldable pub optional_timestamp : Option SystemTime → Option Timestamp
unfolding protobuf_timestamp
optional_timestamp none = none
optional_timestamp (some t) = some (protobuf_timestamp t)

unfoldable pub map_repo_error : String → RepoError → Status
map_repo_error code (not_found _) =
    status_not_found (str_append "link " (str_append code " not found"))
map_repo_error code (code_taken _) =
    status_already_exists (str_append "code " (str_append code " already exists"))
map_repo_error code version_conflict = status_aborted "version conflict"
map_repo_error code unavailable = status_unavailable "database unavailable"
map_repo_error code (internal _) = status_internal "internal error"

-- The `Display` of a repository error (crates/domain/src/lib.rs), which `list_links` sends.
unfoldable pub display : RepoError → String
display (code_taken code) = str_append "code '" (str_append code "' is already taken")
display (not_found code) = str_append "link '" (str_append code "' not found")
display version_conflict = "version conflict"
display unavailable = "storage unavailable"
display (internal text) = "internal error"

unfoldable pub grpc_link : ShortLink → ℤ → GrpcLink
unfolding protobuf_timestamp optional_timestamp
grpc_link link hits = record {
  code = link.code;
  target_url = link.target_url;
  created_at = protobuf_timestamp link.created_at;
  updated_at = protobuf_timestamp link.updated_at;
  expires_at = optional_timestamp link.expires_at;
  version = link.version;
  hits = hits;
}

unfoldable pub grpc_created : LinkStats → GrpcCreated
unfolding protobuf_timestamp optional_timestamp
grpc_created stats = record {
  code = stats.link.code;
  target_url = stats.link.target_url;
  created_at = protobuf_timestamp stats.link.created_at;
  expires_at = optional_timestamp stats.link.expires_at;
  version = stats.link.version;
}

-- The id that a request carries on: the header, `none` where it is missing or no visible ASCII, or
-- a new UUID.
unfoldable pub request_id_interceptor : Option String → String → String
request_id_interceptor none generated = generated
request_id_interceptor (some request_id) generated = request_id

-- `authorization` is the value of the header, `none` where it is missing or no visible ASCII.
unfoldable pub authenticate : Crypto → String → AuthConfig → ℤ → Option String → Outcome Status Unit
unfolding strip_prefix load_keys validate_token
authenticate x dir config now none = err (status_unauthenticated "missing or invalid token")
authenticate x dir config now (some header) = elim (strip_prefix header "Bearer ") [
  | none ↦ err (status_unauthenticated "missing or invalid token")
  | some token ↦
      bind (map_err (λ _. status_internal "failed to load auth keys") (load_keys x dir config))
        λ keys.
          bind
            (map_err (λ _. status_unauthenticated "invalid token")
              (validate_token x dir token keys.1 now))
            λ _. ok tt
]

unfoldable pub page_size_of : ℤ → ℕ
page_size_of size =
    if leb_ℤ size (pos 0) then 20 else if leb_ℤ size (pos 100) then pos_part size else 100

-- The two parts of a token with one colon.
unfoldable pub cursor_of_parts : List String → Option (String × String)
cursor_of_parts (ts ∷ code ∷ []) = some (ts, code)
cursor_of_parts _ = none

unfoldable pub cursor_of_token : Option String → Option (String × String)
unfolding split cursor_of_parts
cursor_of_token none = none
cursor_of_token (some token) = cursor_of_parts (split b':' token)

unfoldable pub token_of_cursor : Option (String × String) → Option String
token_of_cursor none = none
token_of_cursor (some c) = some (str_append c.0 (str_append ":" c.1))

unfoldable pub custom_code_of : Option String → Option String
custom_code_of none = none
custom_code_of (some code) = if str_eq code "" then none else some code

-- The code of a new link: the custom one, or the first eight characters of a new UUID.
unfoldable pub code_or : Option String → String → String
code_or none generated = generated
code_or (some code) generated = code

unfoldable pub grpc_page : List ShortLink × Option (String × String) → GrpcPage
unfolding grpc_link token_of_cursor
grpc_page page = record {
  links = map (λ l. grpc_link l (pos 0)) page.0;
  next_page_token = token_of_cursor page.1;
}

module _ {R : Type 0} (repo : LinkRepository R)
    (auth : ℤ → Option String → Outcome Status Unit) where
  abbrev pub call_as : {A : Type 0} → (RepoError → Status) → Exec R RepoError A → Exec R Status A
  call_as f m r = let (o, s) = m r in (map_err f o, s)

  unfoldable pub get_link : ℤ → Option String → String → Exec R Status GrpcLink
  unfolding map_repo_error grpc_link as_i64
  get_link now authorization code = do
    lift (auth now authorization)
    stats ← call_as (map_repo_error code) (repo.stats code)
    pure (grpc_link stats.link (as_i64 stats.hits))

  unfoldable pub create_with : String → String → SystemTime → Exec R Status GrpcCreated
  unfolding map_repo_error grpc_created new
  create_with target_url code created = do
    call_as (map_repo_error code) (repo.insert (new code target_url created) created)
    stats ← call_as (map_repo_error code) (repo.stats code)
    pure (grpc_created stats)

  unfoldable pub create_checked :
      GrpcCreateRequest → String → SystemTime → Exec R Status GrpcCreated
  unfolding create_with code_or custom_code_of
  create_checked req generated created =
      if str_eq req.target_url ""
      then throw (status_invalid_argument "target_url is required")
      else create_with req.target_url (code_or (custom_code_of req.custom_code) generated) created

  -- The time to live of the request is read and not used.
  unfoldable pub create_link :
      ℤ → Option String → GrpcCreateRequest → String → SystemTime → Exec R Status GrpcCreated
  unfolding create_checked
  create_link now authorization req generated created = do
    lift (auth now authorization)
    create_checked req generated created

  unfoldable pub list_links : ℤ → Option String → GrpcListRequest → Exec R Status GrpcPage
  unfolding page_size_of cursor_of_token display grpc_page
  list_links now authorization req = do
    lift (auth now authorization)
    page ←
        call_as (λ e. status_internal (display e))
          (repo.list (page_size_of req.page_size) (cursor_of_token req.page_token))
    pure (grpc_page page)
