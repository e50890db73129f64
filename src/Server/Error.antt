-- ===== src/Server/Error.antt =====
-- shorty-server/src/api/error.rs: the errors of the API and their responses. A status code is its
-- number; the id of the request is an argument.
pub mod Statuses
use otus_rusthomework_http_a.Common.{
  ℕ, String, str_append, Bool, Option, none, some, List, ◌==◌, if◌then◌else◌,
}
use otus_rusthomework_http_a.Common.Outcome.{Outcome, ok, err, panic}
use otus_rusthomework_http_a.Common.Text.{to_string}
use otus_rusthomework_http_a.Domain.Link.{
  RepoError, code_taken, not_found, version_conflict, unavailable, internal,
}

pub record FieldError : Type 0 where
  pub field : String
  pub issue : String

pub record ErrorBody : Type 0 where
  pub code : String
  pub message : String
  pub request_id : Option String
  pub details : Option (List FieldError)

-- `Internal` carries the text of the `anyhow::Error`.
pub data AppError : Type 0 where
  app_not_found app_code_taken app_version_conflict app_unavailable : AppError
  validation : String → List FieldError → AppError
  invalid_body : ℕ → String → AppError
  rate_limit_exceeded : ℕ → AppError
  app_internal : String → AppError

-- A response with a JSON error body and, for the rate limit, the header Retry-After.
pub record ErrorResponse : Type 0 where
  pub status : ℕ
  pub retry_after : Option String
  pub body : ErrorBody

-- The texts of `thiserror`.
unfoldable pub message_of : AppError → String
unfolding to_string
message_of app_not_found = "resource not found"
message_of app_code_taken = "code is already taken"
message_of app_version_conflict = "version conflict"
message_of app_unavailable = "storage unavailable"
message_of (validation message details) = message
message_of (invalid_body status message) = message
message_of (rate_limit_exceeded retry_after) =
    str_append "rate limit exceeded, retry after " (str_append (to_string retry_after) " seconds")
message_of (app_internal text) = "internal error"

unfoldable pub invalid_body_code : ℕ → String
invalid_body_code status =
    if status == 413
    then "payload_too_large"
    else if status == 415
    then "unsupported_media_type"
    else if status == 422
    then "validation_error"
    else "bad_request"

unfoldable pub status_of : AppError → ℕ
status_of app_not_found = 404
status_of app_code_taken = 409
status_of app_version_conflict = 409
status_of app_unavailable = 503
status_of (validation message details) = 422
status_of (invalid_body status message) = status
status_of (rate_limit_exceeded retry_after) = 429
status_of (app_internal text) = 500

unfoldable pub code_of : AppError → String
unfolding invalid_body_code
code_of app_not_found = "not_found"
code_of app_code_taken = "code_taken"
code_of app_version_conflict = "version_conflict"
code_of app_unavailable = "unavailable"
code_of (validation message details) = "validation_error"
code_of (invalid_body status message) = invalid_body_code status
code_of (rate_limit_exceeded retry_after) = "rate_limit_exceeded"
code_of (app_internal text) = "internal"

unfoldable pub details_of : AppError → Option (List FieldError)
details_of (validation message details) = some details
details_of _ = none

unfoldable pub retry_after_of : AppError → Option String
unfolding to_string
retry_after_of (rate_limit_exceeded retry_after) = some (to_string retry_after)
retry_after_of _ = none

unfoldable pub into_response : Option String → AppError → ErrorResponse
unfolding status_of code_of details_of retry_after_of message_of
into_response request_id e = record {
  status = status_of e;
  retry_after = retry_after_of e;
  body = record {
    code = code_of e;
    message = message_of e;
    request_id = request_id;
    details = details_of e;
  };
}

-- `From<RepoError> for AppError`
unfoldable pub from_repo_error : RepoError → AppError
from_repo_error (not_found code) = app_not_found
from_repo_error (code_taken code) = app_code_taken
from_repo_error version_conflict = app_version_conflict
from_repo_error unavailable = app_unavailable
from_repo_error (internal text) = app_internal "internal error"

-- `AppJson::from_request`, over what axum's `Json` extractor returned: the value, or the status and
-- the text of its rejection.
unfoldable pub from_request : {A : Type 0} → Outcome (ℕ × String) A → Outcome AppError A
from_request (ok a) = ok a
from_request (err rejection) = err (invalid_body rejection.0 rejection.1)
from_request panic = panic
