-- ===== src/Server/Error/Statuses.antt =====
-- The codes and the statuses of error responses.
use otus_rusthomework_http_a.Common.{
  ℕ, String, ◌≡◌, refl, ◌≢◌, Option, none, some, str_eq, Bool, true, false, ◌||◌, ◌==◌, ◌∙◌,
  if◌then◌else◌, arith,
}
use otus_rusthomework_http_a.Server.Error.{
  AppError, app_not_found, app_code_taken, app_version_conflict, app_unavailable, validation,
  invalid_body, rate_limit_exceeded, app_internal, into_response, status_of, code_of,
  invalid_body_code,
}

-- The status that the code in an error body stands for; `bad_request` stands for many.
unfoldable pub status_of_code : String → Option ℕ
status_of_code code =
    if str_eq code "not_found"
    then some 404
    else if str_eq code "code_taken"
    then some 409
    else if str_eq code "version_conflict"
    then some 409
    else if str_eq code "unavailable"
    then some 503
    else if str_eq code "validation_error"
    then some 422
    else if str_eq code "payload_too_large"
    then some 413
    else if str_eq code "unsupported_media_type"
    then some 415
    else if str_eq code "rate_limit_exceeded"
    then some 429
    else if str_eq code "internal"
    then some 500
    else none

abbrev body_code : Bool → Bool → Bool → String
body_code large media semantic =
    if large
    then "payload_too_large"
    else if media
    then "unsupported_media_type"
    else if semantic
    then "validation_error"
    else "bad_request"

status_of_body_code :
    (large media semantic : Bool)
    → body_code large media semantic ≢ "bad_request"
    → (status_of_code (body_code large media semantic)
        ≡ some (if large then 413 else if media then 415 else 422))
      × ((large || media || semantic) ≡ true)
unfolding status_of_code
status_of_body_code true media semantic h = (refl, refl)
status_of_body_code false true semantic h = (refl, refl)
status_of_body_code false false true h = (refl, refl)
status_of_body_code false false false h = elim (h refl) [ ]

-- The code in the body of an error response determines its status, unless it is `bad_request`.
pub into_response-status :
    (request_id : Option String) (e : AppError)
    → (into_response request_id e).body.code ≢ "bad_request"
    → status_of_code (into_response request_id e).body.code
      ≡ some (into_response request_id e).status
unfolding into_response status_of code_of invalid_body_code status_of_code
into_response-status request_id app_not_found h = refl
into_response-status request_id app_code_taken h = refl
into_response-status request_id app_version_conflict h = refl
into_response-status request_id app_unavailable h = refl
into_response-status request_id (validation message details) h = refl
into_response-status request_id (invalid_body status message) h =
    let (e, known) = status_of_body_code (status == 413) (status == 415) (status == 422) h in
    e ∙ ground (arith, known)
into_response-status request_id (rate_limit_exceeded n) h = refl
into_response-status request_id (app_internal text) h = refl
