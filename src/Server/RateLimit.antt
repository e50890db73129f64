-- ===== src/Server/RateLimit.antt =====
-- shorty-server/src/api/rate_limit.rs: the middleware of the rate limit, and the name of a client.
use otus_rusthomework_http_a.Common.{
  ℕ, ◌*◌, String, str_append, Bool, true, false, Option, none, some, List, [], ◌∷◌,
}
use otus_rusthomework_http_a.Common.Outcome.{Outcome, ok, err, panic}
use otus_rusthomework_http_a.Common.Text.{split}
use otus_rusthomework_http_a.Domain.RateLimit.{Instant}
use otus_rusthomework_http_a.Domain.RateLimit.Float.{F64}
use otus_rusthomework_http_a.Storage.RateLimit.{RateLimitStorage, check_and_consume, new}
use otus_rusthomework_http_a.Server.Error.{AppError, rate_limit_exceeded}

-- A header is `none` where it is missing or no visible ASCII. `remote_addr` is the text of the
-- address of the connection, and `trim` is a parameter.
pub record ClientRequest : Type 0 where
  pub api_key : Option String
  pub forwarded_for : Option String
  pub remote_addr : Option String

unfoldable pub first_part : List String → String
first_part [] = ""
first_part (ip ∷ ips) = ip

unfoldable pub get_client_id : (String → String) → ClientRequest → String
unfolding split first_part
get_client_id trim req = elim req.api_key [
  | some key ↦ str_append "api-key:" key
  | none ↦ elim req.forwarded_for [
    | some ips ↦ str_append "ip:" (trim (first_part (split b',' ips)))
    | none ↦ elim req.remote_addr [ some ip ↦ str_append "ip:" ip | none ↦ "unknown" ]
  ]
]

module _ (f : F64) where
  unfoldable pub limiter : ℕ → ℕ → ℕ → RateLimitStorage f
  unfolding new
  limiter capacity period_secs cleanup_ttl_secs =
      new f (record { capacity = capacity; period_secs = period_secs })
        (cleanup_ttl_secs * 1_000_000_000)

  -- The answer of the storage as the result of `check_limit`.
  unfoldable pub limit_answer :
      Outcome Unit ((Bool × ℕ) × RateLimitStorage f)
      → RateLimitStorage f
      → Outcome AppError Unit × RateLimitStorage f
  limit_answer (ok ((true, retry_after), s)) old = (ok tt, s)
  limit_answer (ok ((false, retry_after), s)) old = (err (rate_limit_exceeded retry_after), s)
  limit_answer (err e) old = (panic, old)
  limit_answer panic old = (panic, old)

  unfoldable pub check_limit :
      String → Instant → Instant → RateLimitStorage f → Outcome AppError Unit × RateLimitStorage f
  unfolding check_and_consume limit_answer
  check_limit client_id now created s = limit_answer (check_and_consume f client_id now created s) s

  -- `ok` lets the request go on to the next handler.
  unfoldable pub rate_limit_middleware :
      (String → String)
      → ClientRequest
      → Instant
      → Instant
      → RateLimitStorage f
      → Outcome AppError Unit × RateLimitStorage f
  unfolding get_client_id check_limit
  rate_limit_middleware trim req now created s = check_limit (get_client_id trim req) now created s
