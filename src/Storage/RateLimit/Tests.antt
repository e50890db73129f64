-- ===== src/Storage/RateLimit/Tests.antt =====
-- The rate limiter over whole numbers, and its theorems at concrete inputs.
use otus_rusthomework_http_a.Common.{
  ℕ, ◌≡◌, refl, Bool, true, false, some, none, [], ◌∷◌, arith, eq_iff,
}
use otus_rusthomework_http_a.Common.Outcome.{ok}
use otus_rusthomework_http_a.Common.Dict.{lookup}
use otus_rusthomework_http_a.Domain.RateLimit.{RateLimitConfig, RateLimitState, try_consume}
use otus_rusthomework_http_a.Domain.RateLimit.Float.{whole, whole-IsIeee}
use otus_rusthomework_http_a.Domain.RateLimit.Consume.{IsSound, try_consume-IsSound}
use otus_rusthomework_http_a.Storage.RateLimit.{RateLimitStorage, check_and_consume}
use otus_rusthomework_http_a.Storage.RateLimit.Clients.{IsChecked, check_and_consume-IsChecked}
use otus_rusthomework_http_a.Storage.RateLimit.Burst.{allowances, burst, burst-eq-allowances}

abbrev three_a_second : RateLimitConfig
three_a_second = record { capacity = 3; period_secs = 1 }

abbrev start : RateLimitStorage whole
start = record { inner = []; config = three_a_second; ttl = 120 }

abbrev one_token : RateLimitState whole
one_token = record { tokens = 1; last_update = 5 }

abbrev busy : RateLimitStorage whole
busy = record start { inner = ("a", one_token) ∷ ("b", one_token) ∷ [] }

limiter_runs :
    (burst whole 5 "a" 200 201 start ≡ some (true ∷ true ∷ true ∷ false ∷ false ∷ []))
    × (burst whole 1 "a" 100 101 start ≡ none)
    × (try_consume whole one_token three_a_second 6
        ≡ (true, record { tokens = 0; last_update = 6 }, 0))
unfolding burst check_and_consume try_consume
limiter_runs = (refl, refl, refl)

try_consume-IsSound_example :
    IsSound whole whole-IsIeee one_token three_a_second 6
      (try_consume whole one_token three_a_second 6)
try_consume-IsSound_example = try_consume-IsSound whole whole-IsIeee one_token three_a_second 6

check_and_consume-IsChecked_example :
    (a : Bool × ℕ) × (s' : RateLimitStorage whole) × (check_and_consume whole "a" 121 122 busy
      ≡ ok (a, s'))
    × IsChecked whole busy "a" 121 122 a s'
check_and_consume-IsChecked_example =
    check_and_consume-IsChecked whole whole-IsIeee "a" 121 122 busy
      ((((λ e. ground (arith, eq_iff "b" "a")), tt), (tt, tt))) (omega arith)

burst-eq-allowances_example : burst whole 5 "a" 200 201 start ≡ some (allowances 3 5)
unfolding lookup
burst-eq-allowances_example =
    burst-eq-allowances whole whole-IsIeee "a" 200 201 5 start tt refl (omega arith) (omega arith)
      (omega arith) (omega arith)
