-- ===== src/Server/Config/Tests.antt =====
-- The configuration of concrete environments.
use otus_rusthomework_http_a.Common.{◌≡◌, refl, true, false, none, some, str_eq, if◌then◌else◌}
use otus_rusthomework_http_a.Common.Outcome.{ok, panic}
use otus_rusthomework_http_a.Common.Text.{parse_u64}
use otus_rusthomework_http_a.Server.Auth.{default_auth}
use otus_rusthomework_http_a.Server.Cache.{disabled}
use otus_rusthomework_http_a.Server.Config.{
  postgres, Env, default, from_env, storage_type_of, is_cache_enabled, create_cache,
}
use otus_rusthomework_http_a.Server.Config.Reading.{is_readable, configured, from_env-configured}

abbrev empty_env : Env
empty_env name = none

abbrev bad_env : Env
bad_env name = if str_eq name "MAX_BODY_BYTES" then some "16k" else none

abbrev full_env : Env
full_env name =
    if str_eq name "CODE_LENGTH"
    then some "12"
    else if str_eq name "STORAGE_TYPE"
    then some "Postgres"
    else if str_eq name "DISABLE_REDIS"
    then some "1"
    else if str_eq name "AUTH_TTL_SECS"
    then some "-5"
    else none

empty_test : from_env empty_env "h" ≡ ok (default "h")
unfolding from_env default default_auth
empty_test = refl

bad_test : from_env bad_env "h" ≡ panic
unfolding from_env default default_auth parse_u64
bad_test = refl

storage_test :
    (storage_type_of "POSTGRES" ≡ postgres)
    × (is_cache_enabled (configured full_env "h") ≡ false)
    × (create_cache (λ url. true) tt (configured full_env "h") ≡ disabled tt)
unfolding storage_type_of is_cache_enabled create_cache
storage_test = (refl, refl, refl)

from_env-configured_example :
    from_env full_env "h" ≡ (if is_readable full_env then ok (configured full_env "h") else panic)
from_env-configured_example = from_env-configured full_env "h"
