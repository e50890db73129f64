-- ===== src/Server/Startup/Tests.antt =====
-- The start of the server in concrete environments.
use otus_rusthomework_http_a.Common.{
  String, ◌≡◌, ◌↔◌, refl, true, false, none, some, [], str_eq, if◌then◌else◌,
}
use otus_rusthomework_http_a.Common.Outcome.{ok, panic}
use otus_rusthomework_http_a.Storage.InMemory.{empty}
use otus_rusthomework_http_a.Server.Auth.{default_auth}
use otus_rusthomework_http_a.Server.Config.{
  Config, Env, default, from_env, storage_type_of, create_cache, postgres,
}
use otus_rusthomework_http_a.Server.Startup.{Outside, Running, database, memory, start_up}
use otus_rusthomework_http_a.Server.Startup.Ready.{IsStarted, start_up_iff}

-- The database is up, Redis is not, and a second recorder is refused.
abbrev pub plain_outside : Outside String Unit String
plain_outside = record {
  connect = λ url. some "pool";
  migrate = λ pool. some "migrated";
  connect_again = λ url. some "pool";
  reaches = λ url. false;
  redis = tt;
  install_recorder = some "recorder";
  install_again = none;
  binds = λ addr. true;
}

abbrev postgres_env : Env
postgres_env name = if str_eq name "STORAGE_TYPE" then some "postgres" else none

abbrev postgres_config : Config
unfolding default
postgres_config = record (default "h") { storage_type = postgres }

abbrev pub running_with : Config → Running String Unit String
running_with config = record {
  config = config;
  http_addr = "0.0.0.0:8080";
  grpc_addr = "0.0.0.0:50051";
  store = memory empty;
  cache = create_cache (λ url. false) tt config;
  stats_storage = [];
  metrics_handle = "recorder";
  db_pool = none;
}

abbrev on_postgres : Running String Unit String
on_postgres = record (running_with postgres_config) {
  store = database "migrated";
  db_pool = some "pool";
}

start_up_iff_example :
    (start_up plain_outside postgres_env "h" ≡ ok on_postgres)
    ↔ IsStarted plain_outside postgres_env "h" on_postgres
start_up_iff_example = start_up_iff plain_outside postgres_env "h" on_postgres

on_postgres_starts : start_up plain_outside postgres_env "h" ≡ ok on_postgres
unfolding start_up from_env default default_auth storage_type_of
on_postgres_starts = refl

-- Without the database the process panics at its start.
no_database : start_up (record plain_outside { connect = λ url. none }) postgres_env "h" ≡ panic
unfolding start_up from_env default default_auth storage_type_of
no_database = refl
