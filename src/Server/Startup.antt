-- ===== src/Server/Startup.antt =====
-- shorty-server/src/main.rs and crates/storage/src/telemetry.rs: from the environment to the state
-- that the two servers share. What the outside answers is an argument; `expect` is a panic.
pub mod Ready
pub mod Tests
use otus_rusthomework_http_a.Common.{String, Bool, true, false, Option, none, some, []}
use otus_rusthomework_http_a.Common.Outcome.{Outcome, ok, panic, bind}
use otus_rusthomework_http_a.Domain.Stats.{StatsStorage}
use otus_rusthomework_http_a.Storage.InMemory.{InMemoryRepo, empty}
use otus_rusthomework_http_a.Server.Cache.{Cache}
use otus_rusthomework_http_a.Server.Config.{
  in_memory, postgres, Config, Env, from_env, create_cache,
}

-- PostgreSQL, its migrations, Redis, the recorder of Prometheus, and the listening socket. The pool
-- of connections and the recorder are each asked for a second time.
pub record Outside (B D H : Type 0) : Type 0 where
  pub connect : String → Option B
  pub migrate : B → Option B
  pub connect_again : String → Option B
  pub reaches : String → Bool
  pub redis : D
  pub install_recorder : Option H
  pub install_again : Option H
  pub binds : String → Bool

-- The two implementations of the trait that the server chooses from, in their first state.
pub data Store (B : Type 0) : Type 0 where
  memory : InMemoryRepo → Store B
  database : B → Store B

-- The state of the application, and the addresses.
pub record Running (B D H : Type 0) : Type 0 where
  pub config : Config
  pub http_addr : String
  pub grpc_addr : String
  pub store : Store B
  pub cache : Cache D
  pub stats_storage : StatsStorage
  pub metrics_handle : H
  pub db_pool : Option B

abbrev pub expect : {A : Type 0} → Option A → Outcome ⊥ A
expect none = panic
expect (some a) = ok a

abbrev pub expect_true : Bool → Outcome ⊥ Unit
expect_true true = ok tt
expect_true false = panic

abbrev pub or_default : String → Option String → String
or_default value none = value
or_default value (some val) = val

-- `get_or_init` of the cell `METRICS_HANDLE`; `install` is what installing the recorder would give.
unfoldable pub init_metrics : {H : Type 0} → Option H → Option H → Outcome ⊥ H × Option H
init_metrics install (some handle) = (ok handle, some handle)
init_metrics install none = (expect install, install)

module _ {B D H : Type 0} (outside : Outside B D H) where
  unfoldable pub create_repository : Config → Outcome ⊥ (Store B)
  create_repository config = elim config.storage_type [
    | in_memory ↦ ok (memory empty)
    | postgres ↦
        bind (expect (outside.connect config.database_url))
          λ pool. bind (expect (outside.migrate pool)) λ migrated. ok (database migrated)
  ]

  unfoldable pub create_db_pool : Config → Outcome ⊥ (Option B)
  create_db_pool config = elim config.storage_type [
    | in_memory ↦ ok none
    | postgres ↦ bind (expect (outside.connect_again config.database_url)) λ pool. ok (some pool)
  ]

  -- `run`, up to the start of its tasks.
  unfoldable pub start_up : Env → String → Outcome ⊥ (Running B D H)
  unfolding from_env init_metrics create_repository create_cache create_db_pool
  start_up env admin_hash =
      let http_addr = or_default "0.0.0.0:8080" (env "LISTEN_ADDR") in
      let (first, cell) = init_metrics outside.install_recorder none in
      bind (from_env env admin_hash) λ config. bind first λ _.
        bind (create_repository config) λ store. bind (create_db_pool config) λ db_pool.
          bind (init_metrics outside.install_again cell).0 λ metrics_handle.
            bind (expect_true (outside.binds http_addr)) λ _. ok (record {
              config = config;
              http_addr = http_addr;
              grpc_addr = or_default "0.0.0.0:50051" (env "GRPC_LISTEN_ADDR");
              store = store;
              cache = create_cache outside.reaches outside.redis config;
              stats_storage = [];
              metrics_handle = metrics_handle;
              db_pool = db_pool;
            })
