-- ===== src/Server/Process.antt =====
-- shorty-server/src/main.rs: the tasks of the server from their start to the end of the process, as
-- steps in any order. How many requests are in flight is what the HTTP server waits for when it
-- drains; a signal, the ends of requests and the scheduler are free.
pub mod Shutdown
pub mod Lost
pub mod Tests
use otus_rusthomework_http_a.Common.{ℕ, suc, ◌≡◌, Bool, true, false, Option, none, some}
use otus_rusthomework_http_a.Common.Outcome.{Outcome, ok, panic}
use otus_rusthomework_http_a.Server.Auth.{AuthConfig}
use otus_rusthomework_http_a.Server.Config.{Config}

-- The HTTP server accepts requests, drains those in flight after a signal, and ends.
pub data HttpTask : Type 0 where
  accepting draining finished : HttpTask

-- `run` waits for one of the two servers, then for the tracked tasks, and returns.
pub data MainTask : Type 0 where
  selecting waiting exited : MainTask

pub record Process : Type 0 where
  pub http : HttpTask
  pub in_flight : ℕ
  pub grpc_runs : Bool
  pub cleaner_runs : Bool
  -- The token that the gRPC server and the cleaner wait for.
  pub is_cancelled : Bool
  pub main : MainTask

abbrev pub start : Process
start = record {
  http = accepting;
  in_flight = 0;
  grpc_runs = true;
  cleaner_runs = true;
  is_cancelled = false;
  main = selecting;
}

-- `GrpcServer::serve` takes the configuration of the authentication by `unwrap`.
unfoldable pub grpc_auth : Config → Outcome ⊥ AuthConfig
grpc_auth config = elim config.auth as (λ auth. Outcome ⊥ AuthConfig) [
  | none ↦ panic
  | some auth ↦ ok auth
]

abbrev pub is_up : Process → Bool
is_up s = elim s.main [ selecting ↦ true | waiting ↦ true | exited ↦ false ]

-- `serves` tells whether the gRPC server can be set up: its address parses and can be bound, and the
-- file of the descriptors is there and can be read.
pub data Step (config : Config) (serves : Bool) : Process → Process → Type 0 where
  accept :
      (s : Process)
      → is_up s ≡ true
      → s.http ≡ accepting
      → Step config serves s (record s { in_flight = suc s.in_flight })
  respond :
      (s : Process) (n : ℕ)
      → is_up s ≡ true
      → s.in_flight ≡ suc n
      → Step config serves s (record s { in_flight = n })
  -- The signal, and the cancellation behind it.
  signal :
      (s : Process)
      → is_up s ≡ true
      → s.http ≡ accepting
      → Step config serves s (record s { http = draining; is_cancelled = true })
  http_ends :
      (s : Process)
      → is_up s ≡ true
      → s.http ≡ draining
      → s.in_flight ≡ 0
      → Step config serves s (record s { http = finished })
  grpc_ends :
      (s : Process)
      → is_up s ≡ true
      → s.is_cancelled ≡ true
      → s.grpc_runs ≡ true
      → Step config serves s (record s { grpc_runs = false })
  grpc_panics :
      (s : Process)
      → is_up s ≡ true
      → grpc_auth config ≡ panic
      → s.grpc_runs ≡ true
      → Step config serves s (record s { grpc_runs = false })
  grpc_fails :
      (s : Process)
      → is_up s ≡ true
      → serves ≡ false
      → s.grpc_runs ≡ true
      → Step config serves s (record s { grpc_runs = false })
  cleaner_ends :
      (s : Process)
      → is_up s ≡ true
      → s.is_cancelled ≡ true
      → s.cleaner_runs ≡ true
      → Step config serves s (record s { cleaner_runs = false })
  -- `select!` over the two servers
  http_selected :
      (s : Process)
      → s.main ≡ selecting
      → s.http ≡ finished
      → Step config serves s (record s { main = waiting })
  grpc_selected :
      (s : Process)
      → s.main ≡ selecting
      → s.grpc_runs ≡ false
      → Step config serves s (record s { main = waiting })
  -- The tracked tasks end, or the timeout does.
  tasks_finished :
      (s : Process)
      → s.main ≡ waiting
      → s.cleaner_runs ≡ false
      → Step config serves s (record s { main = exited })
  timed_out : (s : Process) → s.main ≡ waiting → Step config serves s (record s { main = exited })

-- `Run config serves n s t`: `n` steps lead from `s` to `t`.
pub data Run (config : Config) (serves : Bool) : ℕ → Process → Process → Type 0 where
  here : (s : Process) → Run config serves 0 s s
  next :
      {n : ℕ} {s t u : Process}
      → Step config serves s t
      → Run config serves n t u
      → Run config serves (suc n) s u
