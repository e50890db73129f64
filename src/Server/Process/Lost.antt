-- ===== src/Server/Process/Lost.antt =====
-- Ends of the process that leave requests unanswered.
use otus_rusthomework_http_a.Common.{
  ℕ, zero, suc, String, ◌≡◌, refl, sym, ◌∙◌, Bool, true, false, some, if◌then◌else◌,
}
use otus_rusthomework_http_a.Common.Outcome.{Outcome, ok, panic}
use otus_rusthomework_http_a.Server.Config.{Config, Env, from_env}
use otus_rusthomework_http_a.Server.Config.Reading.{from_env-configured, configured, is_readable}
use otus_rusthomework_http_a.Server.Startup.{Outside, Running, start_up}
use otus_rusthomework_http_a.Server.Startup.Ready.{start_up-IsStarted}
use otus_rusthomework_http_a.Server.Process.{
  draining, waiting, exited, Process, start, grpc_auth, Step, accept, signal, grpc_ends,
  grpc_panics, cleaner_ends, grpc_selected, tasks_finished, timed_out, Run, here, next,
}

module _ (config : Config) (serves : Bool) where
  Run-snoc :
      {n : ℕ} {s t u : Process}
      → Run config serves n s t
      → Step config serves t u
      → Run config serves (suc n) s u
  Run-snoc (here s) step = next step (here _)
  Run-snoc (next first run) step = next first (Run-snoc run step)

  accepts : (n : ℕ) → Run config serves n start (record start { in_flight = n })
  accepts zero = here start
  accepts (suc n) = Run-snoc (accepts n) (accept (record start { in_flight = n }) refl refl)

  -- With any number of requests in flight, the process may end after a signal before they are
  -- answered, though the tracked task has ended: the gRPC server ends with the cancellation, and
  -- then the HTTP server is not waited for.
  pub drops_requests :
      (n : ℕ)
      → (k : ℕ) × (s : Process) × Run config serves k start s
        × (s.main ≡ exited)
        × (s.in_flight ≡ n)
        × (s.cleaner_runs ≡ false)
  drops_requests n =
      let busy : Process = record start { in_flight = n } in
      let signalled : Process = record busy { http = draining; is_cancelled = true } in
      let no_grpc : Process = record signalled { grpc_runs = false } in
      let no_cleaner : Process = record no_grpc { cleaner_runs = false } in
      let returning : Process = record no_cleaner { main = waiting } in
      let run =
        Run-snoc
          (Run-snoc
            (Run-snoc
              (Run-snoc (Run-snoc (accepts n) (signal busy refl refl))
                (grpc_ends signalled refl refl refl))
              (cleaner_ends no_grpc refl refl refl))
            (grpc_selected no_cleaner refl refl))
          (tasks_finished returning refl refl) in
      (suc (suc (suc (suc (suc n)))), record returning { main = exited }, run, refl, refl, refl)

  without_auth :
      (n : ℕ)
      → grpc_auth config ≡ panic
      → (k : ℕ) × (s : Process) × Run config serves k start s
        × (s.main ≡ exited)
        × (s.is_cancelled ≡ false)
        × (s.in_flight ≡ n)
  without_auth n p =
      let busy : Process = record start { in_flight = n } in
      let no_grpc : Process = record busy { grpc_runs = false } in
      let returning : Process = record no_grpc { main = waiting } in
      let run =
        Run-snoc
          (Run-snoc (Run-snoc (accepts n) (grpc_panics busy refl p refl))
            (grpc_selected no_grpc refl refl))
          (timed_out returning refl) in
      (suc (suc (suc n)), record returning { main = exited }, run, refl, refl, refl)

ended :
    (b : Bool) (c d : Config)
    → ◌≡◌ {A = Outcome ⊥ Config} (ok c) (if b then ok d else panic)
    → c ≡ d
ended true c d e = cc
ended false c d e = cc

-- The configuration that `DISABLE_AUTH` makes has no authentication.
no_auth :
    (env : Env) (admin_hash val : String) (config : Config)
    → env "DISABLE_AUTH" ≡ some val
    → from_env env admin_hash ≡ ok config
    → grpc_auth config ≡ panic
unfolding grpc_auth
no_auth env admin_hash val config off read =
    let same =
      ended (is_readable env) config (configured env admin_hash)
        (sym read ∙ from_env-configured env admin_hash) in
    rw (same, off) refl

-- A server that started with `DISABLE_AUTH` set may end without any signal, with any number of
-- requests in flight: the gRPC server panics at its start, and `run` waits for one of the two servers
-- only.
pub exits_with_disable_auth :
    {B D H : Type 0} (outside : Outside B D H) (env : Env) (admin_hash val : String)
    (r : Running B D H) (serves : Bool) (n : ℕ)
    → env "DISABLE_AUTH" ≡ some val
    → start_up outside env admin_hash ≡ ok r
    → (k : ℕ) × (s : Process) × Run r.config serves k start s
      × (s.main ≡ exited)
      × (s.is_cancelled ≡ false)
      × (s.in_flight ≡ n)
exits_with_disable_auth outside env admin_hash val r serves n off started =
    let read = (start_up-IsStarted outside env admin_hash r started).0 in
    without_auth r.config serves n (no_auth env admin_hash val r.config off read)
