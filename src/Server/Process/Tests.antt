-- ===== src/Server/Process/Tests.antt =====
-- The process at concrete configurations.
use otus_rusthomework_http_a.Common.{
  ℕ, ◌+◌, ◌≤◌, ◌≡◌, refl, ◌⊎◌, true, false, none, some, str_eq, if◌then◌else◌,
}
use otus_rusthomework_http_a.Server.Auth.{default_auth}
use otus_rusthomework_http_a.Server.Config.{Config, Env, default, from_env}
use otus_rusthomework_http_a.Server.Startup.{start_up}
use otus_rusthomework_http_a.Server.Startup.Tests.{plain_outside, running_with}
use otus_rusthomework_http_a.Server.Process.{
  Process, exited, waiting, draining, start, Step, accept, signal, grpc_ends, grpc_selected,
  timed_out, Run, here, next,
}
use otus_rusthomework_http_a.Server.Process.Shutdown.{shutdown_ends}
use otus_rusthomework_http_a.Server.Process.Lost.{drops_requests, exits_with_disable_auth}

abbrev config : Config
unfolding default default_auth
config = default "hash"

abbrev busy : Process
busy = record start { in_flight = 1 }

abbrev signalled : Process
signalled = record busy { http = draining; is_cancelled = true }

abbrev no_grpc : Process
no_grpc = record signalled { grpc_runs = false }

abbrev returning : Process
returning = record no_grpc { main = waiting }

abbrev returned : Process
returned = record returning { main = exited }

to_signal : Run config true 2 start signalled
to_signal = next (accept start refl refl) (next (signal busy refl refl) (here signalled))

from_signal : Run config true 3 signalled returned
from_signal =
    next (grpc_ends signalled refl refl refl)
      (next (grpc_selected no_grpc refl refl) (next (timed_out returning refl) (here returned)))

to_end : Run config true 5 start returned
to_end = next (accept start refl refl) (next (signal busy refl refl) from_signal)

shutdown_ends_example :
    (3 ≤ signalled.in_flight + 5)
    × ((returned.main ≡ exited) ⊎ ((u : Process) × Step config true returned u))
shutdown_ends_example = shutdown_ends config true 2 3 signalled returned to_signal refl from_signal

drops_requests_example :
    (k : ℕ) × (s : Process) × Run config true k start s
    × (s.main ≡ exited)
    × (s.in_flight ≡ 2)
    × (s.cleaner_runs ≡ false)
drops_requests_example = drops_requests config true 2

abbrev dev_env : Env
dev_env name = if str_eq name "DISABLE_AUTH" then some "1" else none

abbrev dev_config : Config
unfolding default
dev_config = record (default "hash") { auth = none }

exits_with_disable_auth_example :
    (k : ℕ) × (s : Process) × Run dev_config true k start s
    × (s.main ≡ exited)
    × (s.is_cancelled ≡ false)
    × (s.in_flight ≡ 2)
unfolding from_env default default_auth start_up
exits_with_disable_auth_example =
    exits_with_disable_auth plain_outside dev_env "hash" "1" (running_with dev_config) true 2 refl
      refl
