-- ===== src/Server/Cleanup.antt =====
-- shorty-server/src/cleanup.rs: the task that purges expired links. `tokio::select!` turns the two
-- futures into a sequence of events, each with the reading of the clock where there is one.
pub mod Purged
pub mod Tests
use otus_rusthomework_http_a.Common.{List, [], ◌∷◌}
use otus_rusthomework_http_a.Common.Time.{SystemTime}
use otus_rusthomework_http_a.Domain.Link.{LinkRepository}

pub data Event : Type 0 where
  tick : SystemTime → Event
  cancelled : Event

-- The loop returns at a cancellation; without one it waits for the next event.
unfoldable pub run_cleaner : {R : Type 0} → LinkRepository R → List Event → R → R
run_cleaner repo [] r = r
run_cleaner repo (cancelled ∷ events) r = r
run_cleaner repo (tick now ∷ events) r = run_cleaner repo events (repo.purge_expired now r).1
