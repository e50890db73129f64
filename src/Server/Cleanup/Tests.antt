-- ===== src/Server/Cleanup/Tests.antt =====
-- The cleaner at concrete inputs.
use otus_rusthomework_http_a.Common.{◌≡◌, refl, List, [], ◌∷◌, arith, eq_iff, filter}
use otus_rusthomework_http_a.Common.Time.{at_secs}
use otus_rusthomework_http_a.Domain.Link.{new, with_expires_at}
use otus_rusthomework_http_a.Storage.InMemory.{
  InMemoryRepo, in_memory, new_entry, purge_expired_sync,
}
use otus_rusthomework_http_a.Storage.InMemory.Map.{IsWellFormed}
use otus_rusthomework_http_a.Server.Cleanup.{Event, tick, cancelled, run_cleaner}
use otus_rusthomework_http_a.Server.Cleanup.Purged.{outlives, run_cleaner-outlives}

abbrev old_and_fresh : InMemoryRepo
old_and_fresh = record {
  inner =
      ("old", new_entry (with_expires_at (new "old" "https://a" (at_secs 1)) (at_secs 50)))
      ∷ ("fresh", new_entry (with_expires_at (new "fresh" "https://b" (at_secs 1)) (at_secs 99)))
      ∷ [];
  stats = [];
}

abbrev rounds : List Event
rounds = tick (at_secs 40) ∷ tick (at_secs 70) ∷ cancelled ∷ tick (at_secs 100) ∷ []

cleaner_runs :
    (run_cleaner in_memory rounds old_and_fresh).inner
    ≡ ("fresh", new_entry (with_expires_at (new "fresh" "https://b" (at_secs 1)) (at_secs 99))) ∷ []
unfolding run_cleaner purge_expired_sync new with_expires_at new_entry
cleaner_runs = refl

old_and_fresh-IsWellFormed : IsWellFormed old_and_fresh
unfolding new with_expires_at new_entry
old_and_fresh-IsWellFormed = record {
  distinct = (((λ e. ground (arith, eq_iff "fresh" "old")), tt), (tt, tt));
  own = (refl, (refl, tt));
}

run_cleaner-outlives_example :
    ((run_cleaner in_memory rounds old_and_fresh).inner
      ≡ filter (outlives rounds) old_and_fresh.inner)
    × IsWellFormed (run_cleaner in_memory rounds old_and_fresh)
run_cleaner-outlives_example = run_cleaner-outlives rounds old_and_fresh old_and_fresh-IsWellFormed
