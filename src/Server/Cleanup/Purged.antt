-- ===== src/Server/Cleanup/Purged.antt =====
-- What the cleaner leaves of the repository in memory.
use otus_rusthomework_http_a.Common.{
  String, ◌≡◌, sym, ap, ◌∙◌, Bool, true, ◌&&◌, not, List, [], ◌∷◌, filter,
}
use otus_rusthomework_http_a.Storage.InMemory.{
  InMemoryRepo, LinkEntry, in_memory, purge_expired_sync,
}
use otus_rusthomework_http_a.Storage.InMemory.Map.{IsWellFormed, purge_expired_sync-IsWellFormed}
use otus_rusthomework_http_a.Storage.InMemory.Purge.{
  purge_expired_sync_lem, has_expired, filter-filter, filter-true,
}
use otus_rusthomework_http_a.Server.Cleanup.{Event, tick, cancelled, run_cleaner}

-- The entry is alive at each tick before the first cancellation.
abbrev pub outlives : List Event → String × LinkEntry → Bool
outlives [] e = true
outlives (cancelled ∷ events) e = true
outlives (tick now ∷ events) e = not (has_expired now e) && outlives events e

-- The cleaner leaves exactly the entries of a well-formed repository that were not expired at any
-- tick before its cancellation, in their order, and the repository well-formed.
pub run_cleaner-outlives :
    (events : List Event) (repo : InMemoryRepo)
    → IsWellFormed repo
    → ((run_cleaner in_memory events repo).inner ≡ filter (outlives events) repo.inner)
      × IsWellFormed (run_cleaner in_memory events repo)
unfolding run_cleaner
run_cleaner-outlives [] repo w = (sym (filter-true repo.inner), w)
run_cleaner-outlives (cancelled ∷ events) repo w = (sym (filter-true repo.inner), w)
run_cleaner-outlives (tick now ∷ events) repo w =
    let purged = (purge_expired_sync now repo).1 in
    let (rest, well) =
      run_cleaner-outlives events purged (purge_expired_sync-IsWellFormed now repo w) in
    (
      rest
          ∙ ap (filter (outlives events)) (purge_expired_sync_lem now repo w).0
          ∙ filter-filter (outlives events) (λ e. not (has_expired now e)) repo.inner,
      well,
    )
