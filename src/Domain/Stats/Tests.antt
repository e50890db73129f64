-- ===== src/Domain/Stats/Tests.antt =====
-- Runs of the sliding window, and its theorems at concrete inputs.
use mathlib.Core.List.{Perm}
use otus_rusthomework_http_a.Common.Sorting.{IsSorted}
use otus_rusthomework_http_a.Domain.Stats.{StatsStorage, more_hits, totals}
use otus_rusthomework_http_a.Domain.Stats.Top.{below_top, get_top_lem}
use otus_rusthomework_http_a.Common.{
  ◌++◌, All, min, true, ◌+◌, ◌-◌, ◌≡◌, refl, List, [], ◌∷◌, arith, length, leb, if◌then◌else◌,
  count,
}
use otus_rusthomework_http_a.Common.Time.{SystemTime, as_unix_secs, at_secs}
use otus_rusthomework_http_a.Domain.Stats.{new, record_hit, get_last_60s, record_hit_for, get_top}
use otus_rusthomework_http_a.Domain.Stats.Window.{
  record_all, IsAscending, hits_in_window, record_all-eq-counts,
}
use otus_rusthomework_http_a.Domain.Stats.Reading.{stale_hits, get_last_60s-eq}
use otus_rusthomework_http_a.Domain.Stats.Sums.{
  IsWellFormed, new-IsWellFormed, record_all-IsWellFormed,
}

abbrev hits : List SystemTime
hits = at_secs 100 ∷ at_secs 130 ∷ at_secs 131 ∷ []

window_runs :
    ((record_all new hits).cached_sum ≡ 3)
    × (get_last_60s (record_all new hits) (at_secs 165) ≡ 3)
    × (get_last_60s (record_all new hits) (at_secs 191) ≡ 0)
    × ((record_all new (at_secs 1 ∷ hits)).cached_sum ≡ 3)
    × (hits_in_window 165 hits ≡ 2)
    × (get_top
          (record_hit_for
            (record_hit_for (record_hit_for [] "a" (at_secs 1)) "b" (at_secs 2))
            "b"
            (at_secs 3))
          1
        ≡ ("b", 2) ∷ [])
unfolding record_all record_hit get_last_60s new count record_hit_for get_top
window_runs = (refl, refl, refl, refl, refl, refl)

hits-IsAscending : IsAscending 0 hits
unfolding as_unix_secs
hits-IsAscending = omega arith

record_all-eq-counts_example :
    ((record_all new hits).cached_sum ≡ hits_in_window (record_all new hits).last_update_sec hits)
    × ((record_all new hits).total_hits ≡ length hits)
record_all-eq-counts_example = record_all-eq-counts hits hits-IsAscending (omega arith)

last_hit : (record_all new hits).last_update_sec ≡ 131
unfolding record_all record_hit
last_hit = refl

reading : as_unix_secs (at_secs 165) ≡ 165
unfolding as_unix_secs
reading = refl

get_last_60s-eq_example :
    get_last_60s (record_all new hits) (at_secs 165)
    ≡ hits_in_window (as_unix_secs (at_secs 165)) hits
      + (if leb 60 (as_unix_secs (at_secs 165) - (record_all new hits).last_update_sec)
          then 0
          else stale_hits (record_all new hits).last_update_sec (as_unix_secs (at_secs 165)) hits)
get_last_60s-eq_example =
    get_last_60s-eq hits (at_secs 165) hits-IsAscending (omega arith)
      (omega (arith, last_hit, reading))

old_hit : as_unix_secs (at_secs 100) ≡ 100
unfolding as_unix_secs
old_hit = refl

-- The clock runs backwards here.
record_all-IsWellFormed_example :
    IsWellFormed (record_all new (at_secs 70 ∷ at_secs 3 ∷ at_secs 70 ∷ []))
    × ((record_all new (at_secs 70 ∷ at_secs 3 ∷ at_secs 70 ∷ [])).total_hits
        ≡ new.total_hits + length (at_secs 70 ∷ at_secs 3 ∷ at_secs 70 ∷ []))
record_all-IsWellFormed_example =
    record_all-IsWellFormed new (at_secs 70 ∷ at_secs 3 ∷ at_secs 70 ∷ []) new-IsWellFormed
      (unfold new in omega arith)

abbrev visited : StatsStorage
visited =
    record_hit_for (record_hit_for (record_hit_for [] "a" (at_secs 1)) "b" (at_secs 2)) "b"
      (at_secs 3)

get_top_lem_example :
    IsSorted more_hits (get_top visited 1)
    × Perm (get_top visited 1 ++ below_top visited 1) (totals visited)
    × All (λ kept. All (λ out. more_hits kept out ≡ true) (below_top visited 1)) (get_top visited 1)
    × (length (get_top visited 1) ≡ min 1 (length visited))
get_top_lem_example = get_top_lem visited 1
