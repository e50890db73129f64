-- ===== src/Server/Stats.antt =====
-- shorty-server/src/api/stats.rs: the endpoints of the statistics. They read the storage of the
-- windows that the state of the server holds.
use otus_rusthomework_http_a.Common.{ℕ, String, Bool, true, false, Option, none, some, List, min}
use otus_rusthomework_http_a.Common.Outcome.{map_err, Exec, pure, throw, ◌>>=◌}
use otus_rusthomework_http_a.Common.Time.{SystemTime}
use otus_rusthomework_http_a.Domain.Link.{RepoError, LinkRepository, is_expired}
use otus_rusthomework_http_a.Domain.Stats.{
  StatsStorage, SlidingWindowStats, get, get_total, get_last_60s, get_top,
}
use otus_rusthomework_http_a.Server.Error.{AppError, app_not_found, from_repo_error}

pub record LinkStatsResponse : Type 0 where
  pub code : String
  pub total_hits : ℕ
  pub hits_last_60s : ℕ

-- The limit of the query, 10 where it has none.
unfoldable pub limit : Option ℕ → ℕ
limit none = min 10 100
limit (some n) = min n 100

unfoldable pub counts_of : Option SlidingWindowStats → SystemTime → ℕ × ℕ
unfolding get_total get_last_60s
counts_of none now = (0, 0)
counts_of (some s) now = (get_total s, get_last_60s s now)

module _ {R : Type 0} (repo : LinkRepository R) (stats : StatsStorage) where
  abbrev called : {A : Type 0} → Exec R RepoError A → Exec R AppError A
  called m r = let (o, s) = m r in (map_err from_repo_error o, s)

  unfoldable pub stats_response : String → SystemTime → Bool → Exec R AppError LinkStatsResponse
  unfolding get counts_of
  stats_response code now true = throw app_not_found
  stats_response code now false =
      let counts = counts_of (get stats code) now in
      pure (record { code = code; total_hits = counts.0; hits_last_60s = counts.1 })

  -- `now` is read for the expiry, and `read_at` for the window. No lock is poisoned, since nothing
  -- panics under it.
  unfoldable pub get_link_stats :
      String → SystemTime → SystemTime → Exec R AppError LinkStatsResponse
  unfolding from_repo_error is_expired stats_response
  get_link_stats code now read_at = do
    link ← called (repo.get code)
    stats_response code read_at (is_expired link now)

unfoldable pub get_top_stats : StatsStorage → Option ℕ → List (String × ℕ)
unfolding get_top limit
get_top_stats stats query = get_top stats (limit query)
