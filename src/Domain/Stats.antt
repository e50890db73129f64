-- ===== src/Domain/Stats.antt =====
-- crates/domain/src/stats.rs: the sliding window of one link, and the storage of all windows.
pub mod Counts
pub mod Window
pub mod Reading
pub mod Sums
pub mod Top
pub mod Tests
use otus_rusthomework_http_a.Common.{
  ℕ, zero, suc, ◌+◌, ◌-◌, ◌%◌, ◌^◌, String, Option, none, some, List, [], ◌∷◌, map, ltb, leb, Bool,
  if◌then◌else◌, get_or, set, replicate, take,
}
use otus_rusthomework_http_a.Common.Dict.{Dict, lookup, insert, remove}
use otus_rusthomework_http_a.Common.Sorting.{sort_by}
use otus_rusthomework_http_a.Common.Time.{SystemTime, as_unix_secs}

-- All fields are `u64`.
pub record SlidingWindowStats : Type 0 where
  pub buffer : List ℕ
  pub last_update_sec : ℕ
  pub cached_sum : ℕ
  pub total_hits : ℕ

abbrev pub u64_succ : ℕ → ℕ
u64_succ n = (n + 1) % 2 ^ 64

abbrev pub u64_sub : ℕ → ℕ → ℕ
u64_sub a b = (a + 2 ^ 64 - b) % 2 ^ 64

unfoldable pub new : SlidingWindowStats
new = record { buffer = replicate 60 0; last_update_sec = 0; cached_sum = 0; total_hits = 0 }

-- One round of the loop of `record_hit`.
unfoldable pub clear_cell : ℕ → SlidingWindowStats → SlidingWindowStats
clear_cell sec s = record s {
  cached_sum = u64_sub s.cached_sum (get_or s.buffer (sec % 60) 0);
  buffer = set s.buffer (sec % 60) 0;
}

-- The loop: `rounds` cells, from the one of second `sec` on.
unfoldable pub clear_cells : (rounds : ℕ) → (sec : ℕ) → SlidingWindowStats → SlidingWindowStats
unfolding clear_cell
clear_cells zero sec s = s
clear_cells (suc rounds) sec s = clear_cells rounds (sec + 1) (clear_cell sec s)

-- The branches of `record_hit` before the hit is counted.
unfoldable pub advance : ℕ → SlidingWindowStats → SlidingWindowStats
unfolding clear_cells
advance now_sec s =
    if ltb ((s.last_update_sec + 60) % 2 ^ 64) now_sec
    then record s { buffer = replicate 60 0; cached_sum = 0 }
    else if ltb s.last_update_sec now_sec
    then clear_cells (now_sec - s.last_update_sec) (s.last_update_sec + 1) s
    else s

unfoldable pub count_hit : ℕ → SlidingWindowStats → SlidingWindowStats
count_hit now_sec s = record {
  buffer = set s.buffer (now_sec % 60) (u64_succ (get_or s.buffer (now_sec % 60) 0));
  last_update_sec = now_sec;
  cached_sum = u64_succ s.cached_sum;
  total_hits = u64_succ s.total_hits;
}

unfoldable pub record_hit : SlidingWindowStats → SystemTime → SlidingWindowStats
unfolding advance count_hit as_unix_secs
record_hit s now = let now_sec = as_unix_secs now in count_hit now_sec (advance now_sec s)

unfoldable pub get_last_60s : SlidingWindowStats → SystemTime → ℕ
unfolding as_unix_secs
get_last_60s s now =
    let now_sec = as_unix_secs now in
    if ltb s.last_update_sec now_sec
    then (if leb 60 (now_sec - s.last_update_sec) then 0 else s.cached_sum)
    else s.cached_sum

unfoldable pub get_total : SlidingWindowStats → ℕ
get_total s = s.total_hits

-- The map behind its lock. What `get_or_create` and `get` hand out is the shared window itself: a
-- write through it is a write of the entry.
abbrev pub StatsStorage : Type 0
StatsStorage = Dict SlidingWindowStats

unfoldable pub get : StatsStorage → String → Option SlidingWindowStats
unfolding lookup
get map code = lookup code map

-- The window of a code, new where there is none.
unfoldable pub get_or_new : Option SlidingWindowStats → SlidingWindowStats
unfolding new
get_or_new none = new
get_or_new (some s) = s

-- The window, and the map that now holds it.
unfoldable pub get_or_create : StatsStorage → String → SlidingWindowStats × StatsStorage
unfolding get get_or_new insert
get_or_create map code = let s = get_or_new (get map code) in (s, insert code s map)

-- `get_or_create(code)` and `record_hit(now)` on the shared window.
unfoldable pub record_hit_for : StatsStorage → String → SystemTime → StatsStorage
unfolding get_or_create record_hit
record_hit_for map code now =
    let (s, map') = get_or_create map code in insert code (record_hit s now) map'

unfoldable pub remove_stats : StatsStorage → String → StatsStorage
unfolding remove
remove_stats map code = remove code map

-- `sort_by_key(Reverse(total))` keeps `a` before `b` where `a.total >= b.total`.
abbrev pub more_hits : String × ℕ → String × ℕ → Bool
more_hits a b = leb b.1 a.1

unfoldable pub totals : StatsStorage → List (String × ℕ)
unfolding get_total
totals map' = map (λ e. (e.0, get_total e.1)) map'

unfoldable pub get_top : StatsStorage → ℕ → List (String × ℕ)
unfolding totals sort_by
get_top map limit = take limit (sort_by more_hits (totals map))
