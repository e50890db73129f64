-- ===== src/Domain/Stats/Reading.antt =====
-- What `get_last_60s` reports, against the hits of the sixty seconds up to the reading.
use otus_rusthomework_http_a.Common.{
  ℕ, ◌+◌, ◌-◌, ◌^◌, ◌≤◌, ◌<◌, ◌≡◌, refl, Bool, ◌&&◌, not, List, [], ◌∷◌, ◌++◌, arith, length, count,
  leb, if◌then◌else◌, sym, ◌∙◌,
}
use otus_rusthomework_http_a.Common.Time.{SystemTime, as_unix_secs}
use otus_rusthomework_http_a.Domain.Stats.{new, get_last_60s}
use otus_rusthomework_http_a.Domain.Stats.Counts.{in_window, count-in_window_far}
use otus_rusthomework_http_a.Domain.Stats.Window.{
  record_all, IsAscending, history, record_all-new-Tracks, hits_in_window, count-in_window-history,
  record_all-eq-counts,
}

-- The second is within sixty of the last update `m`, and no more within sixty of the reading `n`.
abbrev pub is_stale : ℕ → ℕ → ℕ → Bool
is_stale m n t = in_window m t && not (in_window n t)

abbrev pub stale_hits : ℕ → ℕ → List SystemTime → ℕ
stale_hits m n ts = count (λ t. is_stale m n (as_unix_secs t)) ts

hits_in_window_split :
    (m n : ℕ) (ts : List SystemTime)
    → m ≤ n
    → hits_in_window n ts + stale_hits m n ts ≡ hits_in_window m ts
unfolding count
hits_in_window_split m n [] le = refl
hits_in_window_split m n (t ∷ ts) le = ground (arith, hits_in_window_split m n ts le)

module _ (ts : List SystemTime) (now : SystemTime) where
  module _ (up : IsAscending 0 ts) (few : length ts < 2 ^ 64) where
    module _ (later : (record_all new ts).last_update_sec ≤ as_unix_secs now) where
      hits_in_window_far :
          (record_all new ts).last_update_sec + 60 ≤ as_unix_secs now
          → hits_in_window (as_unix_secs now) ts ≡ 0
      hits_in_window_far far =
          sym (count-in_window-history (as_unix_secs now) ts)
          ∙ count-in_window_far _ (as_unix_secs now) (history [] ts)
              (record_all-new-Tracks ts up few).window.past far

      -- A reading after a run of hits reports the hits of the last sixty seconds, and on top of
      -- them, while fewer than sixty seconds have passed since the last hit, the hits that are
      -- older but were within sixty seconds of that hit.
      pub get_last_60s-eq :
          get_last_60s (record_all new ts) now
          ≡ hits_in_window (as_unix_secs now) ts
            + (if leb 60 (as_unix_secs now - (record_all new ts).last_update_sec)
                then 0
                else stale_hits (record_all new ts).last_update_sec (as_unix_secs now) ts)
      unfolding get_last_60s
      get_last_60s-eq = ground (
        arith,
        (record_all-eq-counts ts up few).0,
        hits_in_window_split (record_all new ts).last_update_sec (as_unix_secs now) ts later,
        hits_in_window_far,
      )

stale_hits_pos :
    (m n : ℕ) (pre post : List SystemTime) (t : SystemTime)
    → m < as_unix_secs t + 60
    → as_unix_secs t + 60 ≤ n
    → 0 < stale_hits m n (pre ++ t ∷ post)
unfolding count
stale_hits_pos m n [] post t new old = ground arith
stale_hits_pos m n (u ∷ pre) post t new old = omega (arith, stale_hits_pos m n pre post t new old)

-- Whenever some hit is sixty seconds old or older at the reading, but was within sixty seconds of the
-- last hit, which the reading is still within, the report is larger than the number of hits of the
-- last sixty seconds.
pub get_last_60s_overcounts :
    (pre post : List SystemTime) (t now : SystemTime)
    → IsAscending 0 (pre ++ t ∷ post)
    → length (pre ++ t ∷ post) < 2 ^ 64
    → (record_all new (pre ++ t ∷ post)).last_update_sec ≤ as_unix_secs now
    → as_unix_secs now < (record_all new (pre ++ t ∷ post)).last_update_sec + 60
    → (record_all new (pre ++ t ∷ post)).last_update_sec < as_unix_secs t + 60
    → as_unix_secs t + 60 ≤ as_unix_secs now
    → hits_in_window (as_unix_secs now) (pre ++ t ∷ post)
      < get_last_60s (record_all new (pre ++ t ∷ post)) now
get_last_60s_overcounts pre post t now up few later near young old = ground (
  arith,
  get_last_60s-eq (pre ++ t ∷ post) now up few later,
  stale_hits_pos (record_all new (pre ++ t ∷ post)).last_update_sec (as_unix_secs now) pre post t,
)
