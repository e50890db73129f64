-- ===== src/Domain/Stats/Window.antt =====
-- The ring buffer counts the hits of the last sixty seconds: `record_hit` against the whole history.
use otus_rusthomework_http_a.Common.{
  ℕ, zero, suc, ◌+◌, ◌-◌, ◌%◌, ◌^◌, ◌≤◌, ◌<◌, ◌≡◌, refl, sym, ◌≢◌, inl, inr, List, [], ◌∷◌, arith,
  length, get_or, All, count, Bool-cases, ltb, get_or-set_self, get_or-set_ne, length-set,
  get_or-replicate, count-le-length, Bool, ◌∙◌, subst, replicate,
}
use native.Mathlib.Decide.{ℕ_discrete}
use native.Mathlib.Nat.{add-zero}
use otus_rusthomework_http_a.Common.Time.{SystemTime, as_unix_secs}
use otus_rusthomework_http_a.Domain.Stats.{
  SlidingWindowStats, new, clear_cell, clear_cells, advance, count_hit, record_hit,
}
use otus_rusthomework_http_a.Domain.Stats.Counts.{
  in_window, in_cell, count-in_cell_next, count-in_cell_other, count-in_window_next,
  count-in_window_far, count-in_cell_far, All-le_trans,
}

-- The buffer and the sum stand for the hits `hs`, as seen from second `m`.
pub record Holds (m : ℕ) (s : SlidingWindowStats) (hs : List ℕ) : Type 0 where
  pub size : length s.buffer ≡ 60
  pub sum : s.cached_sum ≡ count (in_window m) hs
  pub cells : (i : ℕ) → i < 60 → get_or s.buffer i 0 ≡ count (in_cell m i) hs
  pub past : All (λ t. t ≤ m) hs
  pub few : length hs < 2 ^ 64

module _ (m : ℕ) (s : SlidingWindowStats) (hs : List ℕ) (h : Holds m s hs) where
  clear_cell-cell :
      (i : ℕ) → i < 60 → get_or (clear_cell (m + 1) s).buffer i 0 ≡ count (in_cell (m + 1) i) hs
  unfolding clear_cell
  clear_cell-cell i lt = elim (ℕ_discrete i ((m + 1) % 60)) [
    | yes e ↦ rw e (
        get_or-set_self s.buffer ((m + 1) % 60) 0 0 (omega (arith, h.size))
        ∙ sym (count-in_cell_next m hs h.past))
    | no ne ↦
        get_or-set_ne s.buffer ((m + 1) % 60) i 0 0 (λ e. ne (sym e))
        ∙ h.cells i lt
        ∙ sym (count-in_cell_other m i hs ne h.past)
  ]

  clear_cell-sum : (clear_cell (m + 1) s).cached_sum ≡ count (in_window (m + 1)) hs
  unfolding clear_cell
  clear_cell-sum = omega (
    arith,
    h.sum,
    h.few,
    h.cells ((m + 1) % 60) (omega arith),
    count-in_window_next m hs h.past,
    count-le-length (in_window m) hs,
  )

  clear_cell-Holds : Holds (m + 1) (clear_cell (m + 1) s) hs
  unfolding clear_cell
  clear_cell-Holds = record {
    size = length-set s.buffer ((m + 1) % 60) 0 ∙ h.size;
    sum = clear_cell-sum;
    cells = clear_cell-cell;
    past = All-le_trans m (m + 1) hs (omega arith) h.past;
    few = h.few;
  }

clear_cells-Holds :
    (rounds m : ℕ) (s : SlidingWindowStats) (hs : List ℕ)
    → Holds m s hs
    → Holds (m + rounds) (clear_cells rounds (m + 1) s) hs
unfolding clear_cells
clear_cells-Holds zero m s hs h = rw add-zero h
clear_cells-Holds (suc n) m s hs h =
    subst (λ k. Holds k (clear_cells n (m + 1 + 1) (clear_cell (m + 1) s)) hs) (omega arith)
      (clear_cells-Holds n (m + 1) (clear_cell (m + 1) s) hs (clear_cell-Holds m s hs h))

-- The window of a history: the last update is not before any hit, and every hit is in the total.
pub record Tracks (s : SlidingWindowStats) (hs : List ℕ) : Type 0 where
  pub window : Holds s.last_update_sec s hs
  pub total : s.total_hits ≡ length hs

clear_cells-total :
    (rounds sec : ℕ) (s : SlidingWindowStats) → (clear_cells rounds sec s).total_hits ≡ s.total_hits
unfolding clear_cells
clear_cells-total zero sec s = refl
clear_cells-total (suc n) sec s = clear_cells-total n (sec + 1) (clear_cell sec s)

module _ (n : ℕ) (s : SlidingWindowStats) (hs : List ℕ) (h : Tracks s hs) where
  fresh-Holds :
      s.last_update_sec + 60 < n → Holds n (record s { buffer = replicate 60 0; cached_sum = 0 }) hs
  fresh-Holds far = record {
    size = refl;
    sum = sym (count-in_window_far s.last_update_sec n hs h.window.past (omega arith));
    cells = λ i lt.
        get_or-replicate 60 i 0
        ∙ sym (count-in_cell_far s.last_update_sec n i hs h.window.past (omega arith));
    past = All-le_trans s.last_update_sec n hs (omega arith) h.window.past;
    few = h.window.few;
  }

  -- Before the hit is counted, the window has moved to the second of the hit.
  advance-Holds : s.last_update_sec ≤ n → s.last_update_sec + 60 < 2 ^ 64 → Holds n (advance n s) hs
  unfolding advance
  advance-Holds le fits = elim (Bool-cases (ltb ((s.last_update_sec + 60) % 2 ^ 64) n)) [
    | inl far ↦ rw far (fresh-Holds (ground arith))
    | inr near ↦ elim (Bool-cases (ltb s.last_update_sec n)) [
      | inl later ↦
          rw (near, later)
            (subst (λ k. Holds k (clear_cells (n - s.last_update_sec) (s.last_update_sec + 1) s) hs)
              (omega arith)
              (clear_cells-Holds (n - s.last_update_sec) s.last_update_sec s hs h.window))
      | inr same ↦ rw (near, same) (subst (λ k. Holds k s hs) (ground arith) h.window)
    ]
  ]

  advance-total : (advance n s).total_hits ≡ s.total_hits
  unfolding advance
  advance-total =
      ground (arith, clear_cells-total (n - s.last_update_sec) (s.last_update_sec + 1) s)

module _ (n : ℕ) (s : SlidingWindowStats) (hs : List ℕ) (h : Holds n s hs) where
  module _ (few : length hs + 1 < 2 ^ 64) where
    count_hit-cell_self :
        get_or (count_hit n s).buffer (n % 60) 0 ≡ count (in_cell n (n % 60)) (n ∷ hs)
    unfolding count_hit
    count_hit-cell_self =
        get_or-set_self s.buffer (n % 60) _ 0 (omega (arith, h.size))
        ∙ unfold count in
          ground (arith, h.cells (n % 60) (omega arith), count-le-length (in_cell n (n % 60)) hs)

    count_hit-cell_other :
        (i : ℕ)
        → i < 60
        → i ≢ n % 60
        → get_or (count_hit n s).buffer i 0 ≡ count (in_cell n i) (n ∷ hs)
    unfolding count_hit
    count_hit-cell_other i lt ne =
        get_or-set_ne s.buffer (n % 60) i _ 0 (λ e. ne (sym e))
        ∙ unfold count in ground (arith, h.cells i lt)

    count_hit-cell :
        (i : ℕ) → i < 60 → get_or (count_hit n s).buffer i 0 ≡ count (in_cell n i) (n ∷ hs)
    count_hit-cell i lt = elim (ℕ_discrete i (n % 60)) [
      | yes e ↦
          subst (λ j. get_or (count_hit n s).buffer j 0 ≡ count (in_cell n j) (n ∷ hs)) (sym e)
            count_hit-cell_self
      | no ne ↦ count_hit-cell_other i lt ne
    ]

    count_hit-Holds : Holds n (count_hit n s) (n ∷ hs)
    unfolding count_hit count
    count_hit-Holds = record {
      size = length-set s.buffer (n % 60) _ ∙ h.size;
      sum = ground (arith, h.sum, count-le-length (in_window n) hs);
      cells = count_hit-cell;
      past = (omega arith, h.past);
      few = omega arith;
    }

-- A hit that is not before the last one keeps the account of the history.
pub record_hit-Tracks :
    (s : SlidingWindowStats) (hs : List ℕ) (t : SystemTime)
    → Tracks s hs
    → s.last_update_sec ≤ as_unix_secs t
    → s.last_update_sec + 60 < 2 ^ 64
    → length hs + 1 < 2 ^ 64
    → Tracks (record_hit s t) (as_unix_secs t ∷ hs)
unfolding record_hit
record_hit-Tracks s hs t h le fits few = record {
  window =
      let n = as_unix_secs t in
      unfold count_hit in count_hit-Holds n (advance n s) hs (advance-Holds n s hs h le fits) few;
  total = unfold count_hit in ground (arith, h.total, advance-total (as_unix_secs t) s hs h);
}

pub new-Tracks : Tracks new []
unfolding new count
new-Tracks = record {
  window = record {
    size = refl;
    sum = refl;
    cells = λ i lt. get_or-replicate 60 i 0;
    past = tt;
    few = omega arith;
  };
  total = refl;
}

-- The hits of a link in order.
unfoldable pub record_all : SlidingWindowStats → List SystemTime → SlidingWindowStats
record_all s [] = s
record_all s (t ∷ ts) = record_all (record_hit s t) ts

-- The clock does not run backwards, from second `m` on, and stays sixty seconds below 2^64.
abbrev pub IsAscending : ℕ → List SystemTime → Type 0
IsAscending m [] = Unit
IsAscending m (t ∷ ts) =
    (m ≤ as_unix_secs t) × (as_unix_secs t + 60 < 2 ^ 64) × IsAscending (as_unix_secs t) ts

-- The seconds of the hits, the last one first, on top of `hs`.
abbrev pub history : List ℕ → List SystemTime → List ℕ
history hs [] = hs
history hs (t ∷ ts) = history (as_unix_secs t ∷ hs) ts

pub last_update-record_hit :
    (s : SlidingWindowStats) (t : SystemTime) → (record_hit s t).last_update_sec ≡ as_unix_secs t
unfolding record_hit
last_update-record_hit s t = refl

pub record_all-Tracks :
    (s : SlidingWindowStats) (hs : List ℕ) (ts : List SystemTime)
    → Tracks s hs
    → s.last_update_sec + 60 < 2 ^ 64
    → IsAscending s.last_update_sec ts
    → length hs + length ts < 2 ^ 64
    → Tracks (record_all s ts) (history hs ts)
unfolding record_all
record_all-Tracks s hs [] h fits up few = h
record_all-Tracks s hs (t ∷ ts) h fits (le, fits', up) few =
    record_all-Tracks (record_hit s t) (as_unix_secs t ∷ hs) ts
      (record_hit-Tracks s hs t h le fits (omega arith)) (omega (arith, last_update-record_hit s t))
      (subst (λ m. IsAscending m ts) (sym (last_update-record_hit s t)) up) (omega arith)

count-history :
    (p : ℕ → Bool) (hs : List ℕ) (ts : List SystemTime)
    → count p (history hs ts) ≡ count (λ t. p (as_unix_secs t)) ts + count p hs
unfolding count
count-history p hs [] = omega arith
count-history p hs (t ∷ ts) = omega (arith, count-history p (as_unix_secs t ∷ hs) ts)

pub length-history :
    (hs : List ℕ) (ts : List SystemTime) → length (history hs ts) ≡ length ts + length hs
length-history hs [] = omega arith
length-history hs (t ∷ ts) = omega (arith, length-history (as_unix_secs t ∷ hs) ts)

pub record_all-new-Tracks :
    (ts : List SystemTime)
    → IsAscending 0 ts
    → length ts < 2 ^ 64
    → Tracks (record_all new ts) (history [] ts)
record_all-new-Tracks ts up few =
    unfold new in record_all-Tracks new [] ts new-Tracks (omega arith) up (omega arith)

-- The hits of the times `ts` that fall into the sixty seconds up to `m`.
abbrev pub hits_in_window : ℕ → List SystemTime → ℕ
hits_in_window m ts = count (λ t. in_window m (as_unix_secs t)) ts

pub count-in_window-history :
    (m : ℕ) (ts : List SystemTime) → count (in_window m) (history [] ts) ≡ hits_in_window m ts
count-in_window-history m ts = count-history (in_window m) [] ts ∙ unfold count in add-zero _

-- After any run of fewer than 2^64 hits on a clock that does not run backwards, the cached sum is
-- the number of the hits in the sixty seconds up to the last one, and the total is their number.
pub record_all-eq-counts :
    (ts : List SystemTime)
    → IsAscending 0 ts
    → length ts < 2 ^ 64
    → ((record_all new ts).cached_sum ≡ hits_in_window (record_all new ts).last_update_sec ts)
      × ((record_all new ts).total_hits ≡ length ts)
record_all-eq-counts ts up few =
    let k = record_all-new-Tracks ts up few in
    (k.window.sum ∙ count-in_window-history _ ts, omega (arith, k.total, length-history [] ts))
