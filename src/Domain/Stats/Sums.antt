-- ===== src/Domain/Stats/Sums.antt =====
-- Whatever the clock does, the cached sum is the sum of the cells, so that no subtraction wraps.
use otus_rusthomework_http_a.Common.{
  ℕ, zero, suc, ◌+◌, ◌-◌, ◌%◌, ◌^◌, ◌≤◌, ◌<◌, ◌≡◌, refl, List, [], ◌∷◌, arith, length, get_or, set,
  replicate, length-set, ◌∙◌, ap, Bool-cases, ltb, inl, inr,
}
use otus_rusthomework_http_a.Common.Time.{SystemTime, as_unix_secs}
use otus_rusthomework_http_a.Domain.Stats.{
  SlidingWindowStats, new, clear_cell, clear_cells, advance, count_hit, record_hit,
}
use otus_rusthomework_http_a.Domain.Stats.Window.{record_all}

pub sum : List ℕ → ℕ
sum [] = 0
sum (x ∷ xs) = x + sum xs

sum-set : (xs : List ℕ) (i v : ℕ) → i < length xs → sum (set xs i v) + get_or xs i 0 ≡ sum xs + v
unfolding sum
sum-set [] i v h = absurd (omega arith)
sum-set (x ∷ xs) zero v h = omega arith
sum-set (x ∷ xs) (suc i) v h = omega (arith, sum-set xs i v (omega arith))

get_or-le-sum : (xs : List ℕ) (i : ℕ) → get_or xs i 0 ≤ sum xs
unfolding sum
get_or-le-sum [] i = omega arith
get_or-le-sum (x ∷ xs) zero = omega arith
get_or-le-sum (x ∷ xs) (suc i) = omega (arith, get_or-le-sum xs i)

sum-replicate : (n : ℕ) → sum (replicate n 0) ≡ 0
unfolding sum
sum-replicate zero = refl
sum-replicate (suc n) = omega (arith, sum-replicate n)

-- Sixty cells, whose sum is cached and is at most the total.
pub record IsWellFormed (s : SlidingWindowStats) : Type 0 where
  pub size : length s.buffer ≡ 60
  pub summed : s.cached_sum ≡ sum s.buffer
  pub bounded : sum s.buffer ≤ s.total_hits

module _ (sec : ℕ) (s : SlidingWindowStats) (h : IsWellFormed s) (few : s.total_hits < 2 ^ 64) where
  clear_cell-IsWellFormed : IsWellFormed (clear_cell sec s)
  unfolding clear_cell
  clear_cell-IsWellFormed = record {
    size = length-set s.buffer (sec % 60) 0 ∙ h.size;
    summed = omega (
      arith,
      h.size,
      h.summed,
      h.bounded,
      few,
      sum-set s.buffer (sec % 60) 0 (omega (arith, h.size)),
    );
    bounded = omega (arith, h.bounded, sum-set s.buffer (sec % 60) 0 (omega (arith, h.size)));
  }

clear_cells-IsWellFormed :
    (rounds sec : ℕ) (s : SlidingWindowStats)
    → IsWellFormed s
    → s.total_hits < 2 ^ 64
    → IsWellFormed (clear_cells rounds sec s)
      × ((clear_cells rounds sec s).total_hits ≡ s.total_hits)
unfolding clear_cells
clear_cells-IsWellFormed zero sec s h few = (h, refl)
clear_cells-IsWellFormed (suc n) sec s h few =
    clear_cells-IsWellFormed n (sec + 1) (clear_cell sec s) (clear_cell-IsWellFormed sec s h few)
      few

new_buffer-IsWellFormed :
    (s : SlidingWindowStats) → IsWellFormed (record s { buffer = replicate 60 0; cached_sum = 0 })
new_buffer-IsWellFormed s = record {
  size = refl;
  summed = omega (arith, sum-replicate 60);
  bounded = omega (arith, sum-replicate 60);
}

advance-IsWellFormed :
    (n : ℕ) (s : SlidingWindowStats)
    → IsWellFormed s
    → s.total_hits < 2 ^ 64
    → IsWellFormed (advance n s) × ((advance n s).total_hits ≡ s.total_hits)
unfolding advance
advance-IsWellFormed n s h few = elim (Bool-cases (ltb ((s.last_update_sec + 60) % 2 ^ 64) n)) [
  | inl far ↦ rw far (new_buffer-IsWellFormed s, refl)
  | inr near ↦ elim (Bool-cases (ltb s.last_update_sec n)) [
    | inl later ↦
        rw (near, later)
          (clear_cells-IsWellFormed (n - s.last_update_sec) (s.last_update_sec + 1) s h few)
    | inr same ↦ rw (near, same) (h, refl)
  ]
]

count_hit-IsWellFormed :
    (n : ℕ) (s : SlidingWindowStats)
    → IsWellFormed s
    → s.total_hits + 1 < 2 ^ 64
    → IsWellFormed (count_hit n s) × ((count_hit n s).total_hits ≡ s.total_hits + 1)
unfolding count_hit
count_hit-IsWellFormed n s h few =
    let put =
      sum-set s.buffer (n % 60) ((get_or s.buffer (n % 60) 0 + 1) % 2 ^ 64)
        (omega (arith, h.size)) in
    let small = get_or-le-sum s.buffer (n % 60) in
    (
      record {
        size = length-set s.buffer (n % 60) _ ∙ h.size;
        summed = omega (arith, put, small, h.summed, h.bounded, few);
        bounded = omega (arith, put, small, h.bounded, few);
      },
      omega arith,
    )

-- A hit at any time, also before the last one, keeps the window well formed and adds one to the
-- total, as long as fewer than 2^64 - 1 hits are counted. So the loop never subtracts a cell that is
-- larger than the cached sum.
pub record_hit-IsWellFormed :
    (s : SlidingWindowStats) (t : SystemTime)
    → IsWellFormed s
    → s.total_hits + 1 < 2 ^ 64
    → IsWellFormed (record_hit s t) × ((record_hit s t).total_hits ≡ s.total_hits + 1)
unfolding record_hit
record_hit-IsWellFormed s t h few =
    let (a, same) = advance-IsWellFormed (as_unix_secs t) s h (omega arith) in
    let (c, one) =
      count_hit-IsWellFormed (as_unix_secs t) (advance (as_unix_secs t) s) a
        (omega (arith, same)) in
    (c, one ∙ ap (λ (k : ℕ). k + 1) same)

pub new-IsWellFormed : IsWellFormed new
unfolding new sum
new-IsWellFormed = record { size = refl; summed = refl; bounded = omega arith }

-- A run of hits on any clock that stays below 2^64 hits in all leaves a well-formed
-- window well formed, and adds the number of the hits to the total.
pub record_all-IsWellFormed :
    (s : SlidingWindowStats) (ts : List SystemTime)
    → IsWellFormed s
    → s.total_hits + length ts < 2 ^ 64
    → IsWellFormed (record_all s ts) × ((record_all s ts).total_hits ≡ s.total_hits + length ts)
unfolding record_all
record_all-IsWellFormed s [] h few = (h, omega arith)
record_all-IsWellFormed s (t ∷ ts) h few =
    let (h', one) = record_hit-IsWellFormed s t h (omega arith) in
    let (h'', all) = record_all-IsWellFormed (record_hit s t) ts h' (omega (arith, one)) in
    (h'', omega (arith, one, all))
