-- ===== src/Domain/Stats/Counts.antt =====
-- How many of the hits at given seconds fall into the window of sixty seconds that ends at a second,
-- and into a cell of it.
use otus_rusthomework_http_a.Common.{
  ℕ, ◌+◌, ◌%◌, ◌≤◌, ◌≡◌, refl, ◌≢◌, Bool, ◌&&◌, List, [], ◌∷◌, arith, ltb, ◌==◌, All, count,
}

-- Second `t` is one of the sixty seconds up to `m`, for t ≤ m.
abbrev pub in_window : ℕ → ℕ → Bool
in_window m t = ltb m (t + 60)

abbrev pub in_cell : ℕ → ℕ → ℕ → Bool
in_cell m i t = (t % 60 == i) && ltb m (t + 60)

module _ (m : ℕ) where
  pub count-in_cell_next :
      (hs : List ℕ) → All (λ t. t ≤ m) hs → count (in_cell (m + 1) ((m + 1) % 60)) hs ≡ 0
  unfolding count
  count-in_cell_next [] h = refl
  count-in_cell_next (t ∷ hs) (le, h) = ground (arith, count-in_cell_next hs h)

  pub count-in_cell_other :
      (i : ℕ) (hs : List ℕ)
      → i ≢ (m + 1) % 60
      → All (λ t. t ≤ m) hs
      → count (in_cell (m + 1) i) hs ≡ count (in_cell m i) hs
  unfolding count
  count-in_cell_other i [] ne h = refl
  count-in_cell_other i (t ∷ hs) ne (le, h) = ground (arith, count-in_cell_other i hs ne h)

  -- What leaves the window at the next second is what its cell holds.
  pub count-in_window_next :
      (hs : List ℕ)
      → All (λ t. t ≤ m) hs
      → count (in_window (m + 1)) hs + count (in_cell m ((m + 1) % 60)) hs ≡ count (in_window m) hs
  unfolding count
  count-in_window_next [] h = refl
  count-in_window_next (t ∷ hs) (le, h) = ground (arith, count-in_window_next hs h)

pub count-in_window_far :
    (m n : ℕ) (hs : List ℕ) → All (λ t. t ≤ m) hs → m + 60 ≤ n → count (in_window n) hs ≡ 0
unfolding count
count-in_window_far m n [] h far = refl
count-in_window_far m n (t ∷ hs) (le, h) far = ground (arith, count-in_window_far m n hs h far)

pub count-in_cell_far :
    (m n i : ℕ) (hs : List ℕ) → All (λ t. t ≤ m) hs → m + 60 ≤ n → count (in_cell n i) hs ≡ 0
unfolding count
count-in_cell_far m n i [] h far = refl
count-in_cell_far m n i (t ∷ hs) (le, h) far = ground (arith, count-in_cell_far m n i hs h far)

-- A later window holds no more of the same hits.
pub count-in_window_mono :
    (m n : ℕ) (hs : List ℕ) → m ≤ n → count (in_window n) hs ≤ count (in_window m) hs
unfolding count
count-in_window_mono m n [] h = omega arith
count-in_window_mono m n (t ∷ hs) h = ground (arith, count-in_window_mono m n hs h)

pub All-le_trans : (m n : ℕ) (hs : List ℕ) → m ≤ n → All (λ t. t ≤ m) hs → All (λ t. t ≤ n) hs
All-le_trans m n [] h a = tt
All-le_trans m n (t ∷ hs) h (le, a) = (omega arith, All-le_trans m n hs h a)
