-- ===== src/Domain/RateLimit/Float.antt =====
-- `f64` as a parameter: its operations that the token bucket uses, and the facts of IEEE 754 and of
-- Rust's documentation that the theorems rely on.
use otus_rusthomework_http_a.Common.{
  ℕ, suc, ◌+◌, ◌-◌, ◌*◌, ◌/◌, ◌%◌, ◌^◌, ◌≤◌, ◌<◌, ◌≡◌, refl, Bool, true, false, arith, leb, ltb,
  min as min_ℕ,
}

pub record F64 : Type 1 where
  pub Float : Type 0
  pub is_nan : Float → Bool
  -- `n as f64`
  pub of_u64 : ℕ → Float
  -- `Duration::as_secs_f64` of a duration in nanoseconds
  pub as_secs_f64 : ℕ → Float
  pub add : Float → Float → Float
  pub sub : Float → Float → Float
  pub mul : Float → Float → Float
  pub div : Float → Float → Float
  pub min : Float → Float → Float
  pub ceil : Float → Float
  -- `x as u64`
  pub as_u64 : Float → ℕ
  -- `a >= b` and `a > b`, both false where an argument is NaN
  pub geb : Float → Float → Bool
  pub gtb : Float → Float → Bool

module _ (f : F64) where
  open f use {Float, is_nan, of_u64, as_secs_f64, add, sub, mul, div, min, geb, gtb}

  pub record IsIeee : Type 0 where
    pub of_u64_number : (n : ℕ) → is_nan (of_u64 n) ≡ false
    -- `min` ignores a NaN beside a number, and its result is not above that number.
    pub min_number : (a b : Float) → is_nan b ≡ false → is_nan (min a b) ≡ false
    pub min_below : (a b : Float) → is_nan b ≡ false → geb b (min a b) ≡ true
    -- Taking one away from a number that is at least one does not enlarge it.
    pub sub_below :
        (a b : Float) → geb b a ≡ true → geb a (of_u64 1) ≡ true → geb b (sub a (of_u64 1)) ≡ true
    -- What is missing to one is positive.
    pub sub_positive :
        (a : Float)
        → is_nan a ≡ false
        → geb a (of_u64 1) ≡ false
        → gtb (sub (of_u64 1) a) (of_u64 0) ≡ true
    -- Whole numbers up to 2^53 are exact.
    pub sub_exact : (n : ℕ) → n < 2 ^ 53 → sub (of_u64 (suc n)) (of_u64 1) ≡ of_u64 n
    pub min_exact : (m n : ℕ) → m ≤ n → n ≤ 2 ^ 53 → min (of_u64 m) (of_u64 n) ≡ of_u64 m
    pub geb_exact : (m n : ℕ) → m ≤ 2 ^ 53 → n ≤ 2 ^ 53 → geb (of_u64 m) (of_u64 n) ≡ leb n m
    -- No time refills nothing, at a finite rate.
    pub mul_zero : (c p : ℕ) → 0 < p → mul (as_secs_f64 0) (div (of_u64 c) (of_u64 p)) ≡ of_u64 0
    pub add_zero : (n : ℕ) → add (of_u64 n) (of_u64 0) ≡ of_u64 n

-- Whole numbers meet these facts.
abbrev pub whole : F64
whole = record {
  Float = ℕ;
  is_nan = λ n. false;
  of_u64 = λ n. n;
  as_secs_f64 = λ n. n / 1_000_000_000;
  add = λ a b. a + b;
  sub = λ a b. a - b;
  mul = λ a b. a * b;
  div = λ a b. a / b;
  min = min_ℕ;
  ceil = λ a. a;
  as_u64 = λ a. a % 2 ^ 64;
  geb = λ a b. leb b a;
  gtb = λ a b. ltb b a;
}

pub whole-IsIeee : IsIeee whole
whole-IsIeee = record {
  of_u64_number = λ n. refl;
  min_number = λ a b h. refl;
  min_below = λ a b h. ground arith;
  sub_below = λ a b h k. ground arith;
  sub_positive = λ a h k. ground arith;
  sub_exact = λ n h. omega arith;
  min_exact = λ m n h k. omega arith;
  geb_exact = λ m n h k. refl;
  mul_zero = λ c p h. omega arith;
  add_zero = λ n. omega arith;
}
