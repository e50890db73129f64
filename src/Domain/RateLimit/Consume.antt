-- ===== src/Domain/RateLimit/Consume.antt =====
-- What one request does to a bucket.
use otus_rusthomework_http_a.Common.{
  ℕ, suc, ◌-◌, ◌^◌, ◌≤◌, ◌<◌, ◌≡◌, refl, ap, ◌∙◌, Bool, true, false, arith, Bool-cases, inl, inr,
}
use otus_rusthomework_http_a.Domain.RateLimit.{
  Instant, RateLimitConfig, RateLimitState, new_tokens, retry_after, try_consume,
}
use otus_rusthomework_http_a.Domain.RateLimit.Float.{F64, IsIeee}

module _ (f : F64) (ieee : IsIeee f) where
  open f use {Float, is_nan, of_u64, as_secs_f64, add, sub, mul, div, min, geb, gtb}

  -- The answer to a request, as the three results of `try_consume`.
  pub record IsSound (s : RateLimitState f) (config : RateLimitConfig) (now : Instant)
      (r : Bool × RateLimitState f × ℕ) : Type 0 where
    pub capped : geb (of_u64 config.capacity) r.1.tokens ≡ true
    pub stamped : r.1.last_update ≡ now
    pub allowed :
        r.0 ≡ true
        → (geb (new_tokens f s config now) (of_u64 1) ≡ true)
          × (r.1.tokens ≡ sub (new_tokens f s config now) (of_u64 1))
          × (r.2 ≡ 0)
    pub denied :
        r.0 ≡ false
        → (geb (new_tokens f s config now) (of_u64 1) ≡ false)
          × (r.1.tokens ≡ new_tokens f s config now)
          × (0 < r.2)

  retry_after_pos :
      (shortage : Float) (config : RateLimitConfig)
      → gtb shortage (of_u64 0) ≡ true
      → 0 < retry_after f shortage config
  unfolding retry_after
  retry_after_pos shortage config h = ground arith

  module _ (s : RateLimitState f) (config : RateLimitConfig) (now : Instant) where
    new_tokens_below : geb (of_u64 config.capacity) (new_tokens f s config now) ≡ true
    unfolding new_tokens
    new_tokens_below =
        ieee.min_below _ (of_u64 config.capacity) (ieee.of_u64_number config.capacity)

    new_tokens_number : is_nan (new_tokens f s config now) ≡ false
    unfolding new_tokens
    new_tokens_number =
        ieee.min_number _ (of_u64 config.capacity) (ieee.of_u64_number config.capacity)

    -- From any state, whatever its tokens: the new tokens are within the capacity, and the state is
    -- stamped with the time of the request. A request is allowed only where the refilled bucket has
    -- a whole token, which it takes, and is told to wait for nothing; it is denied only where there
    -- is none, takes nothing, and is told to wait for a second or more.
    pub try_consume-IsSound : IsSound s config now (try_consume f s config now)
    unfolding try_consume
    try_consume-IsSound = elim (Bool-cases (geb (new_tokens f s config now) (of_u64 1))) [
      | inl full ↦
          rw (full, try_consume)
            (record {
              capped = ieee.sub_below _ _ new_tokens_below full;
              stamped = refl;
              allowed = λ h. (full, refl, refl);
              denied = λ h. cc;
            })
      | inr short ↦
          rw (short, try_consume)
            (record {
              capped = new_tokens_below;
              stamped = refl;
              allowed = λ h. cc;
              denied = λ h. (
                short,
                refl,
                retry_after_pos _ config (ieee.sub_positive _ new_tokens_number short),
              );
            })
    ]

  -- With whole tokens and no time gone, one token is taken if there is one.
  module _ (config : RateLimitConfig) (last now : Instant) (positive : 0 < config.period_secs) where
    module _ (small : config.capacity ≤ 2 ^ 53) (same : now ≤ last) where
      new_tokens_at_once :
          (n : ℕ)
          → n ≤ config.capacity
          → new_tokens f (record { tokens = of_u64 n; last_update = last }) config now ≡ of_u64 n
      unfolding new_tokens
      new_tokens_at_once n le =
          let rate = div (of_u64 config.capacity) (of_u64 config.period_secs) in
          let cap = of_u64 config.capacity in
          let gone : now - last ≡ 0 = omega arith in
          ap (λ (d : ℕ). min (add (of_u64 n) (mul (as_secs_f64 d) rate)) cap) gone
          ∙ ap (λ (x : Float). min (add (of_u64 n) x) cap)
              (ieee.mul_zero config.capacity config.period_secs positive)
          ∙ ap (λ (x : Float). min x cap) (ieee.add_zero n)
          ∙ ieee.min_exact n config.capacity le small

      pub try_consume_at_once :
          (n : ℕ)
          → suc n ≤ config.capacity
          → try_consume f (record { tokens = of_u64 (suc n); last_update = last }) config now
            ≡ (true, record { tokens = of_u64 n; last_update = now }, 0)
      unfolding try_consume
      try_consume_at_once n le =
          rw (new_tokens_at_once (suc n) le, try_consume)
            (rw (full, try_consume)
              (ap (λ (t : Float). (true, record { tokens = t; last_update = now }, 0))
                (ieee.sub_exact n (omega arith))))
        where
          full : geb (of_u64 (suc n)) (of_u64 1) ≡ true
          full = ieee.geb_exact (suc n) 1 (omega arith) (omega arith) ∙ ground arith

      pub try_consume_empty :
          (r : ℕ) × (try_consume f (record { tokens = of_u64 0; last_update = last }) config now
            ≡ (false, record { tokens = of_u64 0; last_update = now }, r))
      unfolding try_consume
      try_consume_empty = (
        retry_after f (sub (of_u64 1) (of_u64 0)) config,
        rw (new_tokens_at_once 0 (omega arith), try_consume) (rw (empty, try_consume) refl),
      )
        where
          empty : geb (of_u64 0) (of_u64 1) ≡ false
          empty = ieee.geb_exact 0 1 (omega arith) (omega arith)
