-- ===== src/Storage/RateLimit/Burst.antt =====
-- A burst: all requests of a client at one instant.
use otus_rusthomework_http_a.Common.{
  ℕ, zero, suc, ◌-◌, ◌^◌, ◌≤◌, ◌<◌, String, ◌≡◌, refl, sym, ap, ◌∙◌, Bool, true, false, Option,
  none, some, List, [], ◌∷◌, arith, ltb,
}
use otus_rusthomework_http_a.Common.Outcome.{Outcome, ok, err, panic}
use otus_rusthomework_http_a.Common.Dict.{lookup, HasDistinctKeys}
use otus_rusthomework_http_a.Domain.RateLimit.{
  Instant, RateLimitConfig, RateLimitState, new_full, try_consume,
}
use otus_rusthomework_http_a.Domain.RateLimit.Float.{F64, IsIeee}
use otus_rusthomework_http_a.Domain.RateLimit.Consume.{try_consume_at_once, try_consume_empty}
use otus_rusthomework_http_a.Storage.RateLimit.{RateLimitStorage, check_and_consume, entry_or_full}
use otus_rusthomework_http_a.Storage.RateLimit.Clients.{kept, bucket, check_and_consume-IsChecked}

-- The first `c` of `k` requests are allowed.
pub allowances : ℕ → ℕ → List Bool
allowances c zero = []
allowances zero (suc k) = false ∷ allowances zero k
allowances (suc c) (suc k) = true ∷ allowances c k

prepend : Bool → Option (List Bool) → Option (List Bool)
prepend b none = none
prepend b (some bs) = some (b ∷ bs)

module _ (f : F64) where
  answers :
      Outcome Unit ((Bool × ℕ) × RateLimitStorage f)
      → (RateLimitStorage f → Option (List Bool))
      → Option (List Bool)
  unfolding prepend
  answers (ok (a, s)) rest = prepend a.0 (rest s)
  answers (err e) rest = none
  answers panic rest = none

  -- The answers to `k` requests of a client in a row, all at the instant `now`; `none` for a panic.
  unfoldable pub burst : ℕ → String → Instant → Instant → RateLimitStorage f → Option (List Bool)
  unfolding answers
  burst zero client_id now created s = some []
  burst (suc k) client_id now created s =
      answers (check_and_consume f client_id now created s) (burst k client_id now created)

module _ (f : F64) (ieee : IsIeee f) (client_id : String) (now created : Instant) where
  open f use {of_u64}

  abbrev filled : ℕ → Instant → RateLimitState f
  filled c last = record { tokens = of_u64 c; last_update = last }

  one_request :
      (config : RateLimitConfig) (last : Instant) (c : ℕ)
      → 0 < config.period_secs
      → config.capacity ≤ 2 ^ 53
      → now ≤ last
      → c ≤ config.capacity
      → (r : ℕ) × (try_consume f (filled c last) config now ≡ (ltb 0 c, filled (c - 1) now, r))
  one_request config last zero positive small same le =
      try_consume_empty f ieee config last now positive small same
  one_request config last (suc c) positive small same le = (
    0,
    try_consume_at_once f ieee config last now positive small same c le
        ∙ let e : suc c - 1 ≡ c = omega arith in
          let t : ltb 0 (suc c) ≡ true = ground arith in ground (arith, e, t),
  )

  bucket_now :
      (s : RateLimitStorage f) (c : ℕ)
      → lookup client_id s.inner ≡ some (filled c now)
      → bucket f s client_id now created ≡ filled c now
  bucket_now s c e =
      ap
        (λ (o : Option (RateLimitState f)).
          entry_or_full f (kept f (now - s.ttl) o) s.config.capacity created)
        e
      ∙ unfold entry_or_full in ground arith

  allowances_step : (c k : ℕ) → allowances c (suc k) ≡ ltb 0 c ∷ allowances (c - 1) k
  unfolding allowances
  allowances_step zero k = refl
  allowances_step (suc c) k =
      let e : suc c - 1 ≡ c = omega arith in
      let t : ltb 0 (suc c) ≡ true = ground arith in ground (arith, e, t)

  burst_step :
      (k : ℕ) (s : RateLimitStorage f) (a : Bool × ℕ) (s' : RateLimitStorage f)
      → check_and_consume f client_id now created s ≡ ok (a, s')
      → burst f (suc k) client_id now created s ≡ prepend a.0 (burst f k client_id now created s')
  unfolding burst
  burst_step k s a s' e =
      ap
        (λ (o : Outcome Unit ((Bool × ℕ) × RateLimitStorage f)).
          answers f o (burst f k client_id now created))
        e

  burst_from :
      (k c : ℕ) (last : Instant) (s : RateLimitStorage f)
      → HasDistinctKeys s.inner
      → s.ttl ≤ now
      → 0 < s.config.period_secs
      → s.config.capacity ≤ 2 ^ 53
      → c ≤ s.config.capacity
      → now ≤ last
      → bucket f s client_id now created ≡ filled c last
      → burst f k client_id now created s ≡ some (allowances c k)
  burst_from zero c last s d old positive small le same b = unfold burst allowances in refl
  burst_from (suc k) c last s d old positive small le same b =
      let (a, s', e, ch) = check_and_consume-IsChecked f ieee client_id now created s d old in
      let (r, t) = one_request s.config last c positive small same le in
      let own : lookup client_id s'.inner ≡ some (filled (c - 1) now) =
        ch.own
        ∙ ap (λ (x : RateLimitState f). some (try_consume f x s.config now).1) b
        ∙ ap (λ (x : Bool × RateLimitState f × ℕ). some x.1) t in
      let first : a.0 ≡ ltb 0 c =
        ap (λ (x : Bool × ℕ). x.0) ch.answer
        ∙ ap (λ (x : RateLimitState f). (try_consume f x s.config now).0) b
        ∙ ap (λ (x : Bool × RateLimitState f × ℕ). x.0) t in
      let capacity : s'.config.capacity ≡ s.config.capacity =
        ap (λ (x : RateLimitConfig). x.capacity) ch.settings.0 in
      let period : s'.config.period_secs ≡ s.config.period_secs =
        ap (λ (x : RateLimitConfig). x.period_secs) ch.settings.0 in
      let rest : burst f k client_id now created s' ≡ some (allowances (c - 1) k) =
        burst_from k (c - 1) now s' ch.distinct (omega (arith, ch.settings.1)) (omega arith)
          (omega arith) (omega arith) (omega arith) (bucket_now s' (c - 1) own) in
      burst_step k s a s' e
      ∙ ap (prepend a.0) rest
      ∙ unfold prepend in
        ap (λ (l : List Bool). some l)
          (ap (λ (x : Bool). x ∷ allowances (c - 1) k) first ∙ sym (allowances_step c k))

  -- Of any number of requests that a client without a bucket makes at one instant, exactly the
  -- first `capacity` are allowed, for a positive period, a capacity that a float holds exactly, and
  -- a clock that has run for the time to live.
  pub burst-eq-allowances :
      (k : ℕ) (s : RateLimitStorage f)
      → HasDistinctKeys s.inner
      → lookup client_id s.inner ≡ none
      → s.ttl ≤ now
      → now ≤ created
      → 0 < s.config.period_secs
      → s.config.capacity ≤ 2 ^ 53
      → burst f k client_id now created s ≡ some (allowances s.config.capacity k)
  burst-eq-allowances k s d absent old later positive small =
      burst_from k s.config.capacity created s d old positive small (omega arith) later (
        ap
          (λ (o : Option (RateLimitState f)).
            entry_or_full f (kept f (now - s.ttl) o) s.config.capacity created)
          absent
        ∙ unfold entry_or_full new_full in refl)
