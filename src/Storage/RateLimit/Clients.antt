-- ===== src/Storage/RateLimit/Clients.antt =====
-- A check moves one client's bucket, and forgets the buckets that are too old.
use otus_rusthomework_http_a.Common.{
  subst, sym, ℕ, ◌-◌, ◌≤◌, String, ◌≡◌, refl, ◌≢◌, ap, ◌∙◌, Bool, true, ◌||◌, Option, none, some,
  arith, ltb, leb, filter, if◌then◌else◌,
}
use otus_rusthomework_http_a.Common.Outcome.{ok}
use otus_rusthomework_http_a.Common.Dict.{
  Dict, insert-HasDistinctKeys, filter-HasDistinctKeys, lookup, insert, lookup-insert_self,
  lookup-insert_ne, HasDistinctKeys, lookup-filter,
}
use otus_rusthomework_http_a.Domain.RateLimit.{Instant, RateLimitState, try_consume}
use otus_rusthomework_http_a.Domain.RateLimit.Float.{F64, IsIeee}
use otus_rusthomework_http_a.Domain.RateLimit.Consume.{try_consume-IsSound}
use otus_rusthomework_http_a.Storage.RateLimit.{
  RateLimitStorage, is_fresh, consume, entry_or_full, check_and_consume,
}

module _ (f : F64) where
  -- What the cleanup leaves of a client's bucket.
  abbrev pub kept : Instant → Option (RateLimitState f) → Option (RateLimitState f)
  kept threshold none = none
  kept threshold (some state) = if leb threshold state.last_update then some state else none

  -- The bucket that a request of the client meets after the cleanup.
  abbrev pub bucket : RateLimitStorage f → String → Instant → Instant → RateLimitState f
  bucket s client_id now created =
      entry_or_full f (kept (now - s.ttl) (lookup client_id s.inner)) s.config.capacity created

  pub record IsChecked (s : RateLimitStorage f) (client_id : String) (now created : Instant)
      (a : Bool × ℕ) (s' : RateLimitStorage f) : Type 0 where
    pub answer : a ≡ (
      (try_consume f (bucket s client_id now created) s.config now).0,
      (try_consume f (bucket s client_id now created) s.config now).2,
    )
    pub own :
        lookup client_id s'.inner
        ≡ some (try_consume f (bucket s client_id now created) s.config now).1
    pub others :
        (other : String)
        → client_id ≢ other
        → lookup other s'.inner ≡ kept (now - s.ttl) (lookup other s.inner)
    pub distinct : HasDistinctKeys s'.inner
    pub settings : (s'.config ≡ s.config) × (s'.ttl ≡ s.ttl)

  module _ (ieee : IsIeee f) (client_id : String) (now created : Instant) where
    module _ (s : RateLimitStorage f) where
      abbrev state : RateLimitState f
      state = entry_or_full f (lookup client_id s.inner) s.config.capacity created

      -- A denied request waits a second or more, so that the new state is always written.
      stored :
          ((try_consume f state s.config now).0 || ltb 0 (try_consume f state s.config now).2)
          ≡ true
      stored =
          let sound = try_consume-IsSound f ieee state s.config now in ground (arith, sound.denied)

      consume-inner :
          (consume f client_id now created s).1.inner
          ≡ insert client_id (try_consume f state s.config now).1 (insert client_id state s.inner)
      unfolding consume
      consume-inner = rw (stored, consume) refl

      consume-own :
          lookup client_id (consume f client_id now created s).1.inner
          ≡ some (try_consume f state s.config now).1
      consume-own = ap (lookup client_id) consume-inner ∙ lookup-insert_self client_id _ _

      consume-others :
          (other : String)
          → client_id ≢ other
          → lookup other (consume f client_id now created s).1.inner ≡ lookup other s.inner
      consume-others other ne =
          ap (lookup other) consume-inner
          ∙ lookup-insert_ne client_id other _ _ ne
          ∙ lookup-insert_ne client_id other _ s.inner ne

    module _ (s : RateLimitStorage f) (d : HasDistinctKeys s.inner) (old : s.ttl ≤ now) where
      abbrev pub survivors : RateLimitStorage f
      survivors = record s { inner = filter (is_fresh f (now - s.ttl)) s.inner }

      lookup-survivors :
          (k : String) → lookup k survivors.inner ≡ kept (now - s.ttl) (lookup k s.inner)
      lookup-survivors k =
          lookup-filter (is_fresh f (now - s.ttl)) k s.inner d
          ∙ elim (lookup k s.inner)
              as (λ o.
                elim o [
                  | none ↦ none
                  | some v ↦ if is_fresh f (now - s.ttl) (k, v) then some v else none
                ]
                ≡ kept (now - s.ttl) o) [ none ↦ refl | some v ↦ refl ]

      same_bucket :
          entry_or_full f (lookup client_id survivors.inner) s.config.capacity created
          ≡ bucket s client_id now created
      same_bucket =
          ap (λ (o : Option (RateLimitState f)). entry_or_full f o s.config.capacity created)
            (lookup-survivors client_id)

      pub check_and_consume-eq :
          check_and_consume f client_id now created s
          ≡ ok (consume f client_id now created survivors)
      unfolding check_and_consume
      check_and_consume-eq = ground arith

      -- On a clock that has run for the time to live, a check answers what the client's bucket
      -- answers, new and full if it has none or its own is too old; it stores that bucket's new
      -- state, and of every other client it changes nothing but to forget a bucket that is too old.
      pub check_and_consume-IsChecked :
          (a : Bool × ℕ) × (s' : RateLimitStorage f) × (check_and_consume f client_id now created s
            ≡ ok (a, s'))
          × IsChecked s client_id now created a s'
      check_and_consume-IsChecked = (
        (consume f client_id now created survivors).0,
        (consume f client_id now created survivors).1,
        check_and_consume-eq,
        record {
          answer =
              unfold consume in
              ap
                (λ (b : RateLimitState f).
                  let a : Bool × ℕ =
                    ((try_consume f b s.config now).0, (try_consume f b s.config now).2) in
                  a)
                same_bucket;
          own =
              consume-own survivors
              ∙ ap (λ (b : RateLimitState f). some (try_consume f b s.config now).1) same_bucket;
          others = λ other ne. consume-others survivors other ne ∙ lookup-survivors other;
          distinct =
              subst (λ (m : Dict (RateLimitState f)). HasDistinctKeys m)
                (sym (consume-inner survivors))
                (insert-HasDistinctKeys client_id _ _ (
                  insert-HasDistinctKeys client_id _ survivors.inner
                    (filter-HasDistinctKeys (is_fresh f (now - s.ttl)) s.inner d)));
          settings = unfold consume in (refl, refl);
        },
      )
