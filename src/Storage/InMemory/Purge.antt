-- ===== src/Storage/InMemory/Purge.antt =====
-- `purge_expired_sync` keeps exactly the entries that have not expired.
use otus_rusthomework_http_a.Common.{
  ◌+◌, ◌-◌, String, ◌≡◌, refl, sym, ap, ◌∙◌, Bool, true, false, not, ◌||◌, ◌&&◌, none, List, [],
  ◌∷◌, arith, length, filter, All, str_eq, eq_iff, eq_refl, if◌then◌else◌,
}
use otus_rusthomework_http_a.Common.Dict.{
  Dict, lookup, remove, IsFresh, HasDistinctKeys, lookup-remove,
}
use otus_rusthomework_http_a.Common.Time.{SystemTime}
use otus_rusthomework_http_a.Domain.Link.{is_expired}
use otus_rusthomework_http_a.Domain.Stats.{remove_stats}
use otus_rusthomework_http_a.Storage.InMemory.{
  LinkEntry, InMemoryRepo, expired_codes, remove_codes, purge_expired_sync,
}
use otus_rusthomework_http_a.Storage.InMemory.Map.{IsWellFormed}

abbrev pub Entry : Type 0
Entry = String × LinkEntry

-- The code is in the list.
pub contains : List String → String → Bool
contains [] k = false
contains (j ∷ js) k = str_eq j k || contains js k

abbrev pub has_expired : SystemTime → Entry → Bool
has_expired now e = is_expired e.1.link now

module _ {ℓ} {A : Type ℓ} where
  pub filter-filter :
      (p q : A → Bool) (xs : List A) → filter p (filter q xs) ≡ filter (λ x. q x && p x) xs
  unfolding filter
  filter-filter p q [] = refl
  filter-filter p q (x ∷ xs) = ground (arith, filter-filter p q xs)

  filter_congr :
      (p q : A → Bool) (xs : List A) → All (λ x. p x ≡ q x) xs → filter p xs ≡ filter q xs
  unfolding filter
  filter_congr p q [] h = refl
  filter_congr p q (x ∷ xs) (e, h) = ground (arith, filter_congr p q xs h)

  pub filter-true : (xs : List A) → filter (λ x. true) xs ≡ xs
  unfolding filter
  filter-true [] = refl
  filter-true (x ∷ xs) = ap (◌∷◌ x) (filter-true xs)

  length-filter-not :
      (p : A → Bool) (xs : List A)
      → length (filter p xs) + length (filter (λ x. not (p x)) xs) ≡ length xs
  unfolding filter
  length-filter-not p [] = omega arith
  length-filter-not p (x ∷ xs) = ground (arith, length-filter-not p xs)

  All-same : (p q : A → Bool) (xs : List A) → ((x : A) → p x ≡ q x) → All (λ x. p x ≡ q x) xs
  All-same p q [] h = tt
  All-same p q (x ∷ xs) h = (h x, All-same p q xs h)

remove-eq-filter :
    (k : String) (m : Dict LinkEntry) → remove k m ≡ filter (λ e. not (str_eq k e.0)) m
unfolding remove filter
remove-eq-filter k [] = refl
remove-eq-filter k ((j, e) ∷ m) = ground (arith, eq_iff j k, eq_iff k j, remove-eq-filter k m)

remove_codes-inner :
    (codes : List String) (repo : InMemoryRepo)
    → (remove_codes codes repo).inner ≡ filter (λ e. not (contains codes e.0)) repo.inner
unfolding remove_codes contains
remove_codes-inner [] repo = sym (filter-true repo.inner)
remove_codes-inner (c ∷ cs) repo =
    remove_codes-inner cs
      (record { inner = remove c repo.inner; stats = remove_stats repo.stats c })
    ∙ ap (filter (λ e. not (contains cs e.0))) (remove-eq-filter c repo.inner)
    ∙ filter-filter _ _ repo.inner
    ∙ filter_congr _ _ repo.inner (All-same _ _ repo.inner (λ e. ground arith))

-- Of an entry's key it is known whether it is among the expired codes.
contains-expired_codes_fresh :
    (now : SystemTime) (k : String) (m : Dict LinkEntry)
    → IsFresh k m
    → contains (expired_codes now m) k ≡ false
unfolding contains expired_codes filter
contains-expired_codes_fresh now k [] f = refl
contains-expired_codes_fresh now k ((j, e) ∷ m) (n, f) =
    ground (arith, eq_iff j k, contains-expired_codes_fresh now k m f)

AllExact : SystemTime → Dict LinkEntry → Dict LinkEntry → Type 0
AllExact now all m = All (λ e. contains (expired_codes now all) e.0 ≡ has_expired now e) m

AllExact-cons :
    (now : SystemTime) (k : String) (v : LinkEntry) (all m : Dict LinkEntry)
    → IsFresh k m
    → AllExact now all m
    → AllExact now ((k, v) ∷ all) m
unfolding AllExact contains expired_codes filter
AllExact-cons now k v all [] f h = tt
AllExact-cons now k v all ((j, e) ∷ m) (n, f) (x, h) =
    (ground (arith, eq_iff k j), AllExact-cons now k v all m f h)

AllExact_lem : (now : SystemTime) (m : Dict LinkEntry) → HasDistinctKeys m → AllExact now m m
unfolding AllExact contains expired_codes filter
AllExact_lem now [] d = tt
AllExact_lem now ((k, v) ∷ m) (f, d) = (
  ground (arith, eq_refl k, contains-expired_codes_fresh now k m f),
  AllExact-cons now k v m m f (AllExact_lem now m d),
)

All-not :
    (p q : Entry → Bool) (xs : List Entry)
    → All (λ x. p x ≡ q x) xs
    → All (λ x. not (p x) ≡ not (q x)) xs
All-not p q [] h = tt
All-not p q (x ∷ xs) (e, h) = (ap not e, All-not p q xs h)

remove_codes-stats :
    (codes : List String) (repo : InMemoryRepo) (k : String)
    → lookup k (remove_codes codes repo).stats
      ≡ (if contains codes k then none else lookup k repo.stats)
unfolding remove_codes contains remove_stats
remove_codes-stats [] repo k = refl
remove_codes-stats (c ∷ cs) repo k =
    remove_codes-stats cs (record { inner = remove c repo.inner; stats = remove c repo.stats }) k
    ∙ ground (arith, lookup-remove c k repo.stats)

module _ (now : SystemTime) (repo : InMemoryRepo) (w : IsWellFormed repo) where
  purge_expired_sync-inner :
      (purge_expired_sync now repo).1.inner ≡ filter (λ e. not (has_expired now e)) repo.inner
  unfolding purge_expired_sync AllExact
  purge_expired_sync-inner =
      remove_codes-inner (expired_codes now repo.inner) repo
      ∙ filter_congr _ _ repo.inner (
          All-not (λ e. contains (expired_codes now repo.inner) e.0) (has_expired now) repo.inner
            (AllExact_lem now repo.inner w.distinct))

  purge_expired_sync-count :
      (purge_expired_sync now repo).0
      ≡ length repo.inner - length (purge_expired_sync now repo).1.inner
  unfolding purge_expired_sync
  purge_expired_sync-count = refl

  -- A purge of a well-formed repository keeps the entries that have not expired, in their order, and
  -- no other; it returns the number of the expired ones; it drops the windows of their codes and
  -- no other.
  pub purge_expired_sync_lem :
      ((purge_expired_sync now repo).1.inner ≡ filter (λ e. not (has_expired now e)) repo.inner)
      × ((purge_expired_sync now repo).0 ≡ length (filter (has_expired now) repo.inner))
      × ((code : String)
          → lookup code (purge_expired_sync now repo).1.stats ≡ (
              if contains (expired_codes now repo.inner) code
              then none
              else lookup code repo.stats))
  purge_expired_sync_lem = (
    purge_expired_sync-inner,
    omega (
      arith,
      purge_expired_sync-count,
      ap (λ (l : Dict LinkEntry). length l) purge_expired_sync-inner,
      length-filter-not (has_expired now) repo.inner,
    ),
    λ code.
        unfold purge_expired_sync in remove_codes-stats (expired_codes now repo.inner) repo code,
  )
