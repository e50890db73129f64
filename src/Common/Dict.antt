-- ===== src/Common/Dict.antt =====
-- `HashMap<String, V>` as an association list. The order of the list is the map's iteration order,
-- which Rust leaves open: no theorem depends on it but through the entries themselves.
use otus_rusthomework_http_a.Common.{
  Bool, filter, String, ◌≡◌, refl, ap, ◌≢◌, Option, none, some, List, [], ◌∷◌, map, arith, str_eq,
  eq_iff, eq_refl, if◌then◌else◌, length, All, ◌+◌, ◌⊎◌, inl, inr, subst, Bool-cases,
}

pub eq_cases : (j k : String) → (j ≡ k) ⊎ (j ≢ k)
eq_cases j k = elim (Bool-cases (str_eq j k)) [
  | inl same ↦ inl ((eq_iff j k).0 same)
  | inr other ↦ inr (λ e. ground (arith, eq_iff j k))
]

abbrev pub Dict {ℓ} : Type ℓ → Type ℓ
Dict V = List (String × V)

module _ {ℓ} {V : Type ℓ} where
  -- `map.get(key)`
  unfoldable pub lookup : String → Dict V → Option V
  lookup key [] = none
  lookup key (e ∷ entries) = if str_eq e.0 key then some e.1 else lookup key entries

  -- `map.insert(key, value)`, and a write through `get_mut`
  unfoldable pub insert : String → V → Dict V → Dict V
  insert key value [] = (key, value) ∷ []
  insert key value (e ∷ entries) =
      if str_eq e.0 key then (e.0, value) ∷ entries else e ∷ insert key value entries

  -- `map.remove(key)`
  unfoldable pub remove : String → Dict V → Dict V
  remove k [] = []
  remove k ((j, v) ∷ m) = let rest = remove k m in if str_eq j k then rest else (j, v) ∷ rest

  abbrev pub values : Dict V → List V
  values = map (λ e. e.1)

  -- `key` is not a key of the map.
  abbrev pub IsFresh : String → Dict V → Type 0
  IsFresh k = All (λ e. e.0 ≢ k)

  -- A map holds a key at most once.
  abbrev pub HasDistinctKeys : Dict V → Type 0
  HasDistinctKeys [] = Unit
  HasDistinctKeys ((k, v) ∷ m) = IsFresh k m × HasDistinctKeys m

module _ {ℓ} {V : Type ℓ} where
  pub lookup-insert :
      (key other : String) (value : V) (entries : Dict V)
      → lookup other (insert key value entries)
        ≡ (if str_eq key other then some value else lookup other entries)
  unfolding insert lookup
  lookup-insert key other value [] = refl
  lookup-insert key other value (e ∷ entries) = ground (
    arith,
    lookup-insert key other value entries,
    eq_iff e.0 key,
    eq_iff e.0 other,
    eq_iff key other,
  )

  pub lookup-remove :
      (k j : String) (m : Dict V)
      → lookup j (remove k m) ≡ (if str_eq k j then none else lookup j m)
  unfolding lookup remove
  lookup-remove k j [] = ground arith
  lookup-remove k j ((i, w) ∷ m) =
      ground (arith, eq_iff k j, eq_iff i k, eq_iff i j, lookup-remove k j m)

  pub lookup-insert_self : (k : String) (v : V) (m : Dict V) → lookup k (insert k v m) ≡ some v
  lookup-insert_self k v m = ground (arith, lookup-insert k k v m, eq_refl k)

  pub lookup-remove_self : (k : String) (m : Dict V) → lookup k (remove k m) ≡ none
  lookup-remove_self k m = ground (arith, lookup-remove k k m, eq_refl k)

  pub lookup-insert_ne :
      (k j : String) (v : V) (m : Dict V) → k ≢ j → lookup j (insert k v m) ≡ lookup j m
  lookup-insert_ne k j v m h = ground (arith, lookup-insert k j v m, eq_iff k j)

  pub lookup-remove_ne : (k j : String) (m : Dict V) → k ≢ j → lookup j (remove k m) ≡ lookup j m
  lookup-remove_ne k j m h = ground (arith, lookup-remove k j m, eq_iff k j)

  pub lookup_of_IsFresh : (k : String) (m : Dict V) → IsFresh k m → lookup k m ≡ none
  unfolding lookup
  lookup_of_IsFresh k [] h = refl
  lookup_of_IsFresh k ((j, w) ∷ m) (n, h) = ground (arith, eq_iff j k, lookup_of_IsFresh k m h)

  pub IsFresh-of_lookup : (k : String) (m : Dict V) → lookup k m ≡ none → IsFresh k m
  unfolding lookup
  IsFresh-of_lookup k [] h = tt
  IsFresh-of_lookup k ((j, w) ∷ m) h = ground (arith, eq_iff j k, IsFresh-of_lookup k m)

  pub IsFresh-insert :
      (j k : String) (v : V) (m : Dict V) → k ≢ j → IsFresh j m → IsFresh j (insert k v m)
  unfolding insert
  IsFresh-insert j k v [] h f = (h, tt)
  IsFresh-insert j k v ((i, w) ∷ m) h (n, f) = ground (arith, IsFresh-insert j k v m h f)

  pub IsFresh-remove : (j k : String) (m : Dict V) → IsFresh j m → IsFresh j (remove k m)
  unfolding remove
  IsFresh-remove j k [] f = tt
  IsFresh-remove j k ((i, w) ∷ m) (n, f) = ground (arith, IsFresh-remove j k m f)

  pub insert-HasDistinctKeys :
      (k : String) (v : V) (m : Dict V) → HasDistinctKeys m → HasDistinctKeys (insert k v m)
  unfolding insert
  insert-HasDistinctKeys k v [] d = (tt, tt)
  insert-HasDistinctKeys k v ((i, w) ∷ m) (f, d) =
      ground (arith, eq_iff i k, insert-HasDistinctKeys k v m d, IsFresh-insert i k v m)

  pub remove-HasDistinctKeys :
      (k : String) (m : Dict V) → HasDistinctKeys m → HasDistinctKeys (remove k m)
  unfolding remove
  remove-HasDistinctKeys k [] d = tt
  remove-HasDistinctKeys k ((i, w) ∷ m) (f, d) =
      ground (arith, remove-HasDistinctKeys k m d, IsFresh-remove i k m f)

  pub remove_of_IsFresh : (k : String) (m : Dict V) → IsFresh k m → remove k m ≡ m
  unfolding remove
  remove_of_IsFresh k [] f = refl
  remove_of_IsFresh k ((i, w) ∷ m) (n, f) = ground (arith, eq_iff i k, remove_of_IsFresh k m f)

  pub length-remove :
      (k : String) (m : Dict V) (v : V)
      → HasDistinctKeys m
      → lookup k m ≡ some v
      → length (remove k m) + 1 ≡ length m
  unfolding lookup remove
  length-remove k [] v d h = cc
  length-remove k ((i, w) ∷ m) v (f, d) h = elim (eq_cases i k) [
    | inl same ↦ ground (
      arith,
      eq_iff i k,
      ap (λ (l : Dict V). length l) (remove_of_IsFresh k m (subst (λ j. IsFresh j m) same f)),
    )
    | inr other ↦ ground (arith, eq_iff i k, length-remove k m v d)
  ]

  pub lookup-filter :
      (p : String × V → Bool) (k : String) (m : Dict V)
      → HasDistinctKeys m
      → lookup k (filter p m)
        ≡ elim (lookup k m) [ none ↦ none | some v ↦ if p (k, v) then some v else none ]
  unfolding lookup filter
  lookup-filter p k [] d = refl
  lookup-filter p k ((j, e) ∷ m) (f, d) =
      ground (arith, eq_iff j k, lookup-filter p k m d, lookup_of_IsFresh j m f)

  pub IsFresh-filter :
      (p : String × V → Bool) (k : String) (m : Dict V) → IsFresh k m → IsFresh k (filter p m)
  unfolding filter
  IsFresh-filter p k [] f = tt
  IsFresh-filter p k (e ∷ m) (n, f) = ground (arith, IsFresh-filter p k m f)

  pub filter-HasDistinctKeys :
      (p : String × V → Bool) (m : Dict V) → HasDistinctKeys m → HasDistinctKeys (filter p m)
  unfolding filter
  filter-HasDistinctKeys p [] d = tt
  filter-HasDistinctKeys p ((k, v) ∷ m) (f, d) =
      ground (arith, filter-HasDistinctKeys p m d, IsFresh-filter p k m f)
