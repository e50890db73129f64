-- ===== src/Storage/InMemory/Codes.antt =====
-- The codes of a map, in its order, under each change of the map.
use otus_rusthomework_http_a.Common.{
  String, ◌≡◌, refl, ap, ◌∙◌, Bool, not, Option, none, some, List, [], ◌∷◌, ◌++◌, map, filter,
  length, All, arith, str_eq, eq_iff, eq_refl,
}
use otus_rusthomework_http_a.Common.Dict.{Dict, lookup, insert, remove, IsFresh, HasDistinctKeys}

abbrev pub codes_of {ℓ} : {V : Type ℓ} → Dict V → List String
codes_of = map (λ e. e.0)

module _ {ℓ} {V : Type ℓ} where
  pub codes_of-insert_new :
      (k : String) (v : V) (m : Dict V)
      → lookup k m ≡ none
      → codes_of (insert k v m) ≡ codes_of m ++ k ∷ []
  unfolding insert lookup
  codes_of-insert_new k v [] h = refl
  codes_of-insert_new k v ((i, w) ∷ m) h = ground (arith, codes_of-insert_new k v m)

  pub codes_of-insert_old :
      (k : String) (v w : V) (m : Dict V)
      → lookup k m ≡ some w
      → codes_of (insert k v m) ≡ codes_of m
  unfolding insert lookup
  codes_of-insert_old k v w [] h = cc
  codes_of-insert_old k v w ((i, x) ∷ m) h = ground (arith, codes_of-insert_old k v w m)

  pub codes_of-remove :
      (k : String) (m : Dict V)
      → codes_of (remove k m) ≡ filter (λ j. not (str_eq j k)) (codes_of m)
  unfolding remove filter
  codes_of-remove k [] = refl
  codes_of-remove k ((i, w) ∷ m) = ground (arith, codes_of-remove k m)

  pub codes_of-filter :
      (p : String × V → Bool) (q : String → Bool) (m : Dict V)
      → All (λ e. q e.0 ≡ p e) m
      → codes_of (filter p m) ≡ filter q (codes_of m)
  unfolding filter
  codes_of-filter p q [] h = refl
  codes_of-filter p q (e ∷ m) (same, h) = ground (arith, codes_of-filter p q m h)

  pub length-codes_of : (m : Dict V) → length (codes_of m) ≡ length m
  length-codes_of [] = refl
  length-codes_of (e ∷ m) = omega (arith, length-codes_of m)

  found-cons :
      (k : String) (v : V) (all m : Dict V)
      → IsFresh k m
      → All (λ e. lookup e.0 all ≡ some e.1) m
      → All (λ e. lookup e.0 ((k, v) ∷ all) ≡ some e.1) m
  unfolding lookup
  found-cons k v all [] f h = tt
  found-cons k v all ((j, w) ∷ m) (n, f) (x, h) =
      (ground (arith, eq_iff k j), found-cons k v all m f h)

  -- Each entry of a map is what its key finds.
  pub entries-found : (m : Dict V) → HasDistinctKeys m → All (λ e. lookup e.0 m ≡ some e.1) m
  unfolding lookup
  entries-found [] d = tt
  entries-found ((k, v) ∷ m) (f, d) =
      (ground (arith, eq_refl k), found-cons k v m m f (entries-found m d))

  -- What holds of each entry that is found holds of all.
  pub of-found :
      (p : String × V → Bool) (q : Option V → Bool) (all m : Dict V)
      → ((e : String × V) → q (some e.1) ≡ p e)
      → All (λ e. lookup e.0 all ≡ some e.1) m
      → All (λ e. q (lookup e.0 all) ≡ p e) m
  of-found p q all [] h found = tt
  of-found p q all (e ∷ m) h (x, found) = (ap q x ∙ h e, of-found p q all m h found)
