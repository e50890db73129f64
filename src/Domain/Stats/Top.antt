-- ===== src/Domain/Stats/Top.antt =====
-- `get_top`: the links with the most hits, in order.
use mathlib.Core.List.{Perm}
use otus_rusthomework_http_a.Common.{
  ℕ, zero, suc, String, ◌≡◌, refl, Bool, true, List, [], ◌∷◌, ◌++◌, arith, length, take, drop, All,
  min, length-take, take-append-drop, subst, sym, ap, ◌∙◌, All-take, All-drop,
}
use otus_rusthomework_http_a.Common.Sorting.{
  sort_by, IsSorted, IsTotalOrder, sort_by-IsSorted, sort_by-perm, length-sort_by,
}
use otus_rusthomework_http_a.Domain.Stats.{StatsStorage, more_hits, totals, get_top}

more_hits-IsTotalOrder : IsTotalOrder more_hits
more_hits-IsTotalOrder = record { total = λ x y h. ground arith; trans = λ x y z h k. ground arith }

-- What the truncation leaves out, in order.
abbrev pub below_top : StatsStorage → ℕ → List (String × ℕ)
below_top map limit = drop limit (sort_by more_hits (totals map))

length-totals : (map : StatsStorage) → length (totals map) ≡ length map
unfolding totals
length-totals [] = refl
length-totals (e ∷ map) = ap suc (length-totals map)

module _ {ℓ} {A : Type ℓ} (le : A → A → Bool) where
  IsSorted-take : (n : ℕ) (xs : List A) → IsSorted le xs → IsSorted le (take n xs)
  IsSorted-take zero xs h = tt
  IsSorted-take (suc n) [] h = tt
  IsSorted-take (suc n) (x ∷ xs) (p, h) =
      (All-take (λ y. le x y ≡ true) n xs p, IsSorted-take n xs h)

  All-IsSorted-drop :
      (n : ℕ) (xs : List A)
      → IsSorted le xs
      → All (λ kept. All (λ out. le kept out ≡ true) (drop n xs)) (take n xs)
  All-IsSorted-drop zero xs h = tt
  All-IsSorted-drop (suc n) [] h = tt
  All-IsSorted-drop (suc n) (x ∷ xs) (p, h) =
      (All-drop (λ y. le x y ≡ true) n xs p, All-IsSorted-drop n xs h)

-- The top of the storage is the first `limit` of its links by falling totals, all of them if there
-- are no more; it and the links left out are together exactly the links of the storage with their
-- totals, and no link left out has more hits than one that is kept.
pub get_top_lem :
    (map : StatsStorage) (limit : ℕ)
    → IsSorted more_hits (get_top map limit)
      × Perm (get_top map limit ++ below_top map limit) (totals map)
      × All
          (λ kept. All (λ out. more_hits kept out ≡ true) (below_top map limit))
          (get_top map limit)
      × (length (get_top map limit) ≡ min limit (length map))
unfolding get_top
get_top_lem map limit =
    let sorted = sort_by-IsSorted more_hits-IsTotalOrder (totals map) in
    (
      IsSorted-take more_hits limit _ sorted,
      subst (λ l. Perm l (totals map)) (sym (take-append-drop limit _))
          (sort_by-perm more_hits (totals map)),
      All-IsSorted-drop more_hits limit _ sorted,
      length-take limit _
          ∙ ap (min limit) (length-sort_by more_hits (totals map) ∙ length-totals map),
    )
