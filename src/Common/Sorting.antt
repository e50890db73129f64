-- ===== src/Common/Sorting.antt =====
-- `slice::sort_by`: the stable sort by a comparator, as an insertion sort. `le a b` is the
-- comparator's answer `a` before or equal to `b`.
use mathlib.Core.List.{Perm}
use mathlib.Core.List.Perm
use otus_rusthomework_http_a.Common.{
  suc, arith, refl, length, ap, ◌∙◌, ◌≡◌, inl, inr, Bool, true, false, List, [], ◌∷◌, if◌then◌else◌,
  All, Bool-cases,
}

module _ {ℓ} {A : Type ℓ} (le : A → A → Bool) where
  unfoldable pub insert_by : A → List A → List A
  insert_by x [] = x ∷ []
  insert_by x (y ∷ ys) = let later = insert_by x ys in if le x y then x ∷ y ∷ ys else y ∷ later

  unfoldable pub sort_by : List A → List A
  unfolding insert_by
  sort_by [] = []
  sort_by (x ∷ xs) = insert_by x (sort_by xs)

  abbrev pub IsSorted : List A → Type 0
  IsSorted [] = Unit
  IsSorted (x ∷ xs) = All (λ y. le x y ≡ true) xs × IsSorted xs

module _ {ℓ κ} {A : Type ℓ} (le : A → A → Bool) (P : A → Type κ) where
  pub All-insert_by : (x : A) (ys : List A) → P x → All P ys → All P (insert_by le x ys)
  unfolding insert_by
  All-insert_by x [] p h = (p, tt)
  All-insert_by x (y ∷ ys) p (q, h) = elim (Bool-cases (le x y)) [
    | inl before ↦ rw before (p, (q, h))
    | inr after ↦ rw after (q, All-insert_by x ys p h)
  ]

  pub All-sort_by : (xs : List A) → All P xs → All P (sort_by le xs)
  unfolding sort_by
  All-sort_by [] h = tt
  All-sort_by (x ∷ xs) (p, h) = All-insert_by x (sort_by le xs) p (All-sort_by xs h)

module _ {ℓ} {A : Type ℓ} (le : A → A → Bool) where
  pub insert_by-perm : (x : A) (ys : List A) → Perm (insert_by le x ys) (x ∷ ys)
  unfolding insert_by
  insert_by-perm x [] = Perm.refl (x ∷ [])
  insert_by-perm x (y ∷ ys) = elim (Bool-cases (le x y)) [
    | inl before ↦ rw before (Perm.refl _)
    | inr after ↦ rw after (Perm.trans (Perm.cons y (insert_by-perm x ys)) (Perm.swap x y ys))
  ]

  -- Sorting neither loses nor invents an element.
  pub sort_by-perm : (xs : List A) → Perm (sort_by le xs) xs
  unfolding sort_by
  sort_by-perm [] = Perm.refl []
  sort_by-perm (x ∷ xs) =
      Perm.trans (insert_by-perm x (sort_by le xs)) (Perm.cons x (sort_by-perm xs))

  length-insert_by : (x : A) (ys : List A) → length (insert_by le x ys) ≡ suc (length ys)
  unfolding insert_by
  length-insert_by x [] = refl
  length-insert_by x (y ∷ ys) = ground (arith, length-insert_by x ys)

  pub length-sort_by : (xs : List A) → length (sort_by le xs) ≡ length xs
  unfolding sort_by
  length-sort_by [] = refl
  length-sort_by (x ∷ xs) = length-insert_by x (sort_by le xs) ∙ ap suc (length-sort_by xs)

-- What a comparator promises.
pub record IsTotalOrder {ℓ} {A : Type ℓ} (le : A → A → Bool) : Type ℓ where
  pub total : (x y : A) → le x y ≡ false → le y x ≡ true
  pub trans : (x y z : A) → le x y ≡ true → le y z ≡ true → le x z ≡ true

module _ {ℓ} {A : Type ℓ} {le : A → A → Bool} (o : IsTotalOrder le) where
  All-le_trans :
      (x y : A) (ys : List A)
      → le x y ≡ true
      → All (λ z. le y z ≡ true) ys
      → All (λ z. le x z ≡ true) ys
  All-le_trans x y [] p h = tt
  All-le_trans x y (z ∷ ys) p (q, h) = (o.trans x y z p q, All-le_trans x y ys p h)

  pub insert_by-IsSorted : (x : A) (ys : List A) → IsSorted le ys → IsSorted le (insert_by le x ys)
  unfolding insert_by
  insert_by-IsSorted x [] h = (tt, tt)
  insert_by-IsSorted x (y ∷ ys) (p, h) = elim (Bool-cases (le x y)) [
    | inl before ↦ rw before ((before, All-le_trans x y ys before p), (p, h))
    | inr after ↦ rw after (
      All-insert_by le (λ z. le y z ≡ true) x ys (o.total x y after) p,
      insert_by-IsSorted x ys h,
    )
  ]

  pub sort_by-IsSorted : (xs : List A) → IsSorted le (sort_by le xs)
  unfolding sort_by
  sort_by-IsSorted [] = tt
  sort_by-IsSorted (x ∷ xs) = insert_by-IsSorted x (sort_by le xs) (sort_by-IsSorted xs)

-- Each element is unlike every later one.
abbrev pub Pairwise {ℓ κ} : {A : Type ℓ} → (A → A → Type κ) → List A → Type κ
Pairwise R [] = Unit
Pairwise R (x ∷ xs) = All (R x) xs × Pairwise R xs

module _ {ℓ κ} {A : Type ℓ} (le : A → A → Bool) (R : A → A → Type κ) where
  module _ (R_symm : (x y : A) → R x y → R y x) where
    insert_by-Pairwise :
        (x : A) (ys : List A) → All (R x) ys → Pairwise R ys → Pairwise R (insert_by le x ys)
    unfolding insert_by
    insert_by-Pairwise x [] h p = (tt, tt)
    insert_by-Pairwise x (y ∷ ys) (r, h) (q, p) = elim (Bool-cases (le x y)) [
      | inl before ↦ rw before ((r, h), (q, p))
      | inr after ↦
          rw after (All-insert_by le (R y) x ys (R_symm x y r) q, insert_by-Pairwise x ys h p)
    ]

    -- A symmetric relation between all pairs of a list holds between all pairs of the sorted list.
    pub sort_by-Pairwise : (xs : List A) → Pairwise R xs → Pairwise R (sort_by le xs)
    unfolding sort_by
    sort_by-Pairwise [] p = tt
    sort_by-Pairwise (x ∷ xs) (h, p) =
        insert_by-Pairwise x (sort_by le xs) (All-sort_by le (R x) xs h) (sort_by-Pairwise xs p)
