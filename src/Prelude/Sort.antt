-- ===== src/Prelude/Sort.antt =====
-- Python's `list.sort`: stable, by a key's order.
use native.Mathlib.Omega.{arith}
use mathlib.Core.Path.{◌≡◌, refl, ◌∙◌}
use mathlib.Core.Bool.{Bool, true, false}
use mathlib.Core.List.{List, [], ◌∷◌}
use mathlib.Core.Logic.{inl, inr}
use rider_crawl_baemin.Prelude.Tests.{if◌then◌else◌, Bool-cases}
use rider_crawl_baemin.Prelude.Lists.{All, All-map, keep}

module _ {ℓ} {A : Type ℓ} (le : A → A → Bool) where
  -- in front of the first item that is not smaller, so equal items keep their order
  unfoldable pub insert_sorted : A → List A → List A
  insert_sorted x [] = x ∷ []
  insert_sorted x (y ∷ ys) = if le x y then x ∷ y ∷ ys else y ∷ insert_sorted x ys

  unfoldable pub sort : List A → List A
  sort [] = []
  sort (x ∷ xs) = insert_sorted x (sort xs)

module _ {ℓ κ} {A : Type ℓ} (P : A → Type κ) (le : A → A → Bool) where
  All-insert_sorted : (x : A) (xs : List A) → P x → All P xs → All P (insert_sorted le x xs)
  unfolding insert_sorted
  All-insert_sorted x [] h a = (h, tt)
  All-insert_sorted x (y ∷ ys) h a = elim (Bool-cases (le x y)) [
    | inl e ↦ rw e (h, a)
    | inr e ↦ rw e (a.0, All-insert_sorted x ys h a.1)
  ]

  pub All-sort : (xs : List A) → All P xs → All P (sort le xs)
  unfolding sort
  All-sort [] a = tt
  All-sort (x ∷ xs) a = All-insert_sorted x (sort le xs) a.0 (All-sort xs a.1)

module _ {ℓ} {A : Type ℓ} (le : A → A → Bool) where
  -- Each item is in order with all after it.
  abbrev pub IsSorted : List A → Type 0
  IsSorted [] = Unit
  IsSorted (x ∷ xs) = All (λ y. le x y ≡ true) xs × IsSorted xs

  module _ (total : (x y : A) → le x y ≡ false → le y x ≡ true)
      (trans : (x y z : A) → le x y ≡ true → le y z ≡ true → le x z ≡ true) where
    insert_sorted-IsSorted : (x : A) (xs : List A) → IsSorted xs → IsSorted (insert_sorted le x xs)
    unfolding insert_sorted
    insert_sorted-IsSorted x [] h = (tt, tt)
    insert_sorted-IsSorted x (y ∷ ys) h = elim (Bool-cases (le x y)) [
      | inl e ↦ rw e ((e, All-map _ _ (λ z. trans x y z e) ys h.0), h)
      | inr e ↦ rw e (
        All-insert_sorted (λ z. le y z ≡ true) le x ys (total x y e) h.0,
        insert_sorted-IsSorted x ys h.1,
      )
    ]

    pub sort-IsSorted : (xs : List A) → IsSorted (sort le xs)
    unfolding sort
    sort-IsSorted [] = tt
    sort-IsSorted (x ∷ xs) = insert_sorted-IsSorted x (sort le xs) (sort-IsSorted xs)

  -- Sorting keeps the items of a class in their order, where any two of the class are in order.
  module _ (p : A → Bool) (class : (x y : A) → p x ≡ true → p y ≡ true → le x y ≡ true) where
    keep-insert_sorted : (x : A) (xs : List A) → keep p (insert_sorted le x xs) ≡ keep p (x ∷ xs)
    unfolding insert_sorted keep
    keep-insert_sorted x [] = refl
    keep-insert_sorted x (y ∷ ys) = ground (arith, class x y, keep-insert_sorted x ys)

    pub keep-sort : (xs : List A) → keep p (sort le xs) ≡ keep p xs
    unfolding sort keep
    keep-sort [] = refl
    keep-sort (x ∷ xs) = keep-insert_sorted x (sort le xs) ∙ ground (arith, keep-sort xs)
