-- ===== src/Base/Sort.antt =====
-- A stable sort, as `Array.prototype.sort` is.
use mathlib.Core.Path.{◌≡◌, refl}
use mathlib.Core.Bool.{Bool, true, false}
use mathlib.Core.List.{List, [], ◌∷◌}
use native.Mathlib.Omega.{arith}
use kithkit.Base.Lists.{filter, All}

module _ {ℓ} {A : Type ℓ} (le : A → A → Bool) where
  unfoldable pub insert : A → List A → List A
  insert x [] = x ∷ []
  insert x (y ∷ ys) = elim (le x y) [ true ↦ x ∷ y ∷ ys | false ↦ y ∷ insert x ys ]

  unfoldable pub sort : List A → List A
  unfolding insert
  sort [] = []
  sort (x ∷ xs) = insert x (sort xs)

  abbrev pub Sorted : List A → Type 0
  Sorted [] = Unit
  Sorted (x ∷ xs) = All (λ y. le x y ≡ true) xs × Sorted xs

  module _ (trans : (x y z : A) → le x y ≡ true → le y z ≡ true → le x z ≡ true)
      (total : (x y : A) → le x y ≡ false → le y x ≡ true) where
    All-trans :
        (x y : A) (l : List A)
        → le x y ≡ true
        → All (λ z. le y z ≡ true) l
        → All (λ z. le x z ≡ true) l
    All-trans x y [] e h = tt
    All-trans x y (z ∷ l) e h = (trans x y z e h.0, All-trans x y l e h.1)

    All-insert :
        (x y : A) (l : List A)
        → le y x ≡ true
        → All (λ z. le y z ≡ true) l
        → All (λ z. le y z ≡ true) (insert x l)
    unfolding insert
    All-insert x y [] e h = (e, tt)
    All-insert x y (z ∷ l) e h = ground (arith, e, h, All-insert x y l e h.1)

    insert-Sorted : (x : A) (l : List A) → Sorted l → Sorted (insert x l)
    unfolding insert
    insert-Sorted x [] h = (tt, tt)
    insert-Sorted x (y ∷ l) h =
        ground (arith, h, insert-Sorted x l h.1, total x y, All-trans x y l, All-insert x y l)

    pub sort-Sorted : (l : List A) → Sorted (sort l)
    unfolding sort
    sort-Sorted [] = tt
    sort-Sorted (x ∷ l) = insert-Sorted x (sort l) (sort-Sorted l)

    module _ (p : A → Bool) where
      -- What is below everything goes to the front.
      insert-least :
          (x : A) (l : List A) → All (λ z. le x z ≡ true) l → insert x (filter p l) ≡ x ∷ filter p l
      unfolding insert
      insert-least x [] h = refl
      insert-least x (y ∷ l) h = ground (arith, h, insert-least x l h.1)

      filter-insert :
          (x : A) (l : List A)
          → Sorted l
          → filter p (insert x l) ≡ elim (p x) [ true ↦ insert x (filter p l) | false ↦ filter p l ]
      unfolding insert
      filter-insert x [] h = ground arith
      filter-insert x (y ∷ l) h =
          ground (arith, h, filter-insert x l h.1, insert-least x l, All-trans x y l)

      pub filter-sort : (l : List A) → filter p (sort l) ≡ sort (filter p l)
      unfolding sort
      filter-sort [] = refl
      filter-sort (x ∷ l) = ground (arith, filter-sort l, filter-insert x (sort l) (sort-Sorted l))
