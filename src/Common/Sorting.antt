-- ===== src/Common/Sorting.antt =====
-- `Array.prototype.sort` with a comparator: a stable sort. `before a b` is `compare(a, b) <= 0`.
use Prim.Native.Nat.{suc}
use mathlib.Core.Path.{◌≡◌, refl}
use mathlib.Core.Logic.{◌⊎◌, inl, inr, ◌↔◌}
use mathlib.Core.Bool.{Bool, true, false}
use mathlib.Core.List.{List, [], ◌∷◌}
use native.Mathlib.Omega.{arith}
use edu_gear_back_end.Common.Tests.{if◌then◌else◌, Bool-cases}
use edu_gear_back_end.Common.Lists.{Has, All, count, length}

module _ {A : Type 0} (before : A → A → Bool) where
  unfoldable pub insert : A → List A → List A
  insert x [] = x ∷ []
  insert x (y ∷ ys) = if before x y then x ∷ y ∷ ys else y ∷ insert x ys

  unfoldable pub sort : List A → List A
  sort [] = []
  sort (x ∷ xs) = insert x (sort xs)

  -- Each element stands before all that follow it.
  abbrev pub IsSorted : List A → Type 0
  IsSorted [] = Unit
  IsSorted (x ∷ xs) = All (λ y. before x y ≡ true) xs × IsSorted xs

  pub Has-insert : (x y : A) (ys : List A) → Has x (insert y ys) ↔ ((x ≡ y) ⊎ Has x ys)
  unfolding insert
  Has-insert x y [] = ground arith
  Has-insert x y (z ∷ ys) = ground (arith, Has-insert x y ys)

  pub Has-sort : (x : A) (xs : List A) → Has x (sort xs) ↔ Has x xs
  unfolding sort
  Has-sort x [] = ground arith
  Has-sort x (y ∷ xs) = ground (arith, Has-insert x y (sort xs), Has-sort x xs)

  pub length-insert : (x : A) (xs : List A) → length (insert x xs) ≡ suc (length xs)
  unfolding insert
  length-insert x [] = refl
  length-insert x (y ∷ ys) = ground (arith, length-insert x ys)

  pub count-insert : (p : A → Bool) (x : A) (xs : List A) → count p (insert x xs) ≡ count p (x ∷ xs)
  unfolding insert
  count-insert p x [] = refl
  count-insert p x (y ∷ ys) = ground (arith, count-insert p x ys)

  -- Sorting permutes: every test holds as often as before.
  pub count-sort : (p : A → Bool) (xs : List A) → count p (sort xs) ≡ count p xs
  unfolding sort
  count-sort p [] = refl
  count-sort p (x ∷ xs) = ground (arith, count-insert p x (sort xs), count-sort p xs)

  module _ (total : (x y : A) → before x y ≡ false → before y x ≡ true)
      (trans : (x y z : A) → before x y ≡ true → before y z ≡ true → before x z ≡ true) where
    All-insert :
        (z x : A) (ys : List A)
        → before z x ≡ true
        → All (λ y. before z y ≡ true) ys
        → All (λ y. before z y ≡ true) (insert x ys)
    unfolding insert
    All-insert z x [] h k = (h, tt)
    All-insert z x (y ∷ ys) h (hy, k) = ground (arith, All-insert z x ys h k)

    All-weaken :
        (x y : A) (ys : List A)
        → before x y ≡ true
        → All (λ z. before y z ≡ true) ys
        → All (λ z. before x z ≡ true) ys
    All-weaken x y [] h k = tt
    All-weaken x y (z ∷ ys) h (hz, k) = (trans x y z h hz, All-weaken x y ys h k)

    pub insert-IsSorted : (x : A) (ys : List A) → IsSorted ys → IsSorted (insert x ys)
    unfolding insert
    insert-IsSorted x [] s = (tt, tt)
    insert-IsSorted x (y ∷ ys) (low, s) = elim (Bool-cases (before x y)) [
      | inl le ↦ rw le ((le, All-weaken x y ys le low), (low, s))
      | inr gt ↦ rw gt (All-insert y x ys (total x y gt) low, insert-IsSorted x ys s)
    ]

    pub sort-IsSorted : (xs : List A) → IsSorted (sort xs)
    unfolding sort
    sort-IsSorted [] = tt
    sort-IsSorted (x ∷ xs) = insert-IsSorted x (sort xs) (sort-IsSorted xs)
