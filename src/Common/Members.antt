-- ===== src/Common/Members.antt =====
-- Membership and counting through `map` and `filter`.
use edu_gear_back_end.Common.{
  Bool-cases, same, filter, find, count, Has, ◌≤◌, ◌<◌, ◌≡◌, refl, sym, ap, ◌∙◌, ◌↔◌, inl, inr,
  Bool, true, false, ◌&&◌, some, List, [], ◌∷◌, map, arith,
}

module _ {A B : Type 0} (f : A → B) where
  pub count-map : (p : B → Bool) (xs : List A) → count p (map f xs) ≡ count (λ x. p (f x)) xs
  count-map p [] = refl
  count-map p (x ∷ xs) = rw (count-map p xs)

  pub Has-map : (xs : List A) (x : A) → Has x xs → Has (f x) (map f xs)
  Has-map [] x h = elim h [ ]
  Has-map (y ∷ ys) x (inl e) = inl (ap f e)
  Has-map (y ∷ ys) x (inr h) = inr (Has-map ys x h)

  pub Has-of-map : (xs : List A) (z : B) → Has z (map f xs) → (x : A) × Has x xs × (z ≡ f x)
  Has-of-map [] z h = elim h [ ]
  Has-of-map (y ∷ ys) z (inl e) = (y, inl refl, e)
  Has-of-map (y ∷ ys) z (inr h) = let (x, k, e) = Has-of-map ys z h in (x, inr k, e)

module _ {A : Type 0} (p : A → Bool) where
  pub count-filter :
      (q : A → Bool) (xs : List A) → count q (filter p xs) ≡ count (λ x. p x && q x) xs
  count-filter q [] = refl
  count-filter q (x ∷ xs) = elim (Bool-cases (p x)) [
    | inl h ↦ rw h (rw (count-filter q xs))
    | inr h ↦ rw h (count-filter q xs)
  ]

  pub Has-filter : (xs : List A) (x : A) → Has x (filter p xs) ↔ (Has x xs × (p x ≡ true))
  Has-filter [] x = ground arith
  Has-filter (y ∷ ys) x = ground (arith, Has-filter ys x, ap {A = A} {B = Bool} p {x = x} {y = y})

module _ {A : Type 0} (p : A → Bool) (f : A → A) (same : (x : A) → p (f x) ≡ p x) where
  -- A change that the test does not see is made to what is found.
  pub find-map : (xs : List A) {x : A} → find p xs ≡ some x → find p (map f xs) ≡ some (f x)
  find-map [] e = cc
  find-map (y ∷ ys) e = elim (Bool-cases (p y)) [
    | inl hit ↦ rw (same y, hit) (cc (rw hit at e))
    | inr miss ↦ rw (same y, miss) (find-map ys (rw miss at e))
  ]

  pub count-map_same : (xs : List A) → count p (map f xs) ≡ count p xs
  count-map_same [] = refl
  count-map_same (x ∷ xs) = rw (same x, count-map_same xs) refl

module _ {A : Type 0} (p : A → Bool) (f : A → A)
    (falls : (x : A) → p (f x) ≡ true → p x ≡ true) where
  pub count-map-le : (xs : List A) → count p (map f xs) ≤ count p xs
  count-map-le [] = omega arith
  count-map-le (x ∷ xs) = ground (arith, falls x, count-map-le xs)

  -- An element that the change takes out of the count makes it smaller.
  pub count-map-lt :
      (xs : List A) (x : A)
      → Has x xs
      → p x ≡ true
      → p (f x) ≡ false
      → count p (map f xs) < count p xs
  count-map-lt [] x h e n = elim h [ ]
  count-map-lt (y ∷ ys) x (inl same) e n =
      let e' : p y ≡ true = ap p (sym same) ∙ e in
      let n' : p (f y) ≡ false = ap (λ z. p (f z)) (sym same) ∙ n in
      rw (e', n') (omega (arith, count-map-le ys))
  count-map-lt (y ∷ ys) x (inr h) e n = ground (arith, falls y, count-map-lt ys x h e n)

module _ {A : Type 0} (p : A → Bool) where
  pub find-Has : (xs : List A) {x : A} → find p xs ≡ some x → Has x xs × (p x ≡ true)
  find-Has [] e = cc
  find-Has (y ∷ ys) {x} e = elim (Bool-cases (p y)) [
    | inl hit ↦ let it : y ≡ x = cc (rw hit at e) in (inl (sym it), ap p (sym it) ∙ hit)
    | inr miss ↦ let (h, k) = find-Has ys (rw miss at e) in (inr h, k)
  ]

module _ {A : Type 0} (p q : A → Bool) (weaker : (x : A) → p x ≡ true → q x ≡ true) where
  pub count-le : (xs : List A) → count p xs ≤ count q xs
  count-le [] = omega arith
  count-le (x ∷ xs) = ground (arith, weaker x, count-le xs)
