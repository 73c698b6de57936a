-- ===== src/Academics/Counting.antt =====
-- Counting the rows that a change of the calendar leaves (src/academics).
use edu_gear_back_end.Common.{
  ◌==◌, if◌then◌else◌, ==_iff, Bool-cases, same, count, ℕ, ◌≤◌, ◌≡◌, refl, sym, ap, ◌∙◌, inl, inr,
  Bool, true, false, List, ◌∷◌, map, arith,
}
use edu_gear_back_end.Common.Members.{count-map, count-map_same, count-le}
use edu_gear_back_end.Academics.Periods.{when}

-- Rows that are changed, counted by a test that the change allows under another.
pub count-changed :
    {A : Type 0} (p q : A → Bool) (f : A → A) (xs : List A)
    → ((x : A) → p (f x) ≡ true → q x ≡ true)
    → count p (map f xs) ≤ count q xs
count-changed p q f xs allows = omega (arith, count-map f p xs, count-le (λ x. p (f x)) q allows xs)

pub count-if :
    {A : Type 0} (p test : A → Bool) (f : A → A)
    → ((x : A) → p (f x) ≡ p x)
    → (xs : List A) → count p (map (λ x. if test x then f x else x) xs) ≡ count p xs
count-if {A} p test f keeps xs =
    count-map_same p (λ x. if test x then f x else x) (λ x. by_test x (test x)) xs
  where
    by_test : (x : A) (b : Bool) → p (if b then f x else x) ≡ p x
    by_test x true = keeps x
    by_test x false = refl

-- A new row with a new id.
pub count-new :
    (id k : ℕ) {A : Type 0} (test : ℕ → A → Bool) (x : A) (xs : List A)
    → ((k : ℕ) → test k x ≡ (id == k))
    → count (test id) xs ≡ 0
    → ((k : ℕ) → count (test k) xs ≤ 1)
    → count (test k) (x ∷ xs) ≤ 1
count-new id k test x xs named fresh unique = elim (Bool-cases (id == k)) [
  | inl same ↦
      let it : id ≡ k = (==_iff id k).0 same in
      let zero_k = ap (λ n. count (test n) xs) (sym it) ∙ fresh in
      rw (named k, same) (omega (arith, zero_k))
  | inr other ↦ rw (named k, other) (unique k)
]

pub when-count :
    {A : Type 0} (current : Bool) (p : A → Bool) (f : A → A) (xs : List A)
    → ((x : A) → p (f x) ≡ true → p x ≡ true)
    → count p (when current (map f) xs) ≤ count p xs
when-count true p f xs allows = count-changed p p f xs allows
when-count false p f xs allows = omega arith

-- The marker is moved to the rows with an id.
pub moved :
    {A : Type 0} (marked named : A → Bool) (set clear : A → A) (xs : List A)
    → ((x : A) → named (clear x) ≡ named x)
    → ((x : A) → marked (clear x) ≡ false)
    → count marked (map (λ x. if named x then set x else x) (map clear xs)) ≤ count named xs
moved {A} marked named set clear xs kept off = omega (
  arith,
  count-map (λ x. if named x then set x else x) marked (map clear xs),
  count-map clear (λ x. marked (if named x then set x else x)) xs,
  count-le (λ x. marked (if named (clear x) then set (clear x) else clear x)) named allows xs,
)
  where
    allows :
        (x : A)
        → marked (if named (clear x) then set (clear x) else clear x) ≡ true
        → named x ≡ true
    allows x e = elim (Bool-cases (named x)) [
      | inl hit ↦ hit
      | inr other ↦ absurd (cc (off x, rw (kept x ∙ other) at e))
    ]
