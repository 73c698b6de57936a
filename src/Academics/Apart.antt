-- ===== src/Academics/Apart.antt =====
-- Sessions that share no day, through the changes of rows that
-- src/academics/academic-sessions.service.ts makes.
use mathlib.Core.Path.{subst}
use edu_gear_back_end.Common.{
  leb, ◌==◌, if◌then◌else◌, ==_refl, Bool-cases, filter, any, count, Has, All, ℕ, ◌≤◌, ◌≡◌, refl,
  sym, ap, ◌∙◌, inl, inr, Bool, true, false, ◌&&◌, List, [], ◌∷◌, map, arith,
}
use edu_gear_back_end.Academics.Periods.{DateRange, ranges_overlap, AcademicSession, is_session}

abbrev pub clash : AcademicSession → AcademicSession → Bool
clash x y = ranges_overlap x.range y.range

-- No two of the sessions share a day.
abbrev pub IsApart : List AcademicSession → Type 0
IsApart [] = Unit
IsApart (x ∷ xs) = All (λ y. clash x y ≡ false) xs × IsApart xs

overlap_comm : (a b : DateRange) → ranges_overlap a b ≡ ranges_overlap b a
overlap_comm a b = by_tests (leb a.start_date b.end_date) (leb b.start_date a.end_date)
  where
    by_tests : (p q : Bool) → (p && q) ≡ (q && p)
    by_tests true true = refl
    by_tests true false = refl
    by_tests false true = refl
    by_tests false false = refl

pub any-eq-false :
    {A : Type 0} (p : A → Bool) (xs : List A) → any p xs ≡ false → (x : A) → Has x xs → p x ≡ false
any-eq-false p [] e x h = elim h [ ]
any-eq-false p (y ∷ ys) e x (inl same_row) = ap p same_row ∙ ground arith
any-eq-false p (y ∷ ys) e x (inr h) = any-eq-false p ys (ground arith) x h

All-of-Has :
    (xs : List AcademicSession) (x : AcademicSession)
    → ((y : AcademicSession) → Has y xs → clash x y ≡ false)
    → All (λ y. clash x y ≡ false) xs
All-of-Has [] x h = tt
All-of-Has (y ∷ ys) x h = (h y (inl refl), All-of-Has ys x (λ z k. h z (inr k)))

All-Has :
    (xs : List AcademicSession) (x y : AcademicSession)
    → All (λ y. clash x y ≡ false) xs
    → Has y xs
    → clash x y ≡ false
All-Has [] x y hs h = elim h [ ]
All-Has (z ∷ zs) x y (h, hs) (inl same_row) = ap (clash x) same_row ∙ h
All-Has (z ∷ zs) x y (h, hs) (inr k) = All-Has zs x y hs k

-- A new session that overlaps none.
pub insert-IsApart :
    (xs : List AcademicSession) (x : AcademicSession)
    → ((y : AcademicSession) → Has y xs → ranges_overlap y.range x.range ≡ false)
    → IsApart xs
    → IsApart (x ∷ xs)
insert-IsApart xs x free apart =
    (All-of-Has xs x (λ y h. overlap_comm x.range y.range ∙ free y h), apart)

-- A change that keeps the dates.
module _ (f : AcademicSession → AcademicSession)
    (keeps : (x : AcademicSession) → (f x).range ≡ x.range) where
  All-map :
      (xs : List AcademicSession) (x : AcademicSession)
      → All (λ y. clash x y ≡ false) xs
      → All (λ y. clash (f x) y ≡ false) (map f xs)
  All-map [] x hs = tt
  All-map (y ∷ ys) x (h, hs) = (
    ap (λ r. ranges_overlap r (f y).range) (keeps x) ∙ ap (ranges_overlap x.range) (keeps y) ∙ h,
    All-map ys x hs,
  )

  pub map-IsApart : (xs : List AcademicSession) → IsApart xs → IsApart (map f xs)
  map-IsApart [] apart = tt
  map-IsApart (x ∷ xs) (h, apart) = (All-map xs x h, map-IsApart xs apart)

-- Some sessions of several.
pub filter-IsApart :
    (kept : AcademicSession → Bool) (xs : List AcademicSession)
    → IsApart xs
    → IsApart (filter kept xs)
filter-IsApart kept [] apart = tt
filter-IsApart kept (x ∷ xs) (h, apart) = elim (Bool-cases (kept x)) [
  | inl stays ↦ rw stays (fewer xs h, filter-IsApart kept xs apart)
  | inr goes ↦ rw goes (filter-IsApart kept xs apart)
]
  where
    fewer :
        (ys : List AcademicSession)
        → All (λ y. clash x y ≡ false) ys
        → All (λ y. clash x y ≡ false) (filter kept ys)
    fewer [] hs = tt
    fewer (y ∷ ys) (h, hs) = elim (Bool-cases (kept y)) [
      | inl stays ↦ rw stays (h, fewer ys hs)
      | inr goes ↦ rw goes (fewer ys hs)
    ]

-- Two sessions of the list with different ids.
pub IsApart-Has :
    (xs : List AcademicSession) (x y : AcademicSession)
    → IsApart xs
    → Has x xs
    → Has y xs
    → (x.id == y.id) ≡ false
    → clash x y ≡ false
IsApart-Has [] x y apart h k other = elim h [ ]
IsApart-Has (z ∷ zs) x y (h, apart) (inl here_x) (inl here_y) other = absurd (
    cc (
      ==_refl z.id,
      ap (λ (q : AcademicSession). q.id) here_x,
      ap (λ (q : AcademicSession). q.id) here_y,
      other,
    ))
IsApart-Has (z ∷ zs) x y (h, apart) (inl here_x) (inr in_y) other =
    ap (λ q. clash q y) here_x ∙ All-Has zs z y h in_y
IsApart-Has (z ∷ zs) x y (h, apart) (inr in_x) (inl here_y) other =
    overlap_comm x.range y.range ∙ ap (λ q. clash q x) here_y ∙ All-Has zs z x h in_x
IsApart-Has (z ∷ zs) x y (h, apart) (inr in_x) (inr in_y) other =
    IsApart-Has zs x y apart in_x in_y other

-- The session with an id is given other dates, which overlap no other session.
module _ (id : ℕ) (range : DateRange) (f : AcademicSession → AcademicSession)
    (dated : (x : AcademicSession) → (f x).range ≡ range) where
  abbrev changed : AcademicSession → AcademicSession
  changed x = if x.id == id then f x else x

  unchanged : (xs : List AcademicSession) → count (is_session id) xs ≡ 0 → map changed xs ≡ xs
  unchanged [] none_left = refl
  unchanged (x ∷ xs) none_left = elim (Bool-cases (x.id == id)) [
    | inl hit ↦ absurd (cc (rw hit at none_left))
    | inr miss ↦ rw miss (ap (λ ys. x ∷ ys) (unchanged xs (rw miss at none_left)))
  ]

  unnamed :
      (xs : List AcademicSession) (y : AcademicSession)
      → count (is_session id) xs ≡ 0
      → Has y xs
      → (y.id == id) ≡ false
  unnamed (x ∷ xs) y none_left h = elim (Bool-cases (x.id == id)) [
    | inl hit ↦ absurd (cc (rw hit at none_left))
    | inr miss ↦ elim h [
      | inl same_row ↦ ap (λ (q : AcademicSession). q.id == id) same_row ∙ miss
      | inr k ↦ unnamed xs y (rw miss at none_left) k
    ]
  ]
  unnamed [] y none_left h = elim h [ ]

  All-changed :
      (xs : List AcademicSession) (x : AcademicSession)
      → ranges_overlap x.range range ≡ false
      → All (λ y. clash x y ≡ false) xs
      → All (λ y. clash x y ≡ false) (map changed xs)
  All-changed [] x free hs = tt
  All-changed (y ∷ ys) x free (h, hs) = elim (Bool-cases (y.id == id)) [
    | inl hit ↦ rw hit (ap (ranges_overlap x.range) (dated y) ∙ free, All-changed ys x free hs)
    | inr miss ↦ rw miss (h, All-changed ys x free hs)
  ]

  pub changed-IsApart :
      (xs : List AcademicSession)
      → count (is_session id) xs ≤ 1
      → ((y : AcademicSession)
          → Has y xs
          → (y.id == id) ≡ false
          → ranges_overlap y.range range ≡ false)
      → IsApart xs
      → IsApart (map changed xs)
  changed-IsApart [] unique free apart = tt
  changed-IsApart (x ∷ xs) unique free (h, apart) = elim (Bool-cases (x.id == id)) [
    | inl hit ↦
        let rest : count (is_session id) xs ≡ 0 = omega (arith, rw hit at unique) in
        rw hit (
          subst (λ ys. IsApart (f x ∷ ys)) (sym (unchanged xs rest))
            (insert-IsApart xs (f x)
              (λ y k. ap (ranges_overlap y.range) (dated x) ∙ free y (inr k) (unnamed xs y rest k))
              apart))
    | inr miss ↦ rw miss (
      All-changed xs x (free x (inl refl) miss) h,
      changed-IsApart xs (rw miss at unique) (λ y k. free y (inr k)) apart,
    )
  ]
