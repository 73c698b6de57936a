-- ===== src/Academics/Days.antt =====
-- What it means, day by day, that the sessions of src/academics/academic-sessions.service.ts do not
-- overlap and that src/academics/date-range.ts has put their dates at midnight.
use edu_gear_back_end.Common.{
  leb, Bool-cases, count, Has, All, ℕ, ◌%◌, ◌≤◌, ◌≡◌, refl, ap, inl, inr, Bool, true, false, ◌&&◌,
  List, [], ◌∷◌, arith,
}
use edu_gear_back_end.Academics.Periods.{DateRange, day, to_date_only, AcademicSession}
use edu_gear_back_end.Academics.Apart.{clash, IsApart}
use edu_gear_back_end.Academics.Scheduling.{IsDated}

-- A session's dates include an instant.
abbrev pub runs_at : ℕ → AcademicSession → Bool
runs_at instant x = leb x.range.start_date instant && leb instant x.range.end_date

-- A session starts and ends at midnight.
abbrev pub IsWholeDays : AcademicSession → Type 0
IsWholeDays x = (x.range.start_date % day ≡ 0) × (x.range.end_date % day ≡ 0)

clash-runs_at :
    (instant : ℕ) (x y : AcademicSession)
    → runs_at instant x ≡ true
    → clash x y ≡ false
    → runs_at instant y ≡ false
clash-runs_at instant x y here_now apart = ground arith

none_other :
    (instant : ℕ) (x : AcademicSession) (ys : List AcademicSession)
    → runs_at instant x ≡ true
    → All (λ y. clash x y ≡ false) ys
    → count (runs_at instant) ys ≡ 0
none_other instant x [] here_now hs = refl
none_other instant x (y ∷ ys) here_now (h, hs) =
    rw (clash-runs_at instant x y here_now h) (none_other instant x ys here_now hs)

pub count-runs_at :
    (instant : ℕ) (xs : List AcademicSession) → IsApart xs → count (runs_at instant) xs ≤ 1
count-runs_at instant [] apart = omega arith
count-runs_at instant (x ∷ xs) (h, apart) = elim (Bool-cases (runs_at instant x)) [
  | inl hit ↦ rw hit (omega (arith, none_other instant x xs hit h))
  | inr miss ↦ rw miss (count-runs_at instant xs apart)
]

IsDated-IsWholeDays : (x : AcademicSession) → IsDated x → IsWholeDays x
IsDated-IsWholeDays x dated =
    let first : to_date_only x.range.start_date ≡ x.range.start_date =
      ap (λ (r : DateRange). r.start_date) dated in
    let last : to_date_only x.range.end_date ≡ x.range.end_date =
      ap (λ (r : DateRange). r.end_date) dated in
    (omega (arith, first), omega (arith, last))

pub All-IsWholeDays :
    (xs : List AcademicSession)
    → ((x : AcademicSession) → Has x xs → IsDated x)
    → All IsWholeDays xs
All-IsWholeDays [] dated = tt
All-IsWholeDays (x ∷ xs) dated =
    (IsDated-IsWholeDays x (dated x (inl refl)), All-IsWholeDays xs (λ y h. dated y (inr h)))
