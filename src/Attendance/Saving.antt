-- ===== src/Attendance/Saving.antt =====
-- `save` of src/attendance/attendance.service.ts: what the register holds after it.
use edu_gear_back_end.Common.{
  ltb, ◌==◌, if◌then◌else◌, ==_iff, ==_refl, Bool-cases, is_none, any, find, includes, bad_request,
  not_found, insufficient_permissions, ok, throw_if, >>=-eq-ok, throw_if-eq-ok, ℕ, ◌≡◌, refl, sym,
  ap, ◌∙◌, inl, inr, Bool, true, false, not, Option, none, some, List, [], ◌∷◌, map, arith,
}
use edu_gear_back_end.Results.Access.{find_arm}
use edu_gear_back_end.Academics.Periods.{to_date_only}
use edu_gear_back_end.Attendance.Register.{
  AttendanceStatus, AttendanceRecord, RegisterTaker, RegisterEntry, SaveRegisterDto, RegisterSchool,
  is_school_day, is_in_term, is_record, has_problems, set_record, upsert_record, record_of,
  upsert_all, may_take, membership_of, save,
}

-- The mark of a record that may be there.
abbrev pub mark_of : Option AttendanceRecord → Option AttendanceStatus
mark_of none = none
mark_of (some r) = some r.status

abbrev pub mark_on : ℕ → ℕ → List AttendanceRecord → Option AttendanceStatus
mark_on student date rows = mark_of (find (is_record student date) rows)

set_record-key :
    (k d : ℕ) (x r : AttendanceRecord) (b : Bool)
    → is_record k d (if b then set_record x r else r) ≡ is_record k d r
set_record-key k d x r true = refl
set_record-key k d x r false = refl

updated :
    (x : AttendanceRecord) (rows : List AttendanceRecord)
    → any (is_record x.student_id x.date) rows ≡ true
    → mark_on x.student_id x.date
        (map (λ r. if is_record x.student_id x.date r then set_record x r else r) rows)
      ≡ some x.status
updated x [] e = absurd (cc e)
updated x (r ∷ rows) e = elim (Bool-cases (is_record x.student_id x.date r)) [
  | inl hit ↦ rw (hit, hit) refl
  | inr miss ↦ rw (miss, miss) (updated x rows (rw miss at e))
]

-- The record that was written is the one that is found.
upserted :
    (x : AttendanceRecord) (rows : List AttendanceRecord)
    → mark_on x.student_id x.date (upsert_record x rows) ≡ some x.status
upserted x rows = elim (Bool-cases (any (is_record x.student_id x.date) rows)) [
  | inl there ↦ rw there (updated x rows there)
  | inr new ↦ rw (new, ==_refl x.student_id, ==_refl x.date) refl
]

kept :
    (k d : ℕ) (x : AttendanceRecord) (rows : List AttendanceRecord)
    → is_record k d x ≡ false
    → mark_on k d (map (λ r. if is_record x.student_id x.date r then set_record x r else r) rows)
      ≡ mark_on k d rows
kept k d x [] other = refl
kept k d x (r ∷ rows) other = elim (Bool-cases (is_record x.student_id x.date r)) [
  | inl hit ↦
      let miss : is_record k d r ≡ false = ground (arith, hit, other) in
      rw (hit, miss) (kept k d x rows other)
  | inr spared ↦ elim (Bool-cases (is_record k d r)) [
    | inl it ↦ rw (spared, it) refl
    | inr miss ↦ rw (spared, miss) (kept k d x rows other)
  ]
]

-- Other students and other days keep their marks.
spared :
    (k d : ℕ) (x : AttendanceRecord) (rows : List AttendanceRecord)
    → is_record k d x ≡ false
    → mark_on k d (upsert_record x rows) ≡ mark_on k d rows
spared k d x rows other = elim (Bool-cases (any (is_record x.student_id x.date) rows)) [
  | inl there ↦ rw there (kept k d x rows other)
  | inr new ↦ rw (new, other) refl
]

-- The mark that the entries give a student, if one does.
abbrev pub entered : ℕ → List RegisterEntry → Option AttendanceStatus → Option AttendanceStatus
entered student [] before = before
entered student (e ∷ es) before =
    if e.student_id == student then some e.status else entered student es before

-- A student who has been seen is not entered again.
once_seen :
    (in_arm seen : List ℕ) (es : List RegisterEntry) (k : ℕ) (before : Option AttendanceStatus)
    → has_problems in_arm seen es ≡ false
    → includes k seen ≡ true
    → entered k es before ≡ before
once_seen in_arm seen [] k before clear has = refl
once_seen in_arm seen (e ∷ es) k before clear has = elim (Bool-cases (e.student_id == k)) [
  | inl it ↦
      let again : includes e.student_id seen ≡ true =
        ap (λ n. includes n seen) ((==_iff e.student_id k).0 it) ∙ has in
      absurd (ground (arith, clear, again))
  | inr other ↦ rw other (
      once_seen in_arm (e.student_id ∷ seen) es k before (ground (arith, clear))
        (ground (arith, has)))
]

all_marked :
    (arm date : ℕ) (by : Option ℕ) (in_arm seen : List ℕ) (es : List RegisterEntry) (k : ℕ)
    (rows : List AttendanceRecord)
    → has_problems in_arm seen es ≡ false
    → mark_on k date (upsert_all arm date by es rows) ≡ entered k es (mark_on k date rows)
all_marked arm date by in_arm seen [] k rows clear = refl
all_marked arm date by in_arm seen (e ∷ es) k rows clear =
    let x = record_of arm date by e in
    let rest =
      all_marked arm date by in_arm (e.student_id ∷ seen) es k (upsert_record x rows)
        (ground (arith, clear)) in
    elim (Bool-cases (e.student_id == k)) [
      | inl it ↦
          let its : e.student_id ≡ k = (==_iff e.student_id k).0 it in
          let written : mark_on k date (upsert_record x rows) ≡ some e.status =
            ap (λ n. mark_on n date (upsert_record x rows)) (sym its) ∙ upserted x rows in
          rw it (
            rest
            ∙ ap (entered k es) written
            ∙ once_seen in_arm (e.student_id ∷ seen) es k (some e.status) (ground (arith, clear))
                (rw (sym its) (ground (arith, ==_refl e.student_id))))
      | inr other ↦ rw other (rest ∙ ap (entered k es) (spared k date x rows (rw other refl)))
    ]

other_days :
    (arm date : ℕ) (by : Option ℕ) (es : List RegisterEntry) (k d : ℕ)
    (rows : List AttendanceRecord)
    → (date == d) ≡ false
    → mark_on k d (upsert_all arm date by es rows) ≡ mark_on k d rows
other_days arm date by [] k d rows other = refl
other_days arm date by (e ∷ es) k d rows other =
    other_days arm date by es k d (upsert_record (record_of arm date by e) rows) other
    ∙ spared k d (record_of arm date by e) rows (ground (arith, other))

-- When a register is saved, each student whom it enters has on its day the mark that it gives, every
-- other student keeps the mark of that day, and the marks of every other day stay as they were.
pub save-marked :
    (school : RegisterSchool) (auth : Option RegisterTaker) (now : ℕ) (dto : SaveRegisterDto)
    (rows rows' : List AttendanceRecord) (student d : ℕ)
    → save school auth now dto rows ≡ ok rows'
    → (to_date_only dto.date == d) ≡ false
    → (mark_on student (to_date_only dto.date) rows'
        ≡ entered student dto.entries (mark_on student (to_date_only dto.date) rows))
      × (mark_on student d rows' ≡ mark_on student d rows)
unfolding save
save-marked school auth now dto rows rows' student d e other =
    let date = to_date_only dto.date in
    let in_arm = school.active_students dto.class_arm_id in
    let (_, _, e₁) =
      >>=-eq-ok (throw_if (is_none (find_arm dto.class_arm_id school.arms)) not_found) _ e in
    let (_, _, e₂) =
      >>=-eq-ok
        (throw_if (not (may_take school.arms auth dto.class_arm_id)) insufficient_permissions) _
        e₁ in
    let (_, _, e₃) = >>=-eq-ok (throw_if (ltb (to_date_only now) date) bad_request) _ e₂ in
    let (_, _, e₄) = >>=-eq-ok (throw_if (not (is_in_term date school.terms)) bad_request) _ e₃ in
    let (_, _, e₅) =
      >>=-eq-ok (throw_if (not (is_school_day date school.school_days_mask)) bad_request) _ e₄ in
    let (_, e₆, e₇) = >>=-eq-ok (throw_if (has_problems in_arm [] dto.entries) bad_request) _ e₅ in
    let clear = throw_if-eq-ok (has_problems in_arm [] dto.entries) bad_request e₆ in
    let by = membership_of auth in
    let it : upsert_all dto.class_arm_id date by dto.entries rows ≡ rows' = cc e₇ in
    (
      ap (mark_on student date) (sym it)
          ∙ all_marked dto.class_arm_id date by in_arm [] dto.entries student rows clear,
      ap (mark_on student d) (sym it)
          ∙ other_days dto.class_arm_id date by dto.entries student d rows other,
    )
