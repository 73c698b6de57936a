-- ===== src/Attendance/Tests.antt =====
-- A register of two students on a Monday.
use edu_gear_back_end.Common.{ok, ◌*◌, ◌≡◌, refl, false, none, some, List, [], ◌∷◌}
use edu_gear_back_end.Academics.Periods.{day}
use edu_gear_back_end.Attendance.Register.{
  present, late, AttendanceRecord, RegisterTaker, SaveRegisterDto, RegisterSchool, upsert_all, save,
}
use edu_gear_back_end.Attendance.Saving.{mark_on, save-marked}

-- Days 11 and 12 after the first of 1970 are a Monday and a Tuesday.
abbrev school : RegisterSchool
school = record {
  arms = record { id = 3; class_id = 9; form_teacher_id = some 20 } ∷ [];
  terms = record { start_date = 2 * day; end_date = 80 * day } ∷ [];
  school_days_mask = 62;
  active_students = λ arm. 1 ∷ 2 ∷ [];
}

abbrev dto : SaveRegisterDto
dto = record {
  class_arm_id = 3;
  date = 11 * day;
  entries =
      record { student_id = 1; status = present; note = none }
      ∷ record { student_id = 2; status = late; note = none }
      ∷ [];
}

abbrev teacher : RegisterTaker
teacher = record { membership_id = 20; updates_academics = false }

abbrev marks : List AttendanceRecord
marks = upsert_all 3 (11 * day) (some 20) dto.entries []

saved : save school (some teacher) (12 * day) dto [] ≡ ok marks
unfolding save
saved = refl

save-marked_example : (mark_on 2 (11 * day) marks ≡ some late) × (mark_on 2 (12 * day) marks ≡ none)
save-marked_example =
    save-marked school (some teacher) (12 * day) dto [] marks 2 (12 * day) saved refl
