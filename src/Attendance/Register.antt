-- ===== src/Attendance/Register.antt =====
-- `save` of src/attendance/attendance.service.ts and the school's week. A date is midnight, UTC, in
-- milliseconds since 1970.
use edu_gear_back_end.Common.{
  ltb, leb, ◌==◌, if◌then◌else◌, is_none, any, includes, bad_request, not_found,
  insufficient_permissions, Outcome, ok, throw_if, ◌>>◌, ℕ, ◌+◌, ◌/◌, ◌%◌, ◌^◌, Bool, false, not,
  ◌&&◌, ◌||◌, Option, none, some, List, [], ◌∷◌, map,
}
use edu_gear_back_end.Common.Text.{Text}
use edu_gear_back_end.Academics.Periods.{DateRange, day, to_date_only}
use edu_gear_back_end.Results.Access.{ClassArm, is_id, find_arm, form_teacher}

pub data AttendanceStatus : Type 0 where
  present absent late excused : AttendanceStatus

pub record AttendanceRecord : Type 0 where
  pub student_id : ℕ
  pub class_arm_id : ℕ
  pub date : ℕ
  pub status : AttendanceStatus
  pub note : Option Text
  pub recorded_by : Option ℕ

-- The membership of the request, and whether its role holds ACADEMICS_UPDATE.
pub record RegisterTaker : Type 0 where
  pub membership_id : ℕ
  pub updates_academics : Bool

pub record RegisterEntry : Type 0 where
  pub student_id : ℕ
  pub status : AttendanceStatus
  pub note : Option Text

pub record SaveRegisterDto : Type 0 where
  pub class_arm_id : ℕ
  pub date : ℕ
  pub entries : List RegisterEntry

-- The rows that `save` reads: the arms, the terms' dates, and the ids of each arm's active students.
pub record RegisterSchool : Type 0 where
  pub arms : List ClassArm
  pub terms : List DateRange
  pub school_days_mask : ℕ
  pub active_students : ℕ → List ℕ

-- `Date.prototype.getUTCDay`; the first day of 1970 was a Thursday.
abbrev pub weekday_of : ℕ → ℕ
weekday_of date = (date / day + 4) % 7

-- `normaliseMask` of a natural number: its seven low bits, or Monday to Friday.
abbrev pub normalise_mask : ℕ → ℕ
normalise_mask mask = if mask % 128 == 0 then 62 else mask % 128

abbrev pub is_school_day : ℕ → ℕ → Bool
is_school_day date mask = normalise_mask mask / 2 ^ weekday_of date % 2 == 1

-- `termOn(date) !== null`
abbrev pub is_in_term : ℕ → List DateRange → Bool
is_in_term date = any (λ (t : DateRange). leb t.start_date date && leb date t.end_date)

abbrev pub is_record : ℕ → ℕ → AttendanceRecord → Bool
is_record student date r = r.student_id == student && r.date == date

-- The problems of the entries: a student who is not in the arm, or who has been seen.
abbrev pub has_problems : List ℕ → List ℕ → List RegisterEntry → Bool
has_problems in_arm seen [] = false
has_problems in_arm seen (e ∷ es) =
    not (includes e.student_id in_arm)
    || includes e.student_id seen
    || has_problems in_arm (e.student_id ∷ seen) es

-- `attendanceRecord.upsert`
abbrev pub set_record : AttendanceRecord → AttendanceRecord → AttendanceRecord
set_record x r = record r {
  status = x.status;
  note = x.note;
  class_arm_id = x.class_arm_id;
  recorded_by = x.recorded_by;
}

abbrev pub upsert_record : AttendanceRecord → List AttendanceRecord → List AttendanceRecord
upsert_record x rows =
    if any (is_record x.student_id x.date) rows
    then map (λ r. if is_record x.student_id x.date r then set_record x r else r) rows
    else x ∷ rows

abbrev pub record_of : ℕ → ℕ → Option ℕ → RegisterEntry → AttendanceRecord
record_of arm date by e = record {
  student_id = e.student_id;
  class_arm_id = arm;
  date = date;
  status = e.status;
  note = e.note;
  recorded_by = by;
}

-- The transaction, entry by entry.
abbrev pub upsert_all :
    ℕ → ℕ → Option ℕ → List RegisterEntry → List AttendanceRecord → List AttendanceRecord
upsert_all arm date by [] rows = rows
upsert_all arm date by (e ∷ es) rows =
    upsert_all arm date by es (upsert_record (record_of arm date by e) rows)

-- `mayTake`
abbrev pub may_take : List ClassArm → Option RegisterTaker → ℕ → Bool
may_take arms none arm = false
may_take arms (some actor) arm =
    actor.updates_academics || is_id actor.membership_id (form_teacher (find_arm arm arms))

abbrev pub membership_of : Option RegisterTaker → Option ℕ
membership_of none = none
membership_of (some actor) = some actor.membership_id

-- `save`, at the time `now`.
unfoldable pub save :
    RegisterSchool
    → Option RegisterTaker
    → ℕ
    → SaveRegisterDto
    → List AttendanceRecord
    → Outcome (List AttendanceRecord)
save school auth now dto rows = do
  throw_if (is_none (find_arm dto.class_arm_id school.arms)) not_found
  throw_if (not (may_take school.arms auth dto.class_arm_id)) insufficient_permissions
  throw_if (ltb (to_date_only now) (to_date_only dto.date)) bad_request
  throw_if (not (is_in_term (to_date_only dto.date) school.terms)) bad_request
  throw_if (not (is_school_day (to_date_only dto.date) school.school_days_mask)) bad_request
  throw_if (has_problems (school.active_students dto.class_arm_id) [] dto.entries) bad_request
  ok (upsert_all dto.class_arm_id (to_date_only dto.date) (membership_of auth) dto.entries rows)
