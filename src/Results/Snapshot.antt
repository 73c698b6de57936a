-- ===== src/Results/Snapshot.antt =====
-- The snapshot that `recompute` of src/results/result-sheets.service.ts writes under a sheet: a row
-- for each student and a row for each subject result.
use edu_gear_back_end.Common.{
  ◌==◌, if◌then◌else◌, filter, find, includes, internal, Outcome, ok, ◌>>=◌, or_throw, ℕ, Bool,
  Option, none, List, [], ◌∷◌, ◌++◌, map,
}
use edu_gear_back_end.Common.Text.{Text}
use edu_gear_back_end.Results.Compute.{
  ComputedComponentScore, ComputedSubject, ComputedStudent, SubjectStats,
}

pub record StudentResult : Type 0 where
  pub student_id : ℕ
  pub total_score : ℕ
  pub average_score : ℕ
  pub position : Option ℕ
  pub subject_count : ℕ
  pub form_teacher_comment : Option Text
  pub principal_comment : Option Text

-- An entry of the stored `componentScores`.
pub record StoredScore : Type 0 where
  pub name : Text
  pub max_score : ℕ
  pub score : Option ℕ

pub record SubjectResult : Type 0 where
  pub student_id : ℕ
  pub subject_id : ℕ
  pub subject_name : Text
  pub total_score : ℕ
  pub grade : Option Text
  pub remark : Option Text
  pub is_pass : Bool
  pub position : ℕ
  pub component_scores : List StoredScore
  pub class_highest : ℕ
  pub class_lowest : ℕ
  pub class_average : ℕ

-- The `create` of the upsert.
abbrev pub new_result : ComputedStudent → StudentResult
new_result s = record {
  student_id = s.student_id;
  total_score = s.total;
  average_score = s.average;
  position = s.position;
  subject_count = s.subject_count;
  form_teacher_comment = none;
  principal_comment = none;
}

-- The `update` of the upsert: the figures, and not the comments.
abbrev pub set_figures : ComputedStudent → StudentResult → StudentResult
set_figures s row = record row {
  total_score = s.total;
  average_score = s.average;
  position = s.position;
  subject_count = s.subject_count;
}

abbrev pub upsert_result : ComputedStudent → List StudentResult → List StudentResult
upsert_result s [] = new_result s ∷ []
upsert_result s (row ∷ rows) =
    let rest = upsert_result s rows in
    if row.student_id == s.student_id then set_figures s row ∷ rows else row ∷ rest

abbrev pub upsert_results : List ComputedStudent → List StudentResult → List StudentResult
upsert_results [] rows = rows
upsert_results (s ∷ students) rows = upsert_results students (upsert_result s rows)

-- `deleteMany({ studentId: { notIn: studentIds } })`
abbrev pub keep_students : List ComputedStudent → List StudentResult → List StudentResult
keep_students students = filter (λ (row : StudentResult).
    includes row.student_id (map (λ (s : ComputedStudent). s.student_id) students))

unfoldable pub student_rows : List ComputedStudent → List StudentResult → List StudentResult
student_rows students rows = upsert_results students (keep_students students rows)

abbrev pub stored_score : ComputedComponentScore → StoredScore
stored_score c = record { name = c.name; max_score = c.max_score; score = c.score }

-- `stats.get(subject.subjectId)!`: reading a field of a missing entry raises.
abbrev pub subject_row : List SubjectStats → ℕ → ComputedSubject → Outcome SubjectResult
subject_row stats student subject = do
  stat ← or_throw (find (λ (t : SubjectStats). t.subject_id == subject.subject_id) stats) internal
  ok (record {
    student_id = student;
    subject_id = subject.subject_id;
    subject_name = subject.subject_name;
    total_score = subject.total;
    grade = subject.grade;
    remark = subject.remark;
    is_pass = subject.is_pass;
    position = subject.position;
    component_scores = map stored_score subject.components;
    class_highest = stat.highest;
    class_lowest = stat.lowest;
    class_average = stat.average;
  })

abbrev pub rows_of : List SubjectStats → ℕ → List ComputedSubject → Outcome (List SubjectResult)
rows_of stats student [] = ok []
rows_of stats student (subject ∷ subjects) =
    let rest = rows_of stats student subjects in
    do row ← subject_row stats student subject; rows ← rest; ok (row ∷ rows)

unfoldable pub subject_rows :
    List SubjectStats → List ComputedStudent → Outcome (List SubjectResult)
subject_rows stats [] = ok []
subject_rows stats (student ∷ students) =
    let rest = subject_rows stats students in
    do here ← rows_of stats student.student_id student.subjects; rows ← rest; ok (here ++ rows)
