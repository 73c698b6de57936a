-- ===== src/Results/Tests.antt =====
-- Concrete scales, arms and sheets, and what the results on them say.
use edu_gear_back_end.Results.Snapshot.{StudentResult, student_rows}
use edu_gear_back_end.Results.Sheets.Surviving.{HasComments, student_rows-HasComments}
use edu_gear_back_end.Common.Sorting.{insert, sort}
use edu_gear_back_end.Common.Text.{includes_text, trim, to_upper_case, to_lower_case}
use edu_gear_back_end.Common.{
  ◌==◌, or_else, find, Has, All, includes, Outcome, throw, ok, ℕ, ◌+◌, ◌≡◌, refl, ◌↔◌, inl, inr,
  true, false, none, some, List, [], ◌∷◌, map, arith,
}
use edu_gear_back_end.Results.Grading.{GradeBand, validate_grade_bands, validate_assessment_scheme}
use edu_gear_back_end.Results.Grading.Coverage.{IsGradeOf, grade_for-IsGradeOf}
use edu_gear_back_end.Results.Ranking.{competition_rank}
use edu_gear_back_end.Results.Ranking.Places.{above, competition_rank-above}
use edu_gear_back_end.Results.Access.{ResultsActor}
use edu_gear_back_end.Results.School.{School}
use edu_gear_back_end.Results.Compute.{
  ComputeSubject, ComputeComponent, ComputeScore, ComputedStudent, ComputeInput, score_of,
  taken_subjects, compute_subject, compute_student, compute_results,
}
use edu_gear_back_end.Results.Compute.Positions.{IsPlaced, compute_results-IsPlaced}
use edu_gear_back_end.Results.Compute.Missing.{IsScored, missing-eq-nil}
use edu_gear_back_end.Results.Compute.Grades.{
  to_assessment, IsWithin, IsGraded, compute_subject-IsGraded,
}
use edu_gear_back_end.Results.Sheets.{
  approved, ResultSheet, SheetStore, find_sheet, compute, submit, approve, publish,
}
use edu_gear_back_end.Results.Sheets.Sound.{AllSound}
use edu_gear_back_end.Results.Sheets.Lifecycle.{
  computing, submitting, approving, publishing, SheetReach, start, after, SheetReach-AllSound,
}
use edu_gear_back_end.Results.Sheets.Release.{IsHead, publish-approved}

abbrev band_f : GradeBand
band_f = record { grade = 70 ∷ []; min_score = 0; max_score = 39; remark = []; is_pass = false }

abbrev band_p : GradeBand
band_p = record { grade = 80 ∷ []; min_score = 40; max_score = 100; remark = []; is_pass = true }

abbrev bands : List GradeBand
bands = band_p ∷ band_f ∷ []

bands_accepted : validate_grade_bands bands ≡ []
unfolding validate_grade_bands includes_text to_upper_case trim sort insert
bands_accepted = refl

grade_for-IsGradeOf_example : (band : GradeBand) × IsGradeOf bands 5550 band
grade_for-IsGradeOf_example = grade_for-IsGradeOf bands 5550 bands_accepted (omega arith)

abbrev marks : List ℕ
marks = 70 ∷ 90 ∷ 90 ∷ []

listed_70 : Has (70, 3) (competition_rank (λ (n : ℕ). n) marks)
unfolding competition_rank
listed_70 = inr (inr (inl refl))

competition_rank-above_example : 3 ≡ 1 + above (λ (n : ℕ). n) 70 marks
competition_rank-above_example = competition_rank-above (λ (n : ℕ). n) marks 70 3 listed_70

abbrev maths : ComputeSubject
maths = record { id = 5; name = []; compulsory = true }

abbrev exam : ComputeComponent
exam = record { id = 9; name = 69 ∷ []; max_score = 100 }

abbrev score_by : ℕ → ℕ → ComputeScore
score_by student score = record {
  student_id = student;
  subject_id = 5;
  component_id = 9;
  score = score;
}

abbrev input : ComputeInput
input = record {
  students = 1 ∷ 2 ∷ [];
  subjects = maths ∷ [];
  components = exam ∷ [];
  scores = score_by 1 5500 ∷ score_by 2 8000 ∷ [];
  bands = bands;
}

scheme_accepted : validate_assessment_scheme (map to_assessment input.components) ≡ []
unfolding validate_assessment_scheme includes_text to_lower_case trim
scheme_accepted = refl

scores-IsWithin : IsWithin input 1 5
unfolding score_of
scores-IsWithin = (omega arith, tt)

compute_subject-IsGraded_example : IsGraded input (compute_subject input 1 maths)
compute_subject-IsGraded_example =
    compute_subject-IsGraded input 1 maths scheme_accepted bands_accepted scores-IsWithin

missing-eq-nil_example :
    ((compute_results input).missing ≡ [])
    ↔ All (λ student. All (IsScored input student) (taken_subjects input student)) input.students
missing-eq-nil_example = missing-eq-nil input

abbrev first_row : ComputedStudent
first_row =
    or_else (find (λ (s : ComputedStudent). s.student_id == 1) (compute_results input).students)
      (compute_student input 1)

first_row-Has : Has first_row (compute_results input).students
unfolding compute_results
first_row-Has = inl refl

compute_results-IsPlaced_example : IsPlaced (compute_results input).students first_row
compute_results-IsPlaced_example = compute_results-IsPlaced input first_row first_row-Has

abbrev head : ResultsActor
head = record { membership_id = 30; is_head = true }

abbrev teacher : ResultsActor
teacher = record { membership_id = 31; is_head = false }

abbrev school : School
school = record {
  arms = record { id = 3; class_id = 4; form_teacher_id = some 31 } ∷ [];
  terms = 6 ∷ [];
  students =
      record { id = 1; class_arm_id = some 3; is_active = true }
      ∷ record { id = 2; class_arm_id = some 3; is_active = true }
      ∷ [];
  offered = record { class_id = 4; is_compulsory = true; subject_id = 5; subject_name = [] } ∷ [];
  components = exam ∷ [];
  scores =
      record { term_id = 6; entry = score_by 1 5500 }
      ∷ record { term_id = 6; entry = score_by 2 8000 }
      ∷ [];
  bands = bands;
}

abbrev no_sheets : SheetStore
no_sheets = record { sheets = []; notices = [] }

abbrev stored : Outcome SheetStore → SheetStore
stored (ok s) = s
stored (throw e) = no_sheets

abbrev computed_store : SheetStore
computed_store = stored (compute school 100 (some teacher) 7 3 6 no_sheets)

abbrev submitted_store : SheetStore
submitted_store = stored (submit school 101 (some teacher) 7 computed_store)

abbrev approved_store : SheetStore
approved_store = stored (approve 102 (some head) 7 submitted_store)

abbrev published_store : SheetStore
published_store = stored (publish 103 (some head) 7 approved_store)

computed_ok : compute school 100 (some teacher) 7 3 6 no_sheets ≡ ok computed_store
unfolding compute
computed_ok = refl

submitted_ok : submit school 101 (some teacher) 7 computed_store ≡ ok submitted_store
unfolding compute submit
submitted_ok = refl

approved_ok : approve 102 (some head) 7 submitted_store ≡ ok approved_store
unfolding compute submit approve
approved_ok = refl

published_ok : publish 103 (some head) 7 approved_store ≡ ok published_store
unfolding compute submit approve publish
published_ok = refl

history : SheetReach no_sheets published_store
history =
    after
      (after
        (after (after start (computing school 100 (some teacher) 7 3 6 computed_ok))
          (submitting school 101 (some teacher) 7 submitted_ok))
        (approving 102 (some head) 7 approved_ok))
      (publishing 103 (some head) 7 published_ok)

SheetReach-AllSound_example : AllSound published_store
SheetReach-AllSound_example = SheetReach-AllSound tt history

publish-approved_example :
    IsHead (some head)
    × ((sheet : ResultSheet) × (find_sheet 7 approved_store.sheets ≡ some sheet)
        × (sheet.status ≡ approved))
publish-approved_example =
    publish-approved 103 (some head) 7 approved_store published_store published_ok

abbrev commented : StudentResult
commented = record {
  student_id = 1;
  total_score = 0;
  average_score = 0;
  position = none;
  subject_count = 0;
  form_teacher_comment = some (65 ∷ []);
  principal_comment = none;
}

first_row_listed : includes 1 (map (λ (s : ComputedStudent). s.student_id) (first_row ∷ [])) ≡ true
unfolding compute_results
first_row_listed = refl

student_rows-HasComments_example :
    HasComments commented 1 (student_rows (first_row ∷ []) (commented ∷ []))
student_rows-HasComments_example =
    student_rows-HasComments (first_row ∷ []) (commented ∷ []) 1 commented refl first_row_listed
