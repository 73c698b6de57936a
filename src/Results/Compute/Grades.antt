-- ===== src/Results/Compute/Grades.antt =====
-- The total and the grade of a computed subject, in src/results/compute-results.ts.
use edu_gear_back_end.Common.{
  ◌==◌, or_else, All, sum_by, ℕ, ◌*◌, ◌≤◌, ◌≡◌, not, some, List, [], ◌∷◌, ◌++◌, map, arith,
}
use edu_gear_back_end.Results.Grading.{
  GradeBand, AssessmentComponent, Problem, wrong_sum, push_if, validate_grade_bands,
  component_problems, validate_assessment_scheme,
}
use edu_gear_back_end.Results.Grading.Coverage.{IsGradeOf, grade_for-IsGradeOf}
use edu_gear_back_end.Results.Compute.{
  ComputeSubject, ComputeComponent, ComputeScore, ComputedSubject, ComputeInput, score_of,
  component_scores, compute_subject,
}

abbrev pub to_assessment : ComputeComponent → AssessmentComponent
to_assessment c = record { name = c.name; max_score = c.max_score }

-- No score exceeds the marks of its component.
abbrev pub IsWithin : ComputeInput → ℕ → ℕ → Type 0
IsWithin input student subject =
    All (λ c. or_else (score_of input.scores student subject c.id) 0 ≤ 100 * c.max_score)
      input.components

nil-of-append : (xs ys : List Problem) → xs ++ ys ≡ [] → ys ≡ []
nil-of-append [] ys h = h
nil-of-append (x ∷ xs) ys h = cc

scheme_total :
    (components : List AssessmentComponent)
    → validate_assessment_scheme components ≡ []
    → sum_by (λ c. c.max_score) components ≡ 100
unfolding validate_assessment_scheme
scheme_total [] h = cc
scheme_total (c ∷ cs) h =
    let total = sum_by (λ (d : AssessmentComponent). d.max_score) (c ∷ cs) in
    let last =
      nil-of-append (component_problems [] (c ∷ cs))
        (push_if (not (total == 100)) (wrong_sum total)) h in
    sum_is_100 total last
  where
    sum_is_100 : (t : ℕ) → push_if (not (t == 100)) (wrong_sum t) ≡ [] → t ≡ 100
    sum_is_100 t k = ground arith

total-le :
    (scores : List ComputeScore) (components : List ComputeComponent) (student subject : ℕ)
    → All (λ c. or_else (score_of scores student subject c.id) 0 ≤ 100 * c.max_score) components
    → sum_by (λ part. or_else part.score 0) (component_scores scores components student subject)
      ≤ 100 * sum_by (λ c. c.max_score) (map to_assessment components)
unfolding component_scores
total-le scores [] student subject h = omega arith
total-le scores (c ∷ cs) student subject (h, hs) =
    omega (arith, total-le scores cs student subject hs, h)

-- What a computed subject prints of its total.
pub record IsGraded (input : ComputeInput) (r : ComputedSubject) : Type 0 where
  pub band : GradeBand
  pub graded : IsGradeOf input.bands r.total band
  pub within : r.total ≤ 10000
  pub grade : r.grade ≡ some band.grade
  pub remark : r.remark ≡ some band.remark
  pub is_pass : r.is_pass ≡ band.is_pass

-- When the scheme and the scale pass validation and no score exceeds its component's marks, a
-- computed subject's total is a percentage, and its grade, remark and pass mark are those of the
-- one band of the scale that covers it.
pub compute_subject-IsGraded :
    (input : ComputeInput) (student : ℕ) (subject : ComputeSubject)
    → validate_assessment_scheme (map to_assessment input.components) ≡ []
    → validate_grade_bands input.bands ≡ []
    → IsWithin input student subject.id
    → IsGraded input (compute_subject input student subject)
unfolding compute_subject
compute_subject-IsGraded input student subject scheme scale within =
    let total = (compute_subject input student subject).total in
    let bound = total-le input.scores input.components student subject.id within in
    let hundred = scheme_total (map to_assessment input.components) scheme in
    let small : total ≤ 10000 = omega (arith, bound, hundred) in
    let (band, graded) = grade_for-IsGradeOf input.bands total scale (omega arith) in
    record {
      band = band;
      graded = graded;
      within = small;
      grade = rw graded.found;
      remark = rw graded.found;
      is_pass = rw graded.found;
    }
