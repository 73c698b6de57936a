-- ===== src/Results/Compute/Missing.antt =====
-- The list of missing scores of src/results/compute-results.ts.
use edu_gear_back_end.Common.{
  Option-cases, All, ℕ, ◌≡◌, ◌≢◌, ◌↔◌, inl, inr, true, none, List, [], ◌∷◌, ◌++◌, arith,
}
use edu_gear_back_end.Results.Compute.{
  ComputeSubject, ComputeComponent, ComputeScore, ComputeInput, score_of, taken_subjects,
  component_scores, absent, is_empty, missing_of, all_missing, compute_results,
}

-- Every component has a score for the student in the subject.
abbrev pub IsScored : ComputeInput → ℕ → ComputeSubject → Type 0
IsScored input student subject =
    All (λ component. score_of input.scores student subject.id component.id ≢ none) input.components

absent-eq-nil :
    (scores : List ComputeScore) (components : List ComputeComponent) (student subject : ℕ)
    → (is_empty (absent (component_scores scores components student subject)) ≡ true)
      ↔ All (λ component. score_of scores student subject component.id ≢ none) components
unfolding component_scores
absent-eq-nil scores [] student subject = ground arith
absent-eq-nil scores (c ∷ cs) student subject =
    elim (Option-cases (score_of scores student subject c.id)) [
      | inl gap ↦ ground arith
      | inr (v, e) ↦ ground (arith, absent-eq-nil scores cs student subject)
    ]

missing_of-eq-nil :
    (input : ComputeInput) (student : ℕ) (subjects : List ComputeSubject)
    → (missing_of input student subjects ≡ []) ↔ All (IsScored input student) subjects
unfolding missing_of
missing_of-eq-nil input student [] = ground arith
missing_of-eq-nil input student (s ∷ ss) = ground (
  arith,
  absent-eq-nil input.scores input.components student s.id,
  missing_of-eq-nil input student ss,
)

append-eq-nil_iff : {A : Type 0} (xs ys : List A) → (xs ++ ys ≡ []) ↔ ((xs ≡ []) × (ys ≡ []))
append-eq-nil_iff [] ys = ground arith
append-eq-nil_iff (x ∷ xs) ys = ground arith

all_missing-eq-nil :
    (input : ComputeInput) (students : List ℕ)
    → (all_missing input students ≡ [])
      ↔ All (λ student. All (IsScored input student) (taken_subjects input student)) students
unfolding all_missing
all_missing-eq-nil input [] = ground arith
all_missing-eq-nil input (s ∷ ss) = ground (
  arith,
  append-eq-nil_iff (missing_of input s (taken_subjects input s)) (all_missing input ss),
  missing_of-eq-nil input s (taken_subjects input s),
  all_missing-eq-nil input ss,
)

-- Nothing is listed as missing exactly when every student of the arm has a score for every
-- component in every subject that the student takes.
pub missing-eq-nil :
    (input : ComputeInput)
    → ((compute_results input).missing ≡ [])
      ↔ All (λ student. All (IsScored input student) (taken_subjects input student)) input.students
unfolding compute_results
missing-eq-nil input = all_missing-eq-nil input input.students
