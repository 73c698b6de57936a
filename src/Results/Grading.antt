-- ===== src/Results/Grading.antt =====
-- src/results/grading.ts: the grade bands and the assessment scheme, validated as a whole.
-- Marks of a band and of a component are whole and not negative, as the DTO's `@IsInt` and `@Min`
-- make them, so the `Number.isInteger` tests pass and stand for nothing here; a total is a
-- `Decimal` in hundredths of a mark. A message is a constructor that holds what it prints.
pub mod Coverage
use edu_gear_back_end.Common.{
  ltb, leb, ◌==◌, if◌then◌else◌, find, sum_by, ℕ, suc, ◌+◌, ◌-◌, ◌/◌, Bool, true, false, not, ◌&&◌,
  Option, List, [], ◌∷◌, ◌++◌,
}
use edu_gear_back_end.Common.Sorting.{sort}
use edu_gear_back_end.Common.Text.{Text, includes_text, trim, to_upper_case, to_lower_case}

pub record GradeBand : Type 0 where
  pub grade : Text
  pub min_score : ℕ
  pub max_score : ℕ
  pub remark : Text
  pub is_pass : Bool

pub record AssessmentComponent : Type 0 where
  pub name : Text
  pub max_score : ℕ

pub data Problem : Type 0 where
  no_bands no_components above_top : Problem
  duplicate inverted worthless : Text → Problem
  overlap : Text → Text → Problem
  uncovered : ℕ → ℕ → Problem
  wrong_sum : ℕ → Problem

-- `if (test) problems.push(problem)`
abbrev pub push_if : Bool → Problem → List Problem
push_if true p = p ∷ []
push_if false p = []

-- The first loop of `validateGradeBands`; `seen` is the set `grades`.
pub band_problems : List Text → List GradeBand → List Problem
band_problems seen [] = []
band_problems seen (band ∷ bands) =
    let key = to_upper_case (trim band.grade) in
    push_if (includes_text key seen) (duplicate band.grade)
    ++ (push_if (ltb band.max_score band.min_score) (inverted band.grade)
        ++ band_problems (key ∷ seen) bands)

-- The loop over neighbours of the sorted bands.
pub gap_problems : GradeBand → List GradeBand → List Problem
gap_problems previous [] = []
gap_problems previous (current ∷ bands) =
    (if leb current.min_score previous.max_score
      then overlap previous.grade current.grade ∷ []
      else push_if (ltb (previous.max_score + 1) current.min_score)
          (uncovered (previous.max_score + 1) (current.min_score - 1)))
    ++ gap_problems current bands

abbrev pub last_band : GradeBand → List GradeBand → GradeBand
last_band band [] = band
last_band band (next ∷ bands) = last_band next bands

abbrev pub top_problems : ℕ → List Problem
top_problems top =
    push_if (not (top == 100)) (if ltb top 100 then uncovered (top + 1) 100 else above_top)

pub range_problems : List GradeBand → List Problem
range_problems [] = []
range_problems (band ∷ bands) =
    push_if (not (band.min_score == 0)) (uncovered 0 (band.min_score - 1))
    ++ (gap_problems band bands ++ top_problems (last_band band bands).max_score)

-- `a.minScore - b.minScore <= 0`
abbrev pub by_min_score : GradeBand → GradeBand → Bool
by_min_score a b = leb a.min_score b.min_score

abbrev pub unless_any : List Problem → List Problem → List Problem
unless_any [] later = later
unless_any (p ∷ ps) later = p ∷ ps

unfoldable pub validate_grade_bands : List GradeBand → List Problem
unfolding band_problems range_problems gap_problems
validate_grade_bands [] = no_bands ∷ []
validate_grade_bands (band ∷ bands) =
    unless_any (band_problems [] (band ∷ bands)) (range_problems (sort by_min_score (band ∷ bands)))

abbrev pub covers : ℕ → GradeBand → Bool
covers whole band = leb band.min_score whole && leb whole band.max_score

-- A total of 74.5 has 74 whole marks.
unfoldable pub grade_for : ℕ → List GradeBand → Option GradeBand
grade_for total bands = let whole = total / 100 in find (covers whole) bands

pub component_problems : List Text → List AssessmentComponent → List Problem
component_problems seen [] = []
component_problems seen (component ∷ components) =
    let key = to_lower_case (trim component.name) in
    push_if (includes_text key seen) (duplicate component.name)
    ++ (push_if (ltb component.max_score 1) (worthless component.name)
        ++ component_problems (key ∷ seen) components)

unfoldable pub validate_assessment_scheme : List AssessmentComponent → List Problem
unfolding component_problems
validate_assessment_scheme [] = no_components ∷ []
validate_assessment_scheme (component ∷ components) =
    let total = sum_by (λ c. c.max_score) (component ∷ components) in
    component_problems [] (component ∷ components) ++ push_if (not (total == 100)) (wrong_sum total)
