-- ===== src/Results/Compute/Types.antt =====
-- The rows that src/results/compute-results.ts reads and the records that it returns. Ids are only
-- compared, so they are numbers; a score, a total and an average are `Decimal`s in hundredths of a
-- mark, none negative (src/results/scores.service.ts refuses a negative score).
use edu_gear_back_end.Common.{ℕ, Bool, Option, List}
use edu_gear_back_end.Common.Text.{Text}
use edu_gear_back_end.Results.Grading.{GradeBand}

pub record ComputeSubject : Type 0 where
  pub id : ℕ
  pub name : Text
  pub compulsory : Bool

pub record ComputeComponent : Type 0 where
  pub id : ℕ
  pub name : Text
  pub max_score : ℕ

pub record ComputeScore : Type 0 where
  pub student_id : ℕ
  pub subject_id : ℕ
  pub component_id : ℕ
  pub score : ℕ

pub record ComputedComponentScore : Type 0 where
  pub component_id : ℕ
  pub name : Text
  pub max_score : ℕ
  pub score : Option ℕ

pub record ComputedSubject : Type 0 where
  pub subject_id : ℕ
  pub subject_name : Text
  pub components : List ComputedComponentScore
  pub total : ℕ
  pub grade : Option Text
  pub remark : Option Text
  pub is_pass : Bool
  pub position : ℕ
  pub complete : Bool

pub record ComputedStudent : Type 0 where
  pub student_id : ℕ
  pub subjects : List ComputedSubject
  pub total : ℕ
  pub average : ℕ
  pub subject_count : ℕ
  pub position : Option ℕ
  pub complete : Bool

pub record SubjectStats : Type 0 where
  pub subject_id : ℕ
  pub subject_name : Text
  pub highest : ℕ
  pub lowest : ℕ
  pub average : ℕ
  pub student_count : ℕ

pub record MissingScores : Type 0 where
  pub student_id : ℕ
  pub subject_id : ℕ
  pub component_ids : List ℕ

pub record ComputeResult : Type 0 where
  pub students : List ComputedStudent
  pub subject_stats : List SubjectStats
  pub missing : List MissingScores
  pub ranked_count : ℕ

-- The argument of `computeResults`; a student is its id.
pub record ComputeInput : Type 0 where
  pub students : List ℕ
  pub subjects : List ComputeSubject
  pub components : List ComputeComponent
  pub scores : List ComputeScore
  pub bands : List GradeBand
