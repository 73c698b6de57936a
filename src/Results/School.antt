-- ===== src/Results/School.antt =====
-- The rows of one school that a computation reads (prisma/schema.prisma), and the `inputs` of
-- src/results/result-sheets.service.ts, which picks those of an arm and a term. Subjects stand in
-- the order of their names and components in their sort order, as the queries ask for them.
use edu_gear_back_end.Common.{
  ◌==◌, filter, includes, not_found, Outcome, ok, ◌>>=◌, or_throw, ℕ, Bool, ◌&&◌, Option, List, map,
}
use edu_gear_back_end.Common.Text.{Text}
use edu_gear_back_end.Results.Access.{ClassArm, is_id, find_arm}
use edu_gear_back_end.Results.Compute.{ComputeSubject, ComputeComponent, ComputeScore, ComputeInput}
use edu_gear_back_end.Results.Grading.{GradeBand}

pub record StudentRow : Type 0 where
  pub id : ℕ
  pub class_arm_id : Option ℕ
  pub is_active : Bool

pub record ClassSubject : Type 0 where
  pub class_id : ℕ
  pub is_compulsory : Bool
  pub subject_id : ℕ
  pub subject_name : Text

pub record TermScore : Type 0 where
  pub term_id : ℕ
  pub entry : ComputeScore

pub record School : Type 0 where
  pub arms : List ClassArm
  pub terms : List ℕ
  pub students : List StudentRow
  pub offered : List ClassSubject
  pub components : List ComputeComponent
  pub scores : List TermScore
  pub bands : List GradeBand

abbrev pub active_students : School → ℕ → List ℕ
active_students school arm =
    map (λ (s : StudentRow). s.id)
      (filter (λ (s : StudentRow). is_id arm s.class_arm_id && s.is_active) school.students)

abbrev pub offered_subjects : School → ℕ → List ComputeSubject
offered_subjects school class_id =
    map
      (λ (o : ClassSubject). record {
        id = o.subject_id;
        name = o.subject_name;
        compulsory = o.is_compulsory;
      })
      (filter (λ (o : ClassSubject). o.class_id == class_id) school.offered)

unfoldable pub inputs : School → ℕ → ℕ → Outcome ComputeInput
inputs school arm_id term = do
  arm ← or_throw (find_arm arm_id school.arms) not_found
  let students = active_students school arm_id in
      let subjects = offered_subjects school arm.class_id in
      let subject_ids = map (λ (o : ComputeSubject). o.id) subjects in
      ok (record {
        students = students;
        subjects = subjects;
        components = school.components;
        scores =
            map (λ (s : TermScore). s.entry)
              (filter
                (λ (s : TermScore).
                  s.term_id == term
                  && includes s.entry.student_id students
                  && includes s.entry.subject_id subject_ids)
                school.scores);
        bands = school.bands;
      })
