-- ===== src/Results/Access.antt =====
-- src/results/results-access.service.ts: who may touch which results. The actor of a request is
-- `none` when no one is authenticated; whether the actor holds results.publish is read from the
-- membership before the check.
use edu_gear_back_end.Common.{
  ◌==◌, if◌then◌else◌, find, unauthorized, insufficient_permissions, Outcome, ok, throw, ◌>>=◌,
  or_throw, ℕ, Bool, false, ◌&&◌, Option, none, some, List,
}

pub record ResultsActor : Type 0 where
  pub membership_id : ℕ
  pub is_head : Bool

pub record ClassArm : Type 0 where
  pub id : ℕ
  pub class_id : ℕ
  pub form_teacher_id : Option ℕ

pub record TeachingAssignment : Type 0 where
  pub class_arm_id : ℕ
  pub subject_id : ℕ
  pub teacher_membership_id : ℕ

-- `value === id`, where the value may be missing.
abbrev pub is_id : ℕ → Option ℕ → Bool
is_id id none = false
is_id id (some value) = value == id

abbrev pub find_arm : ℕ → List ClassArm → Option ClassArm
find_arm id = find (λ (a : ClassArm). a.id == id)

abbrev pub form_teacher : Option ClassArm → Option ℕ
form_teacher none = none
form_teacher (some arm) = arm.form_teacher_id

abbrev pub assigned_teacher : Option TeachingAssignment → Option ℕ
assigned_teacher none = none
assigned_teacher (some assignment) = some assignment.teacher_membership_id

-- `if (actor.isHead) return actor; if (holder !== actor.membershipId) throw forbidden`
abbrev pub head_or_holder : Option ℕ → ResultsActor → Outcome ResultsActor
head_or_holder holder actor =
    if actor.is_head
    then ok actor
    else if is_id actor.membership_id holder
    then ok actor
    else throw insufficient_permissions

unfoldable pub assert_can_enter_scores :
    List TeachingAssignment → Option ResultsActor → ℕ → ℕ → Outcome ResultsActor
assert_can_enter_scores assignments auth arm subject = do
  actor ← or_throw auth unauthorized
  head_or_holder
      (assigned_teacher (
        find (λ (a : TeachingAssignment). a.class_arm_id == arm && a.subject_id == subject)
          assignments))
      actor

unfoldable pub assert_form_teacher_or_head :
    List ClassArm → Option ResultsActor → ℕ → Outcome ResultsActor
assert_form_teacher_or_head arms auth arm = do
  actor ← or_throw auth unauthorized
  head_or_holder (form_teacher (find_arm arm arms)) actor

unfoldable pub assert_head : Option ResultsActor → Outcome ResultsActor
assert_head auth = do
  actor ← or_throw auth unauthorized
  if actor.is_head then ok actor else throw insufficient_permissions
