-- ===== src/Results/Sheets/Keeping.antt =====
-- Each handler of result sheets and the soundness of the sheets.
use mathlib.Core.Path.{subst}
use edu_gear_back_end.Results.Sheets.Written.{
  recompute-Written, Written-draft-IsSound, put-AllSound, not-false, is_empty-nil, lock_draft-found,
  submitted-IsSound, is_submitted-eq, is_approved-eq, IsComplete-past_draft, same_snapshot,
}
use edu_gear_back_end.Results.Snapshot.{StudentResult}
use edu_gear_back_end.Results.Sheets.Comments.{
  SheetCommentDto, is_given, assert_if, is_editable, comment,
}
use edu_gear_back_end.Common.Text.{Text}
use edu_gear_back_end.Results.Access.{
  ResultsActor, find_arm, assert_form_teacher_or_head, assert_head,
}
use edu_gear_back_end.Results.School.{School}
use edu_gear_back_end.Common.{
  leb, ◌==◌, any, All, not_found, conflict, Outcome, ok, throw_if, or_throw, >>=-eq-ok,
  throw_if-eq-ok, ℕ, ◌≡◌, refl, ap, ◌∙◌, inl, inr, Bool, true, not, ◌&&◌, Option,
}
use edu_gear_back_end.Results.Compute.{is_empty}
use edu_gear_back_end.Results.Sheets.{
  ResultSheetStatus, ResultSheet, SheetStore, is_draft, is_submitted, is_approved, is_published,
  find_sheet, lock_draft, recompute, has_term, upsert_sheet, compute, submit, transition, approve,
  publish, return_to_draft,
}
use edu_gear_back_end.Results.Sheets.Sound.{
  stage, IsSound, AllSound, found-IsSound, found_or_created-AllSound,
}

pub compute-AllSound :
    (school : School) (now : ℕ) (auth : Option ResultsActor) (id arm term : ℕ) (store : SheetStore)
    {store' : SheetStore}
    → AllSound store
    → compute school now auth id arm term store ≡ ok store'
    → AllSound store'
unfolding compute
compute-AllSound school now auth id arm term store h e =
    let (_, _, e₁) = >>=-eq-ok (or_throw (find_arm arm school.arms) not_found) _ e in
    let (_, _, e₂) = >>=-eq-ok (throw_if (not (has_term term school.terms)) not_found) _ e₁ in
    let (_, _, e₃) = >>=-eq-ok (assert_form_teacher_or_head school.arms auth arm) _ e₂ in
    let (sheet, created) = upsert_sheet id arm term store in
    let (locked, e₄, e₅) = >>=-eq-ok (lock_draft sheet.id created) _ e₃ in
    let (out, e₆, e₇) = >>=-eq-ok (recompute school now locked) _ e₅ in
    let (found, d) = lock_draft-found sheet.id created e₄ in
    let h' = found_or_created-AllSound id arm term store _ h in
    let (_, w) = recompute-Written school now locked e₆ in
    put-AllSound out.1 created
      (Written-draft-IsSound w d (found-IsSound sheet.id created not_found h' found)) h' e₇

pub submit-AllSound :
    (school : School) (now : ℕ) (auth : Option ResultsActor) (id : ℕ) (store : SheetStore)
    {store' : SheetStore}
    → AllSound store
    → submit school now auth id store ≡ ok store'
    → AllSound store'
unfolding submit
submit-AllSound school now auth id store h e =
    let (sheet, _, e₁) = >>=-eq-ok (or_throw (find_sheet id store.sheets) not_found) _ e in
    let (actor, _, e₂) =
      >>=-eq-ok (assert_form_teacher_or_head school.arms auth sheet.class_arm_id) _ e₁ in
    let (locked, e₃, e₄) = >>=-eq-ok (lock_draft id store) _ e₂ in
    let (out, e₅, e₆) = >>=-eq-ok (recompute school now locked) _ e₄ in
    let (_, e₇, e₈) = >>=-eq-ok (throw_if (is_empty out.0.students) conflict) _ e₆ in
    let (_, e₉, e') = >>=-eq-ok (throw_if (not (is_empty out.0.missing)) conflict) _ e₈ in
    let (found, d) = lock_draft-found id store e₃ in
    let (input, w) = recompute-Written school now locked e₅ in
    put-AllSound _ store
      (submitted-IsSound now actor.membership_id input w d
        (found-IsSound id store not_found h found)
        (throw_if-eq-ok (is_empty out.0.students) conflict e₇)
        (is_empty-nil out.0.missing (
          not-false (is_empty out.0.missing)
            (throw_if-eq-ok (not (is_empty out.0.missing)) conflict e₉))))
      h e'

-- A status change of a sheet that has passed the test keeps every sheet sound when it keeps that
-- one.
transition-AllSound :
    (id : ℕ) (from : ResultSheetStatus → Bool) (update : ResultSheet → ResultSheet)
    (store : SheetStore) {store' : SheetStore}
    → ((sheet : ResultSheet) → from sheet.status ≡ true → IsSound sheet → IsSound (update sheet))
    → AllSound store
    → transition id from update store ≡ ok store'
    → AllSound store'
unfolding transition
transition-AllSound id from update store keeps h e =
    let (current, e₀, e₁) = >>=-eq-ok (or_throw (find_sheet id store.sheets) not_found) _ e in
    let (_, e₂, e₃) = >>=-eq-ok (throw_if (not (from current.status)) conflict) _ e₁ in
    put-AllSound _ store
      (keeps current
        (not-false (from current.status) (throw_if-eq-ok (not (from current.status)) conflict e₂))
        (found-IsSound id store not_found h e₀))
      h e₃

pub approve-AllSound :
    (now : ℕ) (auth : Option ResultsActor) (id : ℕ) (store : SheetStore) {store' : SheetStore}
    → AllSound store
    → approve now auth id store ≡ ok store'
    → AllSound store'
unfolding approve
approve-AllSound now auth id store h e =
    let (actor, _, e₁) = >>=-eq-ok (assert_head auth) _ e in
    transition-AllSound id is_submitted _ store
      (λ sheet passed sound.
        let at = is_submitted-eq sheet.status passed in
        record {
          at_submission = sound.at_submission ∙ ap (λ s. leb 1 (stage s)) at;
          by_submission = sound.by_submission ∙ ap (λ s. leb 1 (stage s)) at;
          at_approval = refl;
          by_approval = refl;
          at_publication = sound.at_publication ∙ ap (λ s. leb 3 (stage s)) at;
          by_publication = sound.by_publication ∙ ap (λ s. leb 3 (stage s)) at;
          snapshot = inr (IsComplete-past_draft (ap is_draft at) refl sound);
        })
      h e₁

pub publish-AllSound :
    (now : ℕ) (auth : Option ResultsActor) (id : ℕ) (store : SheetStore) {store' : SheetStore}
    → AllSound store
    → publish now auth id store ≡ ok store'
    → AllSound store'
unfolding publish
publish-AllSound now auth id store h e =
    let (actor, _, e₁) = >>=-eq-ok (assert_head auth) _ e in
    let (stored, e₂, e₃) = >>=-eq-ok (transition id is_approved _ store) _ e₁ in
    let (sheet, _, e₄) = >>=-eq-ok (or_throw (find_sheet id stored.sheets) not_found) _ e₃ in
    let same_sheets : stored.sheets ≡ _ = cc (ap (λ (o : Outcome SheetStore). o) e₄) in
    subst (All IsSound) same_sheets (
      transition-AllSound id is_approved _ store
        (λ sheet passed sound.
          let at = is_approved-eq sheet.status passed in
          record {
            at_submission = sound.at_submission ∙ ap (λ s. leb 1 (stage s)) at;
            by_submission = sound.by_submission ∙ ap (λ s. leb 1 (stage s)) at;
            at_approval = sound.at_approval ∙ ap (λ s. leb 2 (stage s)) at;
            by_approval = sound.by_approval ∙ ap (λ s. leb 2 (stage s)) at;
            at_publication = refl;
            by_publication = refl;
            snapshot = inr (IsComplete-past_draft (ap is_draft at) refl sound);
          })
        h e₂)

pub return_to_draft-AllSound :
    (auth : Option ResultsActor) (id : ℕ) (reason : Text) (store : SheetStore) {store' : SheetStore}
    → AllSound store
    → return_to_draft auth id reason store ≡ ok store'
    → AllSound store'
unfolding return_to_draft
return_to_draft-AllSound auth id reason store h e =
    let (_, _, e₁) = >>=-eq-ok (assert_head auth) _ e in
    let (current, _, e₂) = >>=-eq-ok (or_throw (find_sheet id store.sheets) not_found) _ e₁ in
    let (_, _, e₃) = >>=-eq-ok (throw_if (is_draft current.status) conflict) _ e₂ in
    put-AllSound _ store
      (record {
        at_submission = refl;
        by_submission = refl;
        at_approval = refl;
        by_approval = refl;
        at_publication = refl;
        by_publication = refl;
        snapshot = inl refl;
      })
      h e₃

pub comment-AllSound :
    (school : School) (auth : Option ResultsActor) (id student : ℕ) (dto : SheetCommentDto)
    (store : SheetStore) {store' : SheetStore}
    → AllSound store
    → comment school auth id student dto store ≡ ok store'
    → AllSound store'
unfolding comment
comment-AllSound school auth id student dto store h e =
    let (sheet, _, e₁) = >>=-eq-ok (or_throw (find_sheet id store.sheets) not_found) _ e in
    let (_, _, e₂) =
      >>=-eq-ok
        (assert_if (is_given dto.form_teacher_comment)
          (assert_form_teacher_or_head school.arms auth sheet.class_arm_id))
        _ e₁ in
    let (_, _, e₃) =
      >>=-eq-ok (assert_if (is_given dto.principal_comment) (assert_head auth)) _ e₂ in
    let (current, found, e₄) = >>=-eq-ok (or_throw (find_sheet id store.sheets) not_found) _ e₃ in
    let (_, _, e₅) =
      >>=-eq-ok
        (throw_if (is_given dto.form_teacher_comment && not (is_editable current.status)) conflict)
        _ e₄ in
    let (_, _, e₆) =
      >>=-eq-ok (throw_if (is_given dto.principal_comment && is_published current.status) conflict)
        _ e₅ in
    let (_, _, e₇) =
      >>=-eq-ok
        (throw_if
          (not (any (λ (row : StudentResult). row.student_id == student) current.student_results))
          not_found)
        _ e₆ in
    let sound = found-IsSound id store not_found h found in
    put-AllSound _ store
      (record {
        at_submission = sound.at_submission;
        by_submission = sound.by_submission;
        at_approval = sound.at_approval;
        by_approval = sound.by_approval;
        at_publication = sound.at_publication;
        by_publication = sound.by_publication;
        snapshot = same_snapshot refl refl sound.snapshot;
      })
      h e₇
