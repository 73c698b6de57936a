-- ===== src/Results/Sheets/Comments.antt =====
-- `comment` of src/results/result-sheets.service.ts: what a form teacher and a principal write under
-- a student's results. A comment that the request does not carry is
-- `none`, and one that it clears with `null` is `some none`.
use edu_gear_back_end.Common.{
  ◌==◌, if◌then◌else◌, any, not_found, conflict, Outcome, ok, throw, ◌>>=◌, ◌>>◌, throw_if,
  or_throw, ℕ, Bool, true, false, not, ◌&&◌, ◌||◌, Option, none, some, map,
}
use edu_gear_back_end.Common.Text.{Text}
use edu_gear_back_end.Results.Access.{ResultsActor, assert_form_teacher_or_head, assert_head}
use edu_gear_back_end.Results.School.{School}
use edu_gear_back_end.Results.Snapshot.{StudentResult}
use edu_gear_back_end.Results.Sheets.{
  ResultSheetStatus, SheetStore, is_draft, is_submitted, is_published, find_sheet, put_sheet,
}

pub record SheetCommentDto : Type 0 where
  pub form_teacher_comment : Option (Option Text)
  pub principal_comment : Option (Option Text)

abbrev pub is_given : Option (Option Text) → Bool
is_given none = false
is_given (some text) = true

-- `...(comment !== undefined ? { comment } : {})`
abbrev pub keep_or_set : Option (Option Text) → Option Text → Option Text
keep_or_set none old = old
keep_or_set (some text) old = text

abbrev pub set_comments : SheetCommentDto → StudentResult → StudentResult
set_comments dto row = record row {
  form_teacher_comment = keep_or_set dto.form_teacher_comment row.form_teacher_comment;
  principal_comment = keep_or_set dto.principal_comment row.principal_comment;
}

-- `if (test) await this.access.assert…()`
abbrev pub assert_if : Bool → Outcome ResultsActor → Outcome (Unit {0})
assert_if true (ok actor) = ok tt
assert_if true (throw e) = throw e
assert_if false check = ok tt

-- `editable.includes(status)`
abbrev pub is_editable : ResultSheetStatus → Bool
is_editable status = is_draft status || is_submitted status

unfoldable pub comment :
    School → Option ResultsActor → ℕ → ℕ → SheetCommentDto → SheetStore → Outcome SheetStore
unfolding assert_form_teacher_or_head assert_head
comment school auth id student dto store = do
  sheet ← or_throw (find_sheet id store.sheets) not_found
  assert_if (is_given dto.form_teacher_comment)
      (assert_form_teacher_or_head school.arms auth sheet.class_arm_id)
  assert_if (is_given dto.principal_comment) (assert_head auth)
  current ← or_throw (find_sheet id store.sheets) not_found
  throw_if (is_given dto.form_teacher_comment && not (is_editable current.status)) conflict
  throw_if (is_given dto.principal_comment && is_published current.status) conflict
  throw_if (not (any (λ (row : StudentResult). row.student_id == student) current.student_results))
      not_found
  ok (
      put_sheet
        (record current {
          student_results =
              map
                (λ (row : StudentResult).
                  if row.student_id == student then set_comments dto row else row)
                current.student_results;
        })
        store)
