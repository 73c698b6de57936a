-- ===== src/Results/Sheets.antt =====
-- src/results/result-sheets.service.ts: a class arm's results for a term, from draft to published.
-- A sheet holds its rows; a transaction that throws leaves the sheets as they were. The read of the
-- sheet that each handler returns, the labels in its messages and the listing are not modelled.
pub mod Comments
pub mod Sound
pub mod Written
pub mod Keeping
pub mod Lifecycle
pub mod Release
pub mod Surviving
use edu_gear_back_end.Common.{
  ◌==◌, if◌then◌else◌, find, includes, not_found, conflict, Outcome, ok, ◌>>=◌, ◌>>◌, throw_if,
  or_throw, ℕ, Bool, true, false, not, ◌&&◌, ◌||◌, Option, none, some, List, [], ◌∷◌, ◌++◌, map,
}
use edu_gear_back_end.Common.Text.{Text}
use edu_gear_back_end.Results.Access.{
  ResultsActor, find_arm, assert_form_teacher_or_head, assert_head,
}
use edu_gear_back_end.Results.Compute.{ComputeResult, is_empty, compute_results}
use edu_gear_back_end.Results.School.{School, inputs}
use edu_gear_back_end.Results.Snapshot.{StudentResult, SubjectResult, student_rows, subject_rows}

pub data ResultSheetStatus : Type 0 where
  draft submitted approved published : ResultSheetStatus

pub record ResultSheet : Type 0 where
  pub id : ℕ
  pub class_arm_id : ℕ
  pub term_id : ℕ
  pub status : ResultSheetStatus
  pub computed_at : Option ℕ
  pub scores_changed_at : Option ℕ
  pub submitted_at : Option ℕ
  pub submitted_by : Option ℕ
  pub approved_at : Option ℕ
  pub approved_by : Option ℕ
  pub published_at : Option ℕ
  pub published_by : Option ℕ
  pub returned_reason : Option Text
  pub student_results : List StudentResult
  pub subject_results : List SubjectResult

-- The sheets of a school, and what `notifyParentsOf` has been handed: a student and a sheet.
pub record SheetStore : Type 0 where
  pub sheets : List ResultSheet
  pub notices : List (ℕ × ℕ)

abbrev pub is_draft : ResultSheetStatus → Bool
is_draft draft = true
is_draft _ = false

abbrev pub is_submitted : ResultSheetStatus → Bool
is_submitted submitted = true
is_submitted _ = false

abbrev pub is_approved : ResultSheetStatus → Bool
is_approved approved = true
is_approved _ = false

abbrev pub is_published : ResultSheetStatus → Bool
is_published published = true
is_published _ = false

abbrev pub find_sheet : ℕ → List ResultSheet → Option ResultSheet
find_sheet id = find (λ (s : ResultSheet). s.id == id)

-- `update({ where: { id } })`, of the row that is locked and read.
abbrev pub put_sheet : ResultSheet → SheetStore → SheetStore
put_sheet new store = record store {
  sheets = map (λ (s : ResultSheet). if s.id == new.id then new else s) store.sheets;
}

abbrev pub new_sheet : ℕ → ℕ → ℕ → ResultSheet
new_sheet id arm term = record {
  id = id;
  class_arm_id = arm;
  term_id = term;
  status = draft;
  computed_at = none;
  scores_changed_at = none;
  submitted_at = none;
  submitted_by = none;
  approved_at = none;
  approved_by = none;
  published_at = none;
  published_by = none;
  returned_reason = none;
  student_results = [];
  subject_results = [];
}

-- `lockDraft`
unfoldable pub lock_draft : ℕ → SheetStore → Outcome ResultSheet
lock_draft id store = do
  current ← or_throw (find_sheet id store.sheets) not_found
  throw_if (not (is_draft current.status)) conflict
  ok current

-- What `recompute` writes once the results are computed.
unfoldable pub write_snapshot :
    ℕ → ResultSheet → ComputeResult → Outcome (ComputeResult × ResultSheet)
unfolding student_rows subject_rows
write_snapshot now sheet result = do
  rows ← subject_rows result.subject_stats result.students
  ok (
    result,
    record sheet {
      computed_at = some now;
      scores_changed_at = none;
      student_results = student_rows result.students sheet.student_results;
      subject_results = rows;
    },
  )

unfoldable pub recompute : School → ℕ → ResultSheet → Outcome (ComputeResult × ResultSheet)
unfolding inputs compute_results write_snapshot
recompute school now sheet = do
  input ← inputs school sheet.class_arm_id sheet.term_id
  throw_if (is_empty input.components || is_empty input.bands) conflict
  write_snapshot now sheet (compute_results input)

abbrev pub has_term : ℕ → List ℕ → Bool
has_term = includes

-- The upsert of `compute`: the arm's sheet for the term, created with `id` when there is none.
abbrev pub found_or_created : ℕ → ℕ → ℕ → SheetStore → Option ResultSheet → ResultSheet × SheetStore
found_or_created id arm term store (some found) = (found, store)
found_or_created id arm term store none =
    (new_sheet id arm term, record store { sheets = store.sheets ++ new_sheet id arm term ∷ [] })

abbrev pub upsert_sheet : ℕ → ℕ → ℕ → SheetStore → ResultSheet × SheetStore
upsert_sheet id arm term store =
    found_or_created id arm term store
      (find (λ (s : ResultSheet). s.class_arm_id == arm && s.term_id == term) store.sheets)

module _ (school : School) (now : ℕ) (auth : Option ResultsActor) where
  unfoldable pub compute : ℕ → ℕ → ℕ → SheetStore → Outcome SheetStore
  unfolding assert_form_teacher_or_head lock_draft recompute
  compute id arm term store = do
    _ ← or_throw (find_arm arm school.arms) not_found
    throw_if (not (has_term term school.terms)) not_found
    _ ← assert_form_teacher_or_head school.arms auth arm
    let (sheet, created) = upsert_sheet id arm term store in
        do
          locked ← lock_draft sheet.id created
          (_, new) ← recompute school now locked
          ok (put_sheet new created)

  unfoldable pub submit : ℕ → SheetStore → Outcome SheetStore
  unfolding assert_form_teacher_or_head lock_draft recompute
  submit id store = do
    sheet ← or_throw (find_sheet id store.sheets) not_found
    actor ← assert_form_teacher_or_head school.arms auth sheet.class_arm_id
    locked ← lock_draft id store
    (result, new) ← recompute school now locked
    throw_if (is_empty result.students) conflict
    throw_if (not (is_empty result.missing)) conflict
    ok (
        put_sheet
          (record new {
            status = submitted;
            submitted_at = some now;
            submitted_by = some actor.membership_id;
            returned_reason = none;
          })
          store)

-- `transition`: `getOrThrow`, then the locked row, which must have the status that `from` tests.
unfoldable pub transition :
    ℕ → (ResultSheetStatus → Bool) → (ResultSheet → ResultSheet) → SheetStore → Outcome SheetStore
transition id from update store = do
  current ← or_throw (find_sheet id store.sheets) not_found
  throw_if (not (from current.status)) conflict
  ok (put_sheet (update current) store)

abbrev pub notify_parents : ℕ → SheetStore → Outcome SheetStore
notify_parents id store = do
  sheet ← or_throw (find_sheet id store.sheets) not_found
  ok (record store {
    notices =
        store.notices ++ map (λ (row : StudentResult). (row.student_id, id)) sheet.student_results;
  })

module _ (now : ℕ) (auth : Option ResultsActor) where
  unfoldable pub approve : ℕ → SheetStore → Outcome SheetStore
  unfolding assert_head transition
  approve id store = do
    actor ← assert_head auth
    transition id is_submitted
        (λ s. record s {
          status = approved;
          approved_at = some now;
          approved_by = some actor.membership_id;
        })
        store

  unfoldable pub publish : ℕ → SheetStore → Outcome SheetStore
  unfolding assert_head transition
  publish id store = do
    actor ← assert_head auth
    stored ←
        transition id is_approved
          (λ s. record s {
            status = published;
            published_at = some now;
            published_by = some actor.membership_id;
          })
          store
    notify_parents id stored

unfoldable pub return_to_draft : Option ResultsActor → ℕ → Text → SheetStore → Outcome SheetStore
unfolding assert_head
return_to_draft auth id reason store = do
  _ ← assert_head auth
  current ← or_throw (find_sheet id store.sheets) not_found
  throw_if (is_draft current.status) conflict
  ok (
      put_sheet
        (record current {
          status = draft;
          returned_reason = some reason;
          submitted_at = none;
          submitted_by = none;
          approved_at = none;
          approved_by = none;
          published_at = none;
          published_by = none;
        })
        store)
