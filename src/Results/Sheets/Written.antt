-- ===== src/Results/Sheets/Written.antt =====
-- The sheets that the handlers of src/results/result-sheets.service.ts write.
use mathlib.Core.Path.{subst}
use edu_gear_back_end.Results.School.{School, inputs}
use edu_gear_back_end.Common.{
  leb, not_found, conflict, ok, throw_if, or_throw, >>=-eq-ok, throw_if-eq-ok, ℕ, ◌≡◌, refl, sym,
  ap, ◌∙◌, ◌⊎◌, inl, inr, Bool, true, false, not, ◌||◌, none, some, List, [], ◌∷◌,
}
use edu_gear_back_end.Results.Compute.{ComputeResult, ComputeInput, is_empty, compute_results}
use edu_gear_back_end.Results.Snapshot.{SubjectResult, student_rows, subject_rows}
use edu_gear_back_end.Results.Sheets.{
  ResultSheetStatus, draft, submitted, approved, published, ResultSheet, SheetStore, is_draft,
  is_submitted, is_approved, find_sheet, put_sheet, lock_draft, write_snapshot, recompute,
}
use edu_gear_back_end.Results.Sheets.Sound.{stage, IsComplete, IsSound, AllSound, put-All}

-- What a computation that went through has done to the sheet it was given.
pub record Written (now : ℕ) (sheet : ResultSheet) (result : ComputeResult)
    (out : ComputeResult × ResultSheet) : Type 0 where
  pub rows : List SubjectResult
  pub written : subject_rows result.subject_stats result.students ≡ ok rows
  pub same : result ≡ out.0
  pub new : out.1 ≡ record sheet {
    computed_at = some now;
    scores_changed_at = none;
    student_results = student_rows result.students sheet.student_results;
    subject_results = rows;
  }

pub write_snapshot-Written :
    (now : ℕ) (sheet : ResultSheet) (result : ComputeResult) {out : ComputeResult × ResultSheet}
    → write_snapshot now sheet result ≡ ok out
    → Written now sheet result out
unfolding write_snapshot
write_snapshot-Written now sheet result e =
    let (rows, e₀, e₁) = >>=-eq-ok (subject_rows result.subject_stats result.students) _ e in
    record { rows = rows; written = e₀; same = cc; new = cc }

pub recompute-Written :
    (school : School) (now : ℕ) (sheet : ResultSheet) {out : ComputeResult × ResultSheet}
    → recompute school now sheet ≡ ok out
    → (input : ComputeInput) × Written now sheet (compute_results input) out
unfolding recompute
recompute-Written school now sheet e =
    let (input, e₀, e₁) = >>=-eq-ok (inputs school sheet.class_arm_id sheet.term_id) _ e in
    let (_, e₂, e₃) =
      >>=-eq-ok (throw_if (is_empty input.components || is_empty input.bands) conflict) _ e₁ in
    (input, write_snapshot-Written now sheet (compute_results input) e₃)

-- A draft keeps its stamps when it is computed again.
pub Written-draft-IsSound :
    {now : ℕ} {sheet : ResultSheet} {result : ComputeResult} {out : ComputeResult × ResultSheet}
    → Written now sheet result out
    → is_draft sheet.status ≡ true
    → IsSound sheet
    → IsSound out.1
Written-draft-IsSound w d sound = rw w.new (record {
  at_submission = sound.at_submission;
  by_submission = sound.by_submission;
  at_approval = sound.at_approval;
  by_approval = sound.by_approval;
  at_publication = sound.at_publication;
  by_publication = sound.by_publication;
  snapshot = inl d;
})

pub is_draft-eq : (s : ResultSheetStatus) → is_draft s ≡ true → s ≡ draft
is_draft-eq draft e = refl
is_draft-eq submitted e = cc
is_draft-eq approved e = cc
is_draft-eq published e = cc

pub put-AllSound :
    (new : ResultSheet) (store : SheetStore) {store' : SheetStore}
    → IsSound new
    → AllSound store
    → ok (put_sheet new store) ≡ ok store'
    → AllSound store'
put-AllSound new store {store'} sound h e =
    let it : put_sheet new store ≡ store' = cc e in
    subst AllSound it (put-All new store.sheets sound h)

pub not-false : (b : Bool) → not b ≡ false → b ≡ true
not-false true e = refl
not-false false e = cc

pub is_empty-nil : {A : Type 0} (xs : List A) → is_empty xs ≡ true → xs ≡ []
is_empty-nil [] e = refl
is_empty-nil (x ∷ xs) e = cc

pub lock_draft-found :
    (id : ℕ) (store : SheetStore) {sheet : ResultSheet}
    → lock_draft id store ≡ ok sheet
    → (or_throw (find_sheet id store.sheets) not_found ≡ ok sheet) × (is_draft sheet.status ≡ true)
unfolding lock_draft
lock_draft-found id store {sheet} e =
    let (current, e₀, e₁) = >>=-eq-ok (or_throw (find_sheet id store.sheets) not_found) _ e in
    let (_, e₂, e₃) = >>=-eq-ok (throw_if (not (is_draft current.status)) conflict) _ e₁ in
    let it : current ≡ sheet = cc e₃ in
    (
      e₀ ∙ e₃,
      subst (λ (s : ResultSheet). is_draft s.status ≡ true) it
          (not-false (is_draft current.status)
            (throw_if-eq-ok (not (is_draft current.status)) conflict e₂)),
    )

-- The sheet that `submit` writes.
pub submitted-IsSound :
    (at by : ℕ) (input : ComputeInput) {now : ℕ} {sheet : ResultSheet}
    {out : ComputeResult × ResultSheet}
    → Written now sheet (compute_results input) out
    → is_draft sheet.status ≡ true
    → IsSound sheet
    → is_empty out.0.students ≡ false
    → out.0.missing ≡ []
    → IsSound (record (out.1) {
      status = submitted;
      submitted_at = some at;
      submitted_by = some by;
      returned_reason = none;
    })
submitted-IsSound at by input {sheet = sheet} w d sound filled whole =
    let drafted = is_draft-eq sheet.status d in
    rw w.new (record {
      at_submission = refl;
      by_submission = refl;
      at_approval = sound.at_approval ∙ ap (λ s. leb 2 (stage s)) drafted;
      by_approval = sound.by_approval ∙ ap (λ s. leb 2 (stage s)) drafted;
      at_publication = sound.at_publication ∙ ap (λ s. leb 3 (stage s)) drafted;
      by_publication = sound.by_publication ∙ ap (λ s. leb 3 (stage s)) drafted;
      snapshot = inr (record {
        input = input;
        whole = ap (λ (r : ComputeResult). r.missing) w.same ∙ whole;
        students = ap (λ (r : ComputeResult). is_empty r.students) w.same ∙ filled;
        rows = w.written;
      });
    })

pub is_submitted-eq : (s : ResultSheetStatus) → is_submitted s ≡ true → s ≡ submitted
is_submitted-eq draft e = cc
is_submitted-eq submitted e = refl
is_submitted-eq approved e = cc
is_submitted-eq published e = cc

pub is_approved-eq : (s : ResultSheetStatus) → is_approved s ≡ true → s ≡ approved
is_approved-eq draft e = cc
is_approved-eq submitted e = cc
is_approved-eq approved e = refl
is_approved-eq published e = cc

-- A complete snapshot stays complete whatever happens to the other columns.
pub same_rows :
    {sheet other : ResultSheet}
    → other.subject_results ≡ sheet.subject_results
    → IsComplete sheet
    → IsComplete other
same_rows e c = record {
  input = c.input;
  whole = c.whole;
  students = c.students;
  rows = c.rows ∙ ap ok (sym e);
}

pub IsComplete-past_draft :
    {sheet other : ResultSheet}
    → is_draft sheet.status ≡ false
    → other.subject_results ≡ sheet.subject_results
    → IsSound sheet
    → IsComplete other
IsComplete-past_draft d e sound = elim sound.snapshot [
  | inl drafted ↦ absurd (cc (drafted, d))
  | inr c ↦ same_rows e c
]

pub same_snapshot :
    {sheet other : ResultSheet}
    → other.status ≡ sheet.status
    → other.subject_results ≡ sheet.subject_results
    → (is_draft sheet.status ≡ true) ⊎ IsComplete sheet
    → (is_draft other.status ≡ true) ⊎ IsComplete other
same_snapshot e r (inl drafted) = inl (ap is_draft e ∙ drafted)
same_snapshot e r (inr c) = inr (same_rows r c)
