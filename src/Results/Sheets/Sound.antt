-- ===== src/Results/Sheets/Sound.antt =====
-- What is kept true of a result sheet of src/results/result-sheets.service.ts.
use mathlib.Core.Path.{subst}
use edu_gear_back_end.Common.{
  leb, ◌==◌, if◌then◌else◌, Bool-cases, find, All, All-append, Fault, ok, or_throw, or_throw-eq-ok,
  ℕ, ◌≡◌, refl, sym, ap, ◌∙◌, ◌⊎◌, inl, inr, Bool, true, false, Option, none, some, List, [], ◌∷◌,
  map,
}
use edu_gear_back_end.Results.Compute.{ComputeInput, is_empty, compute_results}
use edu_gear_back_end.Results.Snapshot.{subject_rows}
use edu_gear_back_end.Results.Sheets.{
  ResultSheetStatus, draft, submitted, approved, published, ResultSheet, SheetStore, is_draft,
  find_sheet, new_sheet, found_or_created,
}

-- How far a status is from a draft.
abbrev pub stage : ResultSheetStatus → ℕ
stage draft = 0
stage submitted = 1
stage approved = 2
stage published = 3

abbrev pub is_set {ℓ} : {A : Type ℓ} → Option A → Bool
is_set none = false
is_set (some a) = true

-- The subject rows are those of some computation that has students and misses no score.
pub record IsComplete (sheet : ResultSheet) : Type 0 where
  pub input : ComputeInput
  pub whole : (compute_results input).missing ≡ []
  pub students : is_empty (compute_results input).students ≡ false
  pub rows :
      subject_rows (compute_results input).subject_stats (compute_results input).students
      ≡ ok sheet.subject_results

-- The stamps of a sheet are those of the stages that it has passed, and past draft its snapshot is
-- complete.
pub record IsSound (sheet : ResultSheet) : Type 0 where
  pub at_submission : is_set sheet.submitted_at ≡ leb 1 (stage sheet.status)
  pub by_submission : is_set sheet.submitted_by ≡ leb 1 (stage sheet.status)
  pub at_approval : is_set sheet.approved_at ≡ leb 2 (stage sheet.status)
  pub by_approval : is_set sheet.approved_by ≡ leb 2 (stage sheet.status)
  pub at_publication : is_set sheet.published_at ≡ leb 3 (stage sheet.status)
  pub by_publication : is_set sheet.published_by ≡ leb 3 (stage sheet.status)
  pub snapshot : (is_draft sheet.status ≡ true) ⊎ IsComplete sheet

abbrev pub AllSound : SheetStore → Type 0
AllSound store = All IsSound store.sheets

pub find-All :
    {A : Type 0} (P : A → Type 0) (p : A → Bool) (xs : List A) {x : A}
    → All P xs
    → find p xs ≡ some x
    → P x
find-All P p [] h e = cc
find-All P p (y ∷ ys) h e = elim (Bool-cases (p y)) [
  | inl hit ↦ let it : y ≡ _ = cc (e, hit) in subst P it h.0
  | inr miss ↦ find-All P p ys h.1 (sym (ap (λ b. if b then some y else find p ys) miss) ∙ e)
]

pub found-IsSound :
    (id : ℕ) (store : SheetStore) (f : Fault) {sheet : ResultSheet}
    → AllSound store
    → or_throw (find_sheet id store.sheets) f ≡ ok sheet
    → IsSound sheet
found-IsSound id store f h e =
    find-All IsSound _ store.sheets h (or_throw-eq-ok (find_sheet id store.sheets) f e)

pub either : {A : Type 0} (P : A → Type 0) (b : Bool) {x y : A} → P x → P y → P (if b then x else y)
either P true hx hy = hx
either P false hx hy = hy

pub put-All :
    (new : ResultSheet) (sheets : List ResultSheet)
    → IsSound new
    → All IsSound sheets
    → All IsSound (map (λ (s : ResultSheet). if s.id == new.id then new else s) sheets)
put-All new [] sound h = tt
put-All new (s ∷ ss) sound h = (either IsSound (s.id == new.id) sound h.0, put-All new ss sound h.1)

pub new_sheet-IsSound : (id arm term : ℕ) → IsSound (new_sheet id arm term)
new_sheet-IsSound id arm term = record {
  at_submission = refl;
  by_submission = refl;
  at_approval = refl;
  by_approval = refl;
  at_publication = refl;
  by_publication = refl;
  snapshot = inl refl;
}

pub found_or_created-AllSound :
    (id arm term : ℕ) (store : SheetStore) (o : Option ResultSheet)
    → AllSound store
    → AllSound (found_or_created id arm term store o).1
found_or_created-AllSound id arm term store (some found) h = h
found_or_created-AllSound id arm term store none h =
    All-append IsSound store.sheets _ h (new_sheet-IsSound id arm term, tt)
