-- ===== src/Results/Sheets/Surviving.antt =====
-- What `recompute` of src/results/result-sheets.service.ts does to comments.
use edu_gear_back_end.Common.{
  ◌==◌, if◌then◌else◌, Bool-cases, filter, find, includes, ℕ, ◌≡◌, refl, sym, ap, ◌∙◌, ◌⊎◌, inl,
  inr, Bool, true, false, Option, some, List, [], ◌∷◌, map,
}
use edu_gear_back_end.Results.Compute.{ComputedStudent}
use edu_gear_back_end.Results.Snapshot.{
  StudentResult, set_figures, upsert_result, upsert_results, keep_students, student_rows,
}

abbrev pub row_of : ℕ → List StudentResult → Option StudentResult
row_of id = find (λ (r : StudentResult). r.student_id == id)

-- The rows have one for the student with the comments of `row`.
pub record HasComments (row : StudentResult) (id : ℕ) (rows : List StudentResult) : Type 0 where
  pub kept : StudentResult
  pub found : row_of id rows ≡ some kept
  pub form_teacher : kept.form_teacher_comment ≡ row.form_teacher_comment
  pub principal : kept.principal_comment ≡ row.principal_comment

below :
    (row r : StudentResult) (id : ℕ) (rows : List StudentResult)
    → (r.student_id == id) ≡ false
    → HasComments row id rows
    → HasComments row id (r ∷ rows)
below row r id rows miss h = record {
  kept = h.kept;
  found = rw miss h.found;
  form_teacher = h.form_teacher;
  principal = h.principal;
}

unbelow :
    (row r : StudentResult) (id : ℕ) (rows : List StudentResult)
    → (r.student_id == id) ≡ false
    → HasComments row id (r ∷ rows)
    → HasComments row id rows
unbelow row r id rows miss h = record {
  kept = h.kept;
  found = ap (λ b. if b then some r else row_of id rows) (sym miss) ∙ h.found;
  form_teacher = h.form_teacher;
  principal = h.principal;
}

upsert_result-HasComments :
    (row : StudentResult) (id : ℕ) (s : ComputedStudent) (rows : List StudentResult)
    → HasComments row id rows
    → HasComments row id (upsert_result s rows)
upsert_result-HasComments row id s [] h = cc h.found
upsert_result-HasComments row id s (r ∷ rows) h =
    either (HasComments row id) (r.student_id == s.student_id)
      (changed (Bool-cases (r.student_id == id)))
      (kept_on (upsert_result-HasComments row id s rows) (Bool-cases (r.student_id == id)))
  where
    either :
        (P : List StudentResult → Type 0) (b : Bool) {x y : List StudentResult}
        → P x
        → P y
        → P (if b then x else y)
    either P true hx hy = hx
    either P false hx hy = hy

    first : (r.student_id == id) ≡ true → r ≡ h.kept
    first hit = cc (h.found, hit)

    changed :
        ((r.student_id == id) ≡ true) ⊎ ((r.student_id == id) ≡ false)
        → HasComments row id (set_figures s r ∷ rows)
    changed (inl hit) = record {
      kept = set_figures s r;
      found = rw hit refl;
      form_teacher =
          ap (λ (q : StudentResult). q.form_teacher_comment) (first hit) ∙ h.form_teacher;
      principal = ap (λ (q : StudentResult). q.principal_comment) (first hit) ∙ h.principal;
    }
    changed (inr miss) = below row (set_figures s r) id rows miss (unbelow row r id rows miss h)

    kept_on :
        (HasComments row id rows → HasComments row id (upsert_result s rows))
        → ((r.student_id == id) ≡ true) ⊎ ((r.student_id == id) ≡ false)
        → HasComments row id (r ∷ upsert_result s rows)
    kept_on later (inl hit) = record {
      kept = r;
      found = rw hit refl;
      form_teacher =
          ap (λ (q : StudentResult). q.form_teacher_comment) (first hit) ∙ h.form_teacher;
      principal = ap (λ (q : StudentResult). q.principal_comment) (first hit) ∙ h.principal;
    }
    kept_on later (inr miss) =
        below row r id (upsert_result s rows) miss (later (unbelow row r id rows miss h))

upsert_results-HasComments :
    (row : StudentResult) (id : ℕ) (students : List ComputedStudent) (rows : List StudentResult)
    → HasComments row id rows
    → HasComments row id (upsert_results students rows)
upsert_results-HasComments row id [] rows h = h
upsert_results-HasComments row id (s ∷ students) rows h =
    upsert_results-HasComments row id students (upsert_result s rows)
      (upsert_result-HasComments row id s rows h)

find-filter :
    (p : StudentResult → Bool) (id : ℕ) (rows : List StudentResult) (row : StudentResult)
    → row_of id rows ≡ some row
    → p row ≡ true
    → row_of id (filter p rows) ≡ some row
find-filter p id [] row e h = cc
find-filter p id (r ∷ rows) row e h = elim (Bool-cases (r.student_id == id)) [
  | inl hit ↦
      let it : r ≡ row = cc (e, hit) in
      let good : p r ≡ true = ap p it ∙ h in rw (good, hit) (ap some it)
  | inr miss ↦
      let later =
        find-filter p id rows row (ap (λ b. if b then some r else row_of id rows) (sym miss) ∙ e)
          h in
      elim (Bool-cases (p r)) [ inl good ↦ rw (good, miss) later | inr bad ↦ rw bad later ]
]

-- When results are computed again, a student who has a row and is still among the students keeps
-- the comments that were written on it.
pub student_rows-HasComments :
    (students : List ComputedStudent) (rows : List StudentResult) (id : ℕ) (row : StudentResult)
    → row_of id rows ≡ some row
    → includes row.student_id (map (λ (s : ComputedStudent). s.student_id) students) ≡ true
    → HasComments row id (student_rows students rows)
unfolding student_rows
student_rows-HasComments students rows id row found listed =
    upsert_results-HasComments row id students (keep_students students rows) (record {
      kept = row;
      found = find-filter _ id rows row found listed;
      form_teacher = refl;
      principal = refl;
    })
