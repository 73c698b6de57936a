-- ===== src/Results/Sheets/Release.antt =====
-- `publish` of src/results/result-sheets.service.ts: who publishes, and from where.
use edu_gear_back_end.Results.Sheets.Written.{not-false, is_approved-eq}
use edu_gear_back_end.Common.{
  if◌then◌else◌, Bool-cases, not_found, conflict, insufficient_permissions, throw, ok, throw_if,
  or_throw, >>=-eq-ok, or_throw-eq-ok, throw_if-eq-ok, ℕ, ◌≡◌, refl, inl, inr, true, not, Option,
  none, some,
}
use edu_gear_back_end.Results.Access.{ResultsActor, assert_head}
use edu_gear_back_end.Results.Sheets.{
  approved, ResultSheet, SheetStore, is_approved, find_sheet, transition, publish,
}

-- The actor is a head.
abbrev pub IsHead : Option ResultsActor → Type 0
IsHead auth = (actor : ResultsActor) × (auth ≡ some actor) × (actor.is_head ≡ true)

head_of :
    (actor found : ResultsActor)
    → (if actor.is_head then ok actor else throw insufficient_permissions) ≡ ok found
    → actor.is_head ≡ true
head_of actor found e = elim (Bool-cases actor.is_head) [
  | inl head ↦ head
  | inr other ↦ absurd (cc (e, other))
]

assert_head-IsHead :
    (auth : Option ResultsActor) {actor : ResultsActor} → assert_head auth ≡ ok actor → IsHead auth
unfolding assert_head
assert_head-IsHead none e = cc
assert_head-IsHead (some actor) e = (actor, refl, head_of actor _ e)

-- A sheet is published only by a head, and only from the approved status.
pub publish-approved :
    (now : ℕ) (auth : Option ResultsActor) (id : ℕ) (store store' : SheetStore)
    → publish now auth id store ≡ ok store'
    → IsHead auth
      × ((sheet : ResultSheet) × (find_sheet id store.sheets ≡ some sheet)
          × (sheet.status ≡ approved))
unfolding publish transition
publish-approved now auth id store store' e =
    let (actor, e₀, e₁) = >>=-eq-ok (assert_head auth) _ e in
    let (stored, e₂, e₃) = >>=-eq-ok (transition id is_approved _ store) _ e₁ in
    let (current, e₄, e₅) = >>=-eq-ok (or_throw (find_sheet id store.sheets) not_found) _ e₂ in
    let (_, e₆, e₇) = >>=-eq-ok (throw_if (not (is_approved current.status)) conflict) _ e₅ in
    (
      assert_head-IsHead auth e₀,
      (
        current,
        or_throw-eq-ok (find_sheet id store.sheets) not_found e₄,
        is_approved-eq current.status (
            not-false (is_approved current.status)
              (throw_if-eq-ok (not (is_approved current.status)) conflict e₆)),
      ),
    )
