-- ===== src/Academics/Keeping.antt =====
-- The markers after each operation of src/academics/academic-sessions.service.ts and
-- src/academics/terms.service.ts.
use mathlib.Core.Path.{subst}
use edu_gear_back_end.Academics.Creating.{create_term-IsCreation}
use edu_gear_back_end.Common.{
  ◌==◌, or_else, is_none, and-eq-true, filter, any, find, count, includes, bad_request, conflict,
  internal, ok, throw_if, or_throw, >>=-eq-ok, ℕ, ◌≤◌, ◌≡◌, refl, sym, Bool, false, not, ◌&&◌, ◌||◌,
  none, some, List, arith,
}
use edu_gear_back_end.Common.Members.{count-filter, count-le}
use edu_gear_back_end.Academics.Periods.{
  range_contains, AcademicSession, Term, FeeAnchor, Calendar, is_session, is_term,
  is_current_session, is_current_term,
}
use edu_gear_back_end.Academics.Sessions.{
  CreateAcademicSessionDto, UpdateAcademicSessionDto, get_session, assert_valid, assert_name_free,
  assert_no_overlap, create_session, is_renamed, unless, update, set_current, remove,
}
use edu_gear_back_end.Academics.Terms.{
  CreateTermDto, UpdateTermDto, get_term, assert_valid_range, assert_term_free,
  assert_no_term_overlap, create_term, is_renamed_term, update_term, set_current_term, remove_term,
}
use edu_gear_back_end.Academics.Marking.{
  IsMarked, insert_session-IsMarked, insert_term-IsMarked, update_session-IsMarked,
  change_term-IsMarked, mark_session-IsMarked, mark_term-IsMarked,
}

-- The end of a block that returned.
pub ok-eq-ok : {A : Type 0} {a b : A} → ok a ≡ ok b → a ≡ b
ok-eq-ok e = cc e

pub create_session-IsMarked :
    (id : ℕ) (dto : CreateAcademicSessionDto) (s s' : Calendar)
    → count (is_session id) s.sessions ≡ 0
    → create_session id dto s ≡ ok s'
    → IsMarked s
    → IsMarked s'
unfolding create_session
create_session-IsMarked id dto s s' fresh e m =
    let (range, _, e₁) = >>=-eq-ok (assert_valid dto.name dto.start_date dto.end_date) _ e in
    let (_, _, e₂) = >>=-eq-ok (assert_name_free dto.name s) _ e₁ in
    let (_, _, e₃) = >>=-eq-ok (assert_no_overlap range none s) _ e₂ in
    subst IsMarked (ok-eq-ok e₃)
      (insert_session-IsMarked id dto.name range (or_else dto.is_current false) s fresh m)

pub update-IsMarked :
    (id : ℕ) (dto : UpdateAcademicSessionDto) (s s' : Calendar)
    → update id dto s ≡ ok s'
    → IsMarked s
    → IsMarked s'
unfolding update
update-IsMarked id dto s s' e m =
    let (existing, _, e₁) = >>=-eq-ok (get_session id s) _ e in
    let name = or_else dto.name existing.name in
    let (range, _, e₂) =
      >>=-eq-ok
        (assert_valid name (or_else dto.start_date existing.range.start_date)
          (or_else dto.end_date existing.range.end_date))
        _ e₁ in
    let (_, _, e₃) =
      >>=-eq-ok (unless (not (is_renamed dto.name existing)) (assert_name_free name s)) _ e₂ in
    let (_, _, e₄) =
      >>=-eq-ok
        (unless (is_none dto.start_date && is_none dto.end_date)
          (assert_no_overlap range (some id) s))
        _ e₃ in
    subst IsMarked (ok-eq-ok e₄) (
      update_session-IsMarked id (λ (x : AcademicSession). record x { name = name; range = range })
        s (λ x. refl) (λ x. refl) m)

pub set_current-IsMarked :
    (id : ℕ) (s s' : Calendar) → set_current id s ≡ ok s' → IsMarked s → IsMarked s'
unfolding set_current
set_current-IsMarked id s s' e m =
    let (_, _, e₁) = >>=-eq-ok (get_session id s) _ e in
    subst IsMarked (ok-eq-ok e₁) (mark_session-IsMarked id s m)

filter-low :
    {A : Type 0} (kept p : A → Bool) (xs : List A) → count p xs ≤ 1 → count p (filter kept xs) ≤ 1
filter-low kept p xs low = omega (
  arith,
  low,
  count-filter kept p xs,
  count-le (λ x. kept x && p x) p (λ x e. (and-eq-true (kept x) (p x) e).1) xs,
)

pub remove-IsMarked : (id : ℕ) (s s' : Calendar) → remove id s ≡ ok s' → IsMarked s → IsMarked s'
unfolding remove
remove-IsMarked id s s' e m =
    let (x, _, e₁) = >>=-eq-ok (get_session id s) _ e in
    let (_, _, e₂) = >>=-eq-ok (throw_if x.is_current conflict) _ e₁ in
    let (_, _, e₃) =
      >>=-eq-ok (throw_if (any (λ (t : Term). t.session_id == id) s.terms) conflict) _ e₂ in
    let (_, _, e₄) =
      >>=-eq-ok (throw_if (any (λ (f : FeeAnchor). f.session_id == id) s.fee_structures) conflict) _
        e₃ in
    let kept = λ (y : AcademicSession). not (is_session id y) in
    subst IsMarked (ok-eq-ok e₄) (record {
      one_session = filter-low kept is_current_session s.sessions m.one_session;
      one_term = m.one_term;
      session_ids = λ k. filter-low kept (is_session k) s.sessions (m.session_ids k);
      term_ids = m.term_ids;
    })

pub create_term-IsMarked :
    (id : ℕ) (dto : CreateTermDto) (s s' : Calendar)
    → count (is_term id) s.terms ≡ 0
    → create_term id dto s ≡ ok s'
    → IsMarked s
    → IsMarked s'
create_term-IsMarked id dto s s' fresh e m =
    let c = create_term-IsCreation id dto s s' e in
    subst IsMarked (sym c.written)
      (insert_term-IsMarked id dto c.range (or_else dto.is_current false) s fresh m)

pub update_term-IsMarked :
    (id : ℕ) (dto : UpdateTermDto) (s s' : Calendar)
    → update_term id dto s ≡ ok s'
    → IsMarked s
    → IsMarked s'
unfolding update_term
update_term-IsMarked id dto s s' e m =
    let (existing, _, e₁) = >>=-eq-ok (get_term id s) _ e in
    let (session, _, e₂) =
      >>=-eq-ok (or_throw (find (is_session existing.session_id) s.sessions) internal) _ e₁ in
    let name = or_else dto.name existing.name in
    let (range, _, e₃) =
      >>=-eq-ok
        (assert_valid_range (or_else dto.start_date existing.range.start_date)
          (or_else dto.end_date existing.range.end_date))
        _ e₂ in
    let (_, _, e₄) =
      >>=-eq-ok (throw_if (not (range_contains session.range range)) bad_request) _ e₃ in
    let (_, _, e₅) =
      >>=-eq-ok
        (unless (not (is_renamed_term dto.name existing))
          (assert_term_free existing.session_id name s))
        _ e₄ in
    let (_, _, e₆) =
      >>=-eq-ok
        (unless (is_none dto.start_date && is_none dto.end_date)
          (assert_no_term_overlap existing.session_id range (some id) s))
        _ e₅ in
    subst IsMarked (ok-eq-ok e₆) (
      change_term-IsMarked id (λ (t : Term). record t { name = name; range = range }) s (λ t. refl)
        (λ t. refl) m)

pub set_current_term-IsMarked :
    (id : ℕ) (s s' : Calendar) → set_current_term id s ≡ ok s' → IsMarked s → IsMarked s'
unfolding set_current_term
set_current_term-IsMarked id s s' e m =
    let (existing, _, e₁) = >>=-eq-ok (get_term id s) _ e in
    let (session, _, e₂) =
      >>=-eq-ok (or_throw (find (is_session existing.session_id) s.sessions) internal) _ e₁ in
    let (_, _, e₃) = >>=-eq-ok (throw_if (not session.is_current) conflict) _ e₂ in
    subst IsMarked (ok-eq-ok e₃) (mark_term-IsMarked id s m)

pub remove_term-IsMarked :
    (id : ℕ) (s s' : Calendar) → remove_term id s ≡ ok s' → IsMarked s → IsMarked s'
unfolding remove_term
remove_term-IsMarked id s s' e m =
    let (t, _, e₁) = >>=-eq-ok (get_term id s) _ e in
    let (_, _, e₂) = >>=-eq-ok (throw_if t.is_current conflict) _ e₁ in
    let (_, _, e₃) =
      >>=-eq-ok (throw_if (any (λ (f : FeeAnchor). f.term_id == id) s.fee_structures) conflict) _
        e₂ in
    let (_, _, e₄) =
      >>=-eq-ok (throw_if (includes id s.scored_terms || includes id s.sheet_terms) conflict) _
        e₃ in
    let kept = λ (y : Term). not (is_term id y) in
    subst IsMarked (ok-eq-ok e₄) (record {
      one_session = m.one_session;
      one_term = filter-low kept is_current_term s.terms m.one_term;
      session_ids = m.session_ids;
      term_ids = λ k. filter-low kept (is_term k) s.terms (m.term_ids k);
    })
