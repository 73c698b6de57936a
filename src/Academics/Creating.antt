-- ===== src/Academics/Creating.antt =====
-- `create` of src/academics/terms.service.ts: what has been checked of a term when it is created.
use mathlib.Core.Path.{subst}
use edu_gear_back_end.Common.{
  ◌==◌, or_else, any, find, bad_request, not_found, conflict, ok, throw_if, >>=-eq-ok,
  or_throw-eq-ok, throw_if-eq-ok, ℕ, ◌≤◌, ◌<◌, ◌≡◌, sym, false, not, ◌&&◌, none, some, arith,
}
use edu_gear_back_end.Academics.Periods.{
  DateRange, to_date_only, is_wrong_range, range_contains, same_term, AcademicSession, Term,
  Calendar, is_session, date_range,
}
use edu_gear_back_end.Academics.Sessions.{get_session}
use edu_gear_back_end.Academics.Terms.{
  CreateTermDto, assert_valid_range, assert_term_free, overlaps_term, assert_no_term_overlap,
  insert_term, create_term,
}

-- A term that was created.
pub record IsCreation (id : ℕ) (dto : CreateTermDto) (s s' : Calendar) : Type 0 where
  pub session : AcademicSession
  pub range : DateRange
  pub found : find (is_session dto.session_id) s.sessions ≡ some session
  pub dates : range ≡ date_range dto.start_date dto.end_date
  pub forward : range.start_date < range.end_date
  pub starts : session.range.start_date ≤ range.start_date
  pub ends : range.end_date ≤ session.range.end_date
  pub apart : any (overlaps_term dto.session_id range none) s.terms ≡ false
  pub unnamed :
      any (λ (t : Term). t.session_id == dto.session_id && same_term t.name dto.name) s.terms
      ≡ false
  pub current : (or_else dto.is_current false && not session.is_current) ≡ false
  pub written : s' ≡ insert_term id dto range (or_else dto.is_current false) s

valid_range :
    (start end : ℕ) (range : DateRange)
    → assert_valid_range start end ≡ ok range
    → (range ≡ date_range start end) × (range.start_date < range.end_date)
unfolding assert_valid_range
valid_range start end range e =
    let (_, e₀, e₁) =
      >>=-eq-ok (throw_if (is_wrong_range (date_range start end)) bad_request) _ e in
    let it : date_range start end ≡ range = cc e₁ in
    let forward : to_date_only start < to_date_only end =
      ground (arith, throw_if-eq-ok (is_wrong_range (date_range start end)) bad_request e₀) in
    (sym it, subst (λ (r : DateRange). r.start_date < r.end_date) it forward)

-- When a term is created, its dates are in order, at midnight, and within those of its session; no
-- other term of the session shares a day with it or has its name; if it is to be current its session
-- is; and the only writes are its row and, if it is to be current, the marker of the others.
pub create_term-IsCreation :
    (id : ℕ) (dto : CreateTermDto) (s s' : Calendar)
    → create_term id dto s ≡ ok s'
    → IsCreation id dto s s'
unfolding create_term
create_term-IsCreation id dto s s' e =
    let (session, e₀, r₀) = >>=-eq-ok (get_session dto.session_id s) _ e in
    let (range, e₁, r₁) = >>=-eq-ok (assert_valid_range dto.start_date dto.end_date) _ r₀ in
    let (_, e₂, r₂) =
      >>=-eq-ok (throw_if (not (range_contains session.range range)) bad_request) _ r₁ in
    let (_, e₃, r₃) = >>=-eq-ok (assert_term_free dto.session_id dto.name s) _ r₂ in
    let (_, e₄, r₄) = >>=-eq-ok (assert_no_term_overlap dto.session_id range none s) _ r₃ in
    let (_, e₅, r₅) =
      >>=-eq-ok (throw_if (or_else dto.is_current false && not session.is_current) conflict) _ r₄ in
    let (dates, forward) = valid_range dto.start_date dto.end_date range e₁ in
    let inside = throw_if-eq-ok (not (range_contains session.range range)) bad_request e₂ in
    record {
      session = session;
      range = range;
      found = or_throw-eq-ok (find (is_session dto.session_id) s.sessions) not_found e₀;
      dates = dates;
      forward = forward;
      starts = ground (arith, inside);
      ends = ground (arith, inside);
      apart = throw_if-eq-ok (any (overlaps_term dto.session_id range none) s.terms) conflict e₄;
      unnamed = throw_if-eq-ok _ conflict e₃;
      current = throw_if-eq-ok (or_else dto.is_current false && not session.is_current) conflict e₅;
      written = sym (cc r₅);
    }
