-- ===== src/Academics/Terms.antt =====
-- src/academics/terms.service.ts: creating, changing, marking and removing terms. Each handler throws
-- before it writes.
use edu_gear_back_end.Common.{
  ◌==◌, if◌then◌else◌, or_else, is_none, filter, any, find, includes, bad_request, not_found,
  conflict, internal, Outcome, ok, throw_if, or_throw, ◌>>=◌, ◌>>◌, ℕ, Bool, true, false, not, ◌&&◌,
  ◌||◌, Option, none, some, List, ◌∷◌, map,
}
use edu_gear_back_end.Academics.Periods.{
  DateRange, is_wrong_range, ranges_overlap, range_contains, TermName, same_term, Term, FeeAnchor,
  Calendar, is_session, is_term, when, date_range,
}
use edu_gear_back_end.Academics.Sessions.{get_session, is_excluded, unless}

pub record CreateTermDto : Type 0 where
  pub session_id : ℕ
  pub name : TermName
  pub start_date : ℕ
  pub end_date : ℕ
  pub is_current : Option Bool

pub record UpdateTermDto : Type 0 where
  pub name : Option TermName
  pub start_date : Option ℕ
  pub end_date : Option ℕ

-- `getOrThrow`
abbrev pub get_term : ℕ → Calendar → Outcome Term
get_term id s = or_throw (find (is_term id) s.terms) not_found

-- `assertValidRange`
unfoldable pub assert_valid_range : ℕ → ℕ → Outcome DateRange
assert_valid_range start end = do
  throw_if (is_wrong_range (date_range start end)) bad_request
  ok (date_range start end)

-- `assertNameFree`
abbrev pub assert_term_free : ℕ → TermName → Calendar → Outcome (Unit {0})
assert_term_free session name s =
    throw_if (any (λ (t : Term). t.session_id == session && same_term t.name name) s.terms) conflict

-- The `where` of `assertNoOverlap`.
abbrev pub overlaps_term : ℕ → DateRange → Option ℕ → Term → Bool
overlaps_term session range exclude t =
    t.session_id == session && not (is_excluded exclude t.id) && ranges_overlap t.range range

-- `assertNoOverlap`
abbrev pub assert_no_term_overlap : ℕ → DateRange → Option ℕ → Calendar → Outcome (Unit {0})
assert_no_term_overlap session range exclude s =
    throw_if (any (overlaps_term session range exclude) s.terms) conflict

abbrev pub clear_terms : List Term → List Term
clear_terms = map (λ (t : Term). record t { is_current = false })

abbrev pub change_term : ℕ → (Term → Term) → Calendar → Calendar
change_term id change s = record s {
  terms = map (λ (t : Term). if t.id == id then change t else t) s.terms;
}

-- The transaction of `create`; `id` is the new row's.
abbrev pub insert_term : ℕ → CreateTermDto → DateRange → Bool → Calendar → Calendar
insert_term id dto range current s = record s {
  terms =
      record {
        id = id;
        session_id = dto.session_id;
        name = dto.name;
        range = range;
        is_current = current;
      }
      ∷ when current clear_terms s.terms;
}

-- `create`
unfoldable pub create_term : ℕ → CreateTermDto → Calendar → Outcome Calendar
unfolding assert_valid_range
create_term id dto s = do
  session ← get_session dto.session_id s
  range ← assert_valid_range dto.start_date dto.end_date
  throw_if (not (range_contains session.range range)) bad_request
  assert_term_free dto.session_id dto.name s
  assert_no_term_overlap dto.session_id range none s
  throw_if (or_else dto.is_current false && not session.is_current) conflict
  ok (insert_term id dto range (or_else dto.is_current false) s)

abbrev pub is_renamed_term : Option TermName → Term → Bool
is_renamed_term none existing = false
is_renamed_term (some name) existing = not (same_term name existing.name)

-- `update`; a term's session exists by its foreign key.
unfoldable pub update_term : ℕ → UpdateTermDto → Calendar → Outcome Calendar
unfolding assert_valid_range
update_term id dto s = do
  existing ← get_term id s
  session ← or_throw (find (is_session existing.session_id) s.sessions) internal
  range ←
      assert_valid_range (or_else dto.start_date existing.range.start_date)
        (or_else dto.end_date existing.range.end_date)
  throw_if (not (range_contains session.range range)) bad_request
  unless (not (is_renamed_term dto.name existing))
      (assert_term_free existing.session_id (or_else dto.name existing.name) s)
  unless (is_none dto.start_date && is_none dto.end_date)
      (assert_no_term_overlap existing.session_id range (some id) s)
  ok (
      change_term id
        (λ (t : Term). record t { name = or_else dto.name existing.name; range = range }) s)

-- `setCurrent`
unfoldable pub set_current_term : ℕ → Calendar → Outcome Calendar
set_current_term id s = do
  existing ← get_term id s
  session ← or_throw (find (is_session existing.session_id) s.sessions) internal
  throw_if (not session.is_current) conflict
  ok (
      change_term id (λ (t : Term). record t { is_current = true })
        (record s { terms = clear_terms s.terms }))

-- `remove`
unfoldable pub remove_term : ℕ → Calendar → Outcome Calendar
remove_term id s = do
  existing ← get_term id s
  throw_if existing.is_current conflict
  throw_if (any (λ (f : FeeAnchor). f.term_id == id) s.fee_structures) conflict
  throw_if (includes id s.scored_terms || includes id s.sheet_terms) conflict
  ok (record s { terms = filter (λ t. not (is_term id t)) s.terms })
