-- ===== src/Academics/Sessions.antt =====
-- src/academics/academic-sessions.service.ts: creating, changing, marking and removing sessions. Each
-- handler throws before it writes; what it answers is the row, less the count of its terms.
use edu_gear_back_end.Common.{
  ◌==◌, if◌then◌else◌, or_else, is_none, filter, any, find, bad_request, not_found, conflict,
  Outcome, ok, throw_if, or_throw, ◌>>=◌, ◌>>◌, ℕ, Bool, true, false, not, ◌&&◌, Option, none, some,
  List, ◌∷◌, map,
}
use edu_gear_back_end.Common.Text.{Text, text_eq}
use edu_gear_back_end.Academics.Periods.{
  DateRange, is_wrong_range, ranges_overlap, is_session_name, AcademicSession, Term, FeeAnchor,
  Calendar, is_session, when, date_range,
}

pub record CreateAcademicSessionDto : Type 0 where
  pub name : Text
  pub start_date : ℕ
  pub end_date : ℕ
  pub is_current : Option Bool

pub record UpdateAcademicSessionDto : Type 0 where
  pub name : Option Text
  pub start_date : Option ℕ
  pub end_date : Option ℕ

-- `getOrThrow`
abbrev pub get_session : ℕ → Calendar → Outcome AcademicSession
get_session id s = or_throw (find (is_session id) s.sessions) not_found

-- `assertValid`
unfoldable pub assert_valid : Text → ℕ → ℕ → Outcome DateRange
assert_valid name start end = do
  throw_if (not (is_session_name name)) bad_request
  throw_if (is_wrong_range (date_range start end)) bad_request
  ok (date_range start end)

-- `assertNameFree`
abbrev pub assert_name_free : Text → Calendar → Outcome (Unit {0})
assert_name_free name s =
    throw_if (any (λ (x : AcademicSession). text_eq x.name name) s.sessions) conflict

abbrev pub is_excluded : Option ℕ → ℕ → Bool
is_excluded none id = false
is_excluded (some excluded) id = id == excluded

-- The `where` of `assertNoOverlap`.
abbrev pub overlaps_session : DateRange → Option ℕ → AcademicSession → Bool
overlaps_session range exclude x = not (is_excluded exclude x.id) && ranges_overlap x.range range

-- `assertNoOverlap`
abbrev pub assert_no_overlap : DateRange → Option ℕ → Calendar → Outcome (Unit {0})
assert_no_overlap range exclude s =
    throw_if (any (overlaps_session range exclude) s.sessions) conflict

-- `updateMany({ where: { isCurrent: true }, data: { isCurrent: false } })`
abbrev pub clear_sessions : List AcademicSession → List AcademicSession
clear_sessions = map (λ (x : AcademicSession). record x { is_current = false })

abbrev pub update_session : ℕ → (AcademicSession → AcademicSession) → Calendar → Calendar
update_session id change s = record s {
  sessions = map (λ (x : AcademicSession). if x.id == id then change x else x) s.sessions;
}

-- The transaction of `create`; `id` is the new row's.
abbrev pub insert_session : ℕ → Text → DateRange → Bool → Calendar → Calendar
insert_session id name range current s = record s {
  sessions =
      record { id = id; name = name; range = range; is_current = current }
      ∷ when current clear_sessions s.sessions;
}

-- `create`
unfoldable pub create_session : ℕ → CreateAcademicSessionDto → Calendar → Outcome Calendar
unfolding assert_valid
create_session id dto s = do
  range ← assert_valid dto.name dto.start_date dto.end_date
  assert_name_free dto.name s
  assert_no_overlap range none s
  ok (insert_session id dto.name range (or_else dto.is_current false) s)

abbrev pub is_renamed : Option Text → AcademicSession → Bool
is_renamed none existing = false
is_renamed (some name) existing = not (text_eq name existing.name)

-- A check that is made only in some case.
abbrev pub unless : Bool → Outcome (Unit {0}) → Outcome (Unit {0})
unless test check = if test then ok tt else check

-- `update`
unfoldable pub update : ℕ → UpdateAcademicSessionDto → Calendar → Outcome Calendar
unfolding assert_valid
update id dto s = do
  existing ← get_session id s
  range ←
      assert_valid (or_else dto.name existing.name)
        (or_else dto.start_date existing.range.start_date)
        (or_else dto.end_date existing.range.end_date)
  unless (not (is_renamed dto.name existing)) (assert_name_free (or_else dto.name existing.name) s)
  unless (is_none dto.start_date && is_none dto.end_date) (assert_no_overlap range (some id) s)
  ok (
      update_session id
        (λ (x : AcademicSession). record x { name = or_else dto.name existing.name; range = range })
        s)

-- `setCurrent`
unfoldable pub set_current : ℕ → Calendar → Outcome Calendar
set_current id s = do
  existing ← get_session id s
  ok (
      update_session id (λ (x : AcademicSession). record x { is_current = true })
        (record s { sessions = clear_sessions s.sessions }))

-- `remove`
unfoldable pub remove : ℕ → Calendar → Outcome Calendar
remove id s = do
  existing ← get_session id s
  throw_if existing.is_current conflict
  throw_if (any (λ (t : Term). t.session_id == id) s.terms) conflict
  throw_if (any (λ (f : FeeAnchor). f.session_id == id) s.fee_structures) conflict
  ok (record s { sessions = filter (λ x. not (is_session id x)) s.sessions })
