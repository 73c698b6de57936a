-- ===== src/Academics/Periods.antt =====
-- src/academics/date-range.ts and src/academics/academic-session-rules.ts, and the rows of
-- prisma/schema.prisma that sessions and terms work on, those of one school. An instant is a number of
-- milliseconds since 1970; a reason that is not null is `true`, since only its text is left out.
use edu_gear_back_end.Common.{
  leb, ◌==◌, if◌then◌else◌, ℕ, ◌+◌, ◌-◌, ◌*◌, ◌/◌, Bool, true, false, ◌&&◌, List, [], ◌∷◌,
}
use edu_gear_back_end.Common.Text.{Text}

pub record DateRange : Type 0 where
  pub start_date : ℕ
  pub end_date : ℕ

abbrev pub day : ℕ
day = 86400000

-- `toDateOnly`: midnight, UTC.
abbrev pub to_date_only : ℕ → ℕ
to_date_only value = value / day * day

-- `validateRange(…) !== null`
abbrev pub is_wrong_range : DateRange → Bool
is_wrong_range range = leb range.end_date range.start_date

abbrev pub ranges_overlap : DateRange → DateRange → Bool
ranges_overlap a b = leb a.start_date b.end_date && leb b.start_date a.end_date

abbrev pub range_contains : DateRange → DateRange → Bool
range_contains outer inner =
    leb outer.start_date inner.start_date && leb inner.end_date outer.end_date

abbrev pub is_year_digit : ℕ → Bool
is_year_digit c = leb b'0' c && leb c b'9'

-- `Number` of four digits.
abbrev pub year_of : ℕ → ℕ → ℕ → ℕ → ℕ
year_of a b c d = (a - b'0') * 1000 + (b - b'0') * 100 + (c - b'0') * 10 + (d - b'0')

-- `validateSessionName(…) === null`: `/^(\d{4})\/(\d{4})$/`, and consecutive years.
unfoldable pub is_session_name : Text → Bool
is_session_name (a ∷ b ∷ c ∷ d ∷ slash ∷ e ∷ f ∷ g ∷ h ∷ []) =
    is_year_digit a
    && is_year_digit b
    && is_year_digit c
    && is_year_digit d
    && slash == b'/'
    && is_year_digit e
    && is_year_digit f
    && is_year_digit g
    && is_year_digit h
    && year_of e f g h == year_of a b c d + 1
is_session_name _ = false

pub data TermName : Type 0 where
  first_term second_term third_term : TermName

abbrev pub same_term : TermName → TermName → Bool
same_term first_term first_term = true
same_term second_term second_term = true
same_term third_term third_term = true
same_term _ _ = false

pub record AcademicSession : Type 0 where
  pub id : ℕ
  pub name : Text
  pub range : DateRange
  pub is_current : Bool

pub record Term : Type 0 where
  pub id : ℕ
  pub session_id : ℕ
  pub name : TermName
  pub range : DateRange
  pub is_current : Bool

-- A fee structure hangs on a session and a term; of scores and sheets the term is read.
pub record FeeAnchor : Type 0 where
  pub session_id : ℕ
  pub term_id : ℕ

pub record Calendar : Type 0 where
  pub sessions : List AcademicSession
  pub terms : List Term
  pub fee_structures : List FeeAnchor
  pub scored_terms : List ℕ
  pub sheet_terms : List ℕ

abbrev pub is_session : ℕ → AcademicSession → Bool
is_session id x = x.id == id

abbrev pub is_term : ℕ → Term → Bool
is_term id x = x.id == id

abbrev pub is_current_session : AcademicSession → Bool
is_current_session x = x.is_current

abbrev pub is_current_term : Term → Bool
is_current_term x = x.is_current

-- `if (test) …` before a write.
abbrev pub when {ℓ} : {A : Type ℓ} → Bool → (A → A) → A → A
when test change a = if test then change a else a

-- `assertValid` and `assertValidRange`, the range.
abbrev pub date_range : ℕ → ℕ → DateRange
date_range start end = record { start_date = to_date_only start; end_date = to_date_only end }
