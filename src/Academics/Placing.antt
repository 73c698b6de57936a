-- ===== src/Academics/Placing.antt =====
-- Where `create` of src/academics/terms.service.ts puts a term in the calendar of its session, day by
-- day.
use mathlib.Core.Path.{subst}
use edu_gear_back_end.Common.{
  leb, ◌==◌, if◌then◌else◌, ==_iff, ==_refl, or_else, any, find, count, Has, All, ok, ℕ, suc, ◌+◌,
  ◌%◌, ◌≤◌, ◌<◌, ◌≡◌, refl, sym, ap, ◌∙◌, Bool, true, false, not, ◌&&◌, none, some, List, ◌∷◌,
  arith,
}
use edu_gear_back_end.Academics.Periods.{
  DateRange, day, to_date_only, TermName, first_term, second_term, third_term, same_term,
  AcademicSession, Term, Calendar, is_session, is_term, is_current_term, when, date_range,
}
use edu_gear_back_end.Academics.Terms.{
  CreateTermDto, overlaps_term, clear_terms, insert_term, create_term,
}
use edu_gear_back_end.Academics.Inserting.{
  count-any, when-cleared, markers-insert_term, kept-insert_term,
}
use edu_gear_back_end.Academics.Creating.{create_term-IsCreation}

-- The term of a session that an instant falls in.
abbrev pub has_instant : ℕ → ℕ → Term → Bool
has_instant session instant t =
    t.session_id == session && leb t.range.start_date instant && leb instant t.range.end_date

-- The term of a session with a name.
abbrev pub has_name : ℕ → TermName → Term → Bool
has_name session name t = t.session_id == session && same_term t.name name

-- An instant at midnight, of the day of another.
pub record IsMidnightOf (instant midnight : ℕ) : Type 0 where
  pub whole : midnight % day ≡ 0
  pub not_later : midnight ≤ instant
  pub same_day : instant < midnight + day

-- The place of a new term, at an instant of it.
pub record IsPlaced (id : ℕ) (dto : CreateTermDto) (instant : ℕ) (s s' : Calendar) : Type 0 where
  pub term : Term
  pub session : AcademicSession
  pub found : find (is_term id) s'.terms ≡ some term
  pub held : find (is_session dto.session_id) s'.sessions ≡ some session
  pub owned : term.session_id ≡ dto.session_id
  pub named : term.name ≡ dto.name
  pub starts : IsMidnightOf dto.start_date term.range.start_date
  pub ends : IsMidnightOf dto.end_date term.range.end_date
  pub forward : term.range.start_date < term.range.end_date
  pub after_start : session.range.start_date ≤ instant
  pub before_end : instant ≤ session.range.end_date
  pub alone : count (has_instant dto.session_id instant) s'.terms ≡ 1
  pub only_name : count (has_name dto.session_id dto.name) s'.terms ≡ 1
  pub marked : term.is_current ≡ or_else dto.is_current false
  pub markers :
      count is_current_term s'.terms
      ≡ (if or_else dto.is_current false then 1 else count is_current_term s.terms)
  pub agrees : (term.is_current && not session.is_current) ≡ false
  pub kept :
      All
        (λ (t : Term).
          Has
            (record t { is_current = if or_else dto.is_current false then false else t.is_current })
            s'.terms)
        s.terms

to_date_only-IsMidnightOf : (value : ℕ) → IsMidnightOf value (to_date_only value)
to_date_only-IsMidnightOf value = record {
  whole = omega arith;
  not_later = omega arith;
  same_day = omega arith;
}

-- A term that does not overlap the range has none of its instants.
free-has_instant :
    (session instant : ℕ) (range : DateRange) (t : Term)
    → range.start_date ≤ instant
    → instant ≤ range.end_date
    → overlaps_term session range none t ≡ false
    → has_instant session instant t ≡ false
free-has_instant session instant range t low high e = ground arith

-- A term that is created, at any instant from its first midnight to its last: it is found by its id in
-- its session, under its name, with its dates at the midnights of the days given, the first before the last; the
-- instant is within the session and in no other term of it; no other term of the session has its name;
-- and if it was to be current it is the only current term, its session being current, while otherwise
-- it is not and as many terms are current as before. Every earlier term stays as it was, but for the
-- marker if the new term takes it.
pub create_term-IsPlaced :
    (id : ℕ) (dto : CreateTermDto) (instant : ℕ) (s s' : Calendar)
    → create_term id dto s ≡ ok s'
    → to_date_only dto.start_date ≤ instant
    → instant ≤ to_date_only dto.end_date
    → IsPlaced id dto instant s s'
create_term-IsPlaced id dto instant s s' e low high =
    let k = create_term-IsCreation id dto s s' e in
    let current = or_else dto.is_current false in
    let range = date_range dto.start_date dto.end_date in
    let new : Term = record {
      id = id;
      session_id = dto.session_id;
      name = dto.name;
      range = range;
      is_current = current;
    } in
    let old = when current clear_terms s.terms in
    let written : s' ≡ insert_term id dto range current s =
      k.written ∙ ap (λ (r : DateRange). insert_term id dto r current s) k.dates in
    let rows : s'.terms ≡ new ∷ old = ap (λ (x : Calendar). x.terms) written in
    let free : any (overlaps_term dto.session_id range none) s.terms ≡ false =
      ap (λ (r : DateRange). any (overlaps_term dto.session_id r none) s.terms) (sym k.dates)
      ∙ k.apart in
    let first = ap (λ (r : DateRange). r.start_date) k.dates in
    let last = ap (λ (r : DateRange). r.end_date) k.dates in
    let others : count (has_instant dto.session_id instant) old ≡ 0 =
      when-cleared current (has_instant dto.session_id instant) s.terms (λ t. refl)
      ∙ count-any (overlaps_term dto.session_id range none) (has_instant dto.session_id instant)
          s.terms (λ t e. free-has_instant dto.session_id instant range t low high e) free in
    let names : count (has_name dto.session_id dto.name) old ≡ 0 =
      when-cleared current (has_name dto.session_id dto.name) s.terms (λ t. refl)
      ∙ count-any (has_name dto.session_id dto.name) (has_name dto.session_id dto.name) s.terms
          (λ t e. e) k.unnamed in
    record {
      term = new;
      session = k.session;
      found = ap (find (is_term id)) rows ∙ rw (==_refl id) refl;
      held = ap (λ (x : Calendar). find (is_session dto.session_id) x.sessions) written ∙ k.found;
      owned = refl;
      named = refl;
      starts = to_date_only-IsMidnightOf dto.start_date;
      ends = to_date_only-IsMidnightOf dto.end_date;
      forward = omega (arith, k.forward, first, last);
      after_start = omega (arith, k.starts, first, low);
      before_end = omega (arith, k.ends, last, high);
      alone =
          ap (count (has_instant dto.session_id instant)) rows
          ∙ new_instant dto.session_id instant new old refl low high others;
      only_name =
          ap (count (has_name dto.session_id dto.name)) rows
          ∙ new_name dto.session_id dto.name new old refl refl names;
      marked = refl;
      markers = ap (count is_current_term) rows ∙ markers-insert_term current s.terms new refl;
      agrees = k.current;
      kept =
          subst
            (λ ts.
              All
                (λ (t : Term).
                  Has (record t { is_current = if current then false else t.is_current }) ts)
                s.terms)
            (sym rows) (kept-insert_term current new s.terms);
    }
  where
    new_instant :
        (session instant : ℕ) (t : Term) (ts : List Term)
        → t.session_id ≡ session
        → t.range.start_date ≤ instant
        → instant ≤ t.range.end_date
        → count (has_instant session instant) ts ≡ 0
        → count (has_instant session instant) (t ∷ ts) ≡ 1
    new_instant session instant t ts own low high rest = ground arith

    same_term_refl : (n : TermName) → same_term n n ≡ true
    same_term_refl first_term = refl
    same_term_refl second_term = refl
    same_term_refl third_term = refl

    new_name :
        (session : ℕ) (name : TermName) (t : Term) (ts : List Term)
        → t.session_id ≡ session
        → t.name ≡ name
        → count (has_name session name) ts ≡ 0
        → count (has_name session name) (t ∷ ts) ≡ 1
    new_name session name t ts own named rest =
        let same_id = (==_iff t.session_id session).1 own in
        let same_name : same_term t.name name ≡ true =
          ap (λ (n : TermName). same_term n name) named ∙ same_term_refl name in
        rw (same_id, same_name) (ap suc rest)
