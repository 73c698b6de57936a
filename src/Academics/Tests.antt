-- ===== src/Academics/Tests.antt =====
-- A school with two sessions and one current term.
use edu_gear_back_end.Common.{
  find, count, Has, All, ok, ℕ, ◌*◌, ◌≤◌, ◌≡◌, refl, sym, inl, inr, true, false, ◌&&◌, none, some,
  [], ◌∷◌, arith,
}
use edu_gear_back_end.Common.Text.{codes}
use edu_gear_back_end.Academics.Periods.{
  DateRange, day, range_contains, is_session_name, first_term, second_term, AcademicSession, Term,
  Calendar, is_session, is_term,
}
use edu_gear_back_end.Academics.Sessions.{update, set_current}
use edu_gear_back_end.Academics.Terms.{CreateTermDto, insert_term, create_term}
use edu_gear_back_end.Academics.Marking.{IsMarked}
use edu_gear_back_end.Academics.Placing.{IsPlaced, create_term-IsPlaced}
use edu_gear_back_end.Academics.Days.{runs_at, IsWholeDays}
use edu_gear_back_end.Academics.Histories.{term_created, here, next, Reach-IsMarked}
use mathlib.Core.Path.{subst}
use edu_gear_back_end.Academics.Scheduling.{IsDated, IsTimetabled}
use edu_gear_back_end.Academics.Timetables.{Reach-IsTimetabled}
use edu_gear_back_end.Academics.Drift.{set_current-stranded, update-outside}

abbrev days : ℕ → ℕ → DateRange
days start end = record { start_date = start * day; end_date = end * day }

abbrev old_session : AcademicSession
old_session = record { id = 1; name = codes "2024/2025"; range = days 100 400; is_current = true }

abbrev new_session : AcademicSession
new_session = record { id = 2; name = codes "2025/2026"; range = days 465 765; is_current = false }

abbrev term : Term
term = record { id = 5; session_id = 1; name = first_term; range = days 110 200; is_current = true }

abbrev calendar : Calendar
calendar = record {
  sessions = old_session ∷ new_session ∷ [];
  terms = term ∷ [];
  fee_structures = [];
  scored_terms = [];
  sheet_terms = [];
}

abbrev second : CreateTermDto
second = record {
  session_id = 1;
  name = second_term;
  start_date = 210 * day;
  end_date = 300 * day;
  is_current = some true;
}

abbrev extended : Calendar
extended = insert_term 6 second (days 210 300) true calendar

unique_sessions : (id : ℕ) → count (is_session id) calendar.sessions ≤ 1
unique_sessions id = ground arith

unique_terms : (id : ℕ) → count (is_term id) calendar.terms ≤ 1
unique_terms id = ground arith

calendar-IsMarked : IsMarked calendar
calendar-IsMarked = record {
  one_session = omega arith;
  one_term = omega arith;
  session_ids = unique_sessions;
  term_ids = unique_terms;
}

second_created : create_term 6 second calendar ≡ ok extended
unfolding create_term
second_created = refl

Reach-IsMarked_example : IsMarked extended
Reach-IsMarked_example =
    Reach-IsMarked (next here (term_created 6 second refl second_created)) calendar-IsMarked

create_term-IsPlaced_example : IsPlaced 6 second (250 * day) calendar extended
create_term-IsPlaced_example =
    create_term-IsPlaced 6 second (250 * day) calendar extended second_created (omega arith)
      (omega arith)

set_current-stranded_example :
    (s' : Calendar) × (set_current 2 calendar ≡ ok s')
    × Has term s'.terms
    × (term.is_current ≡ true)
    × (count (λ (y : AcademicSession). is_session 1 y && y.is_current) s'.sessions ≡ 0)
set_current-stranded_example =
    set_current-stranded 2 calendar new_session term refl (inl refl) refl refl

named_old : is_session_name old_session.name ≡ true
unfolding is_session_name
named_old = refl

update-outside_example :
    (s' : Calendar) × (y : AcademicSession) × (update 1
        (record { name = none; start_date = some (150 * day); end_date = some (400 * day) })
        calendar
      ≡ ok s')
    × (find (is_session 1) s'.sessions ≡ some y)
    × Has term s'.terms
    × (range_contains y.range term.range ≡ false)
update-outside_example =
    update-outside 1 (150 * day) (400 * day) calendar old_session term refl named_old refl refl
      (inl refl) refl refl

calendar-IsTimetabled : IsTimetabled calendar
calendar-IsTimetabled = record {
  apart = ((refl, tt), (tt, tt));
  dated = λ x h. elim h [
    | inl it ↦ subst IsDated (sym it) refl
    | inr k ↦ elim k [ inl it ↦ subst IsDated (sym it) refl | inr none_left ↦ elim none_left [ ] ]
  ];
}

Reach-IsTimetabled_example :
    IsTimetabled extended
    × (count (runs_at (250 * day)) extended.sessions ≤ 1)
    × All IsWholeDays extended.sessions
Reach-IsTimetabled_example =
    Reach-IsTimetabled (next here (term_created 6 second refl second_created)) calendar-IsMarked
      calendar-IsTimetabled (250 * day)
