-- ===== src/Academics/Histories.antt =====
-- Histories of the academic calendar: any sequence of the operations of
-- src/academics/academic-sessions.service.ts and src/academics/terms.service.ts, one at a time.

use edu_gear_back_end.Common.{count, ok, ℕ, ◌≡◌}
use edu_gear_back_end.Academics.Periods.{Calendar, is_session, is_term}
use edu_gear_back_end.Academics.Sessions.{
  CreateAcademicSessionDto, UpdateAcademicSessionDto, create_session, update, set_current, remove,
}
use edu_gear_back_end.Academics.Terms.{
  CreateTermDto, UpdateTermDto, create_term, update_term, set_current_term, remove_term,
}
use edu_gear_back_end.Academics.Marking.{IsMarked}
use edu_gear_back_end.Academics.Keeping.{
  create_session-IsMarked, update-IsMarked, set_current-IsMarked, remove-IsMarked,
  create_term-IsMarked, update_term-IsMarked, set_current_term-IsMarked, remove_term-IsMarked,
}

pub data Step (s s' : Calendar) : Type 0 where
  session_created :
      (id : ℕ) (dto : CreateAcademicSessionDto)
      → count (is_session id) s.sessions ≡ 0
      → create_session id dto s ≡ ok s'
      → Step s s'
  session_updated : (id : ℕ) (dto : UpdateAcademicSessionDto) → update id dto s ≡ ok s' → Step s s'
  session_marked : (id : ℕ) → set_current id s ≡ ok s' → Step s s'
  session_removed : (id : ℕ) → remove id s ≡ ok s' → Step s s'
  term_created :
      (id : ℕ) (dto : CreateTermDto)
      → count (is_term id) s.terms ≡ 0
      → create_term id dto s ≡ ok s'
      → Step s s'
  term_updated : (id : ℕ) (dto : UpdateTermDto) → update_term id dto s ≡ ok s' → Step s s'
  term_marked : (id : ℕ) → set_current_term id s ≡ ok s' → Step s s'
  term_removed : (id : ℕ) → remove_term id s ≡ ok s' → Step s s'

pub data Reach (s : Calendar) : Calendar → Type 0 where
  here : Reach s s
  next : {t u : Calendar} → Reach s t → Step t u → Reach s u

Step-IsMarked : {s s' : Calendar} → Step s s' → IsMarked s → IsMarked s'
Step-IsMarked {s} {s'} (session_created id dto fresh e) =
    create_session-IsMarked id dto s s' fresh e
Step-IsMarked {s} {s'} (session_updated id dto e) = update-IsMarked id dto s s' e
Step-IsMarked {s} {s'} (session_marked id e) = set_current-IsMarked id s s' e
Step-IsMarked {s} {s'} (session_removed id e) = remove-IsMarked id s s' e
Step-IsMarked {s} {s'} (term_created id dto fresh e) = create_term-IsMarked id dto s s' fresh e
Step-IsMarked {s} {s'} (term_updated id dto e) = update_term-IsMarked id dto s s' e
Step-IsMarked {s} {s'} (term_marked id e) = set_current_term-IsMarked id s s' e
Step-IsMarked {s} {s'} (term_removed id e) = remove_term-IsMarked id s s' e

-- After any history of creations under new ids, changes, markings and removals of sessions and terms,
-- one at a time, from a calendar with at most one current session, at most one current term and
-- unique ids, the same holds.
pub Reach-IsMarked : {s s' : Calendar} → Reach s s' → IsMarked s → IsMarked s'
Reach-IsMarked here m = m
Reach-IsMarked (next r st) m = Step-IsMarked st (Reach-IsMarked r m)
