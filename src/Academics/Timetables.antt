-- ===== src/Academics/Timetables.antt =====
-- Sessions that share no day, along any history of the operations of
-- src/academics/academic-sessions.service.ts and src/academics/terms.service.ts.
use mathlib.Core.Path.{subst}
use edu_gear_back_end.Academics.Terms.{
  UpdateTermDto, get_term, assert_valid_range, assert_term_free, assert_no_term_overlap,
  change_term, is_renamed_term, update_term, set_current_term, remove_term,
}
use edu_gear_back_end.Academics.Creating.{create_term-IsCreation}
use edu_gear_back_end.Academics.Histories.{
  Step, session_created, session_updated, session_marked, session_removed, term_created,
  term_updated, term_marked, term_removed, Reach, here, next, Reach-IsMarked,
}
use edu_gear_back_end.Academics.Marking.{IsMarked}
use edu_gear_back_end.Academics.Keeping.{ok-eq-ok}
use edu_gear_back_end.Common.{
  ◌==◌, if◌then◌else◌, or_else, is_none, any, find, count, Has, All, includes, bad_request,
  conflict, internal, Outcome, ok, throw_if, or_throw, ◌>>=◌, >>=-eq-ok, ◌>>◌, ℕ, ◌≤◌, ◌≡◌, refl,
  sym, ap, Bool, true, false, not, ◌&&◌, ◌||◌, some,
}
use edu_gear_back_end.Common.Members.{Has-filter}
use edu_gear_back_end.Academics.Periods.{
  DateRange, range_contains, AcademicSession, Term, FeeAnchor, Calendar, is_session,
}
use edu_gear_back_end.Academics.Sessions.{get_session, clear_sessions, unless, set_current, remove}
use edu_gear_back_end.Academics.Days.{runs_at, IsWholeDays, count-runs_at, All-IsWholeDays}
use edu_gear_back_end.Academics.Apart.{IsApart, map-IsApart, filter-IsApart}
use edu_gear_back_end.Academics.Scheduling.{
  IsTimetabled, changed-IsDated, cleared-IsTimetabled, create_session-IsTimetabled,
  update-IsTimetabled,
}

-- What a block leaves if it returns.
abbrev Leaves : (Calendar → Type 0) → Outcome Calendar → Type 0
Leaves P m = (s' : Calendar) → m ≡ ok s' → P s'

-- The rest of a block leaves it, so the block does.
chain :
    {A : Type 0} (P : Calendar → Type 0) (m : Outcome A) (rest : A → Outcome Calendar)
    → ((a : A) → Leaves P (rest a))
    → Leaves P (m >>= rest)
chain P m rest leaves s' e = let (a, _, e₁) = >>=-eq-ok m rest e in leaves a s' e₁

set_current-IsTimetabled :
    (id : ℕ) (s : Calendar) → IsTimetabled s → Leaves IsTimetabled (set_current id s)
unfolding set_current
set_current-IsTimetabled id s t = chain IsTimetabled (get_session id s) _ (λ existing s' e.
    let f = λ (x : AcademicSession). record x { is_current = true } in
    let c = cleared-IsTimetabled s t in
    let old = clear_sessions s.sessions in
    subst IsTimetabled (ok-eq-ok e) (record {
      apart =
          map-IsApart (λ (x : AcademicSession). if x.id == id then f x else x)
            (λ x. same_dates (x.id == id) x) old c.apart;
      dated = changed-IsDated f (is_session id) old (λ x d. d) c.dated;
    }))
  where
    same_dates :
        (b : Bool) (x : AcademicSession)
        → (if b then record x { is_current = true } else x).range ≡ x.range
    same_dates true x = refl
    same_dates false x = refl

remove-IsTimetabled : (id : ℕ) (s : Calendar) → IsTimetabled s → Leaves IsTimetabled (remove id s)
unfolding remove
remove-IsTimetabled id s t = chain IsTimetabled (get_session id s) _ (λ existing.
    chain IsTimetabled (throw_if existing.is_current conflict) _ (λ a.
      chain IsTimetabled (throw_if (any (λ (t : Term). t.session_id == id) s.terms) conflict) _
        (λ b.
          chain IsTimetabled
            (throw_if (any (λ (f : FeeAnchor). f.session_id == id) s.fee_structures) conflict) _
            (λ c s' e. subst IsTimetabled (ok-eq-ok e) (record {
              apart = filter-IsApart (λ x. not (is_session id x)) s.sessions t.apart;
              dated =
                  λ y h. t.dated y ((Has-filter (λ x. not (is_session id x)) s.sessions y).0 h).0;
            })))))

-- Terms do not matter.
same_sessions-IsTimetabled :
    (s s' : Calendar) → s'.sessions ≡ s.sessions → IsTimetabled s → IsTimetabled s'
same_sessions-IsTimetabled s s' same_rows t = record {
  apart = subst IsApart (sym same_rows) t.apart;
  dated = λ y h. t.dated y (subst (Has y) same_rows h);
}

module _ (s : Calendar) where
  abbrev HasSameSessions : Calendar → Type 0
  HasSameSessions s' = s'.sessions ≡ s.sessions

  update_term-HasSameSessions :
      (id : ℕ) (dto : UpdateTermDto) → Leaves HasSameSessions (update_term id dto s)
  unfolding update_term
  update_term-HasSameSessions id dto = chain HasSameSessions (get_term id s) _ (λ existing.
      chain HasSameSessions (or_throw (find (is_session existing.session_id) s.sessions) internal) _
        (λ session.
          chain HasSameSessions
            (assert_valid_range (or_else dto.start_date existing.range.start_date)
              (or_else dto.end_date existing.range.end_date))
            _
            (λ range.
              chain HasSameSessions
                (throw_if (not (range_contains session.range range)) bad_request) _
                (λ a. checked existing range))))
    where
      checked :
          (existing : Term) (range : DateRange)
          → Leaves HasSameSessions (
              unless
                (not (is_renamed_term dto.name existing))
                (assert_term_free existing.session_id (or_else dto.name existing.name) s)
              >> (unless
                    (is_none dto.start_date && is_none dto.end_date)
                    (assert_no_term_overlap existing.session_id range (some id) s)
                  >> ok (
                      change_term id
                        (λ (t : Term). record t {
                          name = or_else dto.name existing.name;
                          range = range;
                        })
                        s)))
      checked existing range =
          chain HasSameSessions
            (unless (not (is_renamed_term dto.name existing))
              (assert_term_free existing.session_id (or_else dto.name existing.name) s))
            _
            (λ b.
              chain HasSameSessions
                (unless (is_none dto.start_date && is_none dto.end_date)
                  (assert_no_term_overlap existing.session_id range (some id) s))
                _ (λ c s' e. ap (λ (x : Calendar). x.sessions) (sym (ok-eq-ok e))))

  set_current_term-HasSameSessions : (id : ℕ) → Leaves HasSameSessions (set_current_term id s)
  unfolding set_current_term
  set_current_term-HasSameSessions id = chain HasSameSessions (get_term id s) _ (λ existing.
      chain HasSameSessions (or_throw (find (is_session existing.session_id) s.sessions) internal) _
        (λ session.
          chain HasSameSessions (throw_if (not session.is_current) conflict) _
            (λ c s' e. ap (λ (x : Calendar). x.sessions) (sym (ok-eq-ok e)))))

  remove_term-HasSameSessions : (id : ℕ) → Leaves HasSameSessions (remove_term id s)
  unfolding remove_term
  remove_term-HasSameSessions id = chain HasSameSessions (get_term id s) _ (λ existing.
      chain HasSameSessions (throw_if existing.is_current conflict) _ (λ b.
        chain HasSameSessions
          (throw_if (any (λ (f : FeeAnchor). f.term_id == id) s.fee_structures) conflict) _
          (λ c.
            chain HasSameSessions
              (throw_if (includes id s.scored_terms || includes id s.sheet_terms) conflict) _
              (λ d s' e. ap (λ (x : Calendar). x.sessions) (sym (ok-eq-ok e))))))

Step-IsTimetabled : {s s' : Calendar} → Step s s' → IsMarked s → IsTimetabled s → IsTimetabled s'
Step-IsTimetabled {s} {s'} (session_created id dto fresh e) m t =
    create_session-IsTimetabled id dto s s' e t
Step-IsTimetabled {s} {s'} (session_updated id dto e) m t = update-IsTimetabled id dto s s' m e t
Step-IsTimetabled {s} {s'} (session_marked id e) m t = set_current-IsTimetabled id s t s' e
Step-IsTimetabled {s} {s'} (session_removed id e) m t = remove-IsTimetabled id s t s' e
Step-IsTimetabled {s} {s'} (term_created id dto fresh e) m t =
    same_sessions-IsTimetabled s s'
      (ap (λ (x : Calendar). x.sessions) (create_term-IsCreation id dto s s' e).written) t
Step-IsTimetabled {s} {s'} (term_updated id dto e) m t =
    same_sessions-IsTimetabled s s' (update_term-HasSameSessions s id dto s' e) t
Step-IsTimetabled {s} {s'} (term_marked id e) m t =
    same_sessions-IsTimetabled s s' (set_current_term-HasSameSessions s id s' e) t
Step-IsTimetabled {s} {s'} (term_removed id e) m t =
    same_sessions-IsTimetabled s s' (remove_term-HasSameSessions s id s' e) t

Reach-keeps : {s s' : Calendar} → Reach s s' → IsMarked s → IsTimetabled s → IsTimetabled s'
Reach-keeps here m t = t
Reach-keeps (next r st) m t = Step-IsTimetabled st (Reach-IsMarked r m) (Reach-keeps r m t)

-- After any history of creations under new ids, changes, markings and removals of sessions and terms,
-- one at a time, from a calendar with unique ids, at most one current session and term, and sessions
-- that have their dates at midnight and share no day, no two sessions share a day, and their dates are
-- at midnight: every instant is within the dates of at most one session, and each date is a whole
-- number of days.
pub Reach-IsTimetabled :
    {s s' : Calendar}
    → Reach s s'
    → IsMarked s
    → IsTimetabled s
    → (instant : ℕ)
    → IsTimetabled s' × (count (runs_at instant) s'.sessions ≤ 1) × All IsWholeDays s'.sessions
Reach-IsTimetabled {s} {s'} r m t instant =
    let kept = Reach-keeps r m t in
    (kept, count-runs_at instant s'.sessions kept.apart, All-IsWholeDays s'.sessions kept.dated)
