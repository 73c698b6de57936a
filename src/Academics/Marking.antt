-- ===== src/Academics/Marking.antt =====
-- The markers of the current session and the current term, along any sequence of the operations of
-- src/academics/academic-sessions.service.ts and src/academics/terms.service.ts.
use edu_gear_back_end.Common.Text.{Text}
use edu_gear_back_end.Common.{
  ◌==◌, count, ℕ, ◌≤◌, ◌≡◌, refl, ap, Bool, true, false, List, [], ◌∷◌, arith,
}
use edu_gear_back_end.Common.Members.{count-map_same}
use edu_gear_back_end.Academics.Counting.{count-if, count-new, when-count, moved}
use edu_gear_back_end.Academics.Periods.{
  DateRange, AcademicSession, Term, Calendar, is_session, is_term, is_current_session,
  is_current_term, when,
}
use edu_gear_back_end.Academics.Sessions.{clear_sessions, update_session, insert_session}
use edu_gear_back_end.Academics.Terms.{CreateTermDto, clear_terms, change_term, insert_term}

-- A marker is on at most one session and on at most one term, and ids are unique.
pub record IsMarked (s : Calendar) : Type 0 where
  pub one_session : count is_current_session s.sessions ≤ 1
  pub one_term : count is_current_term s.terms ≤ 1
  pub session_ids : (id : ℕ) → count (is_session id) s.sessions ≤ 1
  pub term_ids : (id : ℕ) → count (is_term id) s.terms ≤ 1

cleared_sessions : (xs : List AcademicSession) → count is_current_session (clear_sessions xs) ≡ 0
cleared_sessions [] = refl
cleared_sessions (x ∷ xs) = cleared_sessions xs

pub cleared_terms : (xs : List Term) → count is_current_term (clear_terms xs) ≡ 0
cleared_terms [] = refl
cleared_terms (x ∷ xs) = cleared_terms xs

pub insert_session-IsMarked :
    (id : ℕ) (name : Text) (range : DateRange) (current : Bool) (s : Calendar)
    → count (is_session id) s.sessions ≡ 0
    → IsMarked s
    → IsMarked (insert_session id name range current s)
insert_session-IsMarked id name range current s fresh m = record {
  one_session = one current;
  one_term = m.one_term;
  session_ids = λ k.
      count-new id k is_session
        (record { id = id; name = name; range = range; is_current = current })
        (when current clear_sessions s.sessions) (λ n. refl) (omega (arith, kept id, fresh))
        (λ n. omega (arith, kept n, m.session_ids n));
  term_ids = m.term_ids;
}
  where
    kept :
        (n : ℕ)
        → count (is_session n) (when current clear_sessions s.sessions)
          ≤ count (is_session n) s.sessions
    kept n =
        when-count current (is_session n) (λ (x : AcademicSession). record x { is_current = false })
          s.sessions (λ x e. e)

    one : (b : Bool) → count is_current_session (insert_session id name range b s).sessions ≤ 1
    one true = rw (cleared_sessions s.sessions) (omega arith)
    one false = m.one_session

pub insert_term-IsMarked :
    (id : ℕ) (dto : CreateTermDto) (range : DateRange) (current : Bool) (s : Calendar)
    → count (is_term id) s.terms ≡ 0
    → IsMarked s
    → IsMarked (insert_term id dto range current s)
insert_term-IsMarked id dto range current s fresh m = record {
  one_session = m.one_session;
  one_term = one current;
  session_ids = m.session_ids;
  term_ids = λ k.
      count-new id k is_term
        (record {
          id = id;
          session_id = dto.session_id;
          name = dto.name;
          range = range;
          is_current = current;
        })
        (when current clear_terms s.terms) (λ n. refl) (omega (arith, kept id, fresh))
        (λ n. omega (arith, kept n, m.term_ids n));
}
  where
    kept :
        (n : ℕ) → count (is_term n) (when current clear_terms s.terms) ≤ count (is_term n) s.terms
    kept n =
        when-count current (is_term n) (λ (x : Term). record x { is_current = false }) s.terms
          (λ x e. e)

    one : (b : Bool) → count is_current_term (insert_term id dto range b s).terms ≤ 1
    one true = rw (cleared_terms s.terms) (omega arith)
    one false = m.one_term

-- A change of one session that keeps its id and its marker.
pub update_session-IsMarked :
    (id : ℕ) (f : AcademicSession → AcademicSession) (s : Calendar)
    → ((x : AcademicSession) → (f x).id ≡ x.id)
    → ((x : AcademicSession) → (f x).is_current ≡ x.is_current)
    → IsMarked s
    → IsMarked (update_session id f s)
update_session-IsMarked id f s same_id same_marker m = record {
  one_session =
      rw (count-if is_current_session (is_session id) f same_marker s.sessions) m.one_session;
  one_term = m.one_term;
  session_ids = λ k.
      rw (count-if (is_session k) (is_session id) f (λ x. ap (λ n. n == k) (same_id x)) s.sessions)
        (m.session_ids k);
  term_ids = m.term_ids;
}

pub change_term-IsMarked :
    (id : ℕ) (f : Term → Term) (s : Calendar)
    → ((x : Term) → (f x).id ≡ x.id)
    → ((x : Term) → (f x).is_current ≡ x.is_current)
    → IsMarked s
    → IsMarked (change_term id f s)
change_term-IsMarked id f s same_id same_marker m = record {
  one_session = m.one_session;
  one_term = rw (count-if is_current_term (is_term id) f same_marker s.terms) m.one_term;
  session_ids = m.session_ids;
  term_ids = λ k.
      rw (count-if (is_term k) (is_term id) f (λ x. ap (λ n. n == k) (same_id x)) s.terms)
        (m.term_ids k);
}

pub mark_session-IsMarked :
    (id : ℕ) (s : Calendar)
    → IsMarked s
    → IsMarked (
        update_session id
          (λ (x : AcademicSession). record x { is_current = true })
          (record s { sessions = clear_sessions s.sessions }))
mark_session-IsMarked id s m = record {
  one_session = omega (
    arith,
    m.session_ids id,
    moved is_current_session (is_session id)
        (λ (x : AcademicSession). record x { is_current = true })
        (λ (x : AcademicSession). record x { is_current = false }) s.sessions (λ x. refl)
        (λ x. refl),
  );
  one_term = m.one_term;
  session_ids = λ k. omega (
    arith,
    m.session_ids k,
    count-if (is_session k) (is_session id)
        (λ (x : AcademicSession). record x { is_current = true }) (λ x. refl)
        (clear_sessions s.sessions),
    count-map_same (is_session k) (λ (x : AcademicSession). record x { is_current = false })
        (λ x. refl) s.sessions,
  );
  term_ids = m.term_ids;
}

pub mark_term-IsMarked :
    (id : ℕ) (s : Calendar)
    → IsMarked s
    → IsMarked (
        change_term id
          (λ (t : Term). record t { is_current = true })
          (record s { terms = clear_terms s.terms }))
mark_term-IsMarked id s m = record {
  one_session = m.one_session;
  one_term = omega (
    arith,
    m.term_ids id,
    moved is_current_term (is_term id) (λ (x : Term). record x { is_current = true })
        (λ (x : Term). record x { is_current = false }) s.terms (λ x. refl) (λ x. refl),
  );
  session_ids = m.session_ids;
  term_ids = λ k. omega (
    arith,
    m.term_ids k,
    count-if (is_term k) (is_term id) (λ (x : Term). record x { is_current = true }) (λ x. refl)
        (clear_terms s.terms),
    count-map_same (is_term k) (λ (x : Term). record x { is_current = false }) (λ x. refl) s.terms,
  );
}
