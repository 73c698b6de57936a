-- ===== src/Academics/Scheduling.antt =====
-- Sessions that share no day, after each operation of src/academics/academic-sessions.service.ts.
use mathlib.Core.Path.{subst}
use edu_gear_back_end.Common.Text.{Text}
use edu_gear_back_end.Common.{
  ◌==◌, if◌then◌else◌, ==_iff, Bool-cases, or_else, is_none, any, find, Has, bad_request, not_found,
  conflict, ok, throw_if, >>=-eq-ok, or_throw-eq-ok, throw_if-eq-ok, ℕ, ◌≡◌, refl, sym, ap, ◌∙◌,
  inl, inr, Bool, true, false, not, ◌&&◌, Option, none, some, List, map, arith,
}
use edu_gear_back_end.Common.Members.{Has-of-map, find-Has}
use edu_gear_back_end.Academics.Marking.{IsMarked}
use edu_gear_back_end.Academics.Periods.{
  DateRange, to_date_only, is_wrong_range, ranges_overlap, is_session_name, AcademicSession,
  Calendar, is_session, when, date_range,
}
use edu_gear_back_end.Academics.Sessions.{
  CreateAcademicSessionDto, UpdateAcademicSessionDto, get_session, assert_valid, assert_name_free,
  overlaps_session, assert_no_overlap, clear_sessions, create_session, is_renamed, unless, update,
}
use edu_gear_back_end.Academics.Keeping.{ok-eq-ok}
use edu_gear_back_end.Academics.Apart.{
  IsApart, any-eq-false, insert-IsApart, map-IsApart, IsApart-Has, changed-IsApart,
}

-- The dates are at midnight, as their column has them.
abbrev pub IsDated : AcademicSession → Type 0
IsDated x = date_range x.range.start_date x.range.end_date ≡ x.range

-- No two sessions share a day.
pub record IsTimetabled (s : Calendar) : Type 0 where
  pub apart : IsApart s.sessions
  pub dated : (x : AcademicSession) → Has x s.sessions → IsDated x

midnight : (v : ℕ) → to_date_only (to_date_only v) ≡ to_date_only v
midnight v = omega arith

dated_range : (a b : ℕ) → date_range (to_date_only a) (to_date_only b) ≡ date_range a b
dated_range a b = rw (midnight a, midnight b) refl

-- Only the rows that a change picks have other dates.
pub changed-IsDated :
    (f : AcademicSession → AcademicSession) (test : AcademicSession → Bool)
    (xs : List AcademicSession)
    → ((x : AcademicSession) → IsDated x → IsDated (f x))
    → ((x : AcademicSession) → Has x xs → IsDated x)
    → (y : AcademicSession) → Has y (map (λ x. if test x then f x else x) xs)
    → IsDated y
changed-IsDated f test xs keeps dated y h =
    let (x, k, it) = Has-of-map (λ x. if test x then f x else x) xs y h in
    subst IsDated (sym it) (by_test x (test x) (dated x k))
  where
    by_test : (x : AcademicSession) (b : Bool) → IsDated x → IsDated (if b then f x else x)
    by_test x true d = keeps x d
    by_test x false d = d

pub cleared-IsTimetabled :
    (s : Calendar)
    → IsTimetabled s
    → IsTimetabled (record s { sessions = clear_sessions s.sessions })
cleared-IsTimetabled s t = record {
  apart =
      map-IsApart (λ (x : AcademicSession). record x { is_current = false }) (λ x. refl) s.sessions
        t.apart;
  dated = λ y h.
      let (x, k, it) =
        Has-of-map (λ (x : AcademicSession). record x { is_current = false }) s.sessions y h in
      subst IsDated (sym it) (t.dated x k);
}

when-IsTimetabled :
    (current : Bool) (s : Calendar)
    → IsTimetabled s
    → IsTimetabled (record s { sessions = when current clear_sessions s.sessions })
when-IsTimetabled true s t = cleared-IsTimetabled s t
when-IsTimetabled false s t = record { apart = t.apart; dated = t.dated }

valid_dates :
    (name : Text) (start end : ℕ) (range : DateRange)
    → assert_valid name start end ≡ ok range
    → range ≡ date_range start end
unfolding assert_valid
valid_dates name start end range e =
    let (_, e₀, e₁) = >>=-eq-ok (throw_if (not (is_session_name name)) bad_request) _ e in
    let (_, e₂, e₃) =
      >>=-eq-ok (throw_if (is_wrong_range (date_range start end)) bad_request) _ e₁ in
    sym (cc e₃)

cleared_overlap :
    (range : DateRange) (current : Bool) (xs : List AcademicSession)
    → ((y : AcademicSession) → Has y xs → ranges_overlap y.range range ≡ false)
    → (y : AcademicSession) → Has y (when current clear_sessions xs)
    → ranges_overlap y.range range ≡ false
cleared_overlap range false xs free y h = free y h
cleared_overlap range true xs free y h =
    let (x, k, it) = Has-of-map (λ (x : AcademicSession). record x { is_current = false }) xs y h in
    ap (λ (q : AcademicSession). ranges_overlap q.range range) it ∙ free x k

pub create_session-IsTimetabled :
    (id : ℕ) (dto : CreateAcademicSessionDto) (s s' : Calendar)
    → create_session id dto s ≡ ok s'
    → IsTimetabled s
    → IsTimetabled s'
unfolding create_session
create_session-IsTimetabled id dto s s' e t =
    let (range, e₀, r₀) = >>=-eq-ok (assert_valid dto.name dto.start_date dto.end_date) _ e in
    let (_, e₁, r₁) = >>=-eq-ok (assert_name_free dto.name s) _ r₀ in
    let (_, e₂, r₂) = >>=-eq-ok (assert_no_overlap range none s) _ r₁ in
    let dates = valid_dates dto.name dto.start_date dto.end_date range e₀ in
    let current = or_else dto.is_current false in
    let before = when-IsTimetabled current s t in
    let free =
      any-eq-false (overlaps_session range none) s.sessions
        (throw_if-eq-ok (any (overlaps_session range none) s.sessions) conflict e₂) in
    let row : AcademicSession = record {
      id = id;
      name = dto.name;
      range = range;
      is_current = current;
    } in
    let row_dated : date_range range.start_date range.end_date ≡ range =
      subst (λ (r : DateRange). date_range r.start_date r.end_date ≡ r) (sym dates)
        (dated_range dto.start_date dto.end_date) in
    subst IsTimetabled (ok-eq-ok r₂) (record {
      apart =
          insert-IsApart (when current clear_sessions s.sessions) row
            (cleared_overlap range current s.sessions free) before.apart;
      dated = λ y h. elim h [
        | inl same_row ↦ subst IsDated (sym same_row) row_dated
        | inr k ↦ before.dated y k
      ];
    })

-- A change of dates that are given, or of none.
rescheduled :
    (id : ℕ) (dto : UpdateAcademicSessionDto) (s : Calendar) (existing : AcademicSession)
    (range : DateRange)
    → IsTimetabled s
    → find (is_session id) s.sessions ≡ some existing
    → range
      ≡ date_range
          (or_else dto.start_date existing.range.start_date)
          (or_else dto.end_date existing.range.end_date)
    → unless (is_none dto.start_date && is_none dto.end_date) (assert_no_overlap range (some id) s)
      ≡ ok tt
    → (y : AcademicSession) → Has y s.sessions
    → (y.id == id) ≡ false
    → ranges_overlap y.range range ≡ false
rescheduled id dto s existing range t found dates checked y h other =
    elim (Bool-cases (is_none dto.start_date && is_none dto.end_date)) [
      | inr given ↦
          let free =
            any-eq-false (overlaps_session range (some id)) s.sessions
              (throw_if-eq-ok (any (overlaps_session range (some id)) s.sessions) conflict
                (rw given at checked))
              y h in
          rw other at free
      | inl kept ↦
          let (listed, named) = find-Has (is_session id) s.sessions found in
          let same_dates : range ≡ existing.range =
            dates ∙ no_dates dto.start_date dto.end_date kept ∙ t.dated existing listed in
          let it : existing.id ≡ id = (==_iff existing.id id).0 named in
          ap (ranges_overlap y.range) same_dates
          ∙ IsApart-Has s.sessions y existing t.apart h listed (ap (λ k. y.id == k) it ∙ other)
    ]
  where
    no_dates :
        (a b : Option ℕ)
        → (is_none a && is_none b) ≡ true
        → date_range (or_else a existing.range.start_date) (or_else b existing.range.end_date)
          ≡ date_range existing.range.start_date existing.range.end_date
    no_dates none none e = refl
    no_dates none (some b) e = absurd (cc e)
    no_dates (some a) b e = absurd (cc e)

pub update-IsTimetabled :
    (id : ℕ) (dto : UpdateAcademicSessionDto) (s s' : Calendar)
    → IsMarked s
    → update id dto s ≡ ok s'
    → IsTimetabled s
    → IsTimetabled s'
unfolding update
update-IsTimetabled id dto s s' m e t =
    let (existing, e₀, r₀) = >>=-eq-ok (get_session id s) _ e in
    let name = or_else dto.name existing.name in
    let start = or_else dto.start_date existing.range.start_date in
    let end = or_else dto.end_date existing.range.end_date in
    let (range, e₁, r₁) = >>=-eq-ok (assert_valid name start end) _ r₀ in
    let (_, e₂, r₂) =
      >>=-eq-ok (unless (not (is_renamed dto.name existing)) (assert_name_free name s)) _ r₁ in
    let (_, e₃, r₃) =
      >>=-eq-ok
        (unless (is_none dto.start_date && is_none dto.end_date)
          (assert_no_overlap range (some id) s))
        _ r₂ in
    let dates = valid_dates name start end range e₁ in
    let f = λ (x : AcademicSession). record x { name = name; range = range } in
    let range_dated : date_range range.start_date range.end_date ≡ range =
      subst (λ (r : DateRange). date_range r.start_date r.end_date ≡ r) (sym dates)
        (dated_range start end) in
    let found = or_throw-eq-ok (find (is_session id) s.sessions) not_found e₀ in
    subst IsTimetabled (ok-eq-ok r₃) (record {
      apart =
          changed-IsApart id range f (λ x. refl) s.sessions (m.session_ids id)
            (rescheduled id dto s existing range t found dates e₃) t.apart;
      dated = changed-IsDated f (is_session id) s.sessions (λ x d. range_dated) t.dated;
    })
