-- ===== src/Academics/Drift.antt =====
-- Where the calendar's rules stop holding: what `setCurrent` and `update` of
-- src/academics/academic-sessions.service.ts leave of the terms.
use edu_gear_back_end.Common.Members.{find-map, find-Has}
use edu_gear_back_end.Common.{
  ◌==◌, if◌then◌else◌, Bool-cases, any, find, count, Has, ok, ℕ, ◌≡◌, refl, ap, ◌∙◌, inl, inr, Bool,
  true, false, ◌&&◌, none, some, List, [], ◌∷◌, map, arith,
}
use edu_gear_back_end.Academics.Periods.{
  is_wrong_range, range_contains, is_session_name, AcademicSession, Term, Calendar, is_session,
  date_range,
}
use edu_gear_back_end.Academics.Sessions.{
  assert_valid, overlaps_session, clear_sessions, update_session, update, set_current,
}

unmarked :
    (id other : ℕ) (xs : List AcademicSession)
    → (other == id) ≡ false
    → count
        (λ (x : AcademicSession). is_session other x && x.is_current)
        (map
          (λ (x : AcademicSession). if x.id == id then record x { is_current = true } else x)
          (clear_sessions xs))
      ≡ 0
unmarked id other [] e = refl
unmarked id other (x ∷ xs) e = elim (Bool-cases (x.id == id)) [
  | inl it ↦
      let named : (x.id == other) ≡ false = ground (arith, it, e) in
      rw (it, named) (unmarked id other xs e)
  | inr not_it ↦ rw not_it (ground (arith, unmarked id other xs e))
]

same_name :
    (id : ℕ) (f : AcademicSession → AcademicSession) (k : ℕ)
    → ((y : AcademicSession) → (f y).id ≡ y.id)
    → (b : Bool) (y : AcademicSession) → is_session k (if b then f y else y) ≡ is_session k y
same_name id f k keeps true y = ap (λ n. n == k) (keeps y)
same_name id f k keeps false y = refl

found_changed :
    (id : ℕ) (f : AcademicSession → AcademicSession) (s : Calendar) (x : AcademicSession)
    → ((y : AcademicSession) → (f y).id ≡ y.id)
    → find (is_session id) s.sessions ≡ some x
    → find (is_session id) (update_session id f s).sessions ≡ some (f x)
found_changed id f s x keeps found =
    let (_, named) = find-Has (is_session id) s.sessions found in
    find-map (is_session id) (λ (y : AcademicSession). if y.id == id then f y else y)
      (λ y. same_name id f id keeps (y.id == id) y) s.sessions {x = x} found
    ∙ rw named refl

-- Making a session current succeeds whenever it exists and leaves the terms as they are: a current
-- term of another session stays current, while no session that it belongs to is.
pub set_current-stranded :
    (id : ℕ) (s : Calendar) (x : AcademicSession) (t : Term)
    → find (is_session id) s.sessions ≡ some x
    → Has t s.terms
    → t.is_current ≡ true
    → (t.session_id == id) ≡ false
    → (s' : Calendar) × (set_current id s ≡ ok s')
      × Has t s'.terms
      × (t.is_current ≡ true)
      × (count (λ (y : AcademicSession). is_session t.session_id y && y.is_current) s'.sessions ≡ 0)
unfolding set_current
set_current-stranded id s x t found has marked other = (
  update_session id (λ (y : AcademicSession). record y { is_current = true })
      (record s { sessions = clear_sessions s.sessions }),
  rw found refl,
  has,
  marked,
  unmarked id t.session_id s.sessions other,
)

-- Moving the dates of a session succeeds when they are in order and overlap no other session, whatever
-- its terms: a term that lies outside the new dates stays as it is.
pub update-outside :
    (id start end : ℕ) (s : Calendar) (x : AcademicSession) (t : Term)
    → find (is_session id) s.sessions ≡ some x
    → is_session_name x.name ≡ true
    → is_wrong_range (date_range start end) ≡ false
    → any (overlaps_session (date_range start end) (some id)) s.sessions ≡ false
    → Has t s.terms
    → t.session_id ≡ id
    → range_contains (date_range start end) t.range ≡ false
    → (s' : Calendar) × (y : AcademicSession) × (update id
          (record { name = none; start_date = some start; end_date = some end })
          s
        ≡ ok s')
      × (find (is_session id) s'.sessions ≡ some y)
      × Has t s'.terms
      × (range_contains y.range t.range ≡ false)
unfolding update assert_valid
update-outside id start end s x t found named forward apart has own outside =
    let range = date_range start end in
    let change = λ (y : AcademicSession). record y { name = x.name; range = range } in
    (
      update_session id change s,
      change x,
      rw (found, named, forward, apart) refl,
      found_changed id change s x (λ y. refl) found,
      has,
      outside,
    )
