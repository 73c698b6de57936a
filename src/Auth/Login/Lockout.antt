-- ===== src/Auth/Login/Lockout.antt =====
-- Guesses at a password against `login` and `registerFailedAttempt` of src/auth/auth.service.ts.
use edu_gear_back_end.Common.{
  ◌==◌, if◌then◌else◌, lt→ltb, leb→le, le→leb, ==_refl, Bool-cases, length, All,
  invalid_credentials, account_locked, Outcome, throw, ℕ, suc, ◌+◌, ◌*◌, ◌≤◌, ◌<◌, ◌≡◌, refl, ap,
  ◌∙◌, inl, inr, Bool, true, false, Option, some, List, [], ◌∷◌, arith,
}
use edu_gear_back_end.Common.Members.{find-map}
use edu_gear_back_end.Auth.Store.{User, AuthStore, find_email}
use edu_gear_back_end.Auth.Tokens.{Draw}
use edu_gear_back_end.Auth.Login.{
  AuthConfig, LoginDto, Session, is_locked, should_lock, failed_attempt, register_failed_attempt,
  login_known, login,
}

-- A call of `login`: when, what it would draw, and what it is given.
pub record LoginAttempt : Type 0 where
  pub at : ℕ
  pub draw : Draw
  pub dto : LoginDto

same_email :
    (email : ℕ) (c : AuthConfig) (now : ℕ) (read : User) (b : Bool) (u : User)
    → ((if b then failed_attempt c now read u else u).email == email) ≡ (u.email == email)
same_email email c now read true u = refl
same_email email c now read false u = refl

module _ (c : AuthConfig) where
  abbrev pub attempt : LoginAttempt → AuthStore → AuthStore
  attempt a s = (login c a.at a.draw a.dto s).1

  -- The calls one after the other, the first of the list first.
  abbrev pub attack : List LoginAttempt → AuthStore → AuthStore
  attack [] s = s
  attack (a ∷ tries) s = attack tries (attempt a s)

  -- A wrong password for the user's address, at a time when the user is not locked.
  pub record IsGuess (email hash : ℕ) (lock : Option ℕ) (a : LoginAttempt) : Type 0 where
    pub addressed : a.dto.email ≡ email
    pub wrong : c.verify_password hash a.dto.password ≡ false
    pub unlocked : is_locked a.at lock ≡ false

  -- The row after a failed attempt.
  registered :
      (now email : ℕ) (u : User) (s : AuthStore)
      → find_email email s.users ≡ some u
      → find_email email (register_failed_attempt c now u s).users ≡ some (failed_attempt c now u u)
  unfolding register_failed_attempt
  registered now email u s known =
      find-map (λ (x : User). x.email == email)
        (λ (x : User). if x.id == u.id then failed_attempt c now u x else x)
        (λ x. same_email email c now u (x.id == u.id) x) s.users {x = u} known
      ∙ rw (==_refl u.id) refl

  guessed :
      (email : ℕ) (u : User) (a : LoginAttempt) (s : AuthStore)
      → find_email email s.users ≡ some u
      → IsGuess email u.password_hash u.locked_until a
      → login c a.at a.draw a.dto s
        ≡ (throw invalid_credentials, register_failed_attempt c a.at u s)
  unfolding login login_known
  guessed email u a s known g = rw (g.addressed, known, g.unlocked, g.wrong) refl

  after_guess :
      (email : ℕ) (u : User) (a : LoginAttempt) (s : AuthStore)
      → find_email email s.users ≡ some u
      → IsGuess email u.password_hash u.locked_until a
      → find_email email (attempt a s).users ≡ some (failed_attempt c a.at u u)
  after_guess email u a s known g =
      ap (λ (p : Outcome Session × AuthStore). find_email email p.1.users)
        (guessed email u a s known g)
      ∙ registered a.at email u s known

  -- One guess short of the limit counts and does not lock.
  counted :
      (now : ℕ) (u : User)
      → suc u.failed_login_attempts < c.max_failed_login_attempts
      → failed_attempt c now u u ≡ record u { failed_login_attempts = u.failed_login_attempts + 1 }
  counted now u few = elim (Bool-cases (should_lock c now u)) [
    | inl full ↦
        absurd (
          omega (arith, few, leb→le c.max_failed_login_attempts (u.failed_login_attempts + 1) full))
    | inr short ↦ rw short refl
  ]

  after_guesses :
      (email : ℕ) (tries : List LoginAttempt) (u : User) (s : AuthStore)
      → find_email email s.users ≡ some u
      → All (IsGuess email u.password_hash u.locked_until) tries
      → length tries + u.failed_login_attempts < c.max_failed_login_attempts
      → find_email email (attack tries s).users
        ≡ some (record u { failed_login_attempts = u.failed_login_attempts + length tries })
  after_guesses email [] u s known gs few =
      known ∙ ap (λ k. some (record u { failed_login_attempts = k })) (omega arith)
  after_guesses email (a ∷ tries) u s known (g, gs) few =
      let u' = record u { failed_login_attempts = u.failed_login_attempts + 1 } in
      let known' : find_email email (attempt a s).users ≡ some u' =
        after_guess email u a s known g ∙ ap some (counted a.at u (omega (arith, few))) in
      after_guesses email tries u' (attempt a s) known' gs (omega (arith, few))
      ∙ ap (λ k. some (record u { failed_login_attempts = k })) (omega arith)

  locked :
      (now email : ℕ) (draw : Draw) (dto : LoginDto) (u : User) (s : AuthStore)
      → find_email email s.users ≡ some u
      → dto.email ≡ email
      → is_locked now u.locked_until ≡ true
      → login c now draw dto s ≡ (throw account_locked, s)
  unfolding login login_known
  locked now email draw dto u s known addressed shut = rw (addressed, known, shut) refl

  locking :
      (now : ℕ) (u : User)
      → c.max_failed_login_attempts ≤ suc u.failed_login_attempts
      → (failed_attempt c now u u).locked_until ≡ some (now + c.account_lock_minutes * 60000)
  locking now u full =
      rw (le→leb c.max_failed_login_attempts (u.failed_login_attempts + 1) (omega (arith, full)))
        refl

-- When as many wrong passwords as the configured limit leaves are given for a user who is not locked
-- at those times, the account is locked from the last of them for the configured minutes: until then
-- every login for the address is refused as locked, the one with the right password included, and
-- changes nothing.
pub login-locked :
    (c : AuthConfig) (email : ℕ) (u : User) (s : AuthStore) (tries : List LoginAttempt)
    (last : LoginAttempt)
    → find_email email s.users ≡ some u
    → All (IsGuess c email u.password_hash u.locked_until) tries
    → IsGuess c email u.password_hash u.locked_until last
    → suc (length tries + u.failed_login_attempts) ≡ c.max_failed_login_attempts
    → (later : ℕ) (draw : Draw) (dto : LoginDto) → dto.email ≡ email
    → later < last.at + c.account_lock_minutes * 60000
    → login c later draw dto (attempt c last (attack c tries s))
      ≡ (throw account_locked, attempt c last (attack c tries s))
login-locked c email u s tries last known gs g full later draw dto addressed early =
    let t = attack c tries s in
    let v = record u { failed_login_attempts = u.failed_login_attempts + length tries } in
    let known' : find_email email t.users ≡ some v =
      after_guesses c email tries u s known gs (omega (arith, full)) in
    let shut = locking c last.at v (omega (arith, full)) in
    locked c later email draw dto (failed_attempt c last.at v v) (attempt c last t)
      (after_guess c email v last t known' g) addressed
      (ap (is_locked later) shut ∙ lt→ltb later (last.at + c.account_lock_minutes * 60000) early)
