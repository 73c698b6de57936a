-- ===== src/Auth/Login/Signing.antt =====
-- `login` of src/auth/auth.service.ts: what holds when it answers a session.
use mathlib.Core.Path.{subst}
use edu_gear_back_end.Auth.Access.Caching.{get-keeps}
use edu_gear_back_end.Auth.Access.{invalidate_membership, get_membership_snapshot}
use edu_gear_back_end.Auth.Tokens.{IssuedTokens, Draw, new_refresh_token, issue_tokens}
use edu_gear_back_end.Common.{
  ◌==◌, ==_iff, Bool-cases, and-eq-true, filter, find, Has, account_inactive, tenant_denied,
  Outcome, throw, ok, throw_if, >>=-eq-ok, ◌>>◌, or_throw-eq-ok, throw_if-eq-ok, ℕ, ◌≡◌, refl, ap,
  inl, inr, true, false, not, ◌&&◌, Option, none, some, List, [], ◌∷◌, arith,
}
use edu_gear_back_end.Common.Members.{Has-filter, find-Has}
use edu_gear_back_end.Common.Sorting.{Has-sort}
use edu_gear_back_end.Auth.Store.{
  User, Membership, MembershipSnapshot, AuthStore, is_active_user, is_pending_user, find_email,
  update_user,
}
use edu_gear_back_end.Auth.Login.{
  AuthConfig, LoginDto, Session, signs_in_before, is_usable, is_of_user, usable_memberships,
  choose_membership, resolve_membership, is_locked, check_status, finish_session, build_session,
  signed_in, open_session, sign_in, login_known, login_found, login,
}

-- The school that the client asked for, if any, is the one of the membership.
abbrev pub IsRequested : Option ℕ → Membership → Type 0
IsRequested none m = Unit
IsRequested (some school) m = m.school_id ≡ school

-- A membership of the user that may be signed into.
pub record IsSignable (user : ℕ) (requested : Option ℕ) (s : AuthStore) (m : Membership)
    : Type 0 where
  pub listed : Has m s.memberships
  pub owned : m.user_id ≡ user
  pub usable : is_usable s.schools m ≡ true
  pub asked : IsRequested requested m

usable_memberships-Has :
    (user : ℕ) (s : AuthStore) (m : Membership)
    → Has m (usable_memberships user s)
    → Has m s.memberships × ((is_of_user user m && is_usable s.schools m) ≡ true)
unfolding usable_memberships
usable_memberships-Has user s m h =
    (Has-filter (λ m. is_of_user user m && is_usable s.schools m) s.memberships m).0 (
      (Has-sort signs_in_before m
          (filter (λ m. is_of_user user m && is_usable s.schools m) s.memberships)).0
        h)

choose_membership-Has :
    (ms : List Membership) (requested : Option ℕ) (m : Membership)
    → choose_membership ms requested ≡ ok m
    → Has m ms × IsRequested requested m
choose_membership-Has [] requested m e = absurd (cc e)
choose_membership-Has (n ∷ ns) none m e = (inl (cc e), tt)
choose_membership-Has (n ∷ ns) (some school) m e =
    let test = λ (k : Membership). k.school_id == school in
    let (h, k) = find-Has test (n ∷ ns) (or_throw-eq-ok (find test (n ∷ ns)) tenant_denied e) in
    (h, (==_iff m.school_id school).0 k)

pub resolve-IsSignable :
    (user : ℕ) (requested : Option ℕ) (s : AuthStore) (m : Membership)
    → resolve_membership user requested s ≡ ok m
    → IsSignable user requested s m
unfolding resolve_membership
resolve-IsSignable user requested s m e =
    let (h, asked) = choose_membership-Has (usable_memberships user s) requested m e in
    let (listed, both) = usable_memberships-Has user s m h in
    let (own, usable) = and-eq-true (is_of_user user m) (is_usable s.schools m) both in
    record {
      listed = listed;
      owned = (==_iff m.user_id user).0 own;
      usable = usable;
      asked = asked;
    }

module _ (c : AuthConfig) (now : ℕ) where
  -- A sign-in that went through.
  pub record IsSignIn (draw : Draw) (dto : LoginDto) (s : AuthStore) (r : Session) (s' : AuthStore)
      : Type 0 where
    pub user : User
    pub membership : Membership
    pub known : find_email dto.email s.users ≡ some user
    pub unlocked : is_locked now user.locked_until ≡ false
    pub verified : c.verify_password user.password_hash dto.password ≡ true
    pub active : is_active_user user.status ≡ true
    pub signable : IsSignable user.id dto.school_id s membership
    pub answered : r.tokens ≡ record {
      access_token = record { sub = user.id; mid = membership.id; ver = user.token_version };
      refresh_token = draw.raw;
    }
    pub written :
        s'.refresh_tokens
        ≡ new_refresh_token c.sha256 c.refresh_ttl now draw user.id (some membership.id) draw.family
          ∷ s.refresh_tokens
    pub users : s'.users ≡ (update_user user.id (signed_in c now) s).users

  -- A session that is answered carries the tokens, and only the cache is written.
  build_session-ok :
      (tokens : IssuedTokens) (user membership : ℕ) (s s' : AuthStore) (r : Session)
      → build_session c now tokens user membership s ≡ (ok r, s')
      → (r.tokens ≡ tokens) × (s' ≡ record s { cache = s'.cache })
  unfolding build_session
  build_session-ok tokens user membership s s' r e =
      by_found (get_membership_snapshot now membership (invalidate_membership membership s))
        (get-keeps now membership (invalidate_membership membership s)) e
    where
      by_found :
          (x : Option MembershipSnapshot × AuthStore)
          → x.1 ≡ record s { cache = x.1.cache }
          → finish_session c now tokens user x ≡ (ok r, s')
          → (r.tokens ≡ tokens) × (s' ≡ record s { cache = s'.cache })
      by_found (none, t) keeps e = absurd (cc (ap (λ (p : Outcome Session × AuthStore). p.0) e))
      by_found (some snapshot, t) keeps e =
          let rows : t ≡ s' = ap (λ (p : Outcome Session × AuthStore). p.1) e in
          let answer = ap (λ (p : Outcome Session × AuthStore). p.0) e in
          (cc answer, subst (λ (x : AuthStore). x ≡ record s { cache = x.cache }) rows keeps)

  sign_in-IsSignIn :
      (draw : Draw) (dto : LoginDto) (user : User) (s s' : AuthStore) (r : Session)
      → find_email dto.email s.users ≡ some user
      → is_locked now user.locked_until ≡ false
      → c.verify_password user.password_hash dto.password ≡ true
      → (m : Outcome Membership)
      → (check_status user.status >> resolve_membership user.id dto.school_id s) ≡ m
      → sign_in c now draw user m s ≡ (ok r, s')
      → IsSignIn draw dto s r s'
  unfolding open_session issue_tokens
  sign_in-IsSignIn draw dto user s s' r known unlocked verified (throw f) checked e =
      absurd (cc (ap (λ (p : Outcome Session × AuthStore). p.0) e))
  sign_in-IsSignIn draw dto user s s' r known unlocked verified (ok membership) checked e =
      let (_, e₀, e₁) = >>=-eq-ok (check_status user.status) _ checked in
      let (_, e₂, e₃) = >>=-eq-ok (throw_if (is_pending_user user.status) account_inactive) _ e₀ in
      let (answered, rows) = build_session-ok _ user.id membership.id _ s' r e in
      record {
        user = user;
        membership = membership;
        known = known;
        unlocked = unlocked;
        verified = verified;
        active =
            ground (arith, throw_if-eq-ok (not (is_active_user user.status)) account_inactive e₃);
        signable = resolve-IsSignable user.id dto.school_id s membership e₁;
        answered = answered;
        written = ap (λ (x : AuthStore). x.refresh_tokens) rows;
        users = ap (λ (x : AuthStore). x.users) rows;
      }

  login_known-IsSignIn :
      (draw : Draw) (dto : LoginDto) (user : User) (s s' : AuthStore) (r : Session)
      → find_email dto.email s.users ≡ some user
      → login_known c now draw dto user s ≡ (ok r, s')
      → IsSignIn draw dto s r s'
  unfolding login_known
  login_known-IsSignIn draw dto user s s' r known e =
      elim (Bool-cases (is_locked now user.locked_until)) [
        | inl locked ↦ absurd (cc (ap (λ (p : Outcome Session × AuthStore). p.0) (rw locked at e)))
        | inr unlocked ↦ elim (Bool-cases (c.verify_password user.password_hash dto.password)) [
          | inr wrong ↦
              absurd
                (cc (ap (λ (p : Outcome Session × AuthStore). p.0) (rw (unlocked, wrong) at e)))
          | inl verified ↦
              sign_in-IsSignIn draw dto user s s' r known unlocked verified
                (check_status user.status >> resolve_membership user.id dto.school_id s) refl
                (rw (unlocked, verified) at e)
        ]
      ]

-- When a login answers a session, the address is of a user who was not locked, is active and whose
-- password was verified; the session is of a membership that this user holds, active and in an active
-- school, and in the school that was asked for, if one was; its access token names this user, this
-- membership and the user's current version; and the rows gain one refresh token, for this user and
-- membership, whose hash is the answered token's.
pub login-IsSignIn :
    (c : AuthConfig) (now : ℕ) (draw : Draw) (dto : LoginDto) (s s' : AuthStore) (r : Session)
    → login c now draw dto s ≡ (ok r, s')
    → IsSignIn c now draw dto s r s'
unfolding login
login-IsSignIn c now draw dto s s' r e = by_user (find_email dto.email s.users) refl e
  where
    by_user :
        (o : Option User)
        → find_email dto.email s.users ≡ o
        → login_found c now draw dto o s ≡ (ok r, s')
        → IsSignIn c now draw dto s r s'
    by_user none known e = absurd (cc (ap (λ (p : Outcome Session × AuthStore). p.0) e))
    by_user (some user) known e = login_known-IsSignIn c now draw dto user s s' r known e
