-- ===== src/Auth/Login.antt =====
-- src/auth/auth.service.ts: signing in, and the session that is answered. argon2's `verify` and SHA-256
-- are parameters, with the configured limits, in `AuthConfig`; the audit log and the e-mails are left
-- out.
pub mod Signing
pub mod Lockout
use edu_gear_back_end.Common.{
  ltb, leb, ◌==◌, if◌then◌else◌, same, filter, find, internal, invalid_credentials, account_locked,
  account_inactive, membership_inactive, tenant_denied, Outcome, throw, ok, throw_if, or_throw,
  ◌>>◌, ℕ, ◌+◌, ◌*◌, Bool, false, not, ◌&&◌, Option, none, some, List, [], ◌∷◌, map,
}
use edu_gear_back_end.Common.Text.{Text, to_lower_case}
use edu_gear_back_end.Common.Sorting.{sort}
use edu_gear_back_end.Auth.Store.{
  UserStatus, active_school, User, School, Membership, MembershipSnapshot, AuthStore,
  is_active_user, is_pending_user, is_active_member, is_active_school, find_email, find_school,
  update_user, Action,
}
use edu_gear_back_end.Auth.Access.{invalidate_membership, get_membership_snapshot}
use edu_gear_back_end.Auth.Tokens.{IssuedTokens, Draw, issue_tokens}

pub record AuthConfig : Type 0 where
  pub sha256 : ℕ → ℕ
  pub verify_password : ℕ → Text → Bool
  pub hash_password : ℕ → Text → ℕ
  pub to_lower_case : Text → Text
  pub password_min_length : ℕ
  pub refresh_ttl : ℕ
  pub max_failed_login_attempts : ℕ
  pub account_lock_minutes : ℕ
  pub password_reset_ttl_minutes : ℕ
  pub email_verification_ttl_hours : ℕ

pub record LoginDto : Type 0 where
  pub email : ℕ
  pub password : Text
  pub school_id : Option ℕ

pub record MembershipSummary : Type 0 where
  pub membership_id : ℕ
  pub school_id : ℕ
  pub is_active : Bool

pub record Session : Type 0 where
  pub tokens : IssuedTokens
  pub user_id : ℕ
  pub active_school : MembershipSnapshot
  pub memberships : List MembershipSummary

-- `orderBy: [{ isDefault: 'desc' }, { createdAt: 'asc' }]`
abbrev pub signs_in_before : Membership → Membership → Bool
signs_in_before m n =
    if same m.is_default n.is_default then leb m.created_at n.created_at else m.is_default

abbrev pub is_open_school : Option School → Bool
is_open_school none = false
is_open_school (some c) = is_active_school c.status

-- An active membership in an active school.
abbrev pub is_usable : List School → Membership → Bool
is_usable schools m = is_active_member m.status && is_open_school (find_school m.school_id schools)

abbrev pub is_of_user : ℕ → Membership → Bool
is_of_user user m = m.user_id == user

-- The rows that `resolveMembership` reads.
unfoldable pub usable_memberships : ℕ → AuthStore → List Membership
usable_memberships user s =
    sort signs_in_before (filter (λ m. is_of_user user m && is_usable s.schools m) s.memberships)

abbrev pub choose_membership : List Membership → Option ℕ → Outcome Membership
choose_membership [] requested = throw membership_inactive
choose_membership (m ∷ ms) none = ok m
choose_membership (m ∷ ms) (some school) =
    or_throw (find (λ (n : Membership). n.school_id == school) (m ∷ ms)) tenant_denied

-- `resolveMembership`
unfoldable pub resolve_membership : ℕ → Option ℕ → AuthStore → Outcome Membership
unfolding usable_memberships
resolve_membership user requested s = choose_membership (usable_memberships user s) requested

-- `listMemberships`
unfoldable pub list_memberships : ℕ → AuthStore → List MembershipSummary
list_memberships user s =
    map
      (λ (m : Membership). record {
        membership_id = m.id;
        school_id = m.school_id;
        is_active = is_usable s.schools m;
      })
      (sort signs_in_before (filter (is_of_user user) s.memberships))

-- `user.lockedUntil && user.lockedUntil.getTime() > Date.now()`
abbrev pub is_locked : ℕ → Option ℕ → Bool
is_locked now none = false
is_locked now (some until) = ltb now until

-- The tests of a user's status, once the password is right.
abbrev pub check_status : UserStatus → Outcome (Unit {0})
check_status status = do
  throw_if (is_pending_user status) account_inactive
  throw_if (not (is_active_user status)) account_inactive

module _ (c : AuthConfig) (now : ℕ) where
  abbrev pub finish_session :
      IssuedTokens → ℕ → Option MembershipSnapshot × AuthStore → Outcome Session × AuthStore
  finish_session tokens user (none, s) = (throw internal, s)
  finish_session tokens user (some snapshot, s) = (
    ok (record {
      tokens = tokens;
      user_id = user;
      active_school = snapshot;
      memberships = list_memberships user s;
    }),
    s,
  )

  -- `buildSession`
  unfoldable pub build_session : IssuedTokens → ℕ → ℕ → Action Session
  build_session tokens user membership s =
      finish_session tokens user
        (get_membership_snapshot now membership (invalidate_membership membership s))

  abbrev pub should_lock : User → Bool
  should_lock user = leb c.max_failed_login_attempts (user.failed_login_attempts + 1)

  -- The columns that `registerFailedAttempt` writes, from the row that was read.
  abbrev pub failed_attempt : User → User → User
  failed_attempt read row = record row {
    failed_login_attempts = if should_lock read then 0 else read.failed_login_attempts + 1;
    locked_until =
        if should_lock read then some (now + c.account_lock_minutes * 60000) else read.locked_until;
  }

  -- `registerFailedAttempt`
  unfoldable pub register_failed_attempt : User → AuthStore → AuthStore
  register_failed_attempt user = update_user user.id (failed_attempt user)

  abbrev pub signed_in : User → User
  signed_in row = record row {
    failed_login_attempts = 0;
    locked_until = none;
    last_login_at = some now;
  }

  -- The tokens of a session and its answer.
  unfoldable pub open_session : Draw → User → Membership → Action Session
  unfolding build_session issue_tokens
  open_session draw user membership s =
      let (tokens, s') =
        issue_tokens c.sha256 c.refresh_ttl now draw user.id membership.id user.token_version none
          s in
      build_session tokens user.id membership.id s'

  -- What `login` does once the password is right.
  abbrev pub sign_in : Draw → User → Outcome Membership → AuthStore → Outcome Session × AuthStore
  sign_in draw user (throw e) s = (throw e, s)
  sign_in draw user (ok membership) s =
      open_session draw user membership (update_user user.id signed_in s)

  unfoldable pub login_known : Draw → LoginDto → User → Action Session
  unfolding register_failed_attempt resolve_membership open_session
  login_known draw dto user s =
      if is_locked now user.locked_until
      then (throw account_locked, s)
      else if not (c.verify_password user.password_hash dto.password)
      then (throw invalid_credentials, register_failed_attempt user s)
      else sign_in draw user
          (check_status user.status >> resolve_membership user.id dto.school_id s) s

  abbrev pub login_found : Draw → LoginDto → Option User → AuthStore → Outcome Session × AuthStore
  login_found draw dto none s = (throw invalid_credentials, s)
  login_found draw dto (some user) s = login_known draw dto user s

  -- `login`
  unfoldable pub login : Draw → LoginDto → Action Session
  unfolding login_known
  login draw dto s = login_found draw dto (find_email dto.email s.users) s
