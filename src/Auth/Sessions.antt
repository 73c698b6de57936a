-- ===== src/Auth/Sessions.antt =====
-- src/auth/auth.service.ts: renewing and ending sessions, moving one to another school, and passwords
-- and addresses. `salt` is what argon2 draws for a new hash; a minute has 60 000 milliseconds.
use edu_gear_back_end.Common.{
  ◌==◌, if◌then◌else◌, is_none, find, not_found, internal, invalid_credentials, tenant_denied,
  Outcome, throw, ok, throw_if, or_throw, ◌>>=◌, ◌>>◌, ℕ, ◌+◌, ◌*◌, Bool, not, ◌&&◌, Option, none,
  some, List,
}
use edu_gear_back_end.Common.Text.{Text}
use edu_gear_back_end.Auth.Store.{
  email_verification, password_reset, User, Membership, VerificationToken, AuthStore,
  is_deactivated, find_user, find_email, update_user, Action,
}
use edu_gear_back_end.Auth.Access.{invalidate_user}
use edu_gear_back_end.Auth.Passwords.{assert_meets_policy}
use edu_gear_back_end.Auth.Tokens.{
  IssuedTokens, Draw, revoke_all_for_user, Rotated, rotate_refresh_token, revoke_refresh_token,
  create_verification_token, consume_verification_token,
}
use edu_gear_back_end.Auth.Login.{AuthConfig, Session, is_usable, open_session}

-- `AuthContext`, less what it shows.
pub record AuthContext : Type 0 where
  pub user_id : ℕ
  pub membership_id : ℕ
  pub school_id : ℕ
  pub role_id : ℕ

abbrev pub find_held : ℕ → ℕ → List Membership → Option Membership
find_held user school = find (λ (m : Membership). m.user_id == user && m.school_id == school)

abbrev pub bump_version : User → User
bump_version u = record u { token_version = u.token_version + 1 }

abbrev pub has_verified_email : User → Bool
has_verified_email u = not (is_none u.email_verified_at)

-- The membership that `switchSchool` may move to.
unfoldable pub check_switch : ℕ → ℕ → AuthStore → Outcome (Membership × User)
check_switch user school s = do
  m ← or_throw (find_held user school s.memberships) tenant_denied
  throw_if (not (is_usable s.schools m)) tenant_denied
  u ← or_throw (find_user m.user_id s.users) internal
  ok (m, u)

module _ (c : AuthConfig) (now : ℕ) where
  abbrev pub answer_tokens : Outcome Rotated × AuthStore → Outcome IssuedTokens × AuthStore
  answer_tokens (throw e, s) = (throw e, s)
  answer_tokens (ok r, s) = (ok r.tokens, s)

  -- `refresh`
  unfoldable pub refresh : Draw → ℕ → Action IssuedTokens
  refresh draw raw s =
      answer_tokens (rotate_refresh_token c.sha256 c.refresh_ttl now draw raw none s)

  -- `logout`
  unfoldable pub logout : ℕ → AuthStore → AuthStore
  logout raw = revoke_refresh_token c.sha256 c.refresh_ttl now raw

  -- `logoutAll`
  unfoldable pub logout_all : ℕ → AuthStore → AuthStore
  logout_all user s =
      invalidate_user user (update_user user bump_version (revoke_all_for_user user now s))

  abbrev pub switch_checked :
      Draw → Outcome (Membership × User) → AuthStore → Outcome Session × AuthStore
  switch_checked draw (throw e) s = (throw e, s)
  switch_checked draw (ok (m, u)) s = open_session c now draw u m s

  -- `switchSchool`
  unfoldable pub switch_school : Draw → AuthContext → ℕ → Action Session
  unfolding check_switch
  switch_school draw auth school s = switch_checked draw (check_switch auth.user_id school s) s

  -- The store after `sendVerificationEmail`.
  abbrev pub send_verification_email : Draw → User → AuthStore → AuthStore
  send_verification_email draw user =
      create_verification_token c.sha256 c.refresh_ttl now draw user.id email_verification
        (c.email_verification_ttl_hours * 3600000)

  abbrev pub forgot_found : Draw → Option User → AuthStore → AuthStore
  forgot_found draw none s = s
  forgot_found draw (some user) s =
      if is_deactivated user.status
      then s
      else create_verification_token c.sha256 c.refresh_ttl now draw user.id password_reset
          (c.password_reset_ttl_minutes * 60000) s

  -- `forgotPassword`
  unfoldable pub forgot_password : Draw → ℕ → AuthStore → AuthStore
  forgot_password draw email s = forgot_found draw (find_email email s.users) s

  -- The row after a reset.
  abbrev pub reset_columns : ℕ → User → User
  reset_columns hash u = record u {
    password_hash = hash;
    failed_login_attempts = 0;
    locked_until = none;
    token_version = u.token_version + 1;
  }

  -- Both changes of a password end the user's sessions.
  abbrev pub end_sessions : ℕ → AuthStore → AuthStore
  end_sessions user s = invalidate_user user (revoke_all_for_user user now s)

  abbrev pub reset_consumed :
      ℕ → Text → Outcome VerificationToken × AuthStore → Outcome (Unit {0}) × AuthStore
  reset_consumed salt password (throw e, s) = (throw e, s)
  reset_consumed salt password (ok link, s) = (
    ok tt,
    end_sessions link.user_id
        (update_user link.user_id (reset_columns (c.hash_password salt password)) s),
  )

  abbrev pub reset_allowed :
      ℕ → ℕ → Text → Outcome (Unit {0}) → AuthStore → Outcome (Unit {0}) × AuthStore
  reset_allowed salt raw password (throw e) s = (throw e, s)
  reset_allowed salt raw password (ok done) s =
      reset_consumed salt password
        (consume_verification_token c.sha256 c.refresh_ttl now raw password_reset s)

  -- `resetPassword`
  unfoldable pub reset_password : ℕ → ℕ → Text → Action (Unit {0})
  unfolding assert_meets_policy
  reset_password salt raw password s =
      reset_allowed salt raw password
        (assert_meets_policy c.to_lower_case c.password_min_length password) s

  -- The checks of `changePassword`.
  unfoldable pub check_change : ℕ → Text → Text → AuthStore → Outcome User
  unfolding assert_meets_policy
  check_change user current new s = do
    assert_meets_policy c.to_lower_case c.password_min_length new
    u ← or_throw (find_user user s.users) not_found
    throw_if (not (c.verify_password u.password_hash current)) invalid_credentials
    ok u

  abbrev pub change_checked : ℕ → Text → Outcome User → AuthStore → Outcome (Unit {0}) × AuthStore
  change_checked salt new (throw e) s = (throw e, s)
  change_checked salt new (ok u) s = (
    ok tt,
    end_sessions u.id (
        update_user u.id
          (λ (row : User). record row {
            password_hash = c.hash_password salt new;
            token_version = row.token_version + 1;
          })
          s),
  )

  -- `changePassword`
  unfoldable pub change_password : ℕ → AuthContext → Text → Text → Action (Unit {0})
  unfolding check_change
  change_password salt auth current new s =
      change_checked salt new (check_change auth.user_id current new s) s

  abbrev pub verify_consumed :
      Outcome VerificationToken × AuthStore → Outcome (Unit {0}) × AuthStore
  verify_consumed (throw e, s) = (throw e, s)
  verify_consumed (ok link, s) = (
    ok tt,
    invalidate_user link.user_id
        (update_user link.user_id (λ (row : User). record row { email_verified_at = some now }) s),
  )

  -- `verifyEmail`
  unfoldable pub verify_email : ℕ → Action (Unit {0})
  verify_email raw s =
      verify_consumed
        (consume_verification_token c.sha256 c.refresh_ttl now raw email_verification s)

  abbrev pub resend_found : Draw → Option User → AuthStore → AuthStore
  resend_found draw none s = s
  resend_found draw (some user) s =
      if has_verified_email user then s else send_verification_email draw user s

  -- `resendVerification`
  unfoldable pub resend_verification : Draw → ℕ → AuthStore → AuthStore
  resend_verification draw email s = resend_found draw (find_email email s.users) s
