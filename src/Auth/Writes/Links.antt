-- ===== src/Auth/Writes/Links.antt =====
-- The writes of the handlers of src/auth/auth.service.ts for passwords, addresses and schools, and of
-- the check of a token.
use edu_gear_back_end.Common.{
  ◌==◌, Bool-cases, Outcome, throw, ok, ℕ, ◌+◌, ◌*◌, refl, inl, inr, not, Option, none, some,
}
use edu_gear_back_end.Common.Text.{Text}
use edu_gear_back_end.Auth.Store.{
  email_verification, password_reset, User, Membership, VerificationToken, CachedSnapshot,
  AuthStore, is_deactivated, find_email,
}
use edu_gear_back_end.Auth.Passwords.{assert_meets_policy}
use edu_gear_back_end.Auth.Tokens.{AccessToken, Draw, consume_verification_token}
use edu_gear_back_end.Auth.Login.{AuthConfig}
use edu_gear_back_end.Auth.Sessions.{
  AuthContext, has_verified_email, check_switch, switch_checked, switch_school, forgot_found,
  forgot_password, reset_columns, reset_consumed, reset_allowed, reset_password, check_change,
  change_checked, change_password, verify_consumed, verify_email, resend_found, resend_verification,
}
use edu_gear_back_end.Auth.Strategy.{validate}
use edu_gear_back_end.Auth.Writes.{
  kept_user, bumped, looked_up, forgotten, Writes, nothing, then, once,
}
use edu_gear_back_end.Auth.Writes.Handlers.{
  IsNewFamily, consume-Writes, create-Writes, open_session-Writes,
}

module _ (c : AuthConfig) (now : ℕ) where
  pub switch_school-Writes :
      (draw : Draw) (auth : AuthContext) (school : ℕ) (s : AuthStore)
      → IsNewFamily draw s
      → Writes s (switch_school c now draw auth school s).1
  unfolding switch_school
  switch_school-Writes draw auth school s new = by_check (check_switch auth.user_id school s)
    where
      by_check : (m : Outcome (Membership × User)) → Writes s (switch_checked c now draw m s).1
      by_check (throw e) = nothing
      by_check (ok (m, u)) = open_session-Writes c now draw u m s new

  pub forgot_password-Writes :
      (draw : Draw) (email : ℕ) (s : AuthStore) → Writes s (forgot_password c now draw email s)
  unfolding forgot_password
  forgot_password-Writes draw email s = by_user (find_email email s.users)
    where
      by_user : (o : Option User) → Writes s (forgot_found c now draw o s)
      by_user none = nothing
      by_user (some user) = elim (Bool-cases (is_deactivated user.status)) [
        | inl gone ↦ rw gone nothing
        | inr present ↦ rw present (
            create-Writes c.sha256 c.refresh_ttl now draw user.id password_reset
              (c.password_reset_ttl_minutes * 60000) s)
      ]

  pub resend_verification-Writes :
      (draw : Draw) (email : ℕ) (s : AuthStore) → Writes s (resend_verification c now draw email s)
  unfolding resend_verification
  resend_verification-Writes draw email s = by_user (find_email email s.users)
    where
      by_user : (o : Option User) → Writes s (resend_found c now draw o s)
      by_user none = nothing
      by_user (some user) = elim (Bool-cases (has_verified_email user)) [
        | inl done ↦ rw done nothing
        | inr waiting ↦ rw waiting (
            create-Writes c.sha256 c.refresh_ttl now draw user.id email_verification
              (c.email_verification_ttl_hours * 3600000) s)
      ]

  pub reset_password-Writes :
      (salt raw : ℕ) (password : Text) (s : AuthStore)
      → Writes s (reset_password c now salt raw password s).1
  unfolding reset_password
  reset_password-Writes salt raw password s =
      by_policy (assert_meets_policy c.to_lower_case c.password_min_length password)
    where
      by_link :
          (x : Outcome VerificationToken × AuthStore)
          → Writes s x.1
          → Writes s (reset_consumed c now salt password x).1
      by_link (throw e, t) ws = ws
      by_link (ok link, t) ws = then ws (
          bumped link.user_id now (reset_columns c now (c.hash_password salt password))
            (record { same_id = λ u. refl; next_version = λ u. refl }) refl)

      by_policy : (m : Outcome (Unit {0})) → Writes s (reset_allowed c now salt raw password m s).1
      by_policy (throw e) = nothing
      by_policy (ok done) =
          by_link (consume_verification_token c.sha256 c.refresh_ttl now raw password_reset s)
            (consume-Writes c.sha256 c.refresh_ttl now raw password_reset s)

  pub change_password-Writes :
      (salt : ℕ) (auth : AuthContext) (current new : Text) (s : AuthStore)
      → Writes s (change_password c now salt auth current new s).1
  unfolding change_password
  change_password-Writes salt auth current new s =
      by_check (check_change c now auth.user_id current new s)
    where
      by_check : (m : Outcome User) → Writes s (change_checked c now salt new m s).1
      by_check (throw e) = nothing
      by_check (ok u) = once (
          bumped u.id now
            (λ (row : User). record row {
              password_hash = c.hash_password salt new;
              token_version = row.token_version + 1;
            })
            (record { same_id = λ u. refl; next_version = λ u. refl }) refl)

  pub verify_email-Writes : (raw : ℕ) (s : AuthStore) → Writes s (verify_email c now raw s).1
  unfolding verify_email
  verify_email-Writes raw s =
      by_link (consume_verification_token c.sha256 c.refresh_ttl now raw email_verification s)
        (consume-Writes c.sha256 c.refresh_ttl now raw email_verification s)
    where
      by_link :
          (x : Outcome VerificationToken × AuthStore)
          → Writes s x.1
          → Writes s (verify_consumed c now x).1
      by_link (throw e, t) ws = ws
      by_link (ok link, t) ws =
          then
            (then ws (
              kept_user link.user_id (λ (row : User). record row { email_verified_at = some now })
                (record { same_id = λ u. refl; same_status = λ u. refl; same_version = λ u. refl })
                refl))
            (forgotten (λ (e : CachedSnapshot). not (e.snapshot.user_id == link.user_id)) refl)

-- The check of a token reads the cache.
pub validate-Writes :
    (now : ℕ) (token : AccessToken) (s : AuthStore) → Writes s (validate now token s).1
unfolding validate
validate-Writes now token s = once (looked_up now token.mid refl)
