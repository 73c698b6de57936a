-- ===== src/Auth/Histories/Resetting.antt =====
-- `resetPassword` of src/auth/auth.service.ts, and what it means for the sessions of the link's user.
use mathlib.Core.Path.{subst}
use edu_gear_back_end.Auth.Passwords.{assert_meets_policy}
use edu_gear_back_end.Auth.Tokens.SingleUse.{consume-IsConsumption, consumed}
use edu_gear_back_end.Common.Text.{Text}
use edu_gear_back_end.Common.{
  ==_refl, token_invalid, Outcome, throw, ok, ℕ, ◌+◌, ◌≡◌, refl, sym, ap, ◌∙◌, none, some,
}
use edu_gear_back_end.Auth.Store.{password_reset, User, VerificationToken, AuthStore, find_user}
use edu_gear_back_end.Auth.Access.Caching.{IsCoherent}
use edu_gear_back_end.Auth.Access.Coherent.{retokened-IsCoherent}
use edu_gear_back_end.Auth.Tokens.{AccessToken, consume_id, find_link, consume_verification_token}
use edu_gear_back_end.Auth.Login.{AuthConfig}
use edu_gear_back_end.Auth.Sessions.{reset_columns, reset_consumed, reset_allowed, reset_password}
use edu_gear_back_end.Auth.Strategy.{validate}
use edu_gear_back_end.Auth.Writes.{IsBump, sessions_ended}
use edu_gear_back_end.Auth.Writes.Keeping.{find_user-update}
use edu_gear_back_end.Auth.Histories.{Reach}
use edu_gear_back_end.Auth.Histories.Ending.{IsOutdated, IsSignedOut, ended}

-- The rows after a reset that went through.
reset-sessions_ended :
    (c : AuthConfig) (now salt raw : ℕ) (password : Text) (s s' : AuthStore)
    (link : VerificationToken)
    → find_link (c.sha256 raw) s.verification_tokens ≡ some link
    → reset_password c now salt raw password s ≡ (ok tt, s')
    → s'
      ≡ sessions_ended link.user_id now
          (reset_columns c now (c.hash_password salt password))
          (record s { verification_tokens = consume_id link.id now s.verification_tokens })
unfolding reset_password
reset-sessions_ended c now salt raw password s s' link known e =
    by_policy (assert_meets_policy c.to_lower_case c.password_min_length password) e
  where
    f : User → User
    f = reset_columns c now (c.hash_password salt password)

    after : AuthStore
    after = record s { verification_tokens = consume_id link.id now s.verification_tokens }

    by_link :
        (x : Outcome VerificationToken × AuthStore)
        → consume_verification_token c.sha256 c.refresh_ttl now raw password_reset s ≡ x
        → reset_consumed c now salt password x ≡ (ok tt, s')
        → s' ≡ sessions_ended link.user_id now f after
    by_link (throw g, t) consumed e =
        absurd (cc (ap (λ (p : Outcome (Unit {0}) × AuthStore). p.0) e))
    by_link (ok r, t) consumed e =
        let k =
          consume-IsConsumption c.sha256 c.refresh_ttl now raw password_reset s t r consumed in
        let same : k.link ≡ link = cc (k.found, known) in
        let own : r.user_id ≡ link.user_id = cc (k.answer, same) in
        let rows : t ≡ after =
          k.result
          ∙ ap
              (λ (q : VerificationToken). record s {
                verification_tokens = consume_id q.id now s.verification_tokens;
              })
              same in
        ap (λ (p : Outcome (Unit {0}) × AuthStore). p.1) (sym e)
        ∙ ap (λ (q : ℕ). sessions_ended q now f t) own
        ∙ ap (sessions_ended link.user_id now f) rows

    by_policy :
        (m : Outcome (Unit {0}))
        → reset_allowed c now salt raw password m s ≡ (ok tt, s')
        → s' ≡ sessions_ended link.user_id now f after
    by_policy (throw g) e = absurd (cc (ap (λ (p : Outcome (Unit {0}) × AuthStore). p.0) e))
    by_policy (ok done) e =
        by_link (consume_verification_token c.sha256 c.refresh_ttl now raw password_reset s) refl e

-- When a password is reset from a cache without stale snapshots, the link's user has the new
-- password's hash and no failed attempts nor lock, no refresh token of this user is live, and through
-- every later history each access token issued to the user up to then is refused as invalid.
pub reset_password-ends :
    (c : AuthConfig) (now salt raw : ℕ) (password : Text) (s s' s'' : AuthStore)
    (link : VerificationToken) (u : User)
    → IsCoherent s
    → find_link (c.sha256 raw) s.verification_tokens ≡ some link
    → find_user link.user_id s.users ≡ some u
    → reset_password c now salt raw password s ≡ (ok tt, s')
    → Reach c s' s''
    → (later : ℕ) (token : AccessToken) → IsOutdated link.user_id u.token_version token
    → (find_user link.user_id s'.users
        ≡ some (record u {
          password_hash = c.hash_password salt password;
          failed_login_attempts = 0;
          locked_until = none;
          token_version = u.token_version + 1;
        }))
      × IsSignedOut link.user_id s'
      × ((validate later token s'').0 ≡ throw token_invalid)
reset_password-ends c now salt raw password s s' s'' link u coherent known found e r later token o =
    let f = reset_columns c now (c.hash_password salt password) in
    let links = consume_id link.id now s.verification_tokens in
    let after = record s { verification_tokens = links } in
    let bump : IsBump f = record { same_id = λ x. refl; next_version = λ x. refl } in
    let rows = reset-sessions_ended c now salt raw password s s' link known e in
    let (out, refused) =
      ended link.user_id now f after s'' u bump
        (retokened-IsCoherent s s.refresh_tokens links coherent) found
        (subst (λ (x : AuthStore). Reach c x s'') rows r) later token o in
    (
      ap (λ (x : AuthStore). find_user link.user_id x.users) rows
          ∙ find_user-update link.user_id f bump.same_id link.user_id s.users u found
          ∙ rw (==_refl link.user_id) refl,
      subst (IsSignedOut link.user_id) (sym rows) out,
      refused,
    )
