-- ===== src/Auth/Writes/Handlers.antt =====
-- The writes that each handler of src/auth/auth.service.ts makes.
use edu_gear_back_end.Common.{
  leb, ◌==◌, Bool-cases, count, Outcome, throw, ok, ◌>>◌, ℕ, ◌≡◌, refl, inl, inr, not, Option, none,
  some,
}
use edu_gear_back_end.Auth.Store.{
  VerificationTokenType, User, Membership, RefreshToken, VerificationToken, MembershipSnapshot,
  AuthStore, find_email, update_user,
}
use edu_gear_back_end.Auth.Access.{is_of_membership, invalidate_membership, get_membership_snapshot}
use edu_gear_back_end.Auth.Tokens.{
  IssuedTokens, Draw, is_unrevoked, store_token, or_membership, Rotated, new_refresh_token,
  issue_tokens, rotate_into, rotate_stored, read_token, rotate_read, rotate_refresh_token,
  revoke_refresh_token, create_verification_token, check_link, consume_checked,
  consume_verification_token,
}
use edu_gear_back_end.Auth.Tokens.Families.{in_family, rotate-HasLoneTokens}
use edu_gear_back_end.Auth.Login.{
  AuthConfig, LoginDto, resolve_membership, is_locked, check_status, finish_session, build_session,
  failed_attempt, register_failed_attempt, signed_in, open_session, sign_in, login_known,
  login_found, login,
}
use edu_gear_back_end.Auth.Sessions.{bump_version, answer_tokens, refresh, logout, logout_all}
use edu_gear_back_end.Auth.Writes.{
  IsTurned, unturned, dropped, turned, issued, rotated, unrefreshed, linked, spent, kept_user,
  bumped, looked_up, forgotten, Writes, nothing, then, Writes-append, once,
}

-- The family that a call draws has no token yet.
abbrev pub IsNewFamily : Draw → AuthStore → Type 0
IsNewFamily draw s = count (in_family draw.family) s.refresh_tokens ≡ 0

-- A rotation writes refresh tokens alone, in one of three ways.
abbrev Turns : AuthStore → Outcome Rotated × AuthStore → Type 0
Turns s x =
    (x.1 ≡ record s { refresh_tokens = x.1.refresh_tokens })
    × IsTurned s.refresh_tokens x.1.refresh_tokens

rotate-Turns :
    (sha256 : ℕ → ℕ) (refresh_ttl now : ℕ) (draw : Draw) (raw : ℕ) (o : Option ℕ) (s : AuthStore)
    → Turns s (rotate_refresh_token sha256 refresh_ttl now draw raw o s)
unfolding rotate_refresh_token rotate_stored rotate_into issue_tokens
rotate-Turns sha256 refresh_ttl now draw raw o s = by_read (read_token sha256 refresh_ttl now raw s)
  where
    by_target :
        (stored : RefreshToken) (user : User) (m : Option ℕ)
        → Turns s (rotate_into sha256 refresh_ttl now draw stored user m s)
    by_target stored user none = (refl, unturned refl)
    by_target stored user (some m) = (refl, turned stored.id now _ refl)

    by_read :
        (m : Outcome (RefreshToken × User))
        → Turns s (rotate_read sha256 refresh_ttl now draw o m s)
    by_read (throw e) = (refl, unturned refl)
    by_read (ok (stored, user)) = elim (Bool-cases (is_unrevoked stored)) [
      | inr dead ↦ rw dead (refl, dropped stored.family_id now refl)
      | inl live ↦ elim (Bool-cases (leb stored.expires_at now)) [
        | inl expired ↦ rw (live, expired) (refl, unturned refl)
        | inr unexpired ↦
            rw (live, unexpired) (by_target stored user (or_membership o stored.membership_id))
      ]
    ]

pub consume-Writes :
    (sha256 : ℕ → ℕ) (refresh_ttl now raw : ℕ) (purpose : VerificationTokenType) (s : AuthStore)
    → Writes s (consume_verification_token sha256 refresh_ttl now raw purpose s).1
unfolding consume_verification_token
consume-Writes sha256 refresh_ttl now raw purpose s =
    by_check (check_link sha256 refresh_ttl now raw purpose s.verification_tokens)
  where
    by_check :
        (m : Outcome VerificationToken) → Writes s (consume_checked sha256 refresh_ttl now m s).1
    by_check (throw e) = nothing
    by_check (ok link) = once (spent link.id now refl)

pub create-Writes :
    (sha256 : ℕ → ℕ) (refresh_ttl now : ℕ) (draw : Draw) (user : ℕ)
    (purpose : VerificationTokenType) (ttl : ℕ) (s : AuthStore)
    → Writes s (create_verification_token sha256 refresh_ttl now draw user purpose ttl s)
unfolding create_verification_token
create-Writes sha256 refresh_ttl now draw user purpose ttl s = once (linked _ user purpose now refl)

module _ (c : AuthConfig) (now : ℕ) where
  pub open_session-Writes :
      (draw : Draw) (user : User) (m : Membership) (s : AuthStore)
      → IsNewFamily draw s
      → Writes s (open_session c now draw user m s).1
  unfolding open_session build_session issue_tokens
  open_session-Writes draw user m s new =
      let t = new_refresh_token c.sha256 c.refresh_ttl now draw user.id (some m.id) draw.family in
      let stored = store_token t s in
      let dropped = invalidate_membership m.id stored in
      by_found _ (get_membership_snapshot now m.id dropped) (
        then (then (once (issued t new refl)) (forgotten (λ e. not (is_of_membership m.id e)) refl))
          (looked_up now m.id refl))
    where
      by_found :
          (tokens : IssuedTokens) (x : Option MembershipSnapshot × AuthStore)
          → Writes s x.1
          → Writes s (finish_session c now tokens user.id x).1
      by_found tokens (none, t) ws = ws
      by_found tokens (some snapshot, t) ws = ws

  sign_in-Writes :
      (draw : Draw) (user : User) (m : Outcome Membership) (s : AuthStore)
      → IsNewFamily draw s
      → Writes s (sign_in c now draw user m s).1
  sign_in-Writes draw user (throw e) s new = nothing
  sign_in-Writes draw user (ok m) s new =
      Writes-append
        (once (
          kept_user user.id (signed_in c now)
            (record { same_id = λ u. refl; same_status = λ u. refl; same_version = λ u. refl })
            refl))
        (open_session-Writes draw user m (update_user user.id (signed_in c now) s) new)

  login_known-Writes :
      (draw : Draw) (dto : LoginDto) (user : User) (s : AuthStore)
      → IsNewFamily draw s
      → Writes s (login_known c now draw dto user s).1
  unfolding login_known register_failed_attempt
  login_known-Writes draw dto user s new = elim (Bool-cases (is_locked now user.locked_until)) [
    | inl locked ↦ rw locked nothing
    | inr unlocked ↦ elim (Bool-cases (c.verify_password user.password_hash dto.password)) [
      | inr wrong ↦
          rw (unlocked, wrong)
            (once (
              kept_user user.id (failed_attempt c now user)
                (record { same_id = λ u. refl; same_status = λ u. refl; same_version = λ u. refl })
                refl))
      | inl verified ↦
          rw (unlocked, verified)
            (sign_in-Writes draw user
              (check_status user.status >> resolve_membership user.id dto.school_id s) s new)
    ]
  ]

  pub login-Writes :
      (draw : Draw) (dto : LoginDto) (s : AuthStore)
      → IsNewFamily draw s
      → Writes s (login c now draw dto s).1
  unfolding login
  login-Writes draw dto s new = by_user (find_email dto.email s.users)
    where
      by_user : (o : Option User) → Writes s (login_found c now draw dto o s).1
      by_user none = nothing
      by_user (some user) = login_known-Writes draw dto user s new

  pub refresh-Writes :
      (draw : Draw) (raw : ℕ) (s : AuthStore) → Writes s (refresh c now draw raw s).1
  unfolding refresh
  refresh-Writes draw raw s =
      let turns = rotate-Turns c.sha256 c.refresh_ttl now draw raw none s in
      by_answer (rotate_refresh_token c.sha256 c.refresh_ttl now draw raw none s) (
        once (
          rotated (rotate-HasLoneTokens c.sha256 c.refresh_ttl now draw raw none s) turns.1
            turns.0))
    where
      by_answer :
          (x : Outcome Rotated × AuthStore) → Writes s x.1 → Writes s (answer_tokens c now x).1
      by_answer (throw e, t) ws = ws
      by_answer (ok r, t) ws = ws

  pub logout-Writes : (raw : ℕ) (s : AuthStore) → Writes s (logout c now raw s)
  unfolding logout revoke_refresh_token
  logout-Writes raw s =
      once (unrefreshed (λ (t : RefreshToken). t.token_hash == c.sha256 raw) now refl)

  pub logout_all-Writes : (user : ℕ) (s : AuthStore) → Writes s (logout_all c now user s)
  unfolding logout_all
  logout_all-Writes user s =
      once (
        bumped user now bump_version (record { same_id = λ u. refl; next_version = λ u. refl })
          refl)
