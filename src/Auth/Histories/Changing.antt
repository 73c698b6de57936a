-- ===== src/Auth/Histories/Changing.antt =====
-- `changePassword` of src/auth/auth.service.ts, and what it means for the sessions of the user.
use mathlib.Core.Path.{subst}
use edu_gear_back_end.Common.{
  ◌==◌, ==_iff, ==_refl, not_found, invalid_credentials, token_invalid, Outcome, throw, ok,
  throw_if, or_throw, >>=-eq-ok, or_throw-eq-ok, throw_if-eq-ok, ℕ, ◌+◌, ◌≡◌, refl, sym, ap, ◌∙◌,
  true, not, some, arith,
}
use edu_gear_back_end.Common.Members.{find-Has}
use edu_gear_back_end.Common.Text.{Text}
use edu_gear_back_end.Auth.Passwords.{assert_meets_policy}
use edu_gear_back_end.Auth.Store.{User, AuthStore, find_user}
use edu_gear_back_end.Auth.Access.Caching.{IsCoherent}
use edu_gear_back_end.Auth.Tokens.{AccessToken}
use edu_gear_back_end.Auth.Login.{AuthConfig}
use edu_gear_back_end.Auth.Sessions.{AuthContext, check_change, change_checked, change_password}
use edu_gear_back_end.Auth.Strategy.{validate}
use edu_gear_back_end.Auth.Writes.{IsBump, sessions_ended}
use edu_gear_back_end.Auth.Writes.Keeping.{find_user-update}
use edu_gear_back_end.Auth.Histories.{Reach}
use edu_gear_back_end.Auth.Histories.Ending.{IsOutdated, IsSignedOut, ended}

-- What the checks of a change that goes through have found.
check_change-ok :
    (c : AuthConfig) (now user : ℕ) (current new : Text) (s : AuthStore) (u : User)
    → check_change c now user current new s ≡ ok u
    → (find_user user s.users ≡ some u) × (c.verify_password u.password_hash current ≡ true)
unfolding check_change
check_change-ok c now user current new s u e =
    let (_, _, e₀) =
      >>=-eq-ok (assert_meets_policy c.to_lower_case c.password_min_length new) _ e in
    let (v, e₁, e₂) = >>=-eq-ok (or_throw (find_user user s.users) not_found) _ e₀ in
    let (_, e₃, e₄) =
      >>=-eq-ok (throw_if (not (c.verify_password v.password_hash current)) invalid_credentials) _
        e₂ in
    let it : v ≡ u = cc e₄ in
    let verified : c.verify_password v.password_hash current ≡ true = ground (
      arith,
      throw_if-eq-ok (not (c.verify_password v.password_hash current)) invalid_credentials e₃,
    ) in
    (
      or_throw-eq-ok (find_user user s.users) not_found e₁ ∙ ap some it,
      subst (λ (x : User). c.verify_password x.password_hash current ≡ true) it verified,
    )

-- A change that goes through, and the rows after it.
record IsChange (c : AuthConfig) (now salt user : ℕ) (current new : Text) (s s' : AuthStore)
    : Type 0 where
  row : User
  found : find_user user s.users ≡ some row
  verified : c.verify_password row.password_hash current ≡ true
  written :
      s'
      ≡ sessions_ended row.id now
          (λ (x : User). record x {
            password_hash = c.hash_password salt new;
            token_version = x.token_version + 1;
          })
          s

change_password-IsChange :
    (c : AuthConfig) (now salt : ℕ) (auth : AuthContext) (current new : Text) (s s' : AuthStore)
    → change_password c now salt auth current new s ≡ (ok tt, s')
    → IsChange c now salt auth.user_id current new s s'
unfolding change_password
change_password-IsChange c now salt auth current new s s' e =
    by_check (check_change c now auth.user_id current new s) refl e
  where
    by_check :
        (m : Outcome User)
        → check_change c now auth.user_id current new s ≡ m
        → change_checked c now salt new m s ≡ (ok tt, s')
        → IsChange c now salt auth.user_id current new s s'
    by_check (throw f) checked e = absurd (cc (ap (λ (p : Outcome (Unit {0}) × AuthStore). p.0) e))
    by_check (ok u) checked e =
        let (known, right) = check_change-ok c now auth.user_id current new s u checked in
        record {
          row = u;
          found = known;
          verified = right;
          written = ap (λ (p : Outcome (Unit {0}) × AuthStore). p.1) (sym e);
        }

-- When a user has changed the password from a cache without stale snapshots, the current one given was
-- verified, the row has the new one's hash and the next version and is otherwise as before, no refresh
-- token of the user is live, and through every later history each access token issued to the user up
-- to then is refused as invalid, that of the session that asked included.
pub change_password-ends :
    (c : AuthConfig) (now salt : ℕ) (auth : AuthContext) (current new : Text) (s s' s'' : AuthStore)
    (u : User)
    → IsCoherent s
    → find_user auth.user_id s.users ≡ some u
    → change_password c now salt auth current new s ≡ (ok tt, s')
    → Reach c s' s''
    → (later : ℕ) (token : AccessToken) → IsOutdated auth.user_id u.token_version token
    → (c.verify_password u.password_hash current ≡ true)
      × (find_user auth.user_id s'.users
          ≡ some (record u {
            password_hash = c.hash_password salt new;
            token_version = u.token_version + 1;
          }))
      × IsSignedOut auth.user_id s'
      × ((validate later token s'').0 ≡ throw token_invalid)
change_password-ends c now salt auth current new s s' s'' u coherent known e r later token o =
    let f = λ (x : User). record x {
      password_hash = c.hash_password salt new;
      token_version = x.token_version + 1;
    } in
    let bump : IsBump f = record { same_id = λ x. refl; next_version = λ x. refl } in
    let k = change_password-IsChange c now salt auth current new s s' e in
    let it : k.row ≡ u = cc (k.found, known) in
    let (_, hit) = find-Has (λ (x : User). x.id == auth.user_id) s.users known in
    let own : k.row.id ≡ auth.user_id =
      ap (λ (x : User). x.id) it ∙ (==_iff u.id auth.user_id).0 hit in
    let rows : s' ≡ sessions_ended auth.user_id now f s =
      k.written ∙ ap (λ (n : ℕ). sessions_ended n now f s) own in
    let (out, refused) =
      ended auth.user_id now f s s'' u bump coherent known
        (subst (λ (x : AuthStore). Reach c x s'') rows r) later token o in
    (
      subst (λ (x : User). c.verify_password x.password_hash current ≡ true) it k.verified,
      ap (λ (x : AuthStore). find_user auth.user_id x.users) rows
          ∙ find_user-update auth.user_id f bump.same_id auth.user_id s.users u known
          ∙ rw (==_refl auth.user_id) refl,
      subst (IsSignedOut auth.user_id) (sym rows) out,
      refused,
    )
