-- ===== src/Auth/Tests.antt =====
-- What the handlers of src/auth do with the tokens of one member of a school.

mod Ending
use edu_gear_back_end.Common.Text.{starts_with, occurs_in}
use edu_gear_back_end.Auth.Passwords.{is_run, is_too_common}
use edu_gear_back_end.Auth.Admission.Platform.{IsOperator, admit-IsOperator}
use edu_gear_back_end.Auth.Admission.School.{IsAllowed, admit-IsAllowed}
use edu_gear_back_end.Auth.Histories.Resetting.{reset_password-ends}
use edu_gear_back_end.Auth.Tokens.Racing.{rotate_stored-raced}
use edu_gear_back_end.Auth.Tokens.SingleUse.{create_verification_token-lone}
use edu_gear_back_end.Auth.Tokens.Rotating.{is_live_in, rotate-replayed}
use edu_gear_back_end.Auth.Strategy.{owner, PlatformToken, validate}
use edu_gear_back_end.Auth.Admission.{access, platform, admit}
use edu_gear_back_end.Auth.Login.Lockout.{attempt, attack, login-locked}
use edu_gear_back_end.Auth.Histories.Ending.{IsSignedOut, logout_all-ends}
use edu_gear_back_end.Auth.Histories.{
  logged_in, refreshed, here, next, Reach-HasLoneTokens, Reach-IsCoherent,
}
use edu_gear_back_end.Auth.Sessions.{refresh, logout_all, reset_password}
use edu_gear_back_end.Auth.Access.{read_snapshot, get_membership_snapshot}
use edu_gear_back_end.Common.{
  length, count, All, token_invalid, token_reused, account_locked, throw, ok, ◌≤◌, ◌≡◌, refl, false,
  none, some, [], ◌∷◌, arith,
}
use edu_gear_back_end.Auth.Store.{password_reset, RefreshToken, AuthStore, find_user}
use edu_gear_back_end.Auth.Access.Caching.{IsCoherent}
use edu_gear_back_end.Auth.Tokens.{
  AccessToken, is_waiting, find_hash, Rotated, rotate_stored, rotate_refresh_token,
  create_verification_token, consume_verification_token,
}
use edu_gear_back_end.Auth.Tokens.Families.{live_count, HasLoneTokens}
use edu_gear_back_end.Auth.Login.{list_memberships, login}
use edu_gear_back_end.Auth.Login.Signing.{IsSignIn, login-IsSignIn}
use edu_gear_back_end.Auth.Samples.{
  config, ada, token, link, store, draw, draw_again, access_token, dto, store-IsCoherent,
  store-HasLoneTokens, ada-IsOutdated, session, new_password, first_guess, second_guess, route,
  school_asked, admins, platform_token, platform_route, platform_asked, renewed,
}
use edu_gear_back_end.Common.Sorting.{insert, sort}

logged_in_ada : login config 5 draw dto store ≡ (ok session, (login config 5 draw dto store).1)
unfolding login sort insert get_membership_snapshot read_snapshot list_memberships
logged_in_ada = refl

login-IsSignIn_example : IsSignIn config 5 draw dto store session (login config 5 draw dto store).1
login-IsSignIn_example =
    login-IsSignIn config 5 draw dto store (login config 5 draw dto store).1 session logged_in_ada

Reach-HasLoneTokens_example :
    HasLoneTokens (refresh config 6 draw_again 50 (login config 5 draw dto store).1).1
Reach-HasLoneTokens_example =
    Reach-HasLoneTokens (next (next here (logged_in 5 draw dto refl)) (refreshed 6 draw_again 50))
      store-HasLoneTokens

Reach-IsCoherent_example : IsCoherent (login config 5 draw dto store).1
Reach-IsCoherent_example = Reach-IsCoherent (next here (logged_in 5 draw dto refl)) store-IsCoherent

logout_all-ends_example :
    IsSignedOut 1 (logout_all config 6 1 store)
    × ((validate 7 access_token (logout_all config 6 1 store)).0 ≡ throw token_invalid)
logout_all-ends_example =
    logout_all-ends config 6 1 store (logout_all config 6 1 store) ada store-IsCoherent refl here 7
      access_token ada-IsOutdated

reset_ada :
    reset_password config 6 0 70 new_password store
    ≡ (ok tt, (reset_password config 6 0 70 new_password store).1)
unfolding reset_password is_too_common occurs_in starts_with is_run consume_verification_token
reset_ada = refl

reset_password-ends_example :
    (find_user 1 (reset_password config 6 0 70 new_password store).1.users
      ≡ some (record ada {
        password_hash = length new_password;
        failed_login_attempts = 0;
        locked_until = none;
        token_version = 5;
      }))
    × IsSignedOut 1 (reset_password config 6 0 70 new_password store).1
    × ((validate 7 access_token (reset_password config 6 0 70 new_password store).1).0
        ≡ throw token_invalid)
reset_password-ends_example =
    reset_password-ends config 6 0 70 new_password store
      (reset_password config 6 0 70 new_password store).1
      (reset_password config 6 0 70 new_password store).1 link ada store-IsCoherent refl refl
      reset_ada here 7 access_token ada-IsOutdated

login-locked_example :
    login config 8 draw dto (attempt config second_guess (attack config (first_guess ∷ []) store))
    ≡ (throw account_locked, attempt config second_guess (attack config (first_guess ∷ []) store))
login-locked_example =
    login-locked config 10 ada store (first_guess ∷ []) second_guess refl
      (record { addressed = refl; wrong = refl; unlocked = refl }, tt)
      (record { addressed = refl; wrong = refl; unlocked = refl }) refl 8 draw dto refl
      (omega arith)

admitted_ada :
    admit [] 7 route (some (access access_token)) store
    ≡ (ok school_asked, (admit [] 7 route (some (access access_token)) store).1)
unfolding admit get_membership_snapshot read_snapshot
admitted_ada = refl

admit-IsAllowed_example :
    (t : AccessToken) × (some (access access_token) ≡ some (access t))
    × IsAllowed route t store school_asked
admit-IsAllowed_example =
    admit-IsAllowed [] 7 route (some (access access_token)) store
      (admit [] 7 route (some (access access_token)) store).1 school_asked refl refl
      store-IsCoherent admitted_ada

admitted_owner :
    admit admins 7 platform_route (some (platform platform_token)) store
    ≡ (ok platform_asked, store)
unfolding admit
admitted_owner = refl

admit-IsOperator_example :
    (t : PlatformToken) × (some (platform platform_token) ≡ some (platform t))
    × IsOperator admins (owner ∷ []) t store platform_asked
admit-IsOperator_example =
    admit-IsOperator admins 7 platform_route (owner ∷ []) (some (platform platform_token)) store
      store platform_asked refl refl admitted_owner

rotated_token :
    rotate_refresh_token config.sha256 1000 7 draw 50 none store
    ≡ (ok renewed, (rotate_refresh_token config.sha256 1000 7 draw 50 none store).1)
unfolding rotate_refresh_token
rotated_token = refl

rotate-replayed_example :
    (stored : RefreshToken) × (find_hash 50 store.refresh_tokens ≡ some stored)
    × ((rotate_refresh_token config.sha256 1000 8 draw_again 50 none
          (rotate_refresh_token config.sha256 1000 7 draw 50 none store).1).0
        ≡ throw token_reused)
    × All
        (λ t. is_live_in stored.family_id t ≡ false)
        (rotate_refresh_token config.sha256 1000 8 draw_again 50 none
          (rotate_refresh_token config.sha256 1000 7 draw 50 none store).1).1.refresh_tokens
rotate-replayed_example =
    rotate-replayed config.sha256 1000 7 8 draw draw_again 50 none none store
      (rotate_refresh_token config.sha256 1000 7 draw 50 none store).1 renewed rotated_token refl

create_verification_token-lone_example :
    count
      (is_waiting 1 password_reset)
      (create_verification_token config.sha256 1000 7 draw 1 password_reset 500
        store).verification_tokens
    ≡ 1
create_verification_token-lone_example =
    create_verification_token-lone config.sha256 1000 7 draw 1 password_reset 500 store

rotate_stored-raced_example :
    (r : Rotated) × (r' : Rotated) × (s' : AuthStore) × (s'' : AuthStore) × (rotate_stored
        config.sha256 1000 7 draw none token ada store
      ≡ (ok r, s'))
    × (rotate_stored config.sha256 1000 8 draw_again none token ada s' ≡ (ok r', s''))
    × (2 ≤ live_count 60 s''.refresh_tokens)
rotate_stored-raced_example =
    rotate_stored-raced config.sha256 1000 7 8 draw draw_again none none token ada 20 20 store refl
      refl refl refl refl refl refl
