-- ===== src/Auth/Tests/Ending.antt =====
-- What the handlers of src/auth end, for one member of a school: her sessions and her links.
use edu_gear_back_end.Common.{
  ◌==◌, length, count, token_invalid, token_reused, throw, ok, ◌≤◌, ◌≡◌, refl, true, some, arith,
}
use edu_gear_back_end.Common.Text.{starts_with, occurs_in}
use edu_gear_back_end.Auth.Store.{invitation, RefreshToken, AuthStore, find_user}
use edu_gear_back_end.Auth.Passwords.{is_run, is_too_common, assert_meets_policy}
use edu_gear_back_end.Auth.Tokens.{
  revoke_family, revoke_refresh_token, create_verification_token, consume_verification_token,
}
use edu_gear_back_end.Auth.Tokens.Spent.{has_hash}
use edu_gear_back_end.Auth.Sessions.{
  refresh, logout, forgot_password, reset_password, change_password, verify_email,
}
use edu_gear_back_end.Auth.Strategy.{validate}
use edu_gear_back_end.Auth.Histories.{logged_out, forgot, here, next}
use edu_gear_back_end.Auth.Histories.Ending.{IsSignedOut}
use edu_gear_back_end.Auth.Histories.Changing.{change_password-ends}
use edu_gear_back_end.Auth.Histories.Spending.{by_reset, consume-twice}
use edu_gear_back_end.Auth.Histories.Leaving.{logout-refused}
use edu_gear_back_end.Auth.Samples.{
  config, ada, token, store, draw, draw_again, access_token, dto, store-IsCoherent, ada-IsOutdated,
  new_password, ada_context,
}

change_ada :
    change_password config 6 0 ada_context dto.password new_password store
    ≡ (ok tt, (change_password config 6 0 ada_context dto.password new_password store).1)
unfolding change_password is_too_common occurs_in starts_with is_run
change_ada = refl

change_password-ends_example :
    (config.verify_password ada.password_hash dto.password ≡ true)
    × (find_user 1 (change_password config 6 0 ada_context dto.password new_password store).1.users
        ≡ some (record ada { password_hash = length new_password; token_version = 5 }))
    × IsSignedOut 1 (change_password config 6 0 ada_context dto.password new_password store).1
    × ((validate 7 access_token
          (change_password config 6 0 ada_context dto.password new_password store).1).0
        ≡ throw token_invalid)
change_password-ends_example =
    change_password-ends config 6 0 ada_context dto.password new_password store
      (change_password config 6 0 ada_context dto.password new_password store).1
      (change_password config 6 0 ada_context dto.password new_password store).1 ada
      store-IsCoherent refl change_ada here 7 access_token ada-IsOutdated

reset_ada :
    reset_password config 7 0 70 new_password store
    ≡ (ok tt, (reset_password config 7 0 70 new_password store).1)
unfolding reset_password is_too_common occurs_in starts_with is_run consume_verification_token
reset_ada = refl

-- After the reset, a logout.
abbrev after_reset : AuthStore
after_reset = logout config 8 50 (reset_password config 7 0 70 new_password store).1

lone_link : count (has_hash 70) after_reset.verification_tokens ≤ 1
unfolding logout revoke_refresh_token reset_password is_too_common occurs_in starts_with is_run
    consume_verification_token
lone_link = omega arith

new_password-allowed : assert_meets_policy config.to_lower_case 8 new_password ≡ ok tt
unfolding assert_meets_policy is_too_common occurs_in starts_with is_run
new_password-allowed = refl

consume-twice_example :
    (consume_verification_token config.sha256 1000 9 70 invitation after_reset
      ≡ (throw token_invalid, after_reset))
    × (reset_password config 9 0 70 new_password after_reset ≡ (throw token_invalid, after_reset))
    × (verify_email config 9 70 after_reset ≡ (throw token_invalid, after_reset))
consume-twice_example =
    consume-twice config 70 store (reset_password config 7 0 70 new_password store).1 after_reset
      (by_reset 7 0 new_password reset_ada) (next here (logged_out 8 50)) lone_link 9 0 invitation
      new_password new_password-allowed

abbrev left : AuthStore
left = forgot_password config 9 draw 10 (logout config 8 50 store)

lone_token : count (λ (x : RefreshToken). x.token_hash == 50) left.refresh_tokens ≤ 1
unfolding logout revoke_refresh_token forgot_password create_verification_token
lone_token = omega arith

logout-refused_example :
    refresh config 11 draw_again 50 left ≡ (throw token_reused, revoke_family 60 11 left)
logout-refused_example =
    logout-refused config 8 11 50 draw_again store left token ada refl refl
      (next here (forgot 9 draw 10)) lone_token
