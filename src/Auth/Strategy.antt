-- ===== src/Auth/Strategy.antt =====
-- src/auth/strategies/jwt.strategy.ts: what a school's access token is checked against on every
-- request. The signature and the expiry are checked before, by Passport; a token's type is its
-- constructor, and a platform token's checks are `validate_platform`.
use edu_gear_back_end.Common.{
  ◌==◌, is_none, token_invalid, account_inactive, membership_inactive, school_inactive, Outcome, ok,
  throw_if, or_throw, ◌>>=◌, ◌>>◌, ℕ, not, Option,
}
use edu_gear_back_end.Auth.Store.{
  UserStatus, MembershipSnapshot, is_active_user, is_active_member, is_active_school, Action,
}
use edu_gear_back_end.Auth.Access.{get_membership_snapshot}
use edu_gear_back_end.Auth.Tokens.{AccessToken}
use edu_gear_back_end.Auth.Sessions.{AuthContext}

pub data PlatformRole : Type 0 where
  support operator owner : PlatformRole

-- `PlatformAdminSnapshot`, which is read anew on every request.
pub record PlatformAdmin : Type 0 where
  pub id : ℕ
  pub user_id : ℕ
  pub role : PlatformRole
  pub disabled_at : Option ℕ
  pub user_status : UserStatus
  pub token_version : ℕ

pub record PlatformContext : Type 0 where
  pub user_id : ℕ
  pub platform_admin_id : ℕ
  pub role : PlatformRole

-- `PlatformTokenPayload`
pub record PlatformToken : Type 0 where
  pub sub : ℕ
  pub pid : ℕ
  pub ver : ℕ

-- The checks of `validate` on the snapshot.
unfoldable pub check_snapshot : AccessToken → Option MembershipSnapshot → Outcome MembershipSnapshot
check_snapshot payload found = do
  snapshot ← or_throw found token_invalid
  throw_if (not (snapshot.user_id == payload.sub)) token_invalid
  throw_if (not (snapshot.token_version == payload.ver)) token_invalid
  throw_if (not (is_active_user snapshot.user_status)) account_inactive
  throw_if (not (is_active_member snapshot.membership_status)) membership_inactive
  throw_if (not (is_active_school snapshot.school_status)) school_inactive
  ok snapshot

abbrev pub context_of : MembershipSnapshot → AuthContext
context_of snapshot = record {
  user_id = snapshot.user_id;
  membership_id = snapshot.membership_id;
  school_id = snapshot.school_id;
  role_id = snapshot.role_id;
}

-- What `validate` leaves on the request: `req.auth` and `req.membership`.
unfoldable pub validate : ℕ → AccessToken → Action (AuthContext × MembershipSnapshot)
unfolding check_snapshot
validate now payload s =
    let (found, s') = get_membership_snapshot now payload.mid s in
    (
      check_snapshot payload found >>= λ (snapshot : MembershipSnapshot).
          ok (context_of snapshot, snapshot),
      s',
    )

-- `validatePlatform`
unfoldable pub validate_platform : PlatformToken → Option PlatformAdmin → Outcome PlatformContext
validate_platform payload found = do
  admin ← or_throw found token_invalid
  throw_if (not (admin.user_id == payload.sub)) token_invalid
  throw_if (not (admin.token_version == payload.ver)) token_invalid
  throw_if (not (is_none admin.disabled_at)) account_inactive
  throw_if (not (is_active_user admin.user_status)) account_inactive
  ok (record { user_id = admin.user_id; platform_admin_id = admin.id; role = admin.role })
