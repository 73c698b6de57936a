-- ===== src/Auth/Admission.antt =====
-- The guards of src/app.module.ts in their order: src/common/guards/jwt-auth.guard.ts with
-- src/auth/strategies/jwt.strategy.ts, then src/common/guards/permissions.guard.ts. A `Bearer` is a
-- token whose signature, issuer, audience and expiry Passport has accepted.
pub mod Checks
pub mod School
pub mod Platform
use edu_gear_back_end.Common.{
  ◌==◌, if◌then◌else◌, find, unauthorized, Outcome, throw, ok, ◌>>◌, ℕ, Option, none, some, List,
}
use edu_gear_back_end.Auth.Store.{User, MembershipSnapshot, AuthStore, find_user, Action}
use edu_gear_back_end.Auth.Tokens.{AccessToken}
use edu_gear_back_end.Auth.Sessions.{AuthContext}
use edu_gear_back_end.Auth.Strategy.{
  PlatformRole, PlatformAdmin, PlatformContext, PlatformToken, validate, validate_platform,
}
use edu_gear_back_end.Auth.Permissions.{Route, Request, can_activate}

-- `TokenPayload`, by its `typ`.
pub data Bearer : Type 0 where
  access : AccessToken → Bearer
  platform : PlatformToken → Bearer

-- The row `PlatformAdmin` (prisma/schema.prisma).
pub record AdminRow : Type 0 where
  pub id : ℕ
  pub user_id : ℕ
  pub role : PlatformRole
  pub disabled_at : Option ℕ

abbrev pub admin_of : AdminRow → Option User → Option PlatformAdmin
admin_of row none = none
admin_of row (some u) = some (record {
  id = row.id;
  user_id = row.user_id;
  role = row.role;
  disabled_at = row.disabled_at;
  user_status = u.status;
  token_version = u.token_version;
})

abbrev pub admin_at : Option AdminRow → AuthStore → Option PlatformAdmin
admin_at none s = none
admin_at (some row) s = admin_of row (find_user row.user_id s.users)

-- `PlatformAdminService.snapshot`; a row's user exists by its foreign key.
unfoldable pub admin_snapshot : List AdminRow → ℕ → AuthStore → Option PlatformAdmin
admin_snapshot admins id s = admin_at (find (λ (row : AdminRow). row.id == id) admins) s

-- A request before any guard has run.
abbrev pub anonymous : Request
anonymous = record { auth = none; membership = none; platform = none; tenant = none }

-- The request of a school's session; its tenant is the school of the context.
abbrev pub school_request : Outcome (AuthContext × MembershipSnapshot) → Outcome Request
school_request (throw e) = throw e
school_request (ok (auth, snapshot)) = ok (record {
  auth = some auth;
  membership = some snapshot;
  platform = none;
  tenant = some auth.school_id;
})

abbrev pub platform_request : Outcome PlatformContext → Outcome Request
platform_request (throw e) = throw e
platform_request (ok context) =
    ok (record { auth = none; membership = none; platform = some context; tenant = none })

module _ (admins : List AdminRow) (now : ℕ) where
  -- `JwtStrategy.validate`
  abbrev pub validate_bearer : Bearer → Action Request
  validate_bearer (access token) s =
      let (found, s') = validate now token s in (school_request found, s')
  validate_bearer (platform token) s =
      (platform_request (validate_platform token (admin_snapshot admins token.pid s)), s)

  -- `JwtAuthGuard`
  unfoldable pub authenticate : Route → Option Bearer → Action Request
  unfolding validate validate_platform admin_snapshot
  authenticate route bearer s = if route.is_public then (ok anonymous, s) else by_bearer bearer s
    where
      by_bearer : Option Bearer → Action Request
      by_bearer none s = (throw unauthorized, s)
      by_bearer (some token) s = validate_bearer token s

  abbrev pub authorize : Route → Outcome Request × AuthStore → Outcome Request × AuthStore
  authorize route (throw e, s) = (throw e, s)
  authorize route (ok request, s) =
      let (allowed, s') = can_activate now route request s in (allowed >> ok request, s')

  -- Both guards: the request that the handler sees, or the error that is answered.
  unfoldable pub admit : Route → Option Bearer → Action Request
  unfolding authenticate can_activate
  admit route bearer s = authorize route (authenticate route bearer s)
