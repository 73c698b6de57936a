-- ===== src/Auth/Permissions.antt =====
-- src/common/guards/permissions.guard.ts: whether an authenticated request may reach a handler. What
-- the decorators say of the handler and its class is a `Route`; `tenant` is what
-- `RequestContext.getTenantId` answers.
use edu_gear_back_end.Common.{
  if◌then◌else◌, is_none, any, not_found, unauthorized, tenant_denied, insufficient_permissions,
  Outcome, throw, ok, throw_if, ℕ, Bool, true, false, not, ◌&&◌, Option, none, some, List, [], ◌∷◌,
}
use edu_gear_back_end.Auth.Store.{MembershipSnapshot, AuthStore, Action}
use edu_gear_back_end.Auth.Access.{get_membership_snapshot, has_all_permissions}
use edu_gear_back_end.Auth.Sessions.{AuthContext}
use edu_gear_back_end.Auth.Strategy.{PlatformRole, support, operator, owner, PlatformContext}

pub record Route : Type 0 where
  pub is_public : Bool
  pub platform_roles : Option (List PlatformRole)
  pub allow_no_tenant : Bool
  pub required : List ℕ

pub record Request : Type 0 where
  pub auth : Option AuthContext
  pub membership : Option MembershipSnapshot
  pub platform : Option PlatformContext
  pub tenant : Option ℕ

abbrev pub same_role : PlatformRole → PlatformRole → Bool
same_role support support = true
same_role operator operator = true
same_role owner owner = true
same_role _ _ = false

-- `allowPlatform`
unfoldable pub allow_platform : Option PlatformContext → List PlatformRole → Outcome (Unit {0})
allow_platform none allowed = throw not_found
allow_platform (some platform) allowed =
    throw_if (not (any (same_role platform.role) allowed)) insufficient_permissions

abbrev pub check_permissions : List ℕ → Option MembershipSnapshot → Outcome (Unit {0})
check_permissions required none = throw insufficient_permissions
check_permissions required (some snapshot) =
    throw_if (not (has_all_permissions snapshot required)) insufficient_permissions

-- `request.membership ?? await getMembershipSnapshot(request.auth.membershipId)`
abbrev pub held_snapshot :
    ℕ → Option MembershipSnapshot → ℕ → AuthStore → Option MembershipSnapshot × AuthStore
held_snapshot now (some snapshot) membership s = (some snapshot, s)
held_snapshot now none membership s = get_membership_snapshot now membership s

abbrev pub asks_nothing {ℓ} : {A : Type ℓ} → List A → Bool
asks_nothing [] = true
asks_nothing (x ∷ xs) = false

module _ (now : ℕ) where
  abbrev pub answer_permissions :
      List ℕ → Option MembershipSnapshot × AuthStore → Outcome (Unit {0}) × AuthStore
  answer_permissions required (found, s) = (check_permissions required found, s)

  -- The part of `canActivate` for a school's session.
  abbrev pub activate_school : Route → Request → Option AuthContext → Action (Unit {0})
  activate_school route request none s = (throw unauthorized, s)
  activate_school route request (some auth) s =
      if not route.allow_no_tenant && is_none request.tenant
      then (throw tenant_denied, s)
      else if asks_nothing route.required
      then (ok tt, s)
      else answer_permissions route.required
          (held_snapshot now request.membership auth.membership_id s)

  abbrev pub activate_scoped : Route → Request → Option (List PlatformRole) → Action (Unit {0})
  activate_scoped route request (some roles) s = (allow_platform request.platform roles, s)
  activate_scoped route request none s =
      if not (is_none request.platform)
      then (throw insufficient_permissions, s)
      else activate_school route request request.auth s

  -- `canActivate`
  unfoldable pub can_activate : Route → Request → Action (Unit {0})
  unfolding allow_platform
  can_activate route request s =
      if route.is_public then (ok tt, s) else activate_scoped route request route.platform_roles s
