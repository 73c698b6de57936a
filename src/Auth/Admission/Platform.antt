-- ===== src/Auth/Admission/Platform.antt =====
-- The guards of src/common/guards on a platform route: whom they let through.
use mathlib.Core.Path.{subst}
use edu_gear_back_end.Common.{
  ◌==◌, is_none, any, token_invalid, account_inactive, insufficient_permissions, Outcome, throw, ok,
  throw_if, or_throw, >>=-eq-ok, ◌>>◌, or_throw-eq-ok, throw_if-eq-ok, ℕ, ◌≡◌, refl, sym, ap, ◌∙◌,
  true, false, not, Option, none, some, List, arith,
}
use edu_gear_back_end.Auth.Store.{MembershipSnapshot, AuthStore, is_active_user}
use edu_gear_back_end.Auth.Sessions.{AuthContext}
use edu_gear_back_end.Auth.Strategy.{
  PlatformRole, PlatformAdmin, PlatformContext, PlatformToken, validate, validate_platform,
}
use edu_gear_back_end.Auth.Permissions.{Route, Request, same_role, allow_platform, can_activate}
use edu_gear_back_end.Auth.Admission.{
  Bearer, access, platform, AdminRow, admin_snapshot, school_request, platform_request, authorize,
  admit,
}
use edu_gear_back_end.Auth.Admission.Checks.{authenticate-none, authenticate-some}

-- A platform session that may use a route for the roles.
pub record IsOperator (admins : List AdminRow) (roles : List PlatformRole) (token : PlatformToken)
    (s : AuthStore) (request : Request) : Type 0 where
  pub admin : PlatformAdmin
  pub current : admin_snapshot admins token.pid s ≡ some admin
  pub subject : admin.user_id ≡ token.sub
  pub version : admin.token_version ≡ token.ver
  pub enabled : admin.disabled_at ≡ none
  pub user : is_active_user admin.user_status ≡ true
  pub permitted : any (same_role admin.role) roles ≡ true
  pub no_tenant : request.tenant ≡ none

-- What `validatePlatform` has tested.
record IsTrusted (token : PlatformToken) (found : Option PlatformAdmin) (x : PlatformContext)
    : Type 0 where
  admin : PlatformAdmin
  current : found ≡ some admin
  subject : admin.user_id ≡ token.sub
  version : admin.token_version ≡ token.ver
  enabled : admin.disabled_at ≡ none
  user : is_active_user admin.user_status ≡ true
  role : x.role ≡ admin.role

validate_platform-IsTrusted :
    (token : PlatformToken) (found : Option PlatformAdmin) (x : PlatformContext)
    → validate_platform token found ≡ ok x
    → IsTrusted token found x
unfolding validate_platform
validate_platform-IsTrusted token found x e =
    let (a, e₀, r₀) = >>=-eq-ok (or_throw found token_invalid) _ e in
    let (_, e₁, r₁) = >>=-eq-ok (throw_if (not (a.user_id == token.sub)) token_invalid) _ r₀ in
    let (_, e₂, r₂) =
      >>=-eq-ok (throw_if (not (a.token_version == token.ver)) token_invalid) _ r₁ in
    let (_, e₃, r₃) = >>=-eq-ok (throw_if (not (is_none a.disabled_at)) account_inactive) _ r₂ in
    let (_, e₄, r₄) =
      >>=-eq-ok (throw_if (not (is_active_user a.user_status)) account_inactive) _ r₃ in
    record {
      admin = a;
      current = or_throw-eq-ok found token_invalid e₀;
      subject = ground (arith, throw_if-eq-ok (not (a.user_id == token.sub)) token_invalid e₁);
      version =
          ground (arith, throw_if-eq-ok (not (a.token_version == token.ver)) token_invalid e₂);
      enabled = ground (arith, throw_if-eq-ok (not (is_none a.disabled_at)) account_inactive e₃);
      user =
          ground (arith, throw_if-eq-ok (not (is_active_user a.user_status)) account_inactive e₄);
      role = cc r₄;
    }

module _ (admins : List AdminRow) (now : ℕ) (route : Route) (roles : List PlatformRole)
    (closed : route.is_public ≡ false) (scoped : route.platform_roles ≡ some roles) where
  authorize-scoped :
      (asked : Request) (s : AuthStore)
      → authorize admins now route (ok asked, s)
        ≡ (allow_platform asked.platform roles >> ok asked, s)
  unfolding can_activate
  authorize-scoped asked s = rw (closed, scoped) refl

  -- A school's session is told that the route does not exist.
  school_refused :
      (x : Outcome (AuthContext × MembershipSnapshot)) (s t' : AuthStore) (request : Request)
      → ¬ (authorize admins now route (school_request x, s) ≡ (ok request, t'))
  unfolding allow_platform
  school_refused (throw f) s t' request e = cc (ap (λ (p : Outcome Request × AuthStore). p.0) e)
  school_refused (ok (auth, snapshot)) s t' request e =
      cc (ap (λ (p : Outcome Request × AuthStore). p.0) (sym (authorize-scoped _ s) ∙ e))

  platform-IsOperator :
      (token : PlatformToken) (s t' : AuthStore) (request : Request) (m : Outcome PlatformContext)
      → validate_platform token (admin_snapshot admins token.pid s) ≡ m
      → authorize admins now route (platform_request m, s) ≡ (ok request, t')
      → IsOperator admins roles token s request
  unfolding allow_platform
  platform-IsOperator token s t' request (throw f) checked e =
      absurd (cc (ap (λ (p : Outcome Request × AuthStore). p.0) e))
  platform-IsOperator token s t' request (ok x) checked e =
      let k = validate_platform-IsTrusted token (admin_snapshot admins token.pid s) x checked in
      let answer = ap (λ (p : Outcome Request × AuthStore). p.0) (sym (authorize-scoped _ s) ∙ e) in
      let (_, e₀, e₁) =
        >>=-eq-ok (throw_if (not (any (same_role x.role) roles)) insufficient_permissions) _
          answer in
      let asked : Request = record {
        auth = none;
        membership = none;
        platform = some x;
        tenant = none;
      } in
      let equal : asked ≡ request = cc e₁ in
      record {
        admin = k.admin;
        current = k.current;
        subject = k.subject;
        version = k.version;
        enabled = k.enabled;
        user = k.user;
        permitted =
            subst (λ (q : PlatformRole). any (same_role q) roles ≡ true) k.role
              (ground (
                arith,
                throw_if-eq-ok (not (any (same_role x.role) roles)) insufficient_permissions e₀,
              ));
        no_tenant = subst (λ (q : Request). q.tenant ≡ none) equal refl;
      }

  admitted-IsOperator :
      (bearer : Option Bearer) (s t' : AuthStore) (request : Request)
      → admit admins now route bearer s ≡ (ok request, t')
      → (token : PlatformToken) × (bearer ≡ some (platform token))
        × IsOperator admins roles token s request
  unfolding admit
  admitted-IsOperator none s t' request e = absurd (
      cc (
        ap (λ (p : Outcome Request × AuthStore). p.0)
          (ap (authorize admins now route) (sym (authenticate-none admins now route s closed))
            ∙ e)))
  admitted-IsOperator (some (access token)) s t' request e = absurd (
      school_refused (validate now token s).0 (validate now token s).1 t' request (
        ap (authorize admins now route)
          (sym (authenticate-some admins now route (access token) s closed))
        ∙ e))
  admitted-IsOperator (some (platform token)) s t' request e = (
    token,
    refl,
    platform-IsOperator token s t' request _ refl (
        ap (authorize admins now route)
          (sym (authenticate-some admins now route (platform token) s closed))
        ∙ e),
  )

-- A request that the guards let through to a platform route, one that is not public and names roles:
-- it carries a platform token, never a school's; the row of the platform's administrator that the token
-- names exists, is the token's user's, at the token's version, not disabled and with an active user;
-- its role is among the route's; and the request has no tenant.
pub admit-IsOperator :
    (admins : List AdminRow) (now : ℕ) (route : Route) (roles : List PlatformRole)
    (bearer : Option Bearer) (s s' : AuthStore) (request : Request)
    → route.is_public ≡ false
    → route.platform_roles ≡ some roles
    → admit admins now route bearer s ≡ (ok request, s')
    → (token : PlatformToken) × (bearer ≡ some (platform token))
      × IsOperator admins roles token s request
admit-IsOperator admins now route roles bearer s s' request closed scoped e =
    admitted-IsOperator admins now route roles closed scoped bearer s s' request e
