-- ===== src/Auth/Admission/School.antt =====
-- The guards of src/common/guards on a school's route: whom they let through.
use mathlib.Core.Path.{subst}
use edu_gear_back_end.Auth.Access.Coherent.{get-answer}
use edu_gear_back_end.Auth.Access.Caching.{IsCoherent}
use edu_gear_back_end.Common.{
  All, includes, Outcome, throw, ok, ◌>>=◌, >>=-eq-ok, ◌>>◌, ℕ, ◌≡◌, refl, sym, ap, ◌∙◌, true,
  false, Option, none, some, List,
}
use edu_gear_back_end.Auth.Store.{MembershipSnapshot, AuthStore}
use edu_gear_back_end.Auth.Access.{read_snapshot, get_membership_snapshot}
use edu_gear_back_end.Auth.Tokens.{AccessToken}
use edu_gear_back_end.Auth.Sessions.{AuthContext}
use edu_gear_back_end.Auth.Strategy.{
  PlatformContext, check_snapshot, context_of, validate, validate_platform,
}
use edu_gear_back_end.Auth.Permissions.{Route, Request, activate_school, can_activate}
use edu_gear_back_end.Auth.Admission.{
  Bearer, access, platform, AdminRow, admin_snapshot, school_request, platform_request,
  validate_bearer, authorize, admit,
}
use edu_gear_back_end.Auth.Admission.Checks.{
  IsValid, check_snapshot-IsValid, activate_school-All, can_activate-school, authenticate-none,
  authenticate-some,
}

-- A session that may use a school's route.
pub record IsAllowed (route : Route) (token : AccessToken) (s : AuthStore) (request : Request)
    : Type 0 where
  pub snapshot : MembershipSnapshot
  pub current : read_snapshot token.mid s ≡ some snapshot
  pub valid : IsValid token snapshot
  pub permitted : All (λ p. includes p snapshot.permissions ≡ true) route.required
  pub tenant : request.tenant ≡ some snapshot.school_id
  pub no_platform : request.platform ≡ none

module _ (admins : List AdminRow) (now : ℕ) (route : Route) (closed : route.is_public ≡ false)
    (scoped : route.platform_roles ≡ none) where
  authorize-IsAllowed :
      (token : AccessToken) (s t t' : AuthStore) (request : Request)
      (x : Outcome (AuthContext × MembershipSnapshot))
      → (check_snapshot token (read_snapshot token.mid s) >>= λ (snapshot : MembershipSnapshot).
          ok (context_of snapshot, snapshot))
        ≡ x
      → authorize admins now route (school_request x, t) ≡ (ok request, t')
      → IsAllowed route token s request
  authorize-IsAllowed token s t t' request (throw f) checked e =
      absurd (cc (ap (λ (p : Outcome Request × AuthStore). p.0) e))
  authorize-IsAllowed token s t t' request (ok (auth, snapshot)) checked e =
      let (snap, e₀, e₁) = >>=-eq-ok (check_snapshot token (read_snapshot token.mid s)) _ checked in
      let (current, valid) = check_snapshot-IsValid token (read_snapshot token.mid s) snap e₀ in
      let same : snap ≡ snapshot = cc e₁ in
      let context : auth ≡ context_of snap = cc e₁ in
      by_guard (can_activate now route asked t)
        (sym (can_activate-school now route asked t closed scoped refl))
        (subst (λ (q : MembershipSnapshot). read_snapshot token.mid s ≡ some q) same current)
        (subst (IsValid token) same valid) (cc (context, same)) e
    where
      asked : Request
      asked = record {
        auth = some auth;
        membership = some snapshot;
        platform = none;
        tenant = some auth.school_id;
      }

      after : Outcome (Unit {0}) × AuthStore → Outcome Request × AuthStore
      after y = (y.0 >> ok asked, y.1)

      by_guard :
          (y : Outcome (Unit {0}) × AuthStore)
          → activate_school now route asked (some auth) t ≡ y
          → read_snapshot token.mid s ≡ some snapshot
          → IsValid token snapshot
          → auth.school_id ≡ snapshot.school_id
          → after y ≡ (ok request, t')
          → IsAllowed route token s request
      by_guard (throw f, u) run current valid own e =
          absurd (cc (ap (λ (p : Outcome Request × AuthStore). p.0) e))
      by_guard (ok done, u) run current valid own e =
          let same : asked ≡ request = cc (ap (λ (p : Outcome Request × AuthStore). p.0) e) in
          record {
            snapshot = snapshot;
            current = current;
            valid = valid;
            permitted = activate_school-All now route auth snapshot t u run;
            tenant = subst (λ (q : Request). q.tenant ≡ some snapshot.school_id) same (ap some own);
            no_platform = subst (λ (q : Request). q.platform ≡ none) same refl;
          }

  -- A platform session is refused.
  platform_refused :
      (m : Outcome PlatformContext) (s t' : AuthStore) (request : Request)
      → ¬ (authorize admins now route (platform_request m, s) ≡ (ok request, t'))
  unfolding can_activate
  platform_refused (throw f) s t' request e = cc (ap (λ (p : Outcome Request × AuthStore). p.0) e)
  platform_refused (ok context) s t' request e =
      cc (ap (λ (p : Outcome Request × AuthStore). p.0) (rw (closed, scoped) at e))

  authenticated-IsAllowed :
      (bearer : Bearer) (s t' : AuthStore) (request : Request)
      → IsCoherent s
      → authorize admins now route (validate_bearer admins now bearer s) ≡ (ok request, t')
      → (token : AccessToken) × (bearer ≡ access token) × IsAllowed route token s request
  unfolding validate
  authenticated-IsAllowed (access token) s t' request c e = (
    token,
    refl,
    authorize-IsAllowed token s (get_membership_snapshot now token.mid s).1 t' request _
        (ap
          (λ (o : Option MembershipSnapshot).
            check_snapshot token o >>= λ (q : MembershipSnapshot). ok (context_of q, q))
          (sym (get-answer now token.mid s c)))
        e,
  )
  authenticated-IsAllowed (platform token) s t' request c e = absurd (
      platform_refused (validate_platform token (admin_snapshot admins token.pid s)) s t' request e)

  admitted-IsAllowed :
      (bearer : Option Bearer) (s t' : AuthStore) (request : Request)
      → IsCoherent s
      → admit admins now route bearer s ≡ (ok request, t')
      → (token : AccessToken) × (bearer ≡ some (access token)) × IsAllowed route token s request
  unfolding admit
  admitted-IsAllowed none s t' request c e = absurd (
      cc (
        ap (λ (p : Outcome Request × AuthStore). p.0)
          (ap (authorize admins now route) (sym (authenticate-none admins now route s closed))
            ∙ e)))
  admitted-IsAllowed (some bearer) s t' request c e =
      let (token, it, allowed) = authenticated-IsAllowed bearer s t' request c (
        ap (authorize admins now route) (sym (authenticate-some admins now route bearer s closed))
        ∙ e) in
      (token, ap some it, allowed)

-- A request that the guards let through to a school's route, one that is neither public nor for the
-- platform, when no cached snapshot is stale: it carries a school's access token; the membership that
-- the token names is in the rows, is the token's user's, at the token's version, with the user, the
-- membership and the school active; its role holds every permission that the route requires; and the
-- request's tenant is the membership's school.
pub admit-IsAllowed :
    (admins : List AdminRow) (now : ℕ) (route : Route) (bearer : Option Bearer) (s s' : AuthStore)
    (request : Request)
    → route.is_public ≡ false
    → route.platform_roles ≡ none
    → IsCoherent s
    → admit admins now route bearer s ≡ (ok request, s')
    → (token : AccessToken) × (bearer ≡ some (access token)) × IsAllowed route token s request
admit-IsAllowed admins now route bearer s s' request closed scoped c e =
    admitted-IsAllowed admins now route closed scoped bearer s s' request c e
