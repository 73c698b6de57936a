-- ===== src/Auth/Admission/Checks.antt =====
-- The tests of src/auth/strategies/jwt.strategy.ts and src/common/guards, one by one.
use mathlib.Core.Path.{subst}
use edu_gear_back_end.Common.{
  ◌==◌, if◌then◌else◌, Bool-cases, all, All, includes, unauthorized, token_invalid,
  account_inactive, membership_inactive, school_inactive, insufficient_permissions, Outcome, throw,
  ok, throw_if, or_throw, >>=-eq-ok, or_throw-eq-ok, throw_if-eq-ok, ℕ, ◌≡◌, refl, ap, ◌∙◌, inl,
  inr, true, false, not, Option, none, some, List, [], ◌∷◌, arith,
}
use edu_gear_back_end.Auth.Store.{
  MembershipSnapshot, AuthStore, is_active_user, is_active_member, is_active_school,
}
use edu_gear_back_end.Auth.Access.{has_all_permissions}
use edu_gear_back_end.Auth.Tokens.{AccessToken}
use edu_gear_back_end.Auth.Sessions.{AuthContext}
use edu_gear_back_end.Auth.Strategy.{check_snapshot}
use edu_gear_back_end.Auth.Permissions.{
  Route, Request, held_snapshot, asks_nothing, answer_permissions, activate_school, can_activate,
}
use edu_gear_back_end.Auth.Admission.{Bearer, AdminRow, validate_bearer, authenticate}

-- A snapshot that `validate` accepts for the token.
pub record IsValid (token : AccessToken) (snapshot : MembershipSnapshot) : Type 0 where
  pub subject : snapshot.user_id ≡ token.sub
  pub version : snapshot.token_version ≡ token.ver
  pub user : is_active_user snapshot.user_status ≡ true
  pub member : is_active_member snapshot.membership_status ≡ true
  pub school : is_active_school snapshot.school_status ≡ true

pub check_snapshot-IsValid :
    (token : AccessToken) (found : Option MembershipSnapshot) (snapshot : MembershipSnapshot)
    → check_snapshot token found ≡ ok snapshot
    → (found ≡ some snapshot) × IsValid token snapshot
unfolding check_snapshot
check_snapshot-IsValid token found snapshot e =
    let (x, e₀, r₀) = >>=-eq-ok (or_throw found token_invalid) _ e in
    let (_, e₁, r₁) = >>=-eq-ok (throw_if (not (x.user_id == token.sub)) token_invalid) _ r₀ in
    let (_, e₂, r₂) =
      >>=-eq-ok (throw_if (not (x.token_version == token.ver)) token_invalid) _ r₁ in
    let (_, e₃, r₃) =
      >>=-eq-ok (throw_if (not (is_active_user x.user_status)) account_inactive) _ r₂ in
    let (_, e₄, r₄) =
      >>=-eq-ok (throw_if (not (is_active_member x.membership_status)) membership_inactive) _ r₃ in
    let (_, e₅, r₅) =
      >>=-eq-ok (throw_if (not (is_active_school x.school_status)) school_inactive) _ r₄ in
    let same : x ≡ snapshot = cc r₅ in
    let valid : IsValid token x = record {
      subject = ground (arith, throw_if-eq-ok (not (x.user_id == token.sub)) token_invalid e₁);
      version =
          ground (arith, throw_if-eq-ok (not (x.token_version == token.ver)) token_invalid e₂);
      user =
          ground (arith, throw_if-eq-ok (not (is_active_user x.user_status)) account_inactive e₃);
      member = ground (
        arith,
        throw_if-eq-ok (not (is_active_member x.membership_status)) membership_inactive e₄,
      );
      school =
          ground
            (arith, throw_if-eq-ok (not (is_active_school x.school_status)) school_inactive e₅);
    } in
    (or_throw-eq-ok found token_invalid e₀ ∙ ap some same, subst (IsValid token) same valid)

all-All :
    (ps held : List ℕ) → all (λ p. includes p held) ps ≡ true → All (λ p. includes p held ≡ true) ps
all-All [] held e = tt
all-All (p ∷ ps) held e = elim (Bool-cases (includes p held)) [
  | inl has ↦ (has, all-All ps held (rw has at e))
  | inr lacks ↦ cc (rw lacks at e)
]

-- The permissions guard on the request that `validate` leaves.
pub activate_school-All :
    (now : ℕ) (route : Route) (auth : AuthContext) (snapshot : MembershipSnapshot) (s t : AuthStore)
    → activate_school now route
        (record {
          auth = some auth;
          membership = some snapshot;
          platform = none;
          tenant = some auth.school_id;
        })
        (some auth)
        s
      ≡ (ok tt, t)
    → All (λ p. includes p snapshot.permissions ≡ true) route.required
activate_school-All now route auth snapshot s t e = elim (Bool-cases route.allow_no_tenant) [
  | inl roaming ↦ by_required route.required (rw roaming at e)
  | inr tenanted ↦ by_required route.required (rw tenanted at e)
]
  where
    by_required :
        (ps : List ℕ)
        → (if asks_nothing ps
            then (ok tt, s)
            else answer_permissions now ps (held_snapshot now (some snapshot) auth.membership_id s))
          ≡ (ok tt, t)
        → All (λ p. includes p snapshot.permissions ≡ true) ps
    by_required [] e = tt
    by_required (p ∷ ps) e = all-All (p ∷ ps) snapshot.permissions (
        ground (
          arith,
          throw_if-eq-ok (not (has_all_permissions snapshot (p ∷ ps))) insufficient_permissions
              (ap (λ (x : Outcome (Unit {0}) × AuthStore). x.0) e),
        ))

-- On a school's route that is not public, a request without a platform session.
pub can_activate-school :
    (now : ℕ) (route : Route) (request : Request) (s : AuthStore)
    → route.is_public ≡ false
    → route.platform_roles ≡ none
    → request.platform ≡ none
    → can_activate now route request s ≡ activate_school now route request request.auth s
unfolding can_activate
can_activate-school now route request s closed scoped own = rw (closed, scoped, own) refl

pub authenticate-none :
    (admins : List AdminRow) (now : ℕ) (route : Route) (s : AuthStore)
    → route.is_public ≡ false
    → authenticate admins now route none s ≡ (throw unauthorized, s)
unfolding authenticate
authenticate-none admins now route s closed = rw closed refl

pub authenticate-some :
    (admins : List AdminRow) (now : ℕ) (route : Route) (bearer : Bearer) (s : AuthStore)
    → route.is_public ≡ false
    → authenticate admins now route (some bearer) s ≡ validate_bearer admins now bearer s
unfolding authenticate
authenticate-some admins now route bearer s closed = rw closed refl
