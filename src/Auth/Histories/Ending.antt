-- ===== src/Auth/Histories/Ending.antt =====
-- Ending every session of a user: `logoutAll` of src/auth/auth.service.ts against
-- the check of access tokens in src/auth/strategies/jwt.strategy.ts.
use mathlib.Core.Path.{subst}
use edu_gear_back_end.Auth.Writes.Fresh.{ended-IsCoherent}
use edu_gear_back_end.Common.{
  ◌==◌, ==_iff, ==_refl, Bool-cases, All, token_invalid, Outcome, throw, ◌>>=◌, ℕ, suc, ◌≤◌, ◌≡◌,
  refl, ap, ◌∙◌, inl, inr, false, ◌&&◌, Option, none, some, arith,
}
use edu_gear_back_end.Auth.Store.{User, RefreshToken, MembershipSnapshot, AuthStore, find_user}
use edu_gear_back_end.Auth.Access.{read_snapshot}
use edu_gear_back_end.Auth.Access.Caching.{IsCoherent, read_snapshot-IsJoined}
use edu_gear_back_end.Auth.Access.Coherent.{get-answer}
use edu_gear_back_end.Auth.Tokens.{AccessToken, is_unrevoked}
use edu_gear_back_end.Auth.Tokens.Rotating.{revoke_where-none}
use edu_gear_back_end.Auth.Login.{AuthConfig}
use edu_gear_back_end.Auth.Sessions.{AuthContext, bump_version, logout_all}
use edu_gear_back_end.Auth.Strategy.{check_snapshot, validate}
use edu_gear_back_end.Auth.Writes.{IsBump, sessions_ended}
use edu_gear_back_end.Auth.Writes.Keeping.{find_user-update, IsAtLeast}
use edu_gear_back_end.Auth.Histories.{Reach, Reach-Writes, Writes-IsAtLeast, Reach-IsCoherent}

-- An access token of the user from before the version was bumped.
pub record IsOutdated (user version : ℕ) (token : AccessToken) : Type 0 where
  pub owner : token.sub ≡ user
  pub old : token.ver ≤ version

abbrev pub IsRefused : ℕ → AccessToken → AuthStore → Type 0
IsRefused now token s = (validate now token s).0 ≡ throw token_invalid

check_snapshot-outdated :
    (user version id : ℕ) (token : AccessToken) (s : AuthStore) (snapshot : MembershipSnapshot)
    → IsOutdated user version token
    → IsAtLeast user (suc version) s
    → read_snapshot id s ≡ some snapshot
    → check_snapshot token (some snapshot) ≡ throw token_invalid
unfolding check_snapshot
check_snapshot-outdated user version id token s snapshot o a e =
    elim (Bool-cases (snapshot.user_id == token.sub)) [
      | inr other ↦ rw other refl
      | inl own ↦
          let j = read_snapshot-IsJoined id s snapshot e in
          let same : j.membership.user_id ≡ user =
            cc (j.joined, (==_iff snapshot.user_id token.sub).0 own, o.owner) in
          let found = subst (λ (k : ℕ). find_user k s.users ≡ some j.user) same j.owner in
          let row : j.user ≡ a.row = cc (found, a.found) in
          let version_of : snapshot.token_version ≡ a.row.token_version = cc (j.joined, row) in
          let newer : (snapshot.token_version == token.ver) ≡ false =
            ground (arith, version_of, a.low, o.old) in
          rw (own, newer) refl
    ]

check_none : (token : AccessToken) → check_snapshot token none ≡ throw token_invalid
unfolding check_snapshot
check_none token = refl

validate-outdated :
    (user version now : ℕ) (token : AccessToken) (s : AuthStore)
    → IsOutdated user version token
    → IsAtLeast user (suc version) s
    → IsCoherent s
    → IsRefused now token s
unfolding validate
validate-outdated user version now token s o a c =
    rw (get-answer now token.mid s c) (by_row _ (read_snapshot token.mid s) refl)
  where
    by_row :
        (rest : MembershipSnapshot → Outcome (AuthContext × MembershipSnapshot))
        (m : Option MembershipSnapshot)
        → read_snapshot token.mid s ≡ m
        → (check_snapshot token m >>= rest) ≡ throw token_invalid
    by_row rest none e = ap (λ x. x >>= rest) (check_none token)
    by_row rest (some snapshot) e =
        ap (λ x. x >>= rest) (check_snapshot-outdated user version token.mid token s snapshot o a e)

-- The user's version after a bump.
ended-IsAtLeast :
    (user now : ℕ) (f : User → User) (s : AuthStore) (u : User)
    → IsBump f
    → find_user user s.users ≡ some u
    → IsAtLeast user (suc u.token_version) (sessions_ended user now f s)
ended-IsAtLeast user now f s u bump found = record {
  row = f u;
  found = find_user-update user f bump.same_id user s.users u found ∙ rw (==_refl user) refl;
  low = omega (arith, bump.next_version u);
}

-- The user's refresh tokens are all revoked.
abbrev pub IsSignedOut : ℕ → AuthStore → Type 0
IsSignedOut user s = All (λ t. (t.user_id == user && is_unrevoked t) ≡ false) s.refresh_tokens

pub ended :
    {c : AuthConfig} (user now : ℕ) (f : User → User) (s s' : AuthStore) (u : User)
    → IsBump f
    → IsCoherent s
    → find_user user s.users ≡ some u
    → Reach c (sessions_ended user now f s) s'
    → (later : ℕ) (token : AccessToken) → IsOutdated user u.token_version token
    → IsSignedOut user (sessions_ended user now f s) × IsRefused later token s'
ended user now f s s' u bump coherent found r later token o = (
  revoke_where-none (λ (t : RefreshToken). t.user_id == user) now (λ t. refl) s.refresh_tokens,
  validate-outdated user u.token_version later token s' o
      (Writes-IsAtLeast user (suc u.token_version) (Reach-Writes r)
        (ended-IsAtLeast user now f s u bump found))
      (Reach-IsCoherent r (ended-IsCoherent user now f s bump coherent)),
)

-- After `logoutAll` from a cache without stale snapshots, no refresh token of the user is live, and
-- through every later history each access token issued to the user up to then is refused as invalid,
-- whatever membership it names.
pub logout_all-ends :
    (c : AuthConfig) (now user : ℕ) (s s' : AuthStore) (u : User)
    → IsCoherent s
    → find_user user s.users ≡ some u
    → Reach c (logout_all c now user s) s'
    → (later : ℕ) (token : AccessToken) → IsOutdated user u.token_version token
    → IsSignedOut user (logout_all c now user s)
      × ((validate later token s').0 ≡ throw token_invalid)
unfolding logout_all
logout_all-ends c now user s s' u coherent found r =
    ended user now bump_version s s' u (record { same_id = λ x. refl; next_version = λ x. refl })
      coherent found r
