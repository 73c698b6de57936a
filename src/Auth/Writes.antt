-- ===== src/Auth/Writes.antt =====
-- The writes that the handlers of src/auth are made of, which the proofs on histories go by.
pub mod Handlers
pub mod Links
pub mod Keeping
pub mod Fresh
use mathlib.Core.Path.{subst}
use edu_gear_back_end.Common.{◌==◌, filter, count, ℕ, ◌+◌, ◌≡◌, sym, Bool, List, ◌∷◌}
use edu_gear_back_end.Auth.Store.{
  VerificationTokenType, User, RefreshToken, VerificationToken, CachedSnapshot, AuthStore,
  update_user,
}
use edu_gear_back_end.Auth.Access.{invalidate_user, get_membership_snapshot}
use edu_gear_back_end.Auth.Tokens.{
  revoke_where, revoke_id, revoke_all_for_user, consume_waiting, consume_id, store_token,
}
use edu_gear_back_end.Auth.Tokens.Families.{in_family, HasLoneTokens}

-- A change of a user's row that no snapshot shows.
pub record IsQuiet (f : User → User) : Type 0 where
  pub same_id : (u : User) → (f u).id ≡ u.id
  pub same_status : (u : User) → (f u).status ≡ u.status
  pub same_version : (u : User) → (f u).token_version ≡ u.token_version

-- A change of a user's row that ends the user's sessions.
pub record IsBump (f : User → User) : Type 0 where
  pub same_id : (u : User) → (f u).id ≡ u.id
  pub next_version : (u : User) → (f u).token_version ≡ u.token_version + 1

-- A bump of the version, with the user's refresh tokens revoked and its snapshots dropped.
abbrev pub sessions_ended : ℕ → ℕ → (User → User) → AuthStore → AuthStore
sessions_ended user now f s =
    invalidate_user user (update_user user f (revoke_all_for_user user now s))

-- What a rotation writes: nothing, the end of a family, or a new token and the end of the old one.
pub data IsTurned (ts ts' : List RefreshToken) : Type 0 where
  unturned : ts' ≡ ts → IsTurned ts ts'
  dropped :
      (family now : ℕ)
      → ts' ≡ revoke_where (λ (t : RefreshToken). t.family_id == family) now ts
      → IsTurned ts ts'
  turned : (id now : ℕ) (t : RefreshToken) → ts' ≡ revoke_id id now (t ∷ ts) → IsTurned ts ts'

pub data Write (s s' : AuthStore) : Type 0 where
  issued :
      (t : RefreshToken)
      → count (in_family t.family_id) s.refresh_tokens ≡ 0
      → s' ≡ store_token t s
      → Write s s'
  rotated :
      (HasLoneTokens s → HasLoneTokens s')
      → IsTurned s.refresh_tokens s'.refresh_tokens
      → s' ≡ record s { refresh_tokens = s'.refresh_tokens }
      → Write s s'
  unrefreshed :
      (test : RefreshToken → Bool) (now : ℕ)
      → s' ≡ record s { refresh_tokens = revoke_where test now s.refresh_tokens }
      → Write s s'
  linked :
      (link : VerificationToken) (user : ℕ) (purpose : VerificationTokenType) (now : ℕ)
      → s' ≡ record s {
        verification_tokens = link ∷ consume_waiting user purpose now s.verification_tokens;
      }
      → Write s s'
  spent :
      (id now : ℕ)
      → s' ≡ record s { verification_tokens = consume_id id now s.verification_tokens }
      → Write s s'
  kept_user : (user : ℕ) (f : User → User) → IsQuiet f → s' ≡ update_user user f s → Write s s'
  bumped :
      (user now : ℕ) (f : User → User) → IsBump f → s' ≡ sessions_ended user now f s → Write s s'
  looked_up : (now membership : ℕ) → s' ≡ (get_membership_snapshot now membership s).1 → Write s s'
  forgotten :
      (kept : CachedSnapshot → Bool) → s' ≡ record s { cache = filter kept s.cache } → Write s s'

-- Any number of writes.
pub data Writes (s : AuthStore) : AuthStore → Type 0 where
  nothing : Writes s s
  then : {t u : AuthStore} → Writes s t → Write t u → Writes s u

pub Writes-append : {s t u : AuthStore} → Writes s t → Writes t u → Writes s u
Writes-append ws nothing = ws
Writes-append ws (then vs w) = then (Writes-append ws vs) w

pub once : {s t : AuthStore} → Write s t → Writes s t
once w = then nothing w

pub same_store : {s t : AuthStore} → t ≡ s → Writes s t
same_store {s} e = subst (Writes s) (sym e) nothing
