-- ===== src/Auth/Tokens/Rotating.antt =====
-- `rotateRefreshToken` of src/auth/token.service.ts: what a rotation that went through has done, and
-- what happens to a token that is presented again.
use mathlib.Core.Path.{subst}
use edu_gear_back_end.Common.Members.{find-map}
use edu_gear_back_end.Common.{
  leb, ◌==◌, if◌then◌else◌, ==_iff, Bool-cases, All, internal, token_invalid, token_reused, Outcome,
  throw, ok, or_throw, >>=-eq-ok, or_throw-eq-ok, ℕ, ◌≡◌, refl, sym, ap, ◌∙◌, inl, inr, Bool, true,
  false, ◌&&◌, Option, none, some, List, [], ◌∷◌, arith,
}
use edu_gear_back_end.Auth.Store.{User, RefreshToken, AuthStore, find_user}
use edu_gear_back_end.Auth.Tokens.{
  Draw, is_unrevoked, revoke_where, revoke_id, revoke_family, find_hash, or_membership, Rotated,
  new_refresh_token, issue_tokens, rotate_into, rotate_stored, read_token, rotate_read,
  rotate_refresh_token,
}

-- A live token of the family.
abbrev pub is_live_in : ℕ → RefreshToken → Bool
is_live_in family t = t.family_id == family && is_unrevoked t

-- A revocation leaves no live token among those that it picks.
pub revoke_where-none :
    (test : RefreshToken → Bool) (now : ℕ)
    → ((t : RefreshToken) → test (record t { revoked_at = some now }) ≡ test t)
    → (ts : List RefreshToken)
    → All (λ t. (test t && is_unrevoked t) ≡ false) (revoke_where test now ts)
revoke_where-none test now keeps [] = tt
revoke_where-none test now keeps (t ∷ ts) =
    (one (test t && is_unrevoked t) refl, revoke_where-none test now keeps ts)
  where
    one :
        (b : Bool)
        → (test t && is_unrevoked t) ≡ b
        → (test (if b then record t { revoked_at = some now } else t)
            && is_unrevoked (if b then record t { revoked_at = some now } else t))
          ≡ false
    one true e = ground (arith, keeps t)
    one false e = e

-- A revocation by id keeps every hash.
same_hash :
    (h id now : ℕ) (b : Bool) (t : RefreshToken)
    → ((if b then record t { revoked_at = some now } else t).token_hash == h) ≡ (t.token_hash == h)
same_hash h id now true t = refl
same_hash h id now false t = refl

find_hash-revoke_id :
    (h now : ℕ) (ts : List RefreshToken) (stored : RefreshToken)
    → find_hash h ts ≡ some stored
    → find_hash h (revoke_id stored.id now ts) ≡ some (record stored { revoked_at = some now })
find_hash-revoke_id h now ts stored found =
    find-map (λ (t : RefreshToken). t.token_hash == h)
      (λ (t : RefreshToken). if t.id == stored.id then record t { revoked_at = some now } else t)
      (λ t. same_hash h stored.id now (t.id == stored.id) t) ts {x = stored} found
    ∙ rw ((==_iff stored.id stored.id).1 refl) refl

module _ (sha256 : ℕ → ℕ) (refresh_ttl now : ℕ) where
  -- What a rotation that went through has found and written.
  pub record IsRotation (draw : Draw) (raw : ℕ) (s : AuthStore) (s' : AuthStore) : Type 0 where
    pub stored : RefreshToken
    pub user : User
    pub membership : ℕ
    pub found : find_hash (sha256 raw) s.refresh_tokens ≡ some stored
    pub owner : find_user stored.user_id s.users ≡ some user
    pub live : is_unrevoked stored ≡ true
    pub unexpired : leb stored.expires_at now ≡ false
    pub users : s'.users ≡ s.users
    pub tokens :
        s'.refresh_tokens
        ≡ revoke_id stored.id now (
            new_refresh_token sha256 refresh_ttl now draw stored.user_id
              (some membership)
              stored.family_id
            ∷ s.refresh_tokens)

  rotate_into-IsRotation :
      (draw : Draw) (raw : ℕ) (o : Option ℕ) (stored : RefreshToken) (user : User)
      (s s' : AuthStore) (r : Rotated)
      → find_hash (sha256 raw) s.refresh_tokens ≡ some stored
      → find_user stored.user_id s.users ≡ some user
      → is_unrevoked stored ≡ true
      → leb stored.expires_at now ≡ false
      → rotate_into sha256 refresh_ttl now draw stored user o s ≡ (ok r, s')
      → IsRotation draw raw s s'
  unfolding rotate_into issue_tokens
  rotate_into-IsRotation draw raw none stored user s s' r found owner live unexpired e = cc e
  rotate_into-IsRotation draw raw (some membership) stored user s s' r found owner live unexpired
        e =
      record {
        stored = stored;
        user = user;
        membership = membership;
        found = found;
        owner = owner;
        live = live;
        unexpired = unexpired;
        users = ap (λ (p : Outcome Rotated × AuthStore). p.1.users) (sym e);
        tokens = ap (λ (p : Outcome Rotated × AuthStore). p.1.refresh_tokens) (sym e);
      }

  rotate_stored-IsRotation :
      (draw : Draw) (raw : ℕ) (o : Option ℕ) (stored : RefreshToken) (user : User)
      (s s' : AuthStore) (r : Rotated)
      → find_hash (sha256 raw) s.refresh_tokens ≡ some stored
      → find_user stored.user_id s.users ≡ some user
      → rotate_stored sha256 refresh_ttl now draw o stored user s ≡ (ok r, s')
      → IsRotation draw raw s s'
  unfolding rotate_stored
  rotate_stored-IsRotation draw raw o stored user s s' r found owner e =
      elim (Bool-cases (is_unrevoked stored)) [
        | inr dead ↦ cc (rw (dead, rotate_stored) at e)
        | inl live ↦ elim (Bool-cases (leb stored.expires_at now)) [
          | inl expired ↦ cc (rw (live, expired) at e)
          | inr unexpired ↦
              rotate_into-IsRotation draw raw (or_membership o stored.membership_id) stored user s
                s' r found owner live unexpired (rw (live, unexpired) at e)
        ]
      ]

  read_token-found :
      (raw : ℕ) (s : AuthStore) (stored : RefreshToken) (user : User)
      → read_token sha256 refresh_ttl now raw s ≡ ok (stored, user)
      → (find_hash (sha256 raw) s.refresh_tokens ≡ some stored)
        × (find_user stored.user_id s.users ≡ some user)
  unfolding read_token
  read_token-found raw s stored user e =
      let (t, e₀, e₁) =
        >>=-eq-ok (or_throw (find_hash (sha256 raw) s.refresh_tokens) token_invalid) _ e in
      let (u, e₂, e₃) = >>=-eq-ok (or_throw (find_user t.user_id s.users) internal) _ e₁ in
      let found = or_throw-eq-ok (find_hash (sha256 raw) s.refresh_tokens) token_invalid e₀ in
      let owner = or_throw-eq-ok (find_user t.user_id s.users) internal e₂ in
      let same_token : t ≡ stored = cc e₃ in
      let same_user : u ≡ user = cc e₃ in
      (
        cc (found, same_token),
        subst (λ (q : RefreshToken). find_user q.user_id s.users ≡ some user) same_token
            (owner ∙ ap some same_user),
      )

  pub rotate-IsRotation :
      (draw : Draw) (raw : ℕ) (o : Option ℕ) (s s' : AuthStore) (r : Rotated)
      → rotate_refresh_token sha256 refresh_ttl now draw raw o s ≡ (ok r, s')
      → IsRotation draw raw s s'
  unfolding rotate_refresh_token
  rotate-IsRotation draw raw o s s' r e = by_read (read_token sha256 refresh_ttl now raw s) refl e
    where
      by_read :
          (m : Outcome (RefreshToken × User))
          → read_token sha256 refresh_ttl now raw s ≡ m
          → rotate_read sha256 refresh_ttl now draw o m s ≡ (ok r, s')
          → IsRotation draw raw s s'
      by_read (throw f) read e = cc e
      by_read (ok (stored, user)) read e =
          let (found, owner) = read_token-found raw s stored user read in
          rotate_stored-IsRotation draw raw o stored user s s' r found owner e

  -- A token that is not live any more is refused, and its family is revoked.
  pub reused :
      (draw : Draw) (raw : ℕ) (o : Option ℕ) (s : AuthStore) (stored : RefreshToken) (user : User)
      → find_hash (sha256 raw) s.refresh_tokens ≡ some stored
      → find_user stored.user_id s.users ≡ some user
      → is_unrevoked stored ≡ false
      → rotate_refresh_token sha256 refresh_ttl now draw raw o s
        ≡ (throw token_reused, revoke_family stored.family_id now s)
  unfolding rotate_refresh_token rotate_stored read_token
  reused draw raw o s stored user found owner dead = rw (found, owner, dead) refl

  family_revoked :
      (family : ℕ) (s : AuthStore)
      → All (λ t. is_live_in family t ≡ false) (revoke_family family now s).refresh_tokens
  family_revoked family s =
      revoke_where-none (λ (t : RefreshToken). t.family_id == family) now (λ t. refl)
        s.refresh_tokens

  rotated-found :
      (draw : Draw) (raw : ℕ) (s s' : AuthStore) (rot : IsRotation draw raw s s')
      → (sha256 draw.raw == sha256 raw) ≡ false
      → find_hash (sha256 raw) s'.refresh_tokens
        ≡ some (record (rot.stored) { revoked_at = some now })
  rotated-found draw raw s s' rot distinct =
      ap (find_hash (sha256 raw)) rot.tokens
      ∙ find_hash-revoke_id (sha256 raw) now
          (new_refresh_token sha256 refresh_ttl now draw rot.stored.user_id (some rot.membership)
              rot.stored.family_id
            ∷ s.refresh_tokens)
          rot.stored (rw distinct rot.found)

-- After a rotation has succeeded, the same token presented again is refused as reused, and then no
-- token of its family is live, the successor that the rotation issued included, provided that the
-- successor's hash differs from the token's.
pub rotate-replayed :
    (sha256 : ℕ → ℕ) (refresh_ttl now later : ℕ) (draw draw' : Draw) (raw : ℕ) (o o' : Option ℕ)
    (s s' : AuthStore) (r : Rotated)
    → rotate_refresh_token sha256 refresh_ttl now draw raw o s ≡ (ok r, s')
    → (sha256 draw.raw == sha256 raw) ≡ false
    → (stored : RefreshToken) × (find_hash (sha256 raw) s.refresh_tokens ≡ some stored)
      × ((rotate_refresh_token sha256 refresh_ttl later draw' raw o' s').0 ≡ throw token_reused)
      × All
          (λ t. is_live_in stored.family_id t ≡ false)
          (rotate_refresh_token sha256 refresh_ttl later draw' raw o' s').1.refresh_tokens
rotate-replayed sha256 refresh_ttl now later draw draw' raw o o' s s' r e distinct =
    let rot = rotate-IsRotation sha256 refresh_ttl now draw raw o s s' r e in
    let stored = rot.stored in
    let dead = record stored { revoked_at = some now } in
    let again = rotated-found sha256 refresh_ttl now draw raw s s' rot distinct in
    let owner : find_user stored.user_id s'.users ≡ some rot.user =
      ap (find_user stored.user_id) rot.users ∙ rot.owner in
    let refused = reused sha256 refresh_ttl later draw' raw o' s' dead rot.user again owner refl in
    (
      stored,
      rot.found,
      ap (λ (p : Outcome Rotated × AuthStore). p.0) refused,
      subst
          (λ (p : Outcome Rotated × AuthStore).
            All (λ t. is_live_in stored.family_id t ≡ false) p.1.refresh_tokens)
          (sym refused) (family_revoked sha256 refresh_ttl later stored.family_id s'),
    )
