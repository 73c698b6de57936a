-- ===== src/Auth/Tokens/Racing.antt =====
-- Two rotations of one token of src/auth/token.service.ts that both read it before either writes:
-- the write of `rotateRefreshToken` does not ask whether the token is still live.
use mathlib.Core.Path.{subst}
use edu_gear_back_end.Common.{
  leb, ◌==◌, ==_iff, ok, ℕ, suc, ◌≤◌, ◌≡◌, refl, sym, ap, ◌∙◌, true, false, Option, some, List, ◌∷◌,
  arith,
}
use edu_gear_back_end.Auth.Store.{User, RefreshToken, AuthStore}
use edu_gear_back_end.Auth.Tokens.{
  Draw, is_unrevoked, revoke_id, or_membership, Rotated, new_refresh_token, issue_tokens,
  rotate_into, rotate_stored,
}
use edu_gear_back_end.Auth.Tokens.Families.{live_count}

spared :
    (id now : ℕ) (t : RefreshToken) (ts : List RefreshToken)
    → (t.id == id) ≡ false
    → revoke_id id now (t ∷ ts) ≡ t ∷ revoke_id id now ts
spared id now t ts other = rw other refl

counted :
    (t : RefreshToken) (ts : List RefreshToken)
    → is_unrevoked t ≡ true
    → live_count t.family_id (t ∷ ts) ≡ suc (live_count t.family_id ts)
counted t ts live = rw (live, (==_iff t.family_id t.family_id).1 refl) refl

-- Two new rows of a family that are not the one that is revoked.
two_live :
    (id now later : ℕ) (t t' : RefreshToken) (ts : List RefreshToken)
    → (t.id == id) ≡ false
    → (t'.id == id) ≡ false
    → is_unrevoked t ≡ true
    → is_unrevoked t' ≡ true
    → t.family_id ≡ t'.family_id
    → 2 ≤ live_count t'.family_id (revoke_id id later (t' ∷ revoke_id id now (t ∷ ts)))
two_live id now later t t' ts other other' live live' fam =
    let old = revoke_id id later (revoke_id id now ts) in
    let rows : revoke_id id later (t' ∷ revoke_id id now (t ∷ ts)) ≡ t' ∷ t ∷ old =
      spared id later t' (revoke_id id now (t ∷ ts)) other'
      ∙ ap (λ x. t' ∷ revoke_id id later x) (spared id now t ts other)
      ∙ ap (λ x. t' ∷ x) (spared id later t (revoke_id id now ts) other) in
    let one : 1 ≤ live_count t'.family_id (t ∷ old) =
      subst (λ (k : ℕ). 1 ≤ live_count k (t ∷ old)) fam (rw (counted t old live) (omega arith)) in
    subst (λ (x : List RefreshToken). 2 ≤ live_count t'.family_id x) (sym rows)
      (omega (arith, one, counted t' (t ∷ old) live'))

module _ (sha256 : ℕ → ℕ) (refresh_ttl now : ℕ) (draw : Draw) (stored : RefreshToken) (user : User)
    (membership : ℕ) where
  abbrev answer : Rotated
  answer = record {
    tokens = record {
      access_token = record { sub = stored.user_id; mid = membership; ver = user.token_version };
      refresh_token = draw.raw;
    };
    user_id = stored.user_id;
    membership_id = membership;
  }

  abbrev step : AuthStore → AuthStore
  step s = record s {
    refresh_tokens = revoke_id stored.id now (
        new_refresh_token sha256 refresh_ttl now draw stored.user_id (some membership)
          stored.family_id
        ∷ s.refresh_tokens);
  }

  rotated :
      (o : Option ℕ) (s : AuthStore)
      → is_unrevoked stored ≡ true
      → leb stored.expires_at now ≡ false
      → or_membership o stored.membership_id ≡ some membership
      → rotate_stored sha256 refresh_ttl now draw o stored user s ≡ (ok answer, step s)
  unfolding rotate_stored rotate_into issue_tokens
  rotated o s live early some_m = rw (live, early, some_m) refl

-- Two requests that read the same live, unexpired token before either of them writes both rotate it,
-- and leave two live tokens in its family, when their new rows have ids other than the token's.
pub rotate_stored-raced :
    (sha256 : ℕ → ℕ) (refresh_ttl now later : ℕ) (draw draw' : Draw) (o o' : Option ℕ)
    (stored : RefreshToken) (user : User) (membership membership' : ℕ) (s : AuthStore)
    → is_unrevoked stored ≡ true
    → leb stored.expires_at now ≡ false
    → leb stored.expires_at later ≡ false
    → or_membership o stored.membership_id ≡ some membership
    → or_membership o' stored.membership_id ≡ some membership'
    → (draw.row_id == stored.id) ≡ false
    → (draw'.row_id == stored.id) ≡ false
    → (r : Rotated) × (r' : Rotated) × (s' : AuthStore) × (s'' : AuthStore) × (rotate_stored sha256
          refresh_ttl now draw o stored user s
        ≡ (ok r, s'))
      × (rotate_stored sha256 refresh_ttl later draw' o' stored user s' ≡ (ok r', s''))
      × (2 ≤ live_count stored.family_id s''.refresh_tokens)
rotate_stored-raced sha256 refresh_ttl now later draw draw' o o' stored user m m' s live early
      early' some_m some_m' own own' =
    let s' = step sha256 refresh_ttl now draw stored user m s in
    (
      answer sha256 refresh_ttl now draw stored user m,
      answer sha256 refresh_ttl later draw' stored user m',
      s',
      step sha256 refresh_ttl later draw' stored user m' s',
      rotated sha256 refresh_ttl now draw stored user m o s live early some_m,
      rotated sha256 refresh_ttl later draw' stored user m' o' s' live early' some_m',
      two_live stored.id now later
          (new_refresh_token sha256 refresh_ttl now draw stored.user_id (some m) stored.family_id)
          (new_refresh_token sha256 refresh_ttl later draw' stored.user_id (some m')
            stored.family_id)
          s.refresh_tokens own own' refl refl refl,
    )
