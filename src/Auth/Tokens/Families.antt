-- ===== src/Auth/Tokens/Families.antt =====
-- Token families of src/auth/token.service.ts: how many live tokens a family has.
use mathlib.Core.Path.{subst}
use edu_gear_back_end.Common.{
  leb, ◌==◌, if◌then◌else◌, ==_iff, Bool-cases, same, and-eq-true, count, Fault, Outcome, throw, ok,
  ℕ, suc, ◌≤◌, ◌<◌, ◌≡◌, refl, sym, ap, ◌∙◌, ◌⊎◌, inl, inr, Bool, true, false, ◌&&◌, Option, none,
  some, List, ◌∷◌, map, arith,
}
use edu_gear_back_end.Common.Members.{count-map-le, count-map-lt, find-Has, count-le}
use edu_gear_back_end.Auth.Store.{User, RefreshToken, AuthStore}
use edu_gear_back_end.Auth.Tokens.{
  Draw, is_unrevoked, revoke_where, revoke_family, store_token, or_membership, Rotated,
  new_refresh_token, issue_tokens, rotate_into, rotate_stored, read_token, rotate_read,
  rotate_refresh_token,
}
use edu_gear_back_end.Auth.Tokens.Rotating.{is_live_in, IsRotation, rotate-IsRotation}

abbrev pub in_family : ℕ → RefreshToken → Bool
in_family family t = t.family_id == family

-- How many live tokens the family has.
abbrev pub live_count : ℕ → List RefreshToken → ℕ
live_count family = count (is_live_in family)

-- No family has two live tokens.
pub record HasLoneTokens (s : AuthStore) : Type 0 where
  pub lone : (family : ℕ) → live_count family s.refresh_tokens ≤ 1

set_revoked :
    (family now : ℕ) (b : Bool) (t : RefreshToken)
    → is_live_in family (if b then record t { revoked_at = some now } else t) ≡ true
    → is_live_in family t ≡ true
set_revoked family now true t e = ground arith
set_revoked family now false t e = e

pub revoke_where-HasLoneTokens :
    (test : RefreshToken → Bool) (now : ℕ) (s : AuthStore)
    → HasLoneTokens s
    → HasLoneTokens (record s { refresh_tokens = revoke_where test now s.refresh_tokens })
revoke_where-HasLoneTokens test now s h = record {
  lone = λ family. omega (
    arith,
    h.lone family,
    count-map-le (is_live_in family)
        (λ (t : RefreshToken).
          if test t && is_unrevoked t then record t { revoked_at = some now } else t)
        (λ t. set_revoked family now (test t && is_unrevoked t) t) s.refresh_tokens,
  );
}

-- A token of a family that has none yet.
pub store_token-HasLoneTokens :
    (t : RefreshToken) (s : AuthStore)
    → count (in_family t.family_id) s.refresh_tokens ≡ 0
    → HasLoneTokens s
    → HasLoneTokens (store_token t s)
store_token-HasLoneTokens t s fresh h = record {
  lone = λ family. by_family family (t.family_id == family) refl;
}
  where
    by_family :
        (family : ℕ) (b : Bool)
        → (t.family_id == family) ≡ b
        → live_count family (t ∷ s.refresh_tokens) ≤ 1
    by_family family true e =
        let same : family ≡ t.family_id = sym ((==_iff t.family_id family).0 e) in
        let none_live : live_count family s.refresh_tokens ≡ 0 = omega (
          arith,
          count-le (is_live_in family) (in_family family)
              (λ x k. (and-eq-true (in_family family x) (is_unrevoked x) k).0) s.refresh_tokens,
          ap (λ k. count (in_family k) s.refresh_tokens) same ∙ fresh,
        ) in
        ground (arith, none_live)
    by_family family false e = rw e (h.lone family)

module _ (sha256 : ℕ → ℕ) (refresh_ttl now : ℕ) where
  rotation-HasLoneTokens :
      (draw : Draw) (raw : ℕ) (s s' : AuthStore)
      → HasLoneTokens s
      → IsRotation sha256 refresh_ttl now draw raw s s'
      → HasLoneTokens s'
  rotation-HasLoneTokens draw raw s s' h rot = record {
    lone = λ family. by_family family (rot.stored.family_id == family) refl;
  }
    where
      written : List RefreshToken
      written =
          new_refresh_token sha256 refresh_ttl now draw rot.stored.user_id (some rot.membership)
            rot.stored.family_id
          ∷ s.refresh_tokens

      revoking : RefreshToken → RefreshToken
      revoking t = if t.id == rot.stored.id then record t { revoked_at = some now } else t

      fewer : (family : ℕ) → live_count family s'.refresh_tokens ≤ live_count family written
      fewer family = rw rot.tokens (
          count-map-le (is_live_in family) revoking
            (λ t. set_revoked family now (t.id == rot.stored.id) t) written)

      by_family :
          (family : ℕ) (b : Bool)
          → (rot.stored.family_id == family) ≡ b
          → live_count family s'.refresh_tokens ≤ 1
      by_family family false e =
          let w : live_count family written ≡ live_count family s.refresh_tokens = rw e refl in
          omega (arith, w, fewer family, h.lone family)
      by_family family true e =
          let w : live_count family written ≡ suc (live_count family s.refresh_tokens) =
            rw e refl in
          let listed =
            (find-Has (λ (t : RefreshToken). t.token_hash == sha256 raw) s.refresh_tokens
              rot.found).0 in
          let less : live_count family (map revoking written) < live_count family written =
            count-map-lt (is_live_in family) revoking
              (λ t. set_revoked family now (t.id == rot.stored.id) t) written rot.stored
              (inr listed) (rw (e, rot.live) refl)
              (rw ((==_iff rot.stored.id rot.stored.id).1 refl) (ground arith)) in
          let same = ap (live_count family) rot.tokens in
          omega (arith, w, less, same, h.lone family)

  -- A rotation that throws has changed nothing, or has revoked a family.
  rotate_into-throw :
      (draw : Draw) (stored : RefreshToken) (user : User) (o : Option ℕ) (s s' : AuthStore)
      (f : Fault)
      → rotate_into sha256 refresh_ttl now draw stored user o s ≡ (throw f, s')
      → s' ≡ s
  unfolding rotate_into issue_tokens
  rotate_into-throw draw stored user none s s' f e =
      ap (λ (p : Outcome Rotated × AuthStore). p.1) (sym e)
  rotate_into-throw draw stored user (some m) s s' f e =
      absurd (cc (ap (λ (p : Outcome Rotated × AuthStore). p.0) e))

  rotate_stored-throw :
      (draw : Draw) (o : Option ℕ) (stored : RefreshToken) (user : User) (s s' : AuthStore)
      (f : Fault)
      → rotate_stored sha256 refresh_ttl now draw o stored user s ≡ (throw f, s')
      → (s' ≡ s) ⊎ (s' ≡ revoke_family stored.family_id now s)
  unfolding rotate_stored
  rotate_stored-throw draw o stored user s s' f e = elim (Bool-cases (is_unrevoked stored)) [
    | inr dead ↦
        inr (ap (λ (p : Outcome Rotated × AuthStore). p.1) (sym (rw (dead, rotate_stored) at e)))
    | inl live ↦ elim (Bool-cases (leb stored.expires_at now)) [
      | inl expired ↦
          inl (ap (λ (p : Outcome Rotated × AuthStore). p.1) (sym (rw (live, expired) at e)))
      | inr unexpired ↦ inl (
          rotate_into-throw draw stored user (or_membership o stored.membership_id) s s' f
            (rw (live, unexpired) at e))
    ]
  ]

  thrown-HasLoneTokens :
      (draw : Draw) (raw : ℕ) (o : Option ℕ) (s s' : AuthStore) (f : Fault)
      → HasLoneTokens s
      → rotate_refresh_token sha256 refresh_ttl now draw raw o s ≡ (throw f, s')
      → HasLoneTokens s'
  unfolding rotate_refresh_token
  thrown-HasLoneTokens draw raw o s s' f h e = by_read (read_token sha256 refresh_ttl now raw s) e
    where
      by_read :
          (m : Outcome (RefreshToken × User))
          → rotate_read sha256 refresh_ttl now draw o m s ≡ (throw f, s')
          → HasLoneTokens s'
      by_read (throw g) e = subst HasLoneTokens (ap (λ (p : Outcome Rotated × AuthStore). p.1) e) h
      by_read (ok (stored, user)) e = elim (rotate_stored-throw draw o stored user s s' f e) [
        | inl same ↦ subst HasLoneTokens (sym same) h
        | inr dropped ↦ subst HasLoneTokens (sym dropped) (
            revoke_where-HasLoneTokens (λ (t : RefreshToken). t.family_id == stored.family_id) now s
              h)
      ]

  -- Whatever a rotation answers, no family has two live tokens after it.
  pub rotate-HasLoneTokens :
      (draw : Draw) (raw : ℕ) (o : Option ℕ) (s : AuthStore)
      → HasLoneTokens s
      → HasLoneTokens (rotate_refresh_token sha256 refresh_ttl now draw raw o s).1
  rotate-HasLoneTokens draw raw o s h =
      by_result (rotate_refresh_token sha256 refresh_ttl now draw raw o s) refl
    where
      by_result :
          (x : Outcome Rotated × AuthStore)
          → rotate_refresh_token sha256 refresh_ttl now draw raw o s ≡ x
          → HasLoneTokens x.1
      by_result (ok r, s') e =
          rotation-HasLoneTokens draw raw s s' h
            (rotate-IsRotation sha256 refresh_ttl now draw raw o s s' r e)
      by_result (throw f, s') e = thrown-HasLoneTokens draw raw o s s' f h e
