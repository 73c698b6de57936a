-- ===== src/Auth/Tokens/Revoked.antt =====
-- Refresh tokens that src/auth/token.service.ts has revoked, through the changes of the rows.
use edu_gear_back_end.Common.{
  ◌==◌, if◌then◌else◌, ==_iff, Bool-cases, count, ℕ, ◌≤◌, ◌≡◌, refl, ap, inl, inr, Bool, true,
  false, not, ◌&&◌, some, List, [], ◌∷◌, map, arith,
}
use edu_gear_back_end.Common.Members.{count-map, count-le}
use edu_gear_back_end.Auth.Store.{RefreshToken}
use edu_gear_back_end.Auth.Tokens.{is_unrevoked, revoke_where, find_hash}

-- A revoked token of a user and a family, with a hash.
abbrev pub is_dead : ℕ → ℕ → ℕ → RefreshToken → Bool
is_dead hash user family t =
    t.token_hash == hash && t.user_id == user && t.family_id == family && not (is_unrevoked t)

module _ (hash user family : ℕ) where
  set_dead :
      (now : ℕ) (t : RefreshToken) (b : Bool)
      → is_dead hash user family t ≡ true
      → is_dead hash user family (if b then record t { revoked_at = some now } else t) ≡ true
  set_dead now t true e = ground arith
  set_dead now t false e = e

  -- Revoking tokens of any kind keeps the revoked ones.
  pub dead-map :
      (now : ℕ) (test : RefreshToken → Bool) (ts : List RefreshToken)
      → count (is_dead hash user family) ts
        ≤ count (is_dead hash user family) (
            map (λ (t : RefreshToken). if test t then record t { revoked_at = some now } else t) ts)
  dead-map now test ts = omega (
    arith,
    count-map (λ (t : RefreshToken). if test t then record t { revoked_at = some now } else t)
        (is_dead hash user family) ts,
    count-le (is_dead hash user family)
        (λ t. is_dead hash user family (if test t then record t { revoked_at = some now } else t))
        (λ t e. set_dead now t (test t) e) ts,
  )

  -- The only token with a hash is the revoked one.
  pub find_hash-dead :
      (ts : List RefreshToken)
      → 1 ≤ count (is_dead hash user family) ts
      → count (λ (t : RefreshToken). t.token_hash == hash) ts ≤ 1
      → (t : RefreshToken) × (find_hash hash ts ≡ some t)
        × (t.user_id ≡ user)
        × (t.family_id ≡ family)
        × (is_unrevoked t ≡ false)
  find_hash-dead [] some_dead unique = absurd (omega (arith, some_dead))
  find_hash-dead (t ∷ ts) some_dead unique = elim (Bool-cases (t.token_hash == hash)) [
    | inl hit ↦
        let rest : count (is_dead hash user family) ts
            ≤ count (λ (t : RefreshToken). t.token_hash == hash) ts =
          count-le (is_dead hash user family) (λ (t : RefreshToken). t.token_hash == hash)
            (λ x e. ground arith) ts in
        let it : is_dead hash user family t ≡ true = ground (arith, rest) in
        (t, rw hit refl, ground arith, ground arith, ground arith)
    | inr miss ↦
        let (x, found, own, kin, dead) =
          find_hash-dead ts (rw miss at some_dead) (rw miss at unique) in
        (x, rw miss found, own, kin, dead)
  ]

-- The token with a hash, after the tokens with this hash are revoked.
pub revoke-dead :
    (hash now : ℕ) (ts : List RefreshToken) (t : RefreshToken)
    → find_hash hash ts ≡ some t
    → 1
      ≤ count
          (is_dead hash t.user_id t.family_id)
          (revoke_where (λ (x : RefreshToken). x.token_hash == hash) now ts)
revoke-dead hash now [] t found = cc
revoke-dead hash now (x ∷ xs) t found = elim (Bool-cases (x.token_hash == hash)) [
  | inl hit ↦
      let it : x ≡ t = cc (rw hit at found) in
      let own : (x.user_id == t.user_id) ≡ true =
        (==_iff x.user_id t.user_id).1 (ap (λ (y : RefreshToken). y.user_id) it) in
      let kin : (x.family_id == t.family_id) ≡ true =
        (==_iff x.family_id t.family_id).1 (ap (λ (y : RefreshToken). y.family_id) it) in
      elim (Bool-cases (is_unrevoked x)) [
        | inl live ↦ rw (hit, live, own, kin) (rw hit (omega arith))
        | inr dead ↦ rw (hit, dead, own, kin) (rw (hit, dead) (omega arith))
      ]
  | inr miss ↦ let rest = revoke-dead hash now xs t (rw miss at found) in rw miss (rw miss rest)
]
