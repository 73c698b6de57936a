-- ===== src/Auth/Histories/Leaving.antt =====
-- `logout` of src/auth/auth.service.ts against a later `refresh` with the token that it ended, along
-- any history of the handlers in between. No handler removes a refresh token or makes a revoked one
-- live.
use edu_gear_back_end.Common.{
  ◌==◌, count, token_reused, throw, ℕ, ◌≤◌, ◌≡◌, refl, ap, ◌∙◌, false, ◌&&◌, none, some, List, ◌∷◌,
  arith,
}
use edu_gear_back_end.Auth.Store.{User, RefreshToken, AuthStore, find_user}
use edu_gear_back_end.Auth.Access.Caching.{get-keeps}
use edu_gear_back_end.Auth.Tokens.{
  Draw, is_unrevoked, revoke_family, find_hash, revoke_refresh_token,
}
use edu_gear_back_end.Auth.Tokens.Spent.{count-new-le}
use edu_gear_back_end.Auth.Tokens.Rotating.{reused}
use edu_gear_back_end.Auth.Tokens.Revoked.{is_dead, dead-map, find_hash-dead, revoke-dead}
use edu_gear_back_end.Auth.Login.{AuthConfig}
use edu_gear_back_end.Auth.Sessions.{refresh, logout}
use edu_gear_back_end.Auth.Writes.{
  IsTurned, unturned, dropped, turned, Write, issued, rotated, unrefreshed, linked, spent,
  kept_user, bumped, looked_up, forgotten, Writes, nothing, then,
}
use edu_gear_back_end.Auth.Histories.{logged_out, Reach, here, next, Reach-Writes, Writes-IsAtLeast}

module _ (hash user family : ℕ) where
  -- How many revoked tokens of the user and the family have the hash.
  abbrev dead_count : AuthStore → ℕ
  dead_count s = count (is_dead hash user family) s.refresh_tokens

  same_tokens :
      (s s' : AuthStore) → s'.refresh_tokens ≡ s.refresh_tokens → dead_count s ≤ dead_count s'
  same_tokens s s' e = omega (arith, ap (count (is_dead hash user family)) e)

  IsTurned-dead :
      (ts ts' : List RefreshToken)
      → IsTurned ts ts'
      → count (is_dead hash user family) ts ≤ count (is_dead hash user family) ts'
  IsTurned-dead ts ts' (unturned e) = omega (arith, ap (count (is_dead hash user family)) e)
  IsTurned-dead ts ts' (dropped other now e) = omega (
    arith,
    ap (count (is_dead hash user family)) e,
    dead-map hash user family now (λ (t : RefreshToken). t.family_id == other && is_unrevoked t) ts,
  )
  IsTurned-dead ts ts' (turned id now t e) = omega (
    arith,
    ap (count (is_dead hash user family)) e,
    dead-map hash user family now (λ (t : RefreshToken). t.id == id) (t ∷ ts),
    count-new-le (is_dead hash user family) t ts,
  )

  Write-dead_count : {s s' : AuthStore} → Write s s' → dead_count s ≤ dead_count s'
  Write-dead_count {s} {s'} (issued t new e) =
      omega (arith, ap dead_count e, count-new-le (is_dead hash user family) t s.refresh_tokens)
  Write-dead_count {s} {s'} (rotated keeps tokens e) =
      IsTurned-dead s.refresh_tokens s'.refresh_tokens tokens
  Write-dead_count {s} {s'} (unrefreshed test now e) = omega (
    arith,
    ap dead_count e,
    dead-map hash user family now (λ t. test t && is_unrevoked t) s.refresh_tokens,
  )
  Write-dead_count {s} {s'} (linked link other purpose now e) =
      same_tokens s s' (ap (λ (x : AuthStore). x.refresh_tokens) e)
  Write-dead_count {s} {s'} (spent id now e) =
      same_tokens s s' (ap (λ (x : AuthStore). x.refresh_tokens) e)
  Write-dead_count {s} {s'} (kept_user other f quiet e) =
      same_tokens s s' (ap (λ (x : AuthStore). x.refresh_tokens) e)
  Write-dead_count {s} {s'} (bumped other now f bump e) = omega (
    arith,
    ap dead_count e,
    dead-map hash user family now (λ (t : RefreshToken). t.user_id == other && is_unrevoked t)
        s.refresh_tokens,
  )
  Write-dead_count {s} {s'} (looked_up now id e) =
      same_tokens s s' (ap (λ (x : AuthStore). x.refresh_tokens) (e ∙ get-keeps now id s))
  Write-dead_count {s} {s'} (forgotten kept e) =
      same_tokens s s' (ap (λ (x : AuthStore). x.refresh_tokens) e)

  Writes-dead_count : {s s' : AuthStore} → Writes s s' → dead_count s ≤ dead_count s'
  Writes-dead_count nothing = omega arith
  Writes-dead_count (then ws w) = omega (arith, Writes-dead_count ws, Write-dead_count w)

logout-dead :
    (c : AuthConfig) (now raw : ℕ) (s : AuthStore) (t : RefreshToken)
    → find_hash (c.sha256 raw) s.refresh_tokens ≡ some t
    → 1 ≤ dead_count (c.sha256 raw) t.user_id t.family_id (logout c now raw s)
unfolding logout revoke_refresh_token
logout-dead c now raw s t found = revoke-dead (c.sha256 raw) now s.refresh_tokens t found

refresh-reused :
    (c : AuthConfig) (now raw : ℕ) (draw : Draw) (s : AuthStore) (t : RefreshToken) (u : User)
    → find_hash (c.sha256 raw) s.refresh_tokens ≡ some t
    → find_user t.user_id s.users ≡ some u
    → is_unrevoked t ≡ false
    → refresh c now draw raw s ≡ (throw token_reused, revoke_family t.family_id now s)
unfolding refresh
refresh-reused c now raw draw s t u found owner dead =
    rw (reused c.sha256 c.refresh_ttl now draw raw none s t u found owner dead) refl

-- After a logout with a known token of a known user and any later history of the handlers, one at a
-- time, in rows where no two refresh tokens have its hash (a unique column), a refresh with the
-- token is refused as a reuse at any time, and revokes the token's family.
pub logout-refused :
    (c : AuthConfig) (now later raw : ℕ) (draw : Draw) (s s' : AuthStore) (t : RefreshToken)
    (u : User)
    → find_hash (c.sha256 raw) s.refresh_tokens ≡ some t
    → find_user t.user_id s.users ≡ some u
    → Reach c (logout c now raw s) s'
    → count (λ (x : RefreshToken). x.token_hash == c.sha256 raw) s'.refresh_tokens ≤ 1
    → refresh c later draw raw s' ≡ (throw token_reused, revoke_family t.family_id later s')
logout-refused c now later raw draw s s' t u found owner history unique =
    let hash = c.sha256 raw in
    let first = logout-dead c now raw s t found in
    let still : 1 ≤ dead_count hash t.user_id t.family_id s' =
      omega (arith, first, Writes-dead_count hash t.user_id t.family_id (Reach-Writes history)) in
    let (x, known, own, kin, dead) =
      find_hash-dead hash t.user_id t.family_id s'.refresh_tokens still unique in
    let a =
      Writes-IsAtLeast t.user_id 0 (Reach-Writes (history_of c now raw s history))
        (record { row = u; found = owner; low = omega arith }) in
    let holder : find_user x.user_id s'.users ≡ some a.row =
      ap (λ (n : ℕ). find_user n s'.users) own ∙ a.found in
    refresh-reused c later raw draw s' x a.row known holder dead
    ∙ ap (λ (n : ℕ). (throw token_reused, revoke_family n later s')) kin
  where
    history_of :
        (c : AuthConfig) (now raw : ℕ) (s : AuthStore) {s' : AuthStore}
        → Reach c (logout c now raw s) s'
        → Reach c s s'
    history_of c now raw s here = next here (logged_out now raw)
    history_of c now raw s (next r st) = next (history_of c now raw s r) st
