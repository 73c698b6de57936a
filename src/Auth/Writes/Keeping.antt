-- ===== src/Auth/Writes/Keeping.antt =====
-- What every write of src/auth keeps: lone live tokens, and versions that only grow.
use mathlib.Core.Path.{subst}
use edu_gear_back_end.Common.{
  ◌==◌, if◌then◌else◌, ==_iff, same, ℕ, ◌≤◌, ◌≡◌, refl, sym, ap, ◌∙◌, Bool, true, false, some, List,
  map, arith,
}
use edu_gear_back_end.Common.Members.{find-map, find-Has}
use edu_gear_back_end.Auth.Store.{User, RefreshToken, AuthStore, find_user, update_user}
use edu_gear_back_end.Auth.Access.Caching.{get-keeps}
use edu_gear_back_end.Auth.Tokens.Families.{
  HasLoneTokens, revoke_where-HasLoneTokens, store_token-HasLoneTokens,
}
use edu_gear_back_end.Auth.Writes.{
  Write, issued, rotated, unrefreshed, linked, spent, kept_user, bumped, looked_up, forgotten,
}

-- Users found after a change of one of them.
module _ (user : ℕ) (f : User → User) (same_id : (u : User) → (f u).id ≡ u.id) where
  abbrev written : User → User
  written u = if u.id == user then f u else u

  written-same_id : (id : ℕ) (u : User) → ((written u).id == id) ≡ (u.id == id)
  written-same_id id u = by_test (u.id == user)
    where
      by_test : (b : Bool) → ((if b then f u else u).id == id) ≡ (u.id == id)
      by_test true = ap (λ k. k == id) (same_id u)
      by_test false = refl

  pub find_user-update :
      (id : ℕ) (users : List User) (u : User)
      → find_user id users ≡ some u
      → find_user id (map written users) ≡ some (if id == user then f u else u)
  find_user-update id users u found =
      let (_, k) = find-Has (λ (x : User). x.id == id) users found in
      let its : u.id ≡ id = (==_iff u.id id).0 k in
      find-map (λ (x : User). x.id == id) written (written-same_id id) users {x = u} found
      ∙ ap (λ k. some (if k == user then f u else u)) its

-- The user is known, with at least this version.
pub record IsAtLeast (user version : ℕ) (s : AuthStore) : Type 0 where
  pub row : User
  pub found : find_user user s.users ≡ some row
  pub low : version ≤ row.token_version

update-IsAtLeast :
    (user version other : ℕ) (f : User → User) (s s' : AuthStore)
    → ((u : User) → (f u).id ≡ u.id)
    → ((u : User) → u.token_version ≤ (f u).token_version)
    → s'.users ≡ (update_user other f s).users
    → IsAtLeast user version s
    → IsAtLeast user version s'
update-IsAtLeast user version other f s s' same_id grows users a = record {
  row = if user == other then f a.row else a.row;
  found = ap (find_user user) users ∙ find_user-update other f same_id user s.users a.row a.found;
  low = by_test (user == other);
}
  where
    by_test : (b : Bool) → version ≤ (if b then f a.row else a.row).token_version
    by_test true = omega (arith, grows a.row, a.low)
    by_test false = a.low

same_users-IsAtLeast :
    (user version : ℕ) (s s' : AuthStore)
    → s'.users ≡ s.users
    → IsAtLeast user version s
    → IsAtLeast user version s'
same_users-IsAtLeast user version s s' same a = record {
  row = a.row;
  found = ap (find_user user) same ∙ a.found;
  low = a.low;
}

pub Write-IsAtLeast :
    {s s' : AuthStore} (user version : ℕ)
    → Write s s'
    → IsAtLeast user version s
    → IsAtLeast user version s'
Write-IsAtLeast {s} {s'} user version (issued t new e) =
    same_users-IsAtLeast user version s s' (ap (λ (x : AuthStore). x.users) e)
Write-IsAtLeast {s} {s'} user version (rotated keeps tokens e) =
    same_users-IsAtLeast user version s s' (ap (λ (x : AuthStore). x.users) e)
Write-IsAtLeast {s} {s'} user version (unrefreshed test now e) =
    same_users-IsAtLeast user version s s' (ap (λ (x : AuthStore). x.users) e)
Write-IsAtLeast {s} {s'} user version (linked link other purpose now e) =
    same_users-IsAtLeast user version s s' (ap (λ (x : AuthStore). x.users) e)
Write-IsAtLeast {s} {s'} user version (spent id now e) =
    same_users-IsAtLeast user version s s' (ap (λ (x : AuthStore). x.users) e)
Write-IsAtLeast {s} {s'} user version (kept_user other f quiet e) =
    update-IsAtLeast user version other f s s' quiet.same_id
      (λ u. omega (arith, quiet.same_version u)) (ap (λ (x : AuthStore). x.users) e)
Write-IsAtLeast {s} {s'} user version (bumped other now f bump e) =
    update-IsAtLeast user version other f s s' bump.same_id
      (λ u. omega (arith, bump.next_version u)) (ap (λ (x : AuthStore). x.users) e)
Write-IsAtLeast {s} {s'} user version (looked_up now id e) =
    same_users-IsAtLeast user version s s'
      (ap (λ (x : AuthStore). x.users) (e ∙ get-keeps now id s))
Write-IsAtLeast {s} {s'} user version (forgotten kept e) =
    same_users-IsAtLeast user version s s' (ap (λ (x : AuthStore). x.users) e)

pub Write-HasLoneTokens : {s s' : AuthStore} → Write s s' → HasLoneTokens s → HasLoneTokens s'
Write-HasLoneTokens {s} (issued t new e) h =
    subst HasLoneTokens (sym e) (store_token-HasLoneTokens t s new h)
Write-HasLoneTokens (rotated keeps tokens e) h = keeps h
Write-HasLoneTokens {s} (unrefreshed test now e) h =
    subst HasLoneTokens (sym e) (revoke_where-HasLoneTokens test now s h)
Write-HasLoneTokens (linked link other purpose now e) h =
    subst HasLoneTokens (sym e) (record { lone = h.lone })
Write-HasLoneTokens (spent id now e) h = subst HasLoneTokens (sym e) (record { lone = h.lone })
Write-HasLoneTokens (kept_user other f quiet e) h =
    subst HasLoneTokens (sym e) (record { lone = h.lone })
Write-HasLoneTokens {s} (bumped other now f bump e) h =
    let revoked = revoke_where-HasLoneTokens (λ (t : RefreshToken). t.user_id == other) now s h in
    subst HasLoneTokens (sym e) (record { lone = revoked.lone })
Write-HasLoneTokens {s} (looked_up now id e) h =
    subst HasLoneTokens (sym (e ∙ get-keeps now id s)) (record { lone = h.lone })
Write-HasLoneTokens (forgotten kept e) h = subst HasLoneTokens (sym e) (record { lone = h.lone })
