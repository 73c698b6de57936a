-- ===== src/Auth/Writes/Fresh.antt =====
-- What every write of src/auth keeps of the cache: no snapshot in it is stale.
use mathlib.Core.Path.{subst}
use edu_gear_back_end.Common.{
  ◌==◌, if◌then◌else◌, filter, Has, ℕ, ◌≡◌, refl, sym, ◌∙◌, Bool, true, false, not, some, List, ◌∷◌,
  arith,
}
use edu_gear_back_end.Common.Members.{Has-filter}
use edu_gear_back_end.Auth.Store.{User, CachedSnapshot, AuthStore, find_user, update_user}
use edu_gear_back_end.Auth.Access.Caching.{
  IsFresh, IsCoherent, read_snapshot-IsJoined, read_snapshot-users,
}
use edu_gear_back_end.Auth.Access.Coherent.{
  recached, retokened, retokened-IsCoherent, forget-IsCoherent, get-IsCoherent,
}
use edu_gear_back_end.Auth.Tokens.{revoke_where, revoke_all_for_user}
use edu_gear_back_end.Auth.Writes.{
  IsQuiet, IsBump, sessions_ended, Write, issued, rotated, unrefreshed, linked, spent, kept_user,
  bumped, looked_up, forgotten,
}
use edu_gear_back_end.Auth.Writes.Keeping.{find_user-update}

-- The snapshots that stay are fresh when the rows of their users are as before.
users-IsCoherent :
    (s : AuthStore) (users : List User) (kept : CachedSnapshot → Bool)
    → ((e : CachedSnapshot) (u : User)
        → kept e ≡ true
        → find_user e.snapshot.user_id s.users ≡ some u
        → (v : User) × (find_user e.snapshot.user_id users ≡ some v)
          × (v.status ≡ u.status)
          × (v.token_version ≡ u.token_version))
    → IsCoherent s
    → IsCoherent (record s { users = users; cache = filter kept s.cache })
users-IsCoherent s users kept same c = record { fresh = fresh }
  where
    fresh :
        (e : CachedSnapshot)
        → Has e (filter kept s.cache)
        → IsFresh (record s { users = users; cache = filter kept s.cache }) e
    fresh e h =
        let (h', k) = (Has-filter kept s.cache e).0 h in
        let j = read_snapshot-IsJoined e.snapshot.membership_id s e.snapshot (c.fresh e h') in
        let of_user : j.membership.user_id ≡ e.snapshot.user_id = cc (j.joined) in
        let own = subst (λ (n : ℕ). find_user n s.users ≡ some j.user) of_user j.owner in
        let (v, found, status, version) = same e j.user k own in
        retokened (record s { users = users }) s.refresh_tokens s.verification_tokens
          (filter kept s.cache) e.snapshot.membership_id
        ∙ read_snapshot-users s users e.snapshot.membership_id e.snapshot v (c.fresh e h') found
            (cc (status, j.joined)) (cc (version, j.joined))

quiet-IsCoherent :
    (user : ℕ) (f : User → User) (s : AuthStore)
    → IsQuiet f
    → IsCoherent s
    → IsCoherent (update_user user f s)
quiet-IsCoherent user f s quiet c = record {
  fresh = λ e h.
      sym (recached (update_user user f s) (filter (λ x. true) s.cache) e.snapshot.membership_id)
      ∙ kept.fresh e ((Has-filter (λ x. true) s.cache e).1 (h, refl));
}
  where
    same :
        (e : CachedSnapshot) (u : User)
        → true ≡ true
        → find_user e.snapshot.user_id s.users ≡ some u
        → (v : User) × (find_user e.snapshot.user_id (update_user user f s).users ≡ some v)
          × (v.status ≡ u.status)
          × (v.token_version ≡ u.token_version)
    same e u k found =
        by_test (e.snapshot.user_id == user)
          (find_user-update user f quiet.same_id e.snapshot.user_id s.users u found)
      where
        by_test :
            (b : Bool)
            → find_user e.snapshot.user_id (update_user user f s).users
              ≡ some (if b then f u else u)
            → (v : User) × (find_user e.snapshot.user_id (update_user user f s).users ≡ some v)
              × (v.status ≡ u.status)
              × (v.token_version ≡ u.token_version)
        by_test true found = (f u, found, quiet.same_status u, quiet.same_version u)
        by_test false found = (u, found, refl, refl)

    kept :
        IsCoherent
          (record s { users = (update_user user f s).users; cache = filter (λ x. true) s.cache })
    kept = users-IsCoherent s (update_user user f s).users (λ x. true) same c

pub ended-IsCoherent :
    (user now : ℕ) (f : User → User) (s : AuthStore)
    → IsBump f
    → IsCoherent s
    → IsCoherent (sessions_ended user now f s)
ended-IsCoherent user now f s bump c =
    retokened-IsCoherent _ (revoke_all_for_user user now s).refresh_tokens s.verification_tokens (
      users-IsCoherent s (update_user user f s).users
        (λ (e : CachedSnapshot). not (e.snapshot.user_id == user)) same c)
  where
    same :
        (e : CachedSnapshot) (u : User)
        → not (e.snapshot.user_id == user) ≡ true
        → find_user e.snapshot.user_id s.users ≡ some u
        → (v : User) × (find_user e.snapshot.user_id (update_user user f s).users ≡ some v)
          × (v.status ≡ u.status)
          × (v.token_version ≡ u.token_version)
    same e u other found =
        let else_where : (e.snapshot.user_id == user) ≡ false = ground (arith, other) in
        (
          u,
          find_user-update user f bump.same_id e.snapshot.user_id s.users u found
              ∙ rw else_where refl,
          refl,
          refl,
        )

pub Write-IsCoherent : {s s' : AuthStore} → Write s s' → IsCoherent s → IsCoherent s'
Write-IsCoherent {s} (issued t new e) c =
    subst IsCoherent (sym e) (retokened-IsCoherent s (t ∷ s.refresh_tokens) s.verification_tokens c)
Write-IsCoherent {s} {s'} (rotated keeps tokens e) c =
    subst IsCoherent (sym e) (retokened-IsCoherent s s'.refresh_tokens s.verification_tokens c)
Write-IsCoherent {s} (unrefreshed test now e) c =
    subst IsCoherent (sym e)
      (retokened-IsCoherent s (revoke_where test now s.refresh_tokens) s.verification_tokens c)
Write-IsCoherent {s} (linked link user purpose now e) c =
    subst IsCoherent (sym e) (retokened-IsCoherent s s.refresh_tokens _ c)
Write-IsCoherent {s} (spent id now e) c =
    subst IsCoherent (sym e) (retokened-IsCoherent s s.refresh_tokens _ c)
Write-IsCoherent {s} (kept_user user f quiet e) c =
    subst IsCoherent (sym e) (quiet-IsCoherent user f s quiet c)
Write-IsCoherent {s} (bumped user now f bump e) c =
    subst IsCoherent (sym e) (ended-IsCoherent user now f s bump c)
Write-IsCoherent {s} (looked_up now id e) c = subst IsCoherent (sym e) (get-IsCoherent now id s c)
Write-IsCoherent {s} (forgotten kept e) c = subst IsCoherent (sym e) (forget-IsCoherent s kept c)
