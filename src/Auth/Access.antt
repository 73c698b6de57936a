-- ===== src/Auth/Access.antt =====
-- src/auth/access-control.service.ts, with the map in the process that
-- src/auth/membership-cache.service.ts keeps when no Redis is configured. A snapshot leaves out the
-- names and the e-mail address, which no check reads.
pub mod Caching
pub mod Coherent
use edu_gear_back_end.Common.{
  ltb, ◌==◌, if◌then◌else◌, filter, all, find, includes, ℕ, ◌+◌, ◌*◌, Bool, not, Option, none, some,
  List, ◌∷◌,
}
use edu_gear_back_end.Auth.Store.{
  User, School, Membership, Role, MembershipSnapshot, CachedSnapshot, AuthStore, find_user,
  find_school, find_membership,
}

abbrev pub ttl_seconds : ℕ
ttl_seconds = 30

abbrev pub is_of_membership : ℕ → CachedSnapshot → Bool
is_of_membership id e = e.snapshot.membership_id == id

abbrev pub find_role : ℕ → List Role → Option Role
find_role id = find (λ (r : Role). r.id == id)

-- `local.delete(membershipId)`
abbrev pub invalidate_membership : ℕ → AuthStore → AuthStore
invalidate_membership id s = record s { cache = filter (λ e. not (is_of_membership id e)) s.cache }

-- `invalidateUser`: every entry of the user goes.
abbrev pub invalidate_user : ℕ → AuthStore → AuthStore
invalidate_user user s = record s {
  cache = filter (λ (e : CachedSnapshot). not (e.snapshot.user_id == user)) s.cache;
}

-- `invalidateRole`
abbrev pub invalidate_role : ℕ → AuthStore → AuthStore
invalidate_role role s = record s {
  cache = filter (λ (e : CachedSnapshot). not (e.snapshot.role_id == role)) s.cache;
}

abbrev pub snapshot_of :
    Membership → Option User → Option School → Option Role → Option MembershipSnapshot
snapshot_of m (some u) (some c) (some r) = some (record {
  membership_id = m.id;
  user_id = m.user_id;
  school_id = m.school_id;
  school_status = c.status;
  role_id = m.role_id;
  membership_status = m.status;
  user_status = u.status;
  token_version = u.token_version;
  permissions = r.permissions;
})
snapshot_of m _ _ _ = none

abbrev pub snapshot_at : Option Membership → AuthStore → Option MembershipSnapshot
snapshot_at none s = none
snapshot_at (some m) s =
    snapshot_of m (find_user m.user_id s.users) (find_school m.school_id s.schools)
      (find_role m.role_id s.roles)

-- The membership's row with its user, school and role, which its foreign keys make exist.
unfoldable pub read_snapshot : ℕ → AuthStore → Option MembershipSnapshot
read_snapshot id s = snapshot_at (find_membership id s.memberships) s

module _ (now : ℕ) where
  -- `setLocal`
  abbrev pub set_local : MembershipSnapshot → AuthStore → AuthStore
  set_local snapshot s = record s {
    cache =
        record { expires_at = now + ttl_seconds * 1000; snapshot = snapshot }
        ∷ filter (λ e. not (is_of_membership snapshot.membership_id e)) s.cache;
  }

  -- `getMembershipSnapshot` once the cache has been asked.
  abbrev pub read_through :
      ℕ → Option MembershipSnapshot → AuthStore → Option MembershipSnapshot × AuthStore
  read_through id none s = (none, invalidate_membership id s)
  read_through id (some snapshot) s = (some snapshot, set_local snapshot s)

  abbrev pub get_cached :
      ℕ → Option CachedSnapshot → AuthStore → Option MembershipSnapshot × AuthStore
  get_cached id none s = read_through id (read_snapshot id s) s
  get_cached id (some e) s =
      if ltb now e.expires_at
      then (some e.snapshot, s)
      else read_through id (read_snapshot id s) (invalidate_membership id s)

  -- `getMembershipSnapshot`
  unfoldable pub get_membership_snapshot : ℕ → AuthStore → Option MembershipSnapshot × AuthStore
  get_membership_snapshot id s = get_cached id (find (is_of_membership id) s.cache) s

-- `hasAllPermissions`
abbrev pub has_all_permissions : MembershipSnapshot → List ℕ → Bool
has_all_permissions snapshot permissions = all (λ p. includes p snapshot.permissions) permissions
