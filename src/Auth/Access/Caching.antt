-- ===== src/Auth/Access/Caching.antt =====
-- What `getMembershipSnapshot` of src/auth/access-control.service.ts leaves and answers when the cache
-- holds nothing stale.
use mathlib.Core.Path.{subst}
use edu_gear_back_end.Common.Members.{find-Has}
use edu_gear_back_end.Common.{
  ltb, ◌==◌, ==_iff, Bool-cases, find, Has, ℕ, ◌≡◌, refl, sym, inl, inr, Option, none, some, List,
}
use edu_gear_back_end.Auth.Store.{
  User, School, Membership, Role, MembershipSnapshot, CachedSnapshot, AuthStore, find_user,
  find_school, find_membership,
}
use edu_gear_back_end.Auth.Access.{
  is_of_membership, find_role, invalidate_membership, snapshot_of, snapshot_at, read_snapshot,
  read_through, get_cached, get_membership_snapshot,
}

-- Every cached snapshot is what the rows give now.
abbrev pub IsFresh : AuthStore → CachedSnapshot → Type 0
IsFresh s e = read_snapshot e.snapshot.membership_id s ≡ some e.snapshot

pub record IsCoherent (s : AuthStore) : Type 0 where
  pub fresh : (e : CachedSnapshot) → Has e s.cache → IsFresh s e

-- Only the cache is written.
pub get-keeps :
    (now id : ℕ) (s : AuthStore)
    → (get_membership_snapshot now id s).1
      ≡ record s { cache = (get_membership_snapshot now id s).1.cache }
unfolding get_membership_snapshot
get-keeps now id s = by_entry (find (is_of_membership id) s.cache)
  where
    by_row :
        (m : Option MembershipSnapshot) (t : AuthStore)
        → (read_through now id m t).1 ≡ record t { cache = (read_through now id m t).1.cache }
    by_row none t = refl
    by_row (some snapshot) t = refl

    by_entry :
        (o : Option CachedSnapshot)
        → (get_cached now id o s).1 ≡ record s { cache = (get_cached now id o s).1.cache }
    by_entry none = by_row (read_snapshot id s) s
    by_entry (some e) = elim (Bool-cases (ltb now e.expires_at)) [
      | inl live ↦ rw live refl
      | inr old ↦ rw old (by_row (read_snapshot id s) (invalidate_membership id s))
    ]

-- A snapshot and the rows that it joins.
pub record IsJoined (id : ℕ) (s : AuthStore) (snapshot : MembershipSnapshot) : Type 0 where
  pub membership : Membership
  pub user : User
  pub school : School
  pub role : Role
  pub found : find_membership id s.memberships ≡ some membership
  pub owner : find_user membership.user_id s.users ≡ some user
  pub located : find_school membership.school_id s.schools ≡ some school
  pub duty : find_role membership.role_id s.roles ≡ some role
  pub joined : some snapshot ≡ snapshot_of membership (some user) (some school) (some role)

pub read_snapshot-IsJoined :
    (id : ℕ) (s : AuthStore) (snapshot : MembershipSnapshot)
    → read_snapshot id s ≡ some snapshot
    → IsJoined id s snapshot
unfolding read_snapshot
read_snapshot-IsJoined id s snapshot e = by_membership (find_membership id s.memberships) refl e
  where
    by_rows :
        (m : Membership) (u : Option User) (c : Option School) (r : Option Role)
        → find_membership id s.memberships ≡ some m
        → find_user m.user_id s.users ≡ u
        → find_school m.school_id s.schools ≡ c
        → find_role m.role_id s.roles ≡ r
        → snapshot_of m u c r ≡ some snapshot
        → IsJoined id s snapshot
    by_rows m (some u) (some c) (some r) found owner located duty e = record {
      membership = m;
      user = u;
      school = c;
      role = r;
      found = found;
      owner = owner;
      located = located;
      duty = duty;
      joined = sym e;
    }
    by_rows m none c r found owner located duty e = absurd (cc e)
    by_rows m (some u) none r found owner located duty e = absurd (cc e)
    by_rows m (some u) (some c) none found owner located duty e = absurd (cc e)

    by_membership :
        (o : Option Membership)
        → find_membership id s.memberships ≡ o
        → snapshot_at o s ≡ some snapshot
        → IsJoined id s snapshot
    by_membership none found e = absurd (cc e)
    by_membership (some m) found e =
        by_rows m (find_user m.user_id s.users) (find_school m.school_id s.schools)
          (find_role m.role_id s.roles) found refl refl refl e

-- A snapshot is of the membership that was asked for.
pub read_snapshot-membership :
    (id : ℕ) (s : AuthStore) (snapshot : MembershipSnapshot)
    → read_snapshot id s ≡ some snapshot
    → snapshot.membership_id ≡ id
read_snapshot-membership id s snapshot e =
    let j = read_snapshot-IsJoined id s snapshot e in
    let (_, k) = find-Has (λ (m : Membership). m.id == id) s.memberships j.found in
    cc ((==_iff j.membership.id id).0 k, j.joined)

-- Other users' rows, and the columns that a snapshot does not show, do not matter to it.
pub read_snapshot-users :
    (s : AuthStore) (users : List User) (id : ℕ) (snapshot : MembershipSnapshot) (u : User)
    → read_snapshot id s ≡ some snapshot
    → find_user snapshot.user_id users ≡ some u
    → u.status ≡ snapshot.user_status
    → u.token_version ≡ snapshot.token_version
    → read_snapshot id (record s { users = users }) ≡ some snapshot
unfolding read_snapshot
read_snapshot-users s users id snapshot u e found status version =
    let j = read_snapshot-IsJoined id s snapshot e in
    let same : snapshot.user_id ≡ j.membership.user_id = cc (j.joined) in
    let found' = subst (λ (k : ℕ). find_user k users ≡ some u) same found in
    rw (j.found, j.located, j.duty, found') (cc (j.joined, status, version))
