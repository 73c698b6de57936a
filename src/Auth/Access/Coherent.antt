-- ===== src/Auth/Access/Coherent.antt =====
-- The cache of src/auth/membership-cache.service.ts next to the rows that it repeats.
use mathlib.Core.Path.{subst}
use edu_gear_back_end.Common.{
  ltb, ==_iff, Bool-cases, same, filter, find, Has, ℕ, ◌≡◌, refl, sym, ap, ◌∙◌, inl, inr, Bool, not,
  Option, none, some, List,
}
use edu_gear_back_end.Common.Members.{Has-filter, find-Has}
use edu_gear_back_end.Auth.Store.{
  Membership, RefreshToken, VerificationToken, MembershipSnapshot, CachedSnapshot, AuthStore,
  find_membership,
}
use edu_gear_back_end.Auth.Access.{
  is_of_membership, invalidate_membership, snapshot_at, read_snapshot, set_local, read_through,
  get_cached, get_membership_snapshot,
}
use edu_gear_back_end.Auth.Access.Caching.{IsFresh, IsCoherent, read_snapshot-membership}

-- What is cached does not change what the rows give.
pub recached :
    (s : AuthStore) (cache : List CachedSnapshot) (id : ℕ)
    → read_snapshot id (record s { cache = cache }) ≡ read_snapshot id s
unfolding read_snapshot
recached s cache id = by_membership (find_membership id s.memberships)
  where
    by_membership :
        (o : Option Membership) → snapshot_at o (record s { cache = cache }) ≡ snapshot_at o s
    by_membership none = refl
    by_membership (some m) = refl

-- Nor do the tokens.
pub retokened :
    (s : AuthStore) (ts : List RefreshToken) (links : List VerificationToken)
    (cache : List CachedSnapshot) (id : ℕ)
    → read_snapshot id
        (record s { refresh_tokens = ts; verification_tokens = links; cache = cache })
      ≡ read_snapshot id s
unfolding read_snapshot
retokened s ts links cache id = by_membership (find_membership id s.memberships)
  where
    t : AuthStore
    t = record s { refresh_tokens = ts; verification_tokens = links; cache = cache }

    by_membership : (o : Option Membership) → snapshot_at o t ≡ snapshot_at o s
    by_membership none = refl
    by_membership (some m) = refl

pub retokened-IsCoherent :
    (s : AuthStore) (ts : List RefreshToken) (links : List VerificationToken)
    → IsCoherent s
    → IsCoherent (record s { refresh_tokens = ts; verification_tokens = links })
retokened-IsCoherent s ts links c = record {
  fresh = λ e h. retokened s ts links s.cache e.snapshot.membership_id ∙ c.fresh e h;
}

pub recached-IsCoherent :
    (s : AuthStore) (cache : List CachedSnapshot)
    → ((e : CachedSnapshot) → Has e cache → IsFresh s e)
    → IsCoherent (record s { cache = cache })
recached-IsCoherent s cache fresh = record {
  fresh = λ e h. recached s cache e.snapshot.membership_id ∙ fresh e h;
}

pub forget-IsCoherent :
    (s : AuthStore) (kept : CachedSnapshot → Bool)
    → IsCoherent s
    → IsCoherent (record s { cache = filter kept s.cache })
forget-IsCoherent s kept c =
    recached-IsCoherent s (filter kept s.cache)
      (λ e h. c.fresh e ((Has-filter kept s.cache e).0 h).0)

pub set_local-IsCoherent :
    (now : ℕ) (s : AuthStore) (snapshot : MembershipSnapshot)
    → read_snapshot snapshot.membership_id s ≡ some snapshot
    → IsCoherent s
    → IsCoherent (set_local now snapshot s)
set_local-IsCoherent now s snapshot e c =
    recached-IsCoherent s (set_local now snapshot s).cache by_place
  where
    kept : CachedSnapshot → Bool
    kept x = not (is_of_membership snapshot.membership_id x)

    by_place : (x : CachedSnapshot) → Has x (set_local now snapshot s).cache → IsFresh s x
    by_place x (inl same) = subst (IsFresh s) (sym same) e
    by_place x (inr h) = c.fresh x ((Has-filter kept s.cache x).0 h).0

module _ (now id : ℕ) where
  read_through-IsCoherent :
      (s : AuthStore) → IsCoherent s → IsCoherent (read_through now id (read_snapshot id s) s).1
  read_through-IsCoherent s c = by_row (read_snapshot id s) refl
    where
      by_row :
          (o : Option MembershipSnapshot)
          → read_snapshot id s ≡ o
          → IsCoherent (read_through now id o s).1
      by_row none e = forget-IsCoherent s (λ x. not (is_of_membership id x)) c
      by_row (some snapshot) e =
          set_local-IsCoherent now s snapshot
            (ap (λ k. read_snapshot k s) (read_snapshot-membership id s snapshot e) ∙ e) c

  pub get-IsCoherent :
      (s : AuthStore) → IsCoherent s → IsCoherent (get_membership_snapshot now id s).1
  unfolding get_membership_snapshot
  get-IsCoherent s c = by_entry (find (is_of_membership id) s.cache)
    where
      dropped : AuthStore
      dropped = invalidate_membership id s

      by_entry : (o : Option CachedSnapshot) → IsCoherent (get_cached now id o s).1
      by_entry none = read_through-IsCoherent s c
      by_entry (some e) = elim (Bool-cases (ltb now e.expires_at)) [
        | inl live ↦ rw live c
        | inr old ↦ rw old (
            subst (λ (o : Option MembershipSnapshot). IsCoherent (read_through now id o dropped).1)
              (recached s dropped.cache id)
              (read_through-IsCoherent dropped
                (forget-IsCoherent s (λ x. not (is_of_membership id x)) c)))
      ]

  read_through-answer :
      (o : Option MembershipSnapshot) (s : AuthStore) → (read_through now id o s).0 ≡ o
  read_through-answer none s = refl
  read_through-answer (some snapshot) s = refl

  -- With nothing stale in the cache, the answer is what the rows give.
  pub get-answer :
      (s : AuthStore) → IsCoherent s → (get_membership_snapshot now id s).0 ≡ read_snapshot id s
  unfolding get_membership_snapshot
  get-answer s c = by_entry (find (is_of_membership id) s.cache) refl
    where
      by_entry :
          (o : Option CachedSnapshot)
          → find (is_of_membership id) s.cache ≡ o
          → (get_cached now id o s).0 ≡ read_snapshot id s
      by_entry none found = read_through-answer (read_snapshot id s) s
      by_entry (some e) found = elim (Bool-cases (ltb now e.expires_at)) [
        | inl live ↦
            let (h, k) = find-Has (is_of_membership id) s.cache found in
            let its : e.snapshot.membership_id ≡ id = (==_iff e.snapshot.membership_id id).0 k in
            rw live (sym (c.fresh e h) ∙ ap (λ k. read_snapshot k s) its)
        | inr old ↦ rw old (read_through-answer (read_snapshot id s) (invalidate_membership id s))
      ]
