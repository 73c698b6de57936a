-- ===== src/Auth/Store.antt =====
-- The rows that sign-in and sessions work on (prisma/schema.prisma: User, Membership, School,
-- RefreshToken, VerificationToken), read and written outside any tenant. Ids, e-mail addresses,
-- raw tokens, hashes and passwords are only compared and hashed, so they are numbers. A handler of
-- these services runs outside a transaction: what it has written before it throws stays.
use edu_gear_back_end.Common.{
  ◌==◌, if◌then◌else◌, find, Outcome, throw, ok, ℕ, Bool, true, false, Option, List, map,
}

pub data UserStatus : Type 0 where
  pending_verification active_user suspended_user deactivated : UserStatus

pub data MembershipStatus : Type 0 where
  invited active_member suspended_member revoked : MembershipStatus

pub data SchoolStatus : Type 0 where
  pending_school active_school suspended_school cancelled_school : SchoolStatus

pub data VerificationTokenType : Type 0 where
  email_verification password_reset invitation : VerificationTokenType

pub record User : Type 0 where
  pub id : ℕ
  pub email : ℕ
  pub password_hash : ℕ
  pub status : UserStatus
  pub email_verified_at : Option ℕ
  pub last_login_at : Option ℕ
  pub failed_login_attempts : ℕ
  pub locked_until : Option ℕ
  pub token_version : ℕ

pub record School : Type 0 where
  pub id : ℕ
  pub status : SchoolStatus

pub record Membership : Type 0 where
  pub id : ℕ
  pub user_id : ℕ
  pub school_id : ℕ
  pub role_id : ℕ
  pub status : MembershipStatus
  pub is_default : Bool
  pub created_at : ℕ

pub record RefreshToken : Type 0 where
  pub id : ℕ
  pub user_id : ℕ
  pub membership_id : Option ℕ
  pub token_hash : ℕ
  pub family_id : ℕ
  pub expires_at : ℕ
  pub revoked_at : Option ℕ

pub record VerificationToken : Type 0 where
  pub id : ℕ
  pub user_id : ℕ
  pub purpose : VerificationTokenType
  pub token_hash : ℕ
  pub expires_at : ℕ
  pub consumed_at : Option ℕ

-- A role with the keys of its permissions.
pub record Role : Type 0 where
  pub id : ℕ
  pub permissions : List ℕ

-- `MembershipSnapshot`, less the names that it shows.
pub record MembershipSnapshot : Type 0 where
  pub membership_id : ℕ
  pub user_id : ℕ
  pub school_id : ℕ
  pub school_status : SchoolStatus
  pub role_id : ℕ
  pub membership_status : MembershipStatus
  pub user_status : UserStatus
  pub token_version : ℕ
  pub permissions : List ℕ

-- An entry of the map `local` of the membership cache, whose key is the snapshot's membership.
pub record CachedSnapshot : Type 0 where
  pub expires_at : ℕ
  pub snapshot : MembershipSnapshot

pub record AuthStore : Type 0 where
  pub users : List User
  pub memberships : List Membership
  pub schools : List School
  pub refresh_tokens : List RefreshToken
  pub verification_tokens : List VerificationToken
  pub roles : List Role
  pub cache : List CachedSnapshot

abbrev pub is_active_user : UserStatus → Bool
is_active_user active_user = true
is_active_user _ = false

abbrev pub is_pending_user : UserStatus → Bool
is_pending_user pending_verification = true
is_pending_user _ = false

abbrev pub is_deactivated : UserStatus → Bool
is_deactivated deactivated = true
is_deactivated _ = false

abbrev pub is_active_member : MembershipStatus → Bool
is_active_member active_member = true
is_active_member _ = false

abbrev pub is_active_school : SchoolStatus → Bool
is_active_school active_school = true
is_active_school _ = false

abbrev pub same_purpose : VerificationTokenType → VerificationTokenType → Bool
same_purpose email_verification email_verification = true
same_purpose password_reset password_reset = true
same_purpose invitation invitation = true
same_purpose _ _ = false

abbrev pub find_user : ℕ → List User → Option User
find_user id = find (λ (u : User). u.id == id)

abbrev pub find_email : ℕ → List User → Option User
find_email email = find (λ (u : User). u.email == email)

abbrev pub find_school : ℕ → List School → Option School
find_school id = find (λ (s : School). s.id == id)

abbrev pub find_membership : ℕ → List Membership → Option Membership
find_membership id = find (λ (m : Membership). m.id == id)

-- `user.update({ where: { id } })`
abbrev pub update_user : ℕ → (User → User) → AuthStore → AuthStore
update_user id change s = record s {
  users = map (λ (u : User). if u.id == id then change u else u) s.users;
}

-- What a handler answers, and the rows that it leaves.
abbrev pub Action {ℓ} : Type ℓ → Type ℓ
Action A = AuthStore → Outcome A × AuthStore

-- The rest of a handler, unless it has thrown.
abbrev pub continue {ℓ κ} :
    {A : Type ℓ} {B : Type κ}
    → Outcome A × AuthStore
    → (A → AuthStore → Outcome B × AuthStore)
    → Outcome B × AuthStore
continue (throw e, s) rest = (throw e, s)
continue (ok a, s) rest = rest a s
