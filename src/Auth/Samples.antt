-- ===== src/Auth/Samples.antt =====
-- A school with one member, her tokens, and the configuration of a small server.
use edu_gear_back_end.Auth.Login.Lockout.{LoginAttempt}
use edu_gear_back_end.Auth.Sessions.{AuthContext}
use edu_gear_back_end.Auth.Histories.Ending.{IsOutdated}
use edu_gear_back_end.Auth.Strategy.{owner, PlatformToken}
use edu_gear_back_end.Auth.Admission.{AdminRow}
use edu_gear_back_end.Auth.Permissions.{Route, Request}
use edu_gear_back_end.Common.{◌==◌, length, refl, true, false, none, some, List, [], ◌∷◌, arith}
use edu_gear_back_end.Common.Text.{Text, codes}
use edu_gear_back_end.Auth.Store.{
  active_user, active_member, active_school, password_reset, User, Membership, RefreshToken,
  VerificationToken, MembershipSnapshot, AuthStore,
}
use edu_gear_back_end.Auth.Access.Caching.{IsCoherent}
use edu_gear_back_end.Auth.Tokens.{AccessToken, Draw, Rotated}
use edu_gear_back_end.Auth.Tokens.Families.{HasLoneTokens}
use edu_gear_back_end.Auth.Login.{AuthConfig, LoginDto, Session}

-- A password is right when its length is the hash.
abbrev pub config : AuthConfig
config = record {
  sha256 = λ raw. raw;
  verify_password = λ hash password. hash == length password;
  hash_password = λ salt password. length password;
  to_lower_case = λ text. text;
  password_min_length = 8;
  refresh_ttl = 1000;
  max_failed_login_attempts = 2;
  account_lock_minutes = 15;
  password_reset_ttl_minutes = 30;
  email_verification_ttl_hours = 24;
}

abbrev pub ada : User
ada = record {
  id = 1;
  email = 10;
  password_hash = 3;
  status = active_user;
  email_verified_at = none;
  last_login_at = none;
  failed_login_attempts = 0;
  locked_until = none;
  token_version = 4;
}

abbrev pub membership : Membership
membership = record {
  id = 20;
  user_id = 1;
  school_id = 7;
  role_id = 2;
  status = active_member;
  is_default = true;
  created_at = 0;
}

abbrev pub token : RefreshToken
token = record {
  id = 5;
  user_id = 1;
  membership_id = some 20;
  token_hash = 50;
  family_id = 60;
  expires_at = 900;
  revoked_at = none;
}

abbrev pub link : VerificationToken
link = record {
  id = 8;
  user_id = 1;
  purpose = password_reset;
  token_hash = 70;
  expires_at = 900;
  consumed_at = none;
}

abbrev pub store : AuthStore
store = record {
  users = ada ∷ [];
  memberships = membership ∷ [];
  schools = record { id = 7; status = active_school } ∷ [];
  refresh_tokens = token ∷ [];
  verification_tokens = link ∷ [];
  roles = record { id = 2; permissions = 100 ∷ [] } ∷ [];
  cache = [];
}

abbrev pub draw : Draw
draw = record { raw = 51; row_id = 6; family = 61 }

abbrev pub draw_again : Draw
draw_again = record { raw = 52; row_id = 7; family = 62 }

abbrev pub access_token : AccessToken
access_token = record { sub = 1; mid = 20; ver = 4 }

abbrev pub snapshot : MembershipSnapshot
snapshot = record {
  membership_id = 20;
  user_id = 1;
  school_id = 7;
  school_status = active_school;
  role_id = 2;
  membership_status = active_member;
  user_status = active_user;
  token_version = 4;
  permissions = 100 ∷ [];
}

-- `login` with a password of some length.
abbrev pub dto_of : Text → LoginDto
dto_of password = record { email = 10; password = password; school_id = some 7 }

abbrev pub dto : LoginDto
dto = dto_of (1 ∷ 2 ∷ 3 ∷ [])

pub store-IsCoherent : IsCoherent store
store-IsCoherent = record { fresh = λ e h. elim h [ ] }

pub store-HasLoneTokens : HasLoneTokens store
store-HasLoneTokens = record { lone = λ family. ground arith }

pub ada-IsOutdated : IsOutdated 1 4 access_token
ada-IsOutdated = record { owner = refl; old = omega arith }

abbrev pub session : Session
session = record {
  tokens = record { access_token = access_token; refresh_token = 51 };
  user_id = 1;
  active_school = snapshot;
  memberships = record { membership_id = 20; school_id = 7; is_active = true } ∷ [];
}

abbrev pub new_password : Text
new_password = codes "Sunny-day-42"

abbrev pub first_guess : LoginAttempt
first_guess = record { at = 6; draw = draw; dto = dto_of [] }

abbrev pub second_guess : LoginAttempt
second_guess = record { at = 7; draw = draw; dto = dto_of (9 ∷ []) }

abbrev pub route : Route
route = record {
  is_public = false;
  platform_roles = none;
  allow_no_tenant = false;
  required = 100 ∷ [];
}

abbrev pub ada_context : AuthContext
ada_context = record { user_id = 1; membership_id = 20; school_id = 7; role_id = 2 }

abbrev pub school_asked : Request
school_asked = record {
  auth = some ada_context;
  membership = some snapshot;
  platform = none;
  tenant = some 7;
}

abbrev pub admins : List AdminRow
admins = record { id = 30; user_id = 1; role = owner; disabled_at = none } ∷ []

abbrev pub platform_token : PlatformToken
platform_token = record { sub = 1; pid = 30; ver = 4 }

abbrev pub platform_route : Route
platform_route = record route { platform_roles = some (owner ∷ []) }

abbrev pub platform_asked : Request
platform_asked = record {
  auth = none;
  membership = none;
  platform = some (record { user_id = 1; platform_admin_id = 30; role = owner });
  tenant = none;
}

abbrev pub renewed : Rotated
renewed = record {
  tokens = record { access_token = access_token; refresh_token = 51 };
  user_id = 1;
  membership_id = 20;
}
