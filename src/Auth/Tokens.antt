-- ===== src/Auth/Tokens.antt =====
-- src/auth/token.service.ts: refresh tokens with rotation and reuse detection, and single-use tokens.
-- SHA-256 is the parameter `sha256`; the random token, the UUIDs and the time of a call are
-- arguments; `refresh_ttl` is the configured lifetime in milliseconds. An access token is the payload
-- that is signed. The request's address and agent are not kept.
pub mod Rotating
pub mod Families
pub mod Racing
pub mod SingleUse
pub mod Spent
pub mod Revoked
use edu_gear_back_end.Common.{
  leb, ◌==◌, if◌then◌else◌, or_else, is_none, find, internal, token_invalid, token_reused,
  token_expired, Outcome, throw, ok, throw_if, or_throw, ◌>>=◌, ◌>>◌, ℕ, ◌+◌, Bool, not, ◌&&◌,
  Option, none, some, List, ◌∷◌, map,
}
use edu_gear_back_end.Auth.Store.{
  VerificationTokenType, User, RefreshToken, VerificationToken, AuthStore, same_purpose, find_user,
  Action,
}

-- `AccessTokenPayload`
pub record AccessToken : Type 0 where
  pub sub : ℕ
  pub mid : ℕ
  pub ver : ℕ

pub record IssuedTokens : Type 0 where
  pub access_token : AccessToken
  pub refresh_token : ℕ

-- What a call draws: a random token, the id of its row, and a family's id.
pub record Draw : Type 0 where
  pub raw : ℕ
  pub row_id : ℕ
  pub family : ℕ

abbrev pub is_unrevoked : RefreshToken → Bool
is_unrevoked t = is_none t.revoked_at

-- `updateMany({ where: { …, revokedAt: null }, data: { revokedAt: now } })`
abbrev pub revoke_where : (RefreshToken → Bool) → ℕ → List RefreshToken → List RefreshToken
revoke_where test now = map (λ (t : RefreshToken).
    if test t && is_unrevoked t then record t { revoked_at = some now } else t)

-- `update({ where: { id }, data: { revokedAt: now } })`
abbrev pub revoke_id : ℕ → ℕ → List RefreshToken → List RefreshToken
revoke_id id now =
    map (λ (t : RefreshToken). if t.id == id then record t { revoked_at = some now } else t)

abbrev pub revoke_family : ℕ → ℕ → AuthStore → AuthStore
revoke_family family now s = record s {
  refresh_tokens = revoke_where (λ (t : RefreshToken). t.family_id == family) now s.refresh_tokens;
}

abbrev pub revoke_all_for_user : ℕ → ℕ → AuthStore → AuthStore
revoke_all_for_user user now s = record s {
  refresh_tokens = revoke_where (λ (t : RefreshToken). t.user_id == user) now s.refresh_tokens;
}

-- `consumedAt: null` of a user and a purpose.
abbrev pub is_waiting : ℕ → VerificationTokenType → VerificationToken → Bool
is_waiting user purpose t =
    t.user_id == user && same_purpose t.purpose purpose && is_none t.consumed_at

abbrev pub consume_waiting :
    ℕ → VerificationTokenType → ℕ → List VerificationToken → List VerificationToken
consume_waiting user purpose now = map (λ (t : VerificationToken).
    if is_waiting user purpose t then record t { consumed_at = some now } else t)

abbrev pub consume_id : ℕ → ℕ → List VerificationToken → List VerificationToken
consume_id id now =
    map (λ (t : VerificationToken). if t.id == id then record t { consumed_at = some now } else t)

abbrev pub store_token : RefreshToken → AuthStore → AuthStore
store_token t s = record s { refresh_tokens = t ∷ s.refresh_tokens }

abbrev pub find_hash : ℕ → List RefreshToken → Option RefreshToken
find_hash hash = find (λ (t : RefreshToken). t.token_hash == hash)

abbrev pub or_membership : Option ℕ → Option ℕ → Option ℕ
or_membership none stored = stored
or_membership (some membership) stored = some membership

abbrev pub find_link : ℕ → List VerificationToken → Option VerificationToken
find_link hash = find (λ (t : VerificationToken). t.token_hash == hash)

abbrev pub is_for : VerificationTokenType → VerificationToken → Bool
is_for purpose t = same_purpose t.purpose purpose

-- What `rotateRefreshToken` returns.
pub record Rotated : Type 0 where
  pub tokens : IssuedTokens
  pub user_id : ℕ
  pub membership_id : ℕ

module _ (sha256 : ℕ → ℕ) (refresh_ttl now : ℕ) where
  -- The row that `issueTokens` creates; `familyId ?? randomUUID()` is `family`.
  abbrev pub new_refresh_token : Draw → ℕ → Option ℕ → ℕ → RefreshToken
  new_refresh_token draw user membership family = record {
    id = draw.row_id;
    user_id = user;
    membership_id = membership;
    token_hash = sha256 draw.raw;
    family_id = family;
    expires_at = now + refresh_ttl;
    revoked_at = none;
  }

  -- `issueTokens`
  unfoldable pub issue_tokens : Draw → ℕ → ℕ → ℕ → Option ℕ → AuthStore → IssuedTokens × AuthStore
  issue_tokens draw user membership version family s = (
    record {
      access_token = record { sub = user; mid = membership; ver = version };
      refresh_token = draw.raw;
    },
    store_token (new_refresh_token draw user (some membership) (or_else family draw.family)) s,
  )

  -- The row of `issuePlatformTokens`, which carries no membership.
  unfoldable pub issue_platform_tokens : Draw → ℕ → AuthStore → AuthStore
  issue_platform_tokens draw user = store_token (new_refresh_token draw user none draw.family)

  -- The rotation of a token that may be used, to the membership chosen.
  unfoldable pub rotate_into : Draw → RefreshToken → User → Option ℕ → Action Rotated
  unfolding issue_tokens
  rotate_into draw stored user none s = (throw token_invalid, s)
  rotate_into draw stored user (some membership) s =
      let (tokens, s') =
        issue_tokens draw stored.user_id membership user.token_version (some stored.family_id) s in
      (
        ok (record { tokens = tokens; user_id = stored.user_id; membership_id = membership }),
        record s' { refresh_tokens = revoke_id stored.id now s'.refresh_tokens },
      )

  -- What `rotateRefreshToken` does once it has read the token and its user.
  unfoldable pub rotate_stored : Draw → Option ℕ → RefreshToken → User → Action Rotated
  unfolding rotate_into
  rotate_stored draw override stored user s =
      if not (is_unrevoked stored)
      then (throw token_reused, revoke_family stored.family_id now s)
      else if leb stored.expires_at now
      then (throw token_expired, s)
      else rotate_into draw stored user (or_membership override stored.membership_id) s

  -- The read: the token by its hash, with its user.
  unfoldable pub read_token : ℕ → AuthStore → Outcome (RefreshToken × User)
  read_token raw s = do
    stored ← or_throw (find_hash (sha256 raw) s.refresh_tokens) token_invalid
    user ← or_throw (find_user stored.user_id s.users) internal
    ok (stored, user)

  abbrev pub rotate_read :
      Draw → Option ℕ → Outcome (RefreshToken × User) → AuthStore → Outcome Rotated × AuthStore
  rotate_read draw override (throw e) s = (throw e, s)
  rotate_read draw override (ok (stored, user)) s = rotate_stored draw override stored user s

  -- `rotateRefreshToken`
  unfoldable pub rotate_refresh_token : Draw → ℕ → Option ℕ → Action Rotated
  unfolding rotate_stored read_token
  rotate_refresh_token draw raw override s = rotate_read draw override (read_token raw s) s

  unfoldable pub revoke_refresh_token : ℕ → AuthStore → AuthStore
  revoke_refresh_token raw s = record s {
    refresh_tokens =
        revoke_where (λ (t : RefreshToken). t.token_hash == sha256 raw) now s.refresh_tokens;
  }

  unfoldable pub create_verification_token :
      Draw → ℕ → VerificationTokenType → ℕ → AuthStore → AuthStore
  create_verification_token draw user purpose ttl s = record s {
    verification_tokens =
        record {
          id = draw.row_id;
          user_id = user;
          purpose = purpose;
          token_hash = sha256 draw.raw;
          expires_at = now + ttl;
          consumed_at = none;
        }
        ∷ consume_waiting user purpose now s.verification_tokens;
  }

  -- The checks of `consumeVerificationToken`.
  unfoldable pub check_link :
      ℕ → VerificationTokenType → List VerificationToken → Outcome VerificationToken
  check_link raw purpose links = do
    link ← or_throw (find_link (sha256 raw) links) token_invalid
    throw_if (not (is_for purpose link)) token_invalid
    throw_if (not (is_none link.consumed_at)) token_invalid
    throw_if (leb link.expires_at now) token_expired
    ok link

  abbrev pub consume_checked :
      Outcome VerificationToken → AuthStore → Outcome VerificationToken × AuthStore
  consume_checked (throw e) s = (throw e, s)
  consume_checked (ok link) s = (
    ok (record link { consumed_at = some now }),
    record s { verification_tokens = consume_id link.id now s.verification_tokens },
  )

  unfoldable pub consume_verification_token : ℕ → VerificationTokenType → Action VerificationToken
  unfolding check_link
  consume_verification_token raw purpose s =
      consume_checked (check_link raw purpose s.verification_tokens) s
