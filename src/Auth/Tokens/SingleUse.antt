-- ===== src/Auth/Tokens/SingleUse.antt =====
-- Single-use tokens of src/auth/token.service.ts: links in e-mails for verification, password resets
-- and invitations.
use mathlib.Core.Path.{subst}
use edu_gear_back_end.Common.{
  leb, ==_iff, Bool-cases, is_none, count, token_invalid, token_expired, Outcome, throw, ok,
  throw_if, or_throw, >>=-eq-ok, or_throw-eq-ok, throw_if-eq-ok, ℕ, suc, ◌≡◌, refl, sym, ap, inl,
  inr, true, false, not, none, some, List, [], ◌∷◌, arith,
}
use edu_gear_back_end.Auth.Store.{
  VerificationTokenType, email_verification, password_reset, invitation, VerificationToken,
  AuthStore, same_purpose,
}
use edu_gear_back_end.Auth.Tokens.{
  Draw, is_waiting, consume_waiting, consume_id, find_link, is_for, create_verification_token,
  check_link, consume_checked, consume_verification_token,
}

module _ (sha256 : ℕ → ℕ) (refresh_ttl now : ℕ) where
  -- A link that was consumed, and the rows after it.
  pub record IsConsumption (raw : ℕ) (purpose : VerificationTokenType) (s : AuthStore)
      (r : VerificationToken) (s' : AuthStore) : Type 0 where
    pub link : VerificationToken
    pub found : find_link (sha256 raw) s.verification_tokens ≡ some link
    pub purposed : is_for purpose link ≡ true
    pub unconsumed : link.consumed_at ≡ none
    pub unexpired : leb link.expires_at now ≡ false
    pub answer : r ≡ record link { consumed_at = some now }
    pub result :
        s' ≡ record s { verification_tokens = consume_id link.id now s.verification_tokens }

  checked-IsConsumption :
      (raw : ℕ) (purpose : VerificationTokenType) (s s' : AuthStore) (r link : VerificationToken)
      → check_link sha256 refresh_ttl now raw purpose s.verification_tokens ≡ ok link
      → consume_checked sha256 refresh_ttl now (ok link) s ≡ (ok r, s')
      → IsConsumption raw purpose s r s'
  unfolding check_link
  checked-IsConsumption raw purpose s s' r link c e =
      let links = s.verification_tokens in
      let (l, e₀, e₁) = >>=-eq-ok (or_throw (find_link (sha256 raw) links) token_invalid) _ c in
      let (_, e₂, e₃) = >>=-eq-ok (throw_if (not (is_for purpose l)) token_invalid) _ e₁ in
      let (_, e₄, e₅) = >>=-eq-ok (throw_if (not (is_none l.consumed_at)) token_invalid) _ e₃ in
      let (_, e₆, e₇) = >>=-eq-ok (throw_if (leb l.expires_at now) token_expired) _ e₅ in
      let it : l ≡ link = cc e₇ in
      record {
        link = l;
        found = or_throw-eq-ok (find_link (sha256 raw) links) token_invalid e₀;
        purposed = ground (arith, throw_if-eq-ok (not (is_for purpose l)) token_invalid e₂);
        unconsumed = ground (arith, throw_if-eq-ok (not (is_none l.consumed_at)) token_invalid e₄);
        unexpired = throw_if-eq-ok (leb l.expires_at now) token_expired e₆;
        answer =
            subst (λ (q : VerificationToken). r ≡ record q { consumed_at = some now }) (sym it)
              (cc (ap (λ (p : Outcome VerificationToken × AuthStore). p.0) e));
        result =
            subst
              (λ (q : VerificationToken).
                s' ≡ record s { verification_tokens = consume_id q.id now s.verification_tokens })
              (sym it) (ap (λ (p : Outcome VerificationToken × AuthStore). p.1) (sym e));
      }

  pub consume-IsConsumption :
      (raw : ℕ) (purpose : VerificationTokenType) (s s' : AuthStore) (r : VerificationToken)
      → consume_verification_token sha256 refresh_ttl now raw purpose s ≡ (ok r, s')
      → IsConsumption raw purpose s r s'
  unfolding consume_verification_token
  consume-IsConsumption raw purpose s s' r e =
      by_check (check_link sha256 refresh_ttl now raw purpose s.verification_tokens) refl e
    where
      by_check :
          (m : Outcome VerificationToken)
          → check_link sha256 refresh_ttl now raw purpose s.verification_tokens ≡ m
          → consume_checked sha256 refresh_ttl now m s ≡ (ok r, s')
          → IsConsumption raw purpose s r s'
      by_check (throw f) c e =
          absurd (cc (ap (λ (p : Outcome VerificationToken × AuthStore). p.0) e))
      by_check (ok link) c e = checked-IsConsumption raw purpose s s' r link c e

module _ (sha256 : ℕ → ℕ) (refresh_ttl now : ℕ) where
  -- A link that is found consumed.
  pub consumed :
      (raw : ℕ) (purpose : VerificationTokenType) (s : AuthStore) (link : VerificationToken)
      → find_link (sha256 raw) s.verification_tokens ≡ some link
      → is_none link.consumed_at ≡ false
      → consume_verification_token sha256 refresh_ttl now raw purpose s ≡ (throw token_invalid, s)
  unfolding consume_verification_token check_link
  consumed raw purpose s link found dead = elim (Bool-cases (is_for purpose link)) [
    | inl it ↦ rw (found, it, dead) refl
    | inr other ↦ rw (found, other) refl
  ]

unwaiting :
    (user now : ℕ) (purpose : VerificationTokenType) (ts : List VerificationToken)
    → count (is_waiting user purpose) (consume_waiting user purpose now ts) ≡ 0
unwaiting user now purpose [] = refl
unwaiting user now purpose (t ∷ ts) = elim (Bool-cases (is_waiting user purpose t)) [
  | inl it ↦ rw it (ground (arith, unwaiting user now purpose ts))
  | inr other ↦ rw (other, other) (unwaiting user now purpose ts)
]

same_purpose_refl : (p : VerificationTokenType) → same_purpose p p ≡ true
same_purpose_refl email_verification = refl
same_purpose_refl password_reset = refl
same_purpose_refl invitation = refl

-- After a link is created, it is the only one of its user and purpose that can still be consumed: a
-- request for a new link has spent every earlier one.
pub create_verification_token-lone :
    (sha256 : ℕ → ℕ) (refresh_ttl now : ℕ) (draw : Draw) (user : ℕ)
    (purpose : VerificationTokenType) (ttl : ℕ) (s : AuthStore)
    → count
        (is_waiting user purpose)
        (create_verification_token sha256 refresh_ttl now draw user purpose ttl
          s).verification_tokens
      ≡ 1
unfolding create_verification_token
create_verification_token-lone sha256 refresh_ttl now draw user purpose ttl s =
    rw ((==_iff user user).1 refl, same_purpose_refl purpose)
      (ap suc (unwaiting user now purpose s.verification_tokens))
