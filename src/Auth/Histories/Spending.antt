-- ===== src/Auth/Histories/Spending.antt =====
-- `consumeVerificationToken` of src/auth/token.service.ts after a link was consumed, along any later
-- history of the handlers of src/auth/auth.service.ts. No handler removes a link or makes one that was
-- consumed wait again.
use edu_gear_back_end.Common.{
  ◌==◌, count, token_invalid, Outcome, throw, ok, ℕ, ◌≤◌, ◌≡◌, refl, sym, ap, ◌∙◌, arith,
}
use edu_gear_back_end.Auth.Store.{
  VerificationTokenType, email_verification, password_reset, VerificationToken, AuthStore,
}
use edu_gear_back_end.Auth.Access.Caching.{get-keeps}
use edu_gear_back_end.Auth.Tokens.{is_waiting, consume_waiting, consume_verification_token}
use edu_gear_back_end.Auth.Tokens.Spent.{
  has_hash, is_spent, spent-map, count-new-le, find_link-spent, consume-spent_count,
}
use edu_gear_back_end.Auth.Tokens.SingleUse.{consume-IsConsumption, consumed}
use edu_gear_back_end.Auth.Login.{AuthConfig}
use edu_gear_back_end.Common.Text.{Text}
use edu_gear_back_end.Auth.Passwords.{assert_meets_policy}
use edu_gear_back_end.Auth.Sessions.{
  reset_consumed, reset_allowed, reset_password, verify_consumed, verify_email,
}
use edu_gear_back_end.Auth.Writes.{
  Write, issued, rotated, unrefreshed, linked, spent, kept_user, bumped, looked_up, forgotten,
  Writes, nothing, then,
}
use edu_gear_back_end.Auth.Histories.{Reach, Reach-Writes}

-- The consumed links with a hash.
abbrev spent_count : ℕ → AuthStore → ℕ
spent_count hash s = count (is_spent hash) s.verification_tokens

same_links :
    (hash : ℕ) (s s' : AuthStore)
    → s'.verification_tokens ≡ s.verification_tokens
    → spent_count hash s ≤ spent_count hash s'
same_links hash s s' e = omega (arith, ap (count (is_spent hash)) e)

Write-spent_count :
    {s s' : AuthStore} (hash : ℕ) → Write s s' → spent_count hash s ≤ spent_count hash s'
Write-spent_count {s} {s'} hash (issued t new e) =
    same_links hash s s' (ap (λ (x : AuthStore). x.verification_tokens) e)
Write-spent_count {s} {s'} hash (rotated keeps tokens e) =
    same_links hash s s' (ap (λ (x : AuthStore). x.verification_tokens) e)
Write-spent_count {s} {s'} hash (unrefreshed test now e) =
    same_links hash s s' (ap (λ (x : AuthStore). x.verification_tokens) e)
Write-spent_count {s} {s'} hash (linked link user purpose now e) = omega (
  arith,
  ap (spent_count hash) e,
  spent-map hash now (is_waiting user purpose) s.verification_tokens,
  count-new-le (is_spent hash) link (consume_waiting user purpose now s.verification_tokens),
)
Write-spent_count {s} {s'} hash (spent id now e) =
    omega
      (arith, ap (spent_count hash) e, spent-map hash now (λ t. t.id == id) s.verification_tokens)
Write-spent_count {s} {s'} hash (kept_user user f quiet e) =
    same_links hash s s' (ap (λ (x : AuthStore). x.verification_tokens) e)
Write-spent_count {s} {s'} hash (bumped user now f bump e) =
    same_links hash s s' (ap (λ (x : AuthStore). x.verification_tokens) e)
Write-spent_count {s} {s'} hash (looked_up now id e) =
    same_links hash s s' (ap (λ (x : AuthStore). x.verification_tokens) (e ∙ get-keeps now id s))
Write-spent_count {s} {s'} hash (forgotten kept e) =
    same_links hash s s' (ap (λ (x : AuthStore). x.verification_tokens) e)

Writes-spent_count :
    {s s' : AuthStore} (hash : ℕ) → Writes s s' → spent_count hash s ≤ spent_count hash s'
Writes-spent_count hash nothing = omega arith
Writes-spent_count hash (then ws w) =
    omega (arith, Writes-spent_count hash ws, Write-spent_count hash w)

-- A call that consumes a link: by itself, for a password or for an address.
pub data Consumes (c : AuthConfig) (raw : ℕ) (s s' : AuthStore) : Type 0 where
  by_itself :
      (now : ℕ) (purpose : VerificationTokenType) (r : VerificationToken)
      → consume_verification_token c.sha256 c.refresh_ttl now raw purpose s ≡ (ok r, s')
      → Consumes c raw s s'
  by_reset :
      (now salt : ℕ) (password : Text)
      → reset_password c now salt raw password s ≡ (ok tt, s')
      → Consumes c raw s s'
  by_verification : (now : ℕ) → verify_email c now raw s ≡ (ok tt, s') → Consumes c raw s s'

module _ (c : AuthConfig) (raw : ℕ) (s s' : AuthStore) where
  consume-spent :
      (now : ℕ) (purpose : VerificationTokenType) (r : VerificationToken) (t : AuthStore)
      → consume_verification_token c.sha256 c.refresh_ttl now raw purpose s ≡ (ok r, t)
      → s'.verification_tokens ≡ t.verification_tokens
      → 1 ≤ spent_count (c.sha256 raw) s'
  consume-spent now purpose r t e same_rows =
      let k = consume-IsConsumption c.sha256 c.refresh_ttl now raw purpose s t r e in
      omega (
        arith,
        consume-spent_count now (c.sha256 raw) s.verification_tokens k.link k.found,
        ap (spent_count (c.sha256 raw)) k.result,
        ap (count (is_spent (c.sha256 raw))) same_rows,
      )

  reset-spent :
      (now salt : ℕ) (password : Text)
      → reset_password c now salt raw password s ≡ (ok tt, s')
      → 1 ≤ spent_count (c.sha256 raw) s'
  unfolding reset_password
  reset-spent now salt password e =
      by_policy (assert_meets_policy c.to_lower_case c.password_min_length password) e
    where
      by_link :
          (x : Outcome VerificationToken × AuthStore)
          → consume_verification_token c.sha256 c.refresh_ttl now raw password_reset s ≡ x
          → reset_consumed c now salt password x ≡ (ok tt, s')
          → 1 ≤ spent_count (c.sha256 raw) s'
      by_link (throw g, t) link_consumed e =
          absurd (cc (ap (λ (p : Outcome (Unit {0}) × AuthStore). p.0) e))
      by_link (ok r, t) link_consumed e =
          consume-spent now password_reset r t link_consumed
            (ap (λ (p : Outcome (Unit {0}) × AuthStore). p.1.verification_tokens) (sym e))

      by_policy :
          (m : Outcome (Unit {0}))
          → reset_allowed c now salt raw password m s ≡ (ok tt, s')
          → 1 ≤ spent_count (c.sha256 raw) s'
      by_policy (throw g) e = absurd (cc (ap (λ (p : Outcome (Unit {0}) × AuthStore). p.0) e))
      by_policy (ok done) e =
          by_link (consume_verification_token c.sha256 c.refresh_ttl now raw password_reset s) refl
            e

  verify-spent :
      (now : ℕ) → verify_email c now raw s ≡ (ok tt, s') → 1 ≤ spent_count (c.sha256 raw) s'
  unfolding verify_email
  verify-spent now e =
      by_link (consume_verification_token c.sha256 c.refresh_ttl now raw email_verification s) refl
        e
    where
      by_link :
          (x : Outcome VerificationToken × AuthStore)
          → consume_verification_token c.sha256 c.refresh_ttl now raw email_verification s ≡ x
          → verify_consumed c now x ≡ (ok tt, s')
          → 1 ≤ spent_count (c.sha256 raw) s'
      by_link (throw g, t) link_consumed e =
          absurd (cc (ap (λ (p : Outcome (Unit {0}) × AuthStore). p.0) e))
      by_link (ok r, t) link_consumed e =
          consume-spent now email_verification r t link_consumed
            (ap (λ (p : Outcome (Unit {0}) × AuthStore). p.1.verification_tokens) (sym e))

  Consumes-spent : Consumes c raw s s' → 1 ≤ spent_count (c.sha256 raw) s'
  Consumes-spent (by_itself now purpose r e) = consume-spent now purpose r s' e refl
  Consumes-spent (by_reset now salt password e) = reset-spent now salt password e
  Consumes-spent (by_verification now e) = verify-spent now e

verify_email-refused :
    (c : AuthConfig) (now raw : ℕ) (s : AuthStore)
    → consume_verification_token c.sha256 c.refresh_ttl now raw email_verification s
      ≡ (throw token_invalid, s)
    → verify_email c now raw s ≡ (throw token_invalid, s)
unfolding verify_email
verify_email-refused c now raw s e = rw e refl

reset_password-refused :
    (c : AuthConfig) (now salt raw : ℕ) (password : Text) (s : AuthStore)
    → assert_meets_policy c.to_lower_case c.password_min_length password ≡ ok tt
    → consume_verification_token c.sha256 c.refresh_ttl now raw password_reset s
      ≡ (throw token_invalid, s)
    → reset_password c now salt raw password s ≡ (throw token_invalid, s)
unfolding reset_password
reset_password-refused c now salt raw password s allowed e = rw (allowed, e) refl

-- After a link has been consumed, by itself, by a password reset or by the verification of an address,
-- and any later history of the handlers, one at a time, in rows where no two links have its hash (a
-- unique column), the link is refused as an invalid one at whatever time it is presented and for
-- whatever purpose, a reset to a password that meets the policy and a verification included, and the
-- refusal writes nothing.
pub consume-twice :
    (c : AuthConfig) (raw : ℕ) (s s' s'' : AuthStore)
    → Consumes c raw s s'
    → Reach c s' s''
    → count (has_hash (c.sha256 raw)) s''.verification_tokens ≤ 1
    → (later salt : ℕ) (purpose : VerificationTokenType) (password : Text)
    → assert_meets_policy c.to_lower_case c.password_min_length password ≡ ok tt
    → (consume_verification_token c.sha256 c.refresh_ttl later raw purpose s''
        ≡ (throw token_invalid, s''))
      × (reset_password c later salt raw password s'' ≡ (throw token_invalid, s''))
      × (verify_email c later raw s'' ≡ (throw token_invalid, s''))
consume-twice c raw s s' s'' call history unique later salt purpose password allowed =
    let still : 1 ≤ spent_count (c.sha256 raw) s'' = omega (
      arith,
      Consumes-spent c raw s s' call,
      Writes-spent_count (c.sha256 raw) (Reach-Writes history),
    ) in
    let (link, found, dead) = find_link-spent (c.sha256 raw) s''.verification_tokens still unique in
    let refused : (p : VerificationTokenType)
        → consume_verification_token c.sha256 c.refresh_ttl later raw p s''
          ≡ (throw token_invalid, s'') =
      λ p. consumed c.sha256 c.refresh_ttl later raw p s'' link found dead in
    (
      refused purpose,
      reset_password-refused c later salt raw password s'' allowed (refused password_reset),
      verify_email-refused c later raw s'' (refused email_verification),
    )
