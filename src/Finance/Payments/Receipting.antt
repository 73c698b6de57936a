-- ===== src/Finance/Payments/Receipting.antt =====
-- `nextReceiptNumber` of src/finance/payments.service.ts on the payments of the school, and `verify`
-- when no other writer is at work.
use mathlib.Core.List.{reverse}
use edu_gear_back_end.Finance.Ledger.{PaymentStatus, pending, is_verified}
use edu_gear_back_end.Common.Members.{Has-filter}
use edu_gear_back_end.Common.{
  ◌==◌, if◌then◌else◌, ==_iff, Bool-cases, filter, any, Has, ok, ℕ, suc, ◌≤◌, ◌<◌, ◌≡◌, refl, sym,
  ap, ◌∙◌, inl, inr, Bool, true, false, not, ◌&&◌, ◌||◌, Option, some, List, [], ◌∷◌, ◌++◌, map,
  arith,
}
use edu_gear_back_end.Common.Dates.{utc_full_year}
use edu_gear_back_end.Common.Text.{Text, text_eq, text_eq_iff, occurs_in, occurs_in-append}
use edu_gear_back_end.Finance.Receipts.{
  is_line_end, digits_rev, number_text, pad_rev, format_receipt_number, next_receipt_sequence,
}
use edu_gear_back_end.Finance.Receipts.Fresh.{next_receipt_fresh}
use edu_gear_back_end.Finance.Store.{
  StudentFee, Payment, FinanceStore, find_fee, find_payment, update_fee, update_payment, matching,
  sum_of,
}
use edu_gear_back_end.Finance.Payments.{
  is_pending, recalculated, recalculate_invoice, next_receipt_number, committed, attempt_of,
  is_taken, mark_verified, verify_attempt, verify_loop, verify,
}

slashed :
    (digits tail : Text) → (b'/' ∷ digits ++ (b'/' ∷ [])) ++ tail ≡ b'/' ∷ digits ++ (b'/' ∷ tail)
slashed digits tail = ap (λ t. b'/' ∷ t) (go digits)
  where
    go : (d : Text) → (d ++ (b'/' ∷ [])) ++ tail ≡ d ++ (b'/' ∷ tail)
    go [] = refl
    go (c ∷ d) = ap (λ t. c ∷ t) (go d)

-- A formatted number contains its year between slashes.
occurs_in-format :
    (year sequence : ℕ) (prefix : Text)
    → occurs_in
        (b'/' ∷ number_text year ++ (b'/' ∷ []))
        (format_receipt_number year sequence prefix)
      ≡ true
unfolding format_receipt_number number_text
occurs_in-format year sequence prefix =
    let tail = reverse (pad_rev 6 (digits_rev (suc sequence) sequence)) in
    let digits = reverse (digits_rev (suc year) year) in
    ap (λ t. occurs_in (b'/' ∷ digits ++ (b'/' ∷ [])) (prefix ++ t)) (sym (slashed digits tail))
    ∙ occurs_in-append prefix (b'/' ∷ digits ++ (b'/' ∷ [])) tail

taken-Has :
    (id : ℕ) (number : Text) (payments : List Payment)
    → is_taken id number payments ≡ true
    → Has number (map (λ (p : Payment). p.receipt_number) payments)
taken-Has id number [] e = cc
taken-Has id number (p ∷ ps) e =
    elim (Bool-cases (not (p.id == id) && text_eq p.receipt_number number)) [
      | inl hit ↦ ground (arith, hit, text_eq_iff p.receipt_number number)
      | inr miss ↦
          inr (taken-Has id number ps (ap (λ b. b || is_taken id number ps) (sym miss) ∙ e))
    ]

-- The number that `verify` allocates is on no payment of the school, whatever its prefixes have
-- been, when the year of the payment has four digits and the prefix is one line.
pub next_receipt_number-fresh :
    (prefix : Text) (paid_at id : ℕ) (payments : List Payment)
    → 1000 ≤ utc_full_year paid_at
    → utc_full_year paid_at < 10000
    → any is_line_end prefix ≡ false
    → is_taken id (next_receipt_number prefix paid_at payments) payments ≡ false
unfolding next_receipt_number
next_receipt_number-fresh prefix paid_at id payments low high plain =
    let year = utc_full_year paid_at in
    let infix' = b'/' ∷ number_text year ++ (b'/' ∷ []) in
    let on_file = map (λ (p : Payment). p.receipt_number) payments in
    let issued = filter (occurs_in infix') on_file in
    let number = format_receipt_number year (next_receipt_sequence issued year) prefix in
    elim (Bool-cases (is_taken id number payments)) [
      | inl clash ↦ absurd (
          next_receipt_fresh issued year prefix low high plain (
            (Has-filter (occurs_in infix') on_file number).1 (
              taken-Has id number payments clash,
              occurs_in-format year (next_receipt_sequence issued year) prefix,
            )))
      | inr free ↦ free
    ]

-- What a look-up of a payment finds has the id and is matched by it.
find-matching :
    (id : ℕ) (test : PaymentStatus → Bool) (ps : List Payment) (existing : Payment)
    → find_payment id ps ≡ some existing
    → test existing.status ≡ true
    → (existing.id ≡ id) × ((matching id test ps == 0) ≡ false)
find-matching id test [] existing e good = cc
find-matching id test (p ∷ ps) existing e good = elim (Bool-cases (p.id == id)) [
  | inl hit ↦
      let it : p ≡ existing = cc (e, hit) in
      let good' : test p.status ≡ true = ap (λ (q : Payment). test q.status) it ∙ good in
      (ap (λ (q : Payment). q.id) (sym it) ∙ (==_iff p.id id).0 hit, rw (hit, good') (ground arith))
  | inr miss ↦
      let (k, m) =
        find-matching id test ps existing
          (ap (λ b. if b then some p else find_payment id ps) (sym miss) ∙ e) good in
      (k, rw miss m)
]

module _ (prefix : Text) (now : ℕ) (actor : Option ℕ) (existing : Payment) (s : FinanceStore) where
  recalculated_ok :
      (fee : StudentFee) (change : Payment → Payment)
      → find_fee existing.student_fee_id s.fees ≡ some fee
      → (s' : FinanceStore) × (recalculate_invoice existing.student_fee_id
            (update_payment existing.id is_pending change s)
          ≡ ok s')
  unfolding recalculate_invoice
  recalculated_ok fee change found =
      let written = update_payment existing.id is_pending change s in
      let total = sum_of is_verified existing.student_fee_id written.payments in
      (update_fee existing.student_fee_id (recalculated total) written, rw found refl)

  attempt-committed :
      (fee : StudentFee)
      → (matching existing.id is_pending s.payments == 0) ≡ false
      → is_taken existing.id (next_receipt_number prefix existing.paid_at s.payments) s.payments
        ≡ false
      → find_fee existing.student_fee_id s.fees ≡ some fee
      → (s' : FinanceStore) × (verify_attempt prefix now actor (λ t. t) existing s ≡ committed s')
  unfolding verify_attempt
  attempt-committed fee listed free found =
      let (s', e) =
        recalculated_ok fee
          (mark_verified (next_receipt_number prefix existing.paid_at s.payments) now actor)
          found in
      (s', rw (listed, free) (ap (attempt_of s) e))

verify_loop-committed :
    (prefix : Text) (now : ℕ) (actor : Option ℕ) (existing : Payment) (s s' : FinanceStore)
    → verify_attempt prefix now actor (λ t. t) existing s ≡ committed s'
    → (verify_loop prefix now actor 5 (λ n t. t) existing s).0 ≡ ok tt
unfolding verify_loop
verify_loop-committed prefix now actor existing s s' e = rw (e, verify_loop) refl

-- When no other writer is at work, verifying a pending payment of an invoice on file succeeds, for a
-- payment in a year of four digits and a prefix on one line.
pub verify-ok :
    (prefix : Text) (now : ℕ) (actor : Option ℕ) (id : ℕ) (s : FinanceStore) (existing : Payment)
    (fee : StudentFee)
    → find_payment id s.payments ≡ some existing
    → existing.status ≡ pending
    → find_fee existing.student_fee_id s.fees ≡ some fee
    → 1000 ≤ utc_full_year existing.paid_at
    → utc_full_year existing.paid_at < 10000
    → any is_line_end prefix ≡ false
    → (verify prefix now actor (λ n t. t) id s).0 ≡ ok tt
unfolding verify
verify-ok prefix now actor id s existing fee found waits invoiced low high plain =
    let (same_id, listed) =
      find-matching id is_pending s.payments existing found (ap is_pending waits) in
    let (s', e) =
      attempt-committed prefix now actor existing s fee (rw same_id listed)
        (next_receipt_number-fresh prefix existing.paid_at existing.id s.payments low high plain)
        invoiced in
    rw (found, verify, waits) (verify_loop-committed prefix now actor existing s s' e)
