-- ===== src/Finance/Payments/Recording.antt =====
-- `record` of src/finance/payments.service.ts: the ceiling on what an invoice can be promised.
use edu_gear_back_end.Finance.Ledger.{PaymentStatus, pending, is_cancelled, is_waived, is_verified}
use edu_gear_back_end.Common.Text.{Text}
use mathlib.Core.Path.{subst}
use edu_gear_back_end.Common.{
  ◌==◌, ==_iff, ==_refl, Bool-cases, same, find, Has, bad_request, not_found, conflict, ok,
  throw_if, or_throw, >>=-eq-ok, or_throw-eq-ok, throw_if-eq-ok, ℕ, ◌≡◌, refl, sym, ap, ◌∙◌, inl,
  inr, Bool, false, not, ◌||◌, Option, none, some, List, ◌∷◌, arith,
}
use edu_gear_back_end.Common.Int.{ℤ, pos, ◌+ℤ◌, ◌-ℤ◌, ◌≤ℤ◌, ltb_ℤ, int_laws}
use edu_gear_back_end.Finance.FeeMath.{payable}
use edu_gear_back_end.Finance.Store.{
  StudentFee, Payment, FinanceStore, find_fee, find_payment, sum_of,
}
use edu_gear_back_end.Finance.Payments.{
  is_pending, RecordPaymentDto, belongs, attach_to_payment, outstanding, new_payment,
  record_payment,
}
use edu_gear_back_end.Finance.Payments.Consistent.{IsConsistent, share, sum_of-sum_ℤ}

-- What is paid on an invoice, and what is promised and waits for verification.
abbrev pub committed_on : StudentFee → List Payment → ℤ
committed_on fee payments = fee.amounts.amount_paid +ℤ sum_of is_pending fee.id payments

attach_same :
    (evidence : Option ℕ) (id student_id : ℕ) (s s' : FinanceStore)
    → attach_to_payment evidence id student_id s ≡ ok s'
    → (s'.fees ≡ s.fees) × (s'.payments ≡ s.payments)
unfolding attach_to_payment
attach_same none id student_id s s' e = ground arith
attach_same (some file_id) id student_id s s' e =
    let (file, _, e₁) =
      >>=-eq-ok (or_throw (find (λ f. f.id == file_id) s.files) bad_request) _ e in
    let (_, _, e₂) = >>=-eq-ok (throw_if (not (belongs student_id file)) bad_request) _ e₁ in
    ground arith

-- What a recording that went through has found and written.
pub record Recorded (id : ℕ) (placeholder : Text) (actor : Option ℕ) (dto : RecordPaymentDto)
    (s s' : FinanceStore) : Type 0 where
  pub fee : StudentFee
  pub found : find_fee dto.student_fee_id s.fees ≡ some fee
  pub enough : dto.amount ≤ℤ outstanding fee s.payments
  pub fees : s'.fees ≡ s.fees
  pub payments : s'.payments ≡ new_payment id placeholder actor dto fee ∷ s.payments

module _ (id : ℕ) (placeholder : Text) (actor : Option ℕ) (dto : RecordPaymentDto)
    (s s' : FinanceStore) where
  pub record_payment-Recorded :
      record_payment id placeholder actor dto s ≡ ok s' → Recorded id placeholder actor dto s s'
  unfolding record_payment
  record_payment-Recorded e =
      let (fee, e₀, e₁) = >>=-eq-ok (or_throw (find_fee dto.student_fee_id s.fees) not_found) _ e in
      let closed = is_cancelled fee.status || is_waived fee.status in
      let (_, _, e₂) = >>=-eq-ok (throw_if closed conflict) _ e₁ in
      let short = ltb_ℤ (outstanding fee s.payments) dto.amount in
      let (_, e₃, e₄) = >>=-eq-ok (throw_if short bad_request) _ e₂ in
      let covered = throw_if-eq-ok short bad_request e₃ in
      let created = new_payment id placeholder actor dto fee in
      let (fees, payments) =
        attach_same dto.evidence id fee.student_id (record s { payments = created ∷ s.payments }) s'
          e₄ in
      record {
        fee = fee;
        found = or_throw-eq-ok (find_fee dto.student_fee_id s.fees) not_found e₀;
        enough = not_less (outstanding fee s.payments) dto.amount covered;
        fees = fees;
        payments = payments;
      }
    where
      not_less : (a b : ℤ) → ltb_ℤ a b ≡ false → b ≤ℤ a
      not_less a b h = ground arith

-- A payment that is not verified adds nothing to the verified ones; a pending one adds its amount.
sum_of-new :
    (test : PaymentStatus → Bool) (fee_id : ℕ) (p : Payment) (ps : List Payment)
    → sum_of test fee_id (p ∷ ps) ≡ share test fee_id p +ℤ sum_of test fee_id ps
sum_of-new test fee_id p ps =
    sum_of-sum_ℤ test fee_id (p ∷ ps)
    ∙ ap (λ t. share test fee_id p +ℤ t) (sym (sum_of-sum_ℤ test fee_id ps))

ceiling :
    (paid pending_sum amount due : ℤ)
    → amount ≤ℤ due -ℤ (paid +ℤ pending_sum)
    → paid +ℤ (amount +ℤ pending_sum) ≤ℤ due
ceiling p q a d h = omega int_laws

outstanding_lem :
    (fee : StudentFee) (ps : List Payment)
    → outstanding fee ps ≡ payable fee.amounts -ℤ committed_on fee ps
unfolding outstanding
outstanding_lem fee ps = refl

module _ (id : ℕ) (placeholder : Text) (actor : Option ℕ) (dto : RecordPaymentDto)
    (s s' : FinanceStore) where
  -- After a payment is recorded, what is paid on its invoice and what waits for verification, the
  -- new payment included, is no more than the invoice is payable for.
  pub record_payment-committed :
      (fee : StudentFee)
      → find_fee dto.student_fee_id s.fees ≡ some fee
      → record_payment id placeholder actor dto s ≡ ok s'
      → committed_on fee s'.payments ≤ℤ payable fee.amounts
  record_payment-committed fee found e =
      let r = record_payment-Recorded id placeholder actor dto s s' e in
      let created = new_payment id placeholder actor dto r.fee in
      let same : r.fee ≡ fee = cc (found, r.found) in
      let added : sum_of is_pending r.fee.id s'.payments
          ≡ dto.amount +ℤ sum_of is_pending r.fee.id s.payments =
        ap (sum_of is_pending r.fee.id) r.payments
        ∙ sum_of-new is_pending r.fee.id created s.payments
        ∙ ap (λ t. t +ℤ sum_of is_pending r.fee.id s.payments) (own_share r.fee) in
      let enough = subst (λ t. dto.amount ≤ℤ t) (outstanding_lem r.fee s.payments) r.enough in
      let bound =
        ceiling r.fee.amounts.amount_paid (sum_of is_pending r.fee.id s.payments) dto.amount
          (payable r.fee.amounts) enough in
      subst (λ (f : StudentFee). committed_on f s'.payments ≤ℤ payable f.amounts) same
        (subst (λ t. r.fee.amounts.amount_paid +ℤ t ≤ℤ payable r.fee.amounts) (sym added) bound)
    where
      own_share :
          (f : StudentFee)
          → share is_pending f.id (new_payment id placeholder actor dto f) ≡ dto.amount
      own_share f = rw (==_refl f.id)

  find_new :
      (created p : Payment)
      → find_payment created.id s.payments ≡ none
      → IsConsistent s
      → Has p (created ∷ s.payments)
      → find_payment p.id (created ∷ s.payments) ≡ some p
  find_new created p fresh c (inl e) = rw (e, ==_refl created.id)
  find_new created p fresh c (inr h) = elim (Bool-cases (created.id == p.id)) [
    | inr other ↦ rw other (c.keyed p h)
    | inl same ↦
        let clash = ap (λ k. find_payment k s.payments) ((==_iff created.id p.id).0 same) in
        absurd (cc (clash, fresh, c.keyed p h))
  ]

  unverified :
      (p : Payment) (k : ℕ)
      → p.status ≡ pending
      → sum_of is_verified k (p ∷ s.payments) ≡ sum_of is_verified k s.payments
  unverified p k e =
      sum_of-new is_verified k p s.payments
      ∙ ap (λ t. t +ℤ sum_of is_verified k s.payments) (nothing p k e)
      ∙ zero_add (sum_of is_verified k s.payments)
    where
      nothing : (q : Payment) (j : ℕ) → q.status ≡ pending → share is_verified j q ≡ pos 0
      nothing q j h = ground arith

      zero_add : (a : ℤ) → pos 0 +ℤ a ≡ a
      zero_add a = omega int_laws

  -- A recorded payment, whose id is new, moves no money: the rows stay consistent.
  pub record_payment-IsConsistent :
      find_payment id s.payments ≡ none
      → IsConsistent s
      → record_payment id placeholder actor dto s ≡ ok s'
      → IsConsistent s'
  record_payment-IsConsistent fresh c e =
      let r = record_payment-Recorded id placeholder actor dto s s' e in
      let created = new_payment id placeholder actor dto r.fee in
      record {
        keyed = λ p h. rw r.payments (find_new created p fresh c (subst (Has p) r.payments h));
        fees_keyed = λ f h. rw r.fees (c.fees_keyed f (subst (Has f) r.fees h));
        paid = λ f h.
            c.paid f (subst (Has f) r.fees h)
            ∙ sym (ap (sum_of is_verified f.id) r.payments ∙ unverified created f.id refl);
        status = λ f h. c.status f (subst (Has f) r.fees h);
      }
