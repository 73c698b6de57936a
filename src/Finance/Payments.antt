-- ===== src/Finance/Payments.antt =====
-- src/finance/payments.service.ts: recording, verifying and rejecting payments. An actor is the
-- membership of `RequestContext.getAuth()`; `now` is the instant of `new Date()`.
-- Notifications and DTOs, built after the commit, are left out.
pub mod Consistent
pub mod Verifying
pub mod Recording
pub mod Receipting
use edu_gear_back_end.Common.{
  ◌==◌, if◌then◌else◌, filter, any, find, Fault, bad_request, not_found, conflict, Outcome, ok,
  throw, ◌>>=◌, ◌>>◌, throw_if, or_throw, ℕ, zero, suc, Bool, true, false, not, ◌&&◌, ◌||◌, Option,
  none, some, List, [], ◌∷◌, ◌++◌, map,
}
use edu_gear_back_end.Common.Int.{ℤ, ◌+ℤ◌, ◌-ℤ◌, ltb_ℤ}
use edu_gear_back_end.Common.Text.{Text, text_eq, occurs_in}
use edu_gear_back_end.Common.Dates.{utc_full_year}
use edu_gear_back_end.Finance.FeeMath.{payable, derive_status}
use edu_gear_back_end.Finance.Ledger.{
  PaymentStatus, pending, verified, rejected, is_cancelled, is_waived, is_verified,
}
use edu_gear_back_end.Finance.Receipts.{number_text, format_receipt_number, next_receipt_sequence}
use edu_gear_back_end.Finance.Store.{
  StudentFee, Payment, LinkedType, to_student, to_payment, FileObject, FinanceStore, find_fee,
  find_payment, update_fee, update_payment, matching, sum_of,
}

abbrev pub is_pending : PaymentStatus → Bool
is_pending pending = true
is_pending _ = false

abbrev pub is_rejected : PaymentStatus → Bool
is_rejected rejected = true
is_rejected _ = false

-- `{ not: PaymentStatus.REJECTED }`
abbrev pub is_live : PaymentStatus → Bool
is_live status = not (is_rejected status)

-- `RecordPaymentDto`, with the id that `idFromUrl` reads from the evidence URL.
pub record RecordPaymentDto : Type 0 where
  pub student_fee_id : ℕ
  pub amount : ℤ
  pub method : Text
  pub evidence : Option ℕ
  pub paid_at : ℕ

-- `FilesService.attachToPayment` (src/files/files.service.ts).
-- `linkedType === 'Student' && linkedId !== studentId`
abbrev pub is_of_another : ℕ → Option LinkedType → Option ℕ → Bool
is_of_another student_id (some to_student) (some id) = not (id == student_id)
is_of_another student_id (some to_student) none = true
is_of_another student_id _ linked_id = false

abbrev pub belongs : ℕ → FileObject → Bool
belongs student_id file =
    file.is_payment_evidence && not (is_of_another student_id file.linked_type file.linked_id)

abbrev link_file : ℕ → ℕ → FileObject → FileObject
link_file id payment_id file =
    if file.id == id
    then record file { linked_type = some to_payment; linked_id = some payment_id }
    else file

unfoldable pub attach_to_payment : Option ℕ → ℕ → ℕ → FinanceStore → Outcome FinanceStore
attach_to_payment none payment_id student_id s = ok s
attach_to_payment (some id) payment_id student_id s = do
  file ← or_throw (find (λ (f : FileObject). f.id == id) s.files) bad_request
  throw_if (not (belongs student_id file)) bad_request
  ok (record s { files = map (link_file id payment_id) s.files })

-- `assertNotOverpaying`: pending payments count toward the ceiling.
unfoldable pub outstanding : StudentFee → List Payment → ℤ
unfolding payable sum_of
outstanding invoice payments =
    let committed = invoice.amounts.amount_paid +ℤ sum_of is_pending invoice.id payments in
    payable invoice.amounts -ℤ committed

-- The row that `record` creates; `id` and `placeholder` are fresh UUIDs.
abbrev pub new_payment : ℕ → Text → Option ℕ → RecordPaymentDto → StudentFee → Payment
new_payment id placeholder actor dto invoice = record {
  id = id;
  student_fee_id = invoice.id;
  student_id = invoice.student_id;
  receipt_number = placeholder;
  amount = dto.amount;
  method = dto.method;
  evidence = dto.evidence;
  paid_at = dto.paid_at;
  recorded_by = actor;
  status = pending;
  verified_at = none;
  verified_by = none;
  rejection_reason = none;
}

unfoldable pub record_payment :
    ℕ → Text → Option ℕ → RecordPaymentDto → FinanceStore → Outcome FinanceStore
unfolding outstanding attach_to_payment
record_payment id placeholder actor dto s = do
  invoice ← or_throw (find_fee dto.student_fee_id s.fees) not_found
  throw_if (is_cancelled invoice.status || is_waived invoice.status) conflict
  throw_if (ltb_ℤ (outstanding invoice s.payments) dto.amount) bad_request
  let created = new_payment id placeholder actor dto invoice
  attach_to_payment dto.evidence id invoice.student_id
      (record s { payments = created ∷ s.payments })

-- `recalculateInvoice`: an invoice is rebuilt from its verified payments.
abbrev pub recalculated : ℤ → StudentFee → StudentFee
recalculated amount_paid invoice =
    let amounts = record (invoice.amounts) { amount_paid = amount_paid } in
    record invoice { amounts = amounts; status = derive_status amounts (some invoice.status) }

unfoldable pub recalculate_invoice : ℕ → FinanceStore → Outcome FinanceStore
unfolding derive_status sum_of
recalculate_invoice id s = do
  invoice ← or_throw (find_fee id s.fees) not_found
  ok (update_fee id (recalculated (sum_of is_verified id s.payments)) s)

-- The numbers on file for the year, whatever their prefix.
unfoldable pub next_receipt_number : Text → ℕ → List Payment → Text
unfolding next_receipt_sequence format_receipt_number occurs_in number_text utc_full_year
next_receipt_number prefix paid_at payments =
    let year = utc_full_year paid_at in
    let infix' = b'/' ∷ number_text year ++ (b'/' ∷ []) in
    let issued = filter (occurs_in infix') (map (λ (p : Payment). p.receipt_number) payments) in
    format_receipt_number year (next_receipt_sequence issued year) prefix

-- How one transaction of `verify` ends: committed, or rolled back by a clash of receipt numbers or
-- by an exception. Each leaves the rows at what others have committed.
pub data Attempt : Type 0 where
  committed : FinanceStore → Attempt
  unique_violation : FinanceStore → Attempt
  aborted : Fault → FinanceStore → Attempt

abbrev pub attempt_of : FinanceStore → Outcome FinanceStore → Attempt
attempt_of s (ok s') = committed s'
attempt_of s (throw e) = aborted e s

-- The unique index on the school's receipt numbers.
abbrev pub is_taken : ℕ → Text → List Payment → Bool
is_taken id number = any (λ (p : Payment). not (p.id == id) && text_eq p.receipt_number number)

abbrev pub mark_verified : Text → ℕ → Option ℕ → Payment → Payment
mark_verified number now actor p = record p {
  status = verified;
  receipt_number = number;
  verified_at = some now;
  verified_by = actor;
  rejection_reason = none;
}

abbrev pub mark_rejected : Text → ℕ → Option ℕ → Payment → Payment
mark_rejected reason now actor p = record p {
  status = rejected;
  rejection_reason = some reason;
  verified_by = actor;
  verified_at = some now;
}

module _ (prefix : Text) (now : ℕ) (actor : Option ℕ) where
  -- One transaction; `others` is what other writers commit between its read of the receipt numbers
  -- and its write.
  unfoldable pub verify_attempt : (FinanceStore → FinanceStore) → Payment → FinanceStore → Attempt
  unfolding recalculate_invoice next_receipt_number
  verify_attempt others existing s =
      let number = next_receipt_number prefix existing.paid_at s.payments in
      let s' = others s in
      let written = update_payment existing.id is_pending (mark_verified number now actor) s' in
      if matching existing.id is_pending s'.payments == 0
      then aborted conflict s'
      else if is_taken existing.id number s'.payments
      then unique_violation s'
      else attempt_of s' (recalculate_invoice existing.student_fee_id written)

  -- The loop over the attempts left; `others n` stands for the n-th attempt from the end.
  unfoldable pub verify_loop :
      ℕ
      → (ℕ → FinanceStore → FinanceStore)
      → Payment
      → FinanceStore
      → Outcome (Unit {0}) × FinanceStore
  unfolding verify_attempt
  verify_loop zero others existing s = (throw conflict, s)
  verify_loop (suc left) others existing s = elim (verify_attempt (others left) existing s) [
    | committed s' ↦ (ok tt, s')
    | unique_violation s' ↦ verify_loop left others existing s'
    | aborted e s' ↦ (throw e, s')
  ]

  -- `RECEIPT_ATTEMPTS` is 5.
  unfoldable pub verify :
      (ℕ → FinanceStore → FinanceStore) → ℕ → FinanceStore → Outcome (Unit {0}) × FinanceStore
  unfolding verify_loop
  verify others id s = elim (find_payment id s.payments) [
    | none ↦ (throw not_found, s)
    | some existing ↦
        if is_verified existing.status || is_rejected existing.status
        then (throw conflict, s)
        else verify_loop 5 others existing s
  ]

module _ (now : ℕ) (actor : Option ℕ) where
  -- Its transaction runs against what others have committed since the first read.
  unfoldable pub reject :
      (FinanceStore → FinanceStore) → ℕ → Text → FinanceStore → Outcome FinanceStore
  unfolding recalculate_invoice
  reject others id reason s = do
    existing ← or_throw (find_payment id s.payments) not_found
    throw_if (is_rejected existing.status) conflict
    let s' = others s
    throw_if (matching id is_live s'.payments == 0) conflict
    recalculate_invoice existing.student_fee_id
        (update_payment id is_live (mark_rejected reason now actor) s')
