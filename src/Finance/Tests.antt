-- ===== src/Finance/Tests.antt =====
-- Concrete invoices, payments and ledgers, and what the operations make of them.
use mathlib.Core.Path.{subst}
use edu_gear_back_end.Common.Dates.{utc_full_year}
use edu_gear_back_end.Finance.Payments.Receipting.{next_receipt_number-fresh, verify-ok}
use edu_gear_back_end.Common.{
  Has, Outcome, throw, ok, ◌≤◌, ◌<◌, ◌≡◌, refl, sym, ◌≢◌, ◌↔◌, inl, inr, true, false, none, some,
  [], ◌∷◌, arith,
}
use edu_gear_back_end.Common.Int.{pos, ◌+ℤ◌, ◌-ℤ◌, ◌≤ℤ◌}
use edu_gear_back_end.Common.Text.{Text}
use edu_gear_back_end.Finance.FeeMath.{
  unpaid, partial, InvoiceAmounts, sum, payable, balance, derive_status, is_owing,
}
use edu_gear_back_end.Finance.FeeMath.Laws.{decided, derive_status-owing}
use edu_gear_back_end.Finance.Ledger.{
  verified, LedgerInvoice, LedgerPayment, is_cancelled, build_ledger, expected_closing_balance,
}
use edu_gear_back_end.Finance.Ledger.Closing.{IsReconciled, build_ledger-closing}
use edu_gear_back_end.Finance.Receipts.{format_receipt_number, match_receipt}
use edu_gear_back_end.Finance.Receipts.Fresh.{match_receipt-format}
use edu_gear_back_end.Finance.Store.{
  StudentFee, Payment, FinanceStore, find_fee, find_payment, sum_of,
}
use edu_gear_back_end.Finance.Payments.{
  RecordPaymentDto, new_payment, record_payment, next_receipt_number, is_taken, verify,
}
use edu_gear_back_end.Finance.Payments.Consistent.{IsConsistent}
use edu_gear_back_end.Finance.Payments.Verifying.{verify-IsConsistent}
use edu_gear_back_end.Finance.Payments.Recording.{
  committed_on, record_payment-committed, record_payment-IsConsistent,
}
use edu_gear_back_end.Finance.StudentFees.{discount_fee}
use edu_gear_back_end.Finance.StudentFees.Keeping.{discount_fee-overpaid}
use edu_gear_back_end.Finance.Histories.{
  alone, alone-IsFair, recorded, verifying, here, next, Reach-IsConsistent,
}

abbrev part_paid : InvoiceAmounts
part_paid = record { total_amount = pos 100; discount_amount = pos 10; amount_paid = pos 40 }

derive_status-owing_example :
    (is_owing (derive_status part_paid none) ≡ true)
    ↔ ((decided none ≡ false) × (balance part_paid ≢ pos 0))
derive_status-owing_example = derive_status-owing part_paid none (omega arith)

abbrev tuition : LedgerInvoice
tuition = record {
  id = 1;
  structure_name = [];
  amounts = part_paid;
  status = partial;
  waiver_reason = none;
  created_at = 10;
  updated_at = 20;
}

abbrev instalment : LedgerPayment
instalment = record {
  student_fee_id = 1;
  amount = pos 40;
  status = verified;
  receipt_number = [];
  method = [];
  paid_at = 15;
}

tuition-IsReconciled : is_cancelled tuition.status ≡ false → IsReconciled (instalment ∷ []) tuition
unfolding payable sum ◌-ℤ◌ ◌+ℤ◌
tuition-IsReconciled e = record {
  amounts = record {
    discount_nonneg = omega arith;
    discount_within = omega arith;
    paid_within = omega arith;
  };
  paid = refl;
}

build_ledger-closing_example :
    (build_ledger (tuition ∷ []) (instalment ∷ [])).closing_balance
    ≡ expected_closing_balance (tuition ∷ [])
build_ledger-closing_example =
    build_ledger-closing (tuition ∷ []) (instalment ∷ []) (refl, tt) (tuition-IsReconciled, tt)

abbrev prefix : Text
prefix = 82 ∷ []

match_receipt-format_example :
    match_receipt (format_receipt_number 2026 17 prefix) ≡ some (2026, 17)
match_receipt-format_example = match_receipt-format 2026 17 prefix (omega arith) (omega arith) refl

abbrev invoice_1 : StudentFee
invoice_1 = record {
  id = 1;
  student_id = 2;
  structure_id = 3;
  amounts = record { total_amount = pos 100; discount_amount = pos 0; amount_paid = pos 0 };
  status = unpaid;
  due_date = none;
  waiver_reason = none;
}

abbrev opening : FinanceStore
opening = record { fees = invoice_1 ∷ []; payments = []; files = [] }

only : {A : Type 0} {x y : A} → Has x (y ∷ []) → x ≡ y
only (inl e) = e
only (inr e) = elim e [ ]

opening-IsConsistent : IsConsistent opening
unfolding derive_status sum_of ◌-ℤ◌ ◌+ℤ◌
opening-IsConsistent = record {
  keyed = λ p h. absurd h;
  fees_keyed = λ f h. rw (only h) refl;
  paid = λ f h. rw (only h) refl;
  status = λ f h.
      subst (λ (g : StudentFee). g.status ≡ derive_status g.amounts (some g.status)) (sym (only h))
        refl;
}

abbrev dto : RecordPaymentDto
dto = record { student_fee_id = 1; amount = pos 40; method = []; evidence = none; paid_at = 1000 }

abbrev stored : Outcome FinanceStore → FinanceStore
stored (ok s) = s
stored (throw e) = opening

abbrev recorded_store : FinanceStore
recorded_store = stored (record_payment 7 prefix none dto opening)

recorded_ok : record_payment 7 prefix none dto opening ≡ ok recorded_store
unfolding record_payment ◌-ℤ◌ ◌+ℤ◌
recorded_ok = refl

record_payment-committed_example :
    committed_on invoice_1 recorded_store.payments ≤ℤ payable invoice_1.amounts
record_payment-committed_example =
    record_payment-committed 7 prefix none dto opening recorded_store invoice_1 refl recorded_ok

recorded-IsConsistent : IsConsistent recorded_store
recorded-IsConsistent =
    record_payment-IsConsistent 7 prefix none dto opening recorded_store refl opening-IsConsistent
      recorded_ok

verify-IsConsistent_example : IsConsistent (verify prefix 2000 none (λ n. alone) 7 recorded_store).1
verify-IsConsistent_example =
    verify-IsConsistent prefix 2000 none (λ n. alone) 7 recorded_store
      (λ existing n found. alone-IsFair existing) recorded-IsConsistent

abbrev verified_store : FinanceStore
verified_store = (verify prefix 2000 none (λ n. alone) 7 recorded_store).1

Reach-IsConsistent_example : IsConsistent verified_store
Reach-IsConsistent_example = Reach-IsConsistent opening-IsConsistent (
    next (next here (recorded 7 prefix none dto refl recorded_ok))
      (verifying prefix 2000 none 7 refl))

abbrev settled : FinanceStore
settled = record {
  fees = record invoice_1 { amounts = part_paid; status = partial } ∷ [];
  payments = [];
  files = [];
}

discount_fee-overpaid_example :
    (s' : FinanceStore) × (fee' : StudentFee) × (discount_fee 1 (pos 80) prefix settled ≡ ok s')
    × (find_fee 1 s'.fees ≡ some fee')
    × ¬ (fee'.amounts.amount_paid ≤ℤ payable fee'.amounts)
unfolding ◌+ℤ◌
discount_fee-overpaid_example =
    discount_fee-overpaid settled 1 prefix (pos 80)
      (record invoice_1 { amounts = part_paid; status = partial }) refl refl (omega arith)
      (omega arith)

abbrev waiting : Payment
waiting = new_payment 7 prefix none dto invoice_1

waiting_found : find_payment 7 recorded_store.payments ≡ some waiting
unfolding record_payment ◌-ℤ◌ ◌+ℤ◌
waiting_found = refl

invoice_found : find_fee 1 recorded_store.fees ≡ some invoice_1
unfolding record_payment ◌-ℤ◌ ◌+ℤ◌
invoice_found = refl

year_low : 1000 ≤ utc_full_year 1000
unfolding utc_full_year
year_low = omega arith

year_high : utc_full_year 1000 < 10000
unfolding utc_full_year
year_high = omega arith

verify-ok_example : (verify prefix 2000 none (λ n t. t) 7 recorded_store).0 ≡ ok tt
verify-ok_example =
    verify-ok prefix 2000 none 7 recorded_store waiting invoice_1 waiting_found refl invoice_found
      year_low year_high refl

next_receipt_number-fresh_example :
    is_taken 7 (next_receipt_number prefix 1000 (waiting ∷ [])) (waiting ∷ []) ≡ false
next_receipt_number-fresh_example =
    next_receipt_number-fresh prefix 1000 7 (waiting ∷ []) year_low year_high refl
