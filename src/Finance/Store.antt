-- ===== src/Finance/Store.antt =====
-- The rows of one school that fees and payments work on (prisma/schema.prisma: StudentFee, Payment,
-- FileObject), and what a transaction does to them. The tenant guard keeps to one school's rows. A
-- transaction that throws leaves the rows as they were.
use edu_gear_back_end.Common.{
  ◌==◌, if◌then◌else◌, filter, find, count, ℕ, Bool, ◌&&◌, Option, List, map,
}
use edu_gear_back_end.Common.Int.{ℤ}
use edu_gear_back_end.Common.Text.{Text}
use edu_gear_back_end.Finance.FeeMath.{StudentFeeStatus, InvoiceAmounts, sum}
use edu_gear_back_end.Finance.Ledger.{PaymentStatus}

pub record StudentFee : Type 0 where
  pub id : ℕ
  pub student_id : ℕ
  pub structure_id : ℕ
  pub amounts : InvoiceAmounts
  pub status : StudentFeeStatus
  pub due_date : Option ℕ
  pub waiver_reason : Option Text

pub record Payment : Type 0 where
  pub id : ℕ
  pub student_fee_id : ℕ
  pub student_id : ℕ
  pub receipt_number : Text
  pub amount : ℤ
  pub method : Text
  pub evidence : Option ℕ
  pub paid_at : ℕ
  pub recorded_by : Option ℕ
  pub status : PaymentStatus
  pub verified_at : Option ℕ
  pub verified_by : Option ℕ
  pub rejection_reason : Option Text

pub data LinkedType : Type 0 where
  to_student to_payment to_other : LinkedType

pub record FileObject : Type 0 where
  pub id : ℕ
  pub is_payment_evidence : Bool
  pub linked_type : Option LinkedType
  pub linked_id : Option ℕ

pub record FinanceStore : Type 0 where
  pub fees : List StudentFee
  pub payments : List Payment
  pub files : List FileObject

-- `findUnique({ where: { id } })`, or the row lock that finds it.
abbrev pub find_fee : ℕ → List StudentFee → Option StudentFee
find_fee id = find (λ (f : StudentFee). f.id == id)

abbrev pub find_payment : ℕ → List Payment → Option Payment
find_payment id = find (λ (p : Payment). p.id == id)

-- `update({ where: { id } })`
abbrev pub update_fee : ℕ → (StudentFee → StudentFee) → FinanceStore → FinanceStore
update_fee id change s = record s {
  fees = map (λ (f : StudentFee). if f.id == id then change f else f) s.fees;
}

-- `updateMany({ where: { id, status } })`, the status given by a test.
abbrev pub update_payment :
    ℕ → (PaymentStatus → Bool) → (Payment → Payment) → FinanceStore → FinanceStore
update_payment id test change s = record s {
  payments = map (λ (p : Payment). if p.id == id && test p.status then change p else p) s.payments;
}

-- How many rows that `updateMany` matches.
abbrev pub matching : ℕ → (PaymentStatus → Bool) → List Payment → ℕ
matching id test = count (λ (p : Payment). p.id == id && test p.status)

-- `sum(rows.map((row) => row.amount))` over an invoice's payments of one status.
unfoldable pub sum_of : (PaymentStatus → Bool) → ℕ → List Payment → ℤ
unfolding sum
sum_of test fee_id payments = sum (
    map (λ (p : Payment). p.amount)
      (filter (λ (p : Payment). p.student_fee_id == fee_id && test p.status) payments))
