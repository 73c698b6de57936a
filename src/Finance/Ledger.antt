-- ===== src/Finance/Ledger.antt =====
-- src/finance/statement-ledger.ts: the running-balance ledger of a student. An instant is a number
-- of milliseconds, an id a number, an amount a number of kobo.
pub mod Entries
pub mod Closing
use edu_gear_back_end.Common.{
  ltb, leb, ◌==◌, if◌then◌else◌, filter, includes, ℕ, Bool, true, false, not, ◌&&◌, ◌||◌, Option,
  none, some, List, [], ◌∷◌, ◌++◌, map,
}
use edu_gear_back_end.Common.Int.{ℤ, pos, ◌+ℤ◌, ◌-ℤ◌, ltb_ℤ}
use edu_gear_back_end.Common.Sorting.{sort}
use edu_gear_back_end.Common.Text.{Text, codes, to_lower_case}
use edu_gear_back_end.Finance.FeeMath.{
  StudentFeeStatus, paid, waived, cancelled, InvoiceAmounts, sum, balance,
}

pub data LedgerEntryType : Type 0 where
  invoice discount waiver payment : LedgerEntryType

pub data PaymentStatus : Type 0 where
  pending verified rejected : PaymentStatus

-- An entry before its running balance is known.
pub record RawEntry : Type 0 where
  pub date : ℕ
  pub entry_type : LedgerEntryType
  pub description : Text
  pub debit : ℤ
  pub credit : ℤ
  pub reference : Option Text

pub record LedgerEntry : Type 0 where
  pub raw : RawEntry
  pub balance : ℤ

pub record LedgerInvoice : Type 0 where
  pub id : ℕ
  pub structure_name : Text
  pub amounts : InvoiceAmounts
  pub status : StudentFeeStatus
  pub waiver_reason : Option Text
  pub created_at : ℕ
  pub updated_at : ℕ

pub record LedgerPayment : Type 0 where
  pub student_fee_id : ℕ
  pub amount : ℤ
  pub status : PaymentStatus
  pub receipt_number : Text
  pub method : Text
  pub paid_at : ℕ

-- `ORDER`
abbrev pub order : LedgerEntryType → ℕ
order invoice = 0
order discount = 1
order payment = 2
order waiver = 3

abbrev pub is_cancelled : StudentFeeStatus → Bool
is_cancelled cancelled = true
is_cancelled _ = false

abbrev pub is_waived : StudentFeeStatus → Bool
is_waived waived = true
is_waived _ = false

abbrev pub is_verified : PaymentStatus → Bool
is_verified verified = true
is_verified _ = false

abbrev pub live_invoices : List LedgerInvoice → List LedgerInvoice
live_invoices = filter (λ i. not (is_cancelled i.status))

abbrev pub verified_payments : List LedgerInvoice → List LedgerPayment → List LedgerPayment
verified_payments live =
    filter (λ p. is_verified p.status && includes p.student_fee_id (map (λ i. i.id) live))

-- The loop of `postingDate`.
unfoldable pub earliest_payment : ℕ → ℕ → List LedgerPayment → ℕ
earliest_payment invoice_id earliest [] = earliest
earliest_payment invoice_id earliest (p ∷ ps) =
    earliest_payment invoice_id
      (if p.student_fee_id == invoice_id && ltb p.paid_at earliest then p.paid_at else earliest) ps

unfoldable pub posting_date : LedgerInvoice → List LedgerPayment → ℕ
unfolding earliest_payment
posting_date i money = earliest_payment i.id i.created_at money

-- `${label}${reason ? `: ${reason}` : ''}`; an empty reason is no reason.
abbrev pub with_reason : Text → Option Text → Text
with_reason label none = label
with_reason label (some []) = label
with_reason label (some (c ∷ s)) = label ++ (codes ": " ++ (c ∷ s))

-- `value.replace('_', ' ')`: the first underscore only.
unfoldable pub replace_underscore : Text → Text
replace_underscore [] = []
replace_underscore (c ∷ s) = if c == b'_' then b' ' ∷ s else c ∷ replace_underscore s

abbrev pub invoice_entry : ℕ → LedgerInvoice → RawEntry
invoice_entry posted i = record {
  date = posted;
  entry_type = invoice;
  description = i.structure_name;
  debit = i.amounts.total_amount;
  credit = pos 0;
  reference = none;
}

abbrev pub discount_entry : ℕ → LedgerInvoice → RawEntry
discount_entry posted i = record {
  date = posted;
  entry_type = discount;
  description = with_reason (codes "Discount") i.waiver_reason;
  debit = pos 0;
  credit = i.amounts.discount_amount;
  reference = none;
}

abbrev pub waiver_entry : LedgerInvoice → RawEntry
waiver_entry i = record {
  date = i.updated_at;
  entry_type = waiver;
  description = with_reason (codes "Waived") i.waiver_reason;
  debit = pos 0;
  credit = balance i.amounts;
  reference = none;
}

abbrev pub payment_entry : LedgerPayment → RawEntry
payment_entry p = record {
  date = p.paid_at;
  entry_type = payment;
  description = codes "Payment (" ++ (to_lower_case (replace_underscore p.method) ++ codes ")");
  debit = pos 0;
  credit = p.amount;
  reference = some p.receipt_number;
}

-- What one invoice pushes.
unfoldable pub invoice_entries : List LedgerPayment → LedgerInvoice → List RawEntry
unfolding posting_date balance
invoice_entries money i =
    let posted = posting_date i money in
    invoice_entry posted i
      ∷ (if ltb_ℤ (pos 0) i.amounts.discount_amount then discount_entry posted i ∷ [] else [])
    ++ (if is_waived i.status && ltb_ℤ (pos 0) (balance i.amounts) then waiver_entry i ∷ [] else [])

unfoldable pub all_invoice_entries : List LedgerPayment → List LedgerInvoice → List RawEntry
unfolding invoice_entries
all_invoice_entries money [] = []
all_invoice_entries money (i ∷ live) = invoice_entries money i ++ all_invoice_entries money live

unfoldable pub raw_entries : List LedgerInvoice → List LedgerPayment → List RawEntry
unfolding all_invoice_entries
raw_entries invoices payments =
    let live = live_invoices invoices in
    let money = verified_payments live payments in
    all_invoice_entries money live ++ map payment_entry money

-- `a.date.getTime() - b.date.getTime() || ORDER[a.type] - ORDER[b.type]`, at most 0.
abbrev pub in_order : RawEntry → RawEntry → Bool
in_order a b =
    ltb a.date b.date || (a.date == b.date && leb (order a.entry_type) (order b.entry_type))

unfoldable pub run_balance : ℤ → List RawEntry → List LedgerEntry
run_balance running [] = []
run_balance running (e ∷ es) =
    let running' = running +ℤ e.debit -ℤ e.credit in
    record { raw = e; balance = running' } ∷ run_balance running' es

unfoldable pub final_balance : ℤ → List RawEntry → ℤ
final_balance running [] = running
final_balance running (e ∷ es) = final_balance (running +ℤ e.debit -ℤ e.credit) es

pub record Ledger : Type 0 where
  pub entries : List LedgerEntry
  pub closing_balance : ℤ

unfoldable pub build_ledger : List LedgerInvoice → List LedgerPayment → Ledger
unfolding raw_entries run_balance final_balance
build_ledger invoices payments =
    let raw = sort in_order (raw_entries invoices payments) in
    record { entries = run_balance (pos 0) raw; closing_balance = final_balance (pos 0) raw }

-- `invoices.filter(...).reduce((total, invoice) => total.add(balance(invoice)), ZERO)`
unfoldable pub expected_closing_balance : List LedgerInvoice → ℤ
unfolding sum balance
expected_closing_balance invoices = sum (
    map (λ i. balance i.amounts)
      (filter (λ i. not (is_cancelled i.status) && not (is_waived i.status)) invoices))
