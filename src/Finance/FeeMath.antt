-- ===== src/Finance/FeeMath.antt =====
-- src/finance/fee-math.ts: money arithmetic for invoices. A `Prisma.Decimal` of the schema's
-- `Decimal(12, 2)` is a whole number of kobo.
pub mod Laws
use edu_gear_back_end.Common.{if◌then◌else◌, Bool, true, false, Option, some, List, [], ◌∷◌}
use edu_gear_back_end.Common.Int.{ℤ, pos, ◌+ℤ◌, ◌-ℤ◌, ltb_ℤ, leb_ℤ, is_negative, is_zero}

pub data StudentFeeStatus : Type 0 where
  unpaid partial paid waived cancelled : StudentFeeStatus

pub record InvoiceAmounts : Type 0 where
  pub total_amount : ℤ
  pub discount_amount : ℤ
  pub amount_paid : ℤ

-- `amounts.reduce((total, next) => total.add(next), ZERO)`
add_from : ℤ → List ℤ → ℤ
add_from total [] = total
add_from total (next ∷ amounts) = add_from (total +ℤ next) amounts

unfoldable pub sum : List ℤ → ℤ
unfolding add_from
sum = add_from (pos 0)

-- What is owed after the discount, never below zero.
unfoldable pub payable : InvoiceAmounts → ℤ
payable invoice =
    let net = invoice.total_amount -ℤ invoice.discount_amount in
    if is_negative net then pos 0 else net

-- What is still outstanding, never below zero.
unfoldable pub balance : InvoiceAmounts → ℤ
unfolding payable
balance invoice =
    let remaining = payable invoice -ℤ invoice.amount_paid in
    if is_negative remaining then pos 0 else remaining

-- The status that follows from the money alone.
abbrev pub money_status : ℤ → ℤ → StudentFeeStatus
money_status due amount_paid =
    if is_zero due
    then paid
    else if leb_ℤ due amount_paid
    then paid
    else if ltb_ℤ (pos 0) amount_paid
    then partial
    else unpaid

-- `none` is a call without the argument `current`.
unfoldable pub derive_status : InvoiceAmounts → Option StudentFeeStatus → StudentFeeStatus
unfolding payable
derive_status invoice (some waived) = waived
derive_status invoice (some cancelled) = cancelled
derive_status invoice current = money_status (payable invoice) invoice.amount_paid

-- `OWING_STATUSES.includes(status)`
abbrev pub is_owing : StudentFeeStatus → Bool
is_owing unpaid = true
is_owing partial = true
is_owing _ = false

-- A decision that a person made, which the money does not change.
abbrev pub is_decided : StudentFeeStatus → Bool
is_decided waived = true
is_decided cancelled = true
is_decided _ = false
