-- ===== src/Finance/Ledger/Entries.antt =====
-- The sum of the entries of src/finance/statement-ledger.ts, through the sort and by source.
use mathlib.Core.Path.{ap₂}
use edu_gear_back_end.Common.{
  if◌then◌else◌, Bool-cases, ◌≡◌, refl, ap, ◌∙◌, inl, inr, Bool, false, ◌&&◌, List, [], ◌∷◌, ◌++◌,
  map, arith,
}
use edu_gear_back_end.Common.Int.{
  ℤ, pos, pos_part, neg_part, ◌+ℤ◌, ◌-ℤ◌, ◌≤ℤ◌, ltb_ℤ, int_laws, sum_ℤ,
}
use edu_gear_back_end.Common.Sorting.{insert, sort}
use edu_gear_back_end.Finance.FeeMath.{InvoiceAmounts, payable, balance}
use edu_gear_back_end.Finance.Ledger.{
  RawEntry, LedgerInvoice, LedgerPayment, is_waived, posting_date, discount_entry, waiver_entry,
  payment_entry, invoice_entries, final_balance,
}

-- What an entry adds to the balance.
abbrev pub net : RawEntry → ℤ
net e = e.debit -ℤ e.credit

pub final_balance-sum_ℤ :
    (running : ℤ) (es : List RawEntry) → final_balance running es ≡ running +ℤ sum_ℤ net es
unfolding final_balance
final_balance-sum_ℤ running [] = omega int_laws
final_balance-sum_ℤ running (e ∷ es) =
    rw (final_balance-sum_ℤ (running +ℤ e.debit -ℤ e.credit) es) (omega int_laws)

exchange : (a b c : ℤ) → a +ℤ (b +ℤ c) ≡ b +ℤ (a +ℤ c)
exchange a b c = omega int_laws

sum_ℤ-insert :
    {A : Type 0} (before : A → A → Bool) (f : A → ℤ) (x : A) (xs : List A)
    → sum_ℤ f (insert before x xs) ≡ f x +ℤ sum_ℤ f xs
unfolding insert
sum_ℤ-insert before f x [] = refl
sum_ℤ-insert before f x (y ∷ ys) = elim (Bool-cases (before x y)) [
  | inl here ↦ rw here
  | inr later ↦
      rw later (ap (λ s. f y +ℤ s) (sum_ℤ-insert before f x ys) ∙ exchange (f y) (f x) (sum_ℤ f ys))
]

pub sum_ℤ-sort :
    {A : Type 0} (before : A → A → Bool) (f : A → ℤ) (xs : List A)
    → sum_ℤ f (sort before xs) ≡ sum_ℤ f xs
unfolding sort
sum_ℤ-sort before f [] = refl
sum_ℤ-sort before f (x ∷ xs) =
    sum_ℤ-insert before f x (sort before xs) ∙ ap (λ s. f x +ℤ s) (sum_ℤ-sort before f xs)

pub sum_ℤ-append :
    {A : Type 0} (f : A → ℤ) (xs ys : List A) → sum_ℤ f (xs ++ ys) ≡ sum_ℤ f xs +ℤ sum_ℤ f ys
sum_ℤ-append f [] ys = omega int_laws
sum_ℤ-append f (x ∷ xs) ys = rw (sum_ℤ-append f xs ys) (omega int_laws)

pub payment_entries-net :
    (ps : List LedgerPayment) → sum_ℤ net (map payment_entry ps) ≡ pos 0 -ℤ sum_ℤ (λ p. p.amount) ps
payment_entries-net [] = omega int_laws
payment_entries-net (p ∷ ps) = rw (payment_entries-net ps) (omega int_laws)

-- The amounts of an invoice that is not overpaid.
pub record IsSound (a : InvoiceAmounts) : Type 0 where
  pub discount_nonneg : pos 0 ≤ℤ a.discount_amount
  pub discount_within : a.discount_amount ≤ℤ a.total_amount
  pub paid_within : a.amount_paid ≤ℤ payable a

pub balance-IsSound :
    (a : InvoiceAmounts)
    → IsSound a
    → balance a +ℤ a.amount_paid ≡ a.total_amount -ℤ a.discount_amount
unfolding balance payable
balance-IsSound a s = grind int_laws

pub balance_nonneg : (a : InvoiceAmounts) → pos 0 ≤ℤ balance a
unfolding balance
balance_nonneg a = ground arith

nothing_owed : (c : ℤ) → pos 0 ≤ℤ c → ltb_ℤ (pos 0) c ≡ false → pos 0 ≡ pos 0 -ℤ c
unfolding ◌-ℤ◌
nothing_owed c h k = ground arith

-- An entry of no debit that is pushed when its credit is positive takes off its credit.
credit_if_positive :
    (e : RawEntry)
    → e.debit ≡ pos 0
    → pos 0 ≤ℤ e.credit
    → sum_ℤ net (if ltb_ℤ (pos 0) e.credit then e ∷ [] else []) ≡ pos 0 -ℤ e.credit
credit_if_positive e d h = elim (Bool-cases (ltb_ℤ (pos 0) e.credit)) [
  | inl more ↦ rw more (rw d (omega int_laws))
  | inr zero_credit ↦ rw zero_credit (nothing_owed e.credit h zero_credit)
]

-- What an invoice leaves in the ledger before its payments: its balance, unless it was waived, and
-- what was paid on it.
abbrev pub owing : LedgerInvoice → ℤ
owing i = if is_waived i.status then pos 0 else balance i.amounts

waiver_net :
    (i : LedgerInvoice)
    → sum_ℤ net (
        if is_waived i.status && ltb_ℤ (pos 0) (balance i.amounts) then waiver_entry i ∷ [] else [])
      ≡ owing i -ℤ balance i.amounts
waiver_net i = elim (Bool-cases (is_waived i.status)) [
  | inl forgiven ↦ rw forgiven (credit_if_positive (waiver_entry i) refl (balance_nonneg i.amounts))
  | inr kept ↦ rw kept (omega int_laws)
]

collect : (t d o b p : ℤ) → b +ℤ p ≡ t -ℤ d → t -ℤ pos 0 +ℤ (pos 0 -ℤ d +ℤ (o -ℤ b)) ≡ o +ℤ p
collect t d o b p h = omega (int_laws, ap pos_part h, ap neg_part h)

pub invoice_entries-net :
    (money : List LedgerPayment) (i : LedgerInvoice)
    → IsSound i.amounts
    → sum_ℤ net (invoice_entries money i) ≡ owing i +ℤ i.amounts.amount_paid
unfolding invoice_entries
invoice_entries-net money i s =
    let posted = posting_date i money in
    let a = i.amounts in
    let discounts = if ltb_ℤ (pos 0) a.discount_amount then discount_entry posted i ∷ [] else [] in
    let waivers =
      if is_waived i.status && ltb_ℤ (pos 0) (balance a) then waiver_entry i ∷ [] else [] in
    ap (λ t. a.total_amount -ℤ pos 0 +ℤ t)
      (sum_ℤ-append net discounts waivers
        ∙ ap₂ ◌+ℤ◌ (credit_if_positive (discount_entry posted i) refl s.discount_nonneg)
            (waiver_net i))
    ∙ collect a.total_amount a.discount_amount (owing i) (balance a) a.amount_paid
        (balance-IsSound a s)
