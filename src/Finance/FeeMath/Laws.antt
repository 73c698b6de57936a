-- ===== src/Finance/FeeMath/Laws.antt =====
-- `deriveStatus` of src/finance/fee-math.ts, and the amounts of an invoice.
use edu_gear_back_end.Common.{
  Bool-cases, ◌≡◌, refl, ◌≢◌, ◌↔◌, inl, inr, Bool, true, false, Option, none, some, List, [], ◌∷◌,
  map, arith,
}
use edu_gear_back_end.Common.Int.{ℤ, pos, negsuc, ◌+ℤ◌, ◌-ℤ◌, ◌≤ℤ◌, int_laws, sum_ℤ}
use edu_gear_back_end.Finance.FeeMath.{
  StudentFeeStatus, unpaid, partial, paid, waived, cancelled, InvoiceAmounts, add_from, sum,
  payable, balance, money_status, derive_status, is_owing, is_decided,
}

money_status_owing :
    (due amount_paid : ℤ)
    → pos 0 ≤ℤ due
    → pos 0 ≤ℤ amount_paid
    → (is_owing (money_status due amount_paid) ≡ true) ↔ (¬ (due ≤ℤ amount_paid))
money_status_owing (pos n) (pos m) h k = ground arith
money_status_owing (pos n) (negsuc m) h k = ground arith
money_status_owing (negsuc n) (pos m) h k = ground arith
money_status_owing (negsuc n) (negsuc m) h k = ground arith

balance_pos :
    (invoice : InvoiceAmounts)
    → (balance invoice ≢ pos 0) ↔ (¬ (payable invoice ≤ℤ invoice.amount_paid))
unfolding balance ◌-ℤ◌
balance_pos invoice = ground arith

abbrev pub decided : Option StudentFeeStatus → Bool
decided none = false
decided (some current) = is_decided current

decided-not-owing :
    (invoice : InvoiceAmounts) (current : StudentFeeStatus)
    → is_decided current ≡ true
    → is_owing (derive_status invoice (some current)) ≡ false
unfolding derive_status
decided-not-owing invoice unpaid h = cc
decided-not-owing invoice partial h = cc
decided-not-owing invoice paid h = cc
decided-not-owing invoice waived h = refl
decided-not-owing invoice cancelled h = refl

derive_status-undecided :
    (invoice : InvoiceAmounts) (current : Option StudentFeeStatus)
    → decided current ≡ false
    → derive_status invoice current ≡ money_status (payable invoice) invoice.amount_paid
unfolding derive_status
derive_status-undecided invoice none h = refl
derive_status-undecided invoice (some unpaid) h = refl
derive_status-undecided invoice (some partial) h = refl
derive_status-undecided invoice (some paid) h = refl
derive_status-undecided invoice (some waived) h = cc
derive_status-undecided invoice (some cancelled) h = cc

payable_nonneg : (invoice : InvoiceAmounts) → pos 0 ≤ℤ payable invoice
unfolding payable
payable_nonneg invoice = ground arith

-- For an amount paid that is not negative, the derived status is one of those that owe money exactly
-- when nobody has waived or cancelled the invoice and its balance is not zero.
pub derive_status-owing :
    (invoice : InvoiceAmounts) (current : Option StudentFeeStatus)
    → pos 0 ≤ℤ invoice.amount_paid
    → (is_owing (derive_status invoice current) ≡ true)
      ↔ ((decided current ≡ false) × (balance invoice ≢ pos 0))
derive_status-owing invoice none h = rw (derive_status-undecided invoice none refl) (
    ground (
      arith,
      money_status_owing (payable invoice) invoice.amount_paid (payable_nonneg invoice) h,
      balance_pos invoice,
    ))
derive_status-owing invoice (some current) h = elim (Bool-cases (is_decided current)) [
  | inl fixed ↦ ground (arith, decided-not-owing invoice current fixed)
  | inr open_invoice ↦ rw (derive_status-undecided invoice (some current) open_invoice) (
      ground (
        arith,
        money_status_owing (payable invoice) invoice.amount_paid (payable_nonneg invoice) h,
        balance_pos invoice,
      ))
]

add_from-sum_ℤ : (acc : ℤ) (xs : List ℤ) → add_from acc xs ≡ acc +ℤ sum_ℤ (λ x. x) xs
unfolding add_from
add_from-sum_ℤ acc [] = omega int_laws
add_from-sum_ℤ acc (x ∷ xs) = rw (add_from-sum_ℤ (acc +ℤ x) xs) (omega int_laws)

sum_ℤ-map : {A : Type 0} (f : A → ℤ) (xs : List A) → sum_ℤ (λ x. x) (map f xs) ≡ sum_ℤ f xs
sum_ℤ-map f [] = refl
sum_ℤ-map f (x ∷ xs) = rw (sum_ℤ-map f xs)

-- The left-to-right sum of the source as a plain recursion.
pub sum-map : {A : Type 0} (f : A → ℤ) (xs : List A) → sum (map f xs) ≡ sum_ℤ f xs
unfolding sum
sum-map f xs = rw (add_from-sum_ℤ (pos 0) (map f xs)) (rw (sum_ℤ-map f xs) (omega int_laws))
