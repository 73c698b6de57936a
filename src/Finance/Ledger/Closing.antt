-- ===== src/Finance/Ledger/Closing.antt =====
-- The closing balance of the ledger of src/finance/statement-ledger.ts.
use mathlib.Core.Path.{ap₂}
use edu_gear_back_end.Common.{
  ◌==◌, if◌then◌else◌, Bool-cases, filter, All, includes, ℕ, ◌≡◌, refl, sym, ap, ◌∙◌, inl, inr,
  Bool, true, false, not, ◌&&◌, List, [], ◌∷◌, ◌++◌, map, arith,
}
use edu_gear_back_end.Finance.Ledger.Entries.{
  net, final_balance-sum_ℤ, sum_ℤ-sort, sum_ℤ-append, payment_entries-net, IsSound, owing,
  invoice_entries-net,
}
use edu_gear_back_end.Finance.FeeMath.Laws.{sum-map}
use edu_gear_back_end.Finance.FeeMath.{balance}
use edu_gear_back_end.Common.Sorting.{sort}
use edu_gear_back_end.Common.Int.{ℤ, pos, ◌+ℤ◌, ◌-ℤ◌, int_laws, sum_ℤ}
use edu_gear_back_end.Finance.Ledger.{
  LedgerInvoice, LedgerPayment, is_cancelled, is_waived, is_verified, live_invoices,
  verified_payments, payment_entry, invoice_entries, all_invoice_entries, raw_entries, in_order,
  build_ledger, expected_closing_balance,
}

-- What the verified payments on an invoice add up to.
abbrev pub paid_on : ℕ → List LedgerPayment → ℤ
paid_on id [] = pos 0
paid_on id (p ∷ ps) =
    (if is_verified p.status && p.student_fee_id == id then p.amount else pos 0) +ℤ paid_on id ps

-- No id stands twice.
abbrev pub Distinct : List ℕ → Type 0
Distinct [] = Unit
Distinct (x ∷ xs) = (includes x xs ≡ false) × Distinct xs

abbrev ids : List LedgerInvoice → List ℕ
ids = map (λ i. i.id)

includes-filter :
    (x : ℕ) (p : LedgerInvoice → Bool) (is' : List LedgerInvoice)
    → includes x (ids is') ≡ false
    → includes x (ids (filter p is')) ≡ false
includes-filter x p [] h = refl
includes-filter x p (i ∷ is') h = ground (arith, includes-filter x p is')

Distinct-filter :
    (p : LedgerInvoice → Bool) (is' : List LedgerInvoice)
    → Distinct (ids is')
    → Distinct (ids (filter p is'))
Distinct-filter p [] d = tt
Distinct-filter p (i ∷ is') (h, d) =
    ground (arith, Distinct-filter p is' d, includes-filter i.id p is' h)

-- What one payment adds, over all the live invoices.
abbrev share : LedgerPayment → ℕ → ℤ
share p id = if is_verified p.status && p.student_fee_id == id then p.amount else pos 0

share_none :
    (p : LedgerPayment) (live : List LedgerInvoice)
    → includes p.student_fee_id (ids live) ≡ false
    → sum_ℤ (λ i. share p i.id) live ≡ pos 0
unfolding ◌+ℤ◌
share_none p [] h = refl
share_none p (i ∷ live) h = ground (arith, share_none p live)

share_sum :
    (p : LedgerPayment) (live : List LedgerInvoice)
    → Distinct (ids live)
    → sum_ℤ (λ i. share p i.id) live
      ≡ (if is_verified p.status && includes p.student_fee_id (ids live) then p.amount else pos 0)
unfolding ◌+ℤ◌
share_sum p [] d = ground arith
share_sum p (i ∷ live) d = ground (arith, share_sum p live d.1, share_none p live)

sum_ℤ-add :
    {A : Type 0} (f g : A → ℤ) (xs : List A) → sum_ℤ (λ x. f x +ℤ g x) xs ≡ sum_ℤ f xs +ℤ sum_ℤ g xs
sum_ℤ-add f g [] = omega int_laws
sum_ℤ-add f g (x ∷ xs) = rw (sum_ℤ-add f g xs) (omega int_laws)

sum_ℤ-zero : {A : Type 0} (xs : List A) → sum_ℤ (λ x. pos 0) xs ≡ pos 0
sum_ℤ-zero [] = refl
sum_ℤ-zero (x ∷ xs) = rw (sum_ℤ-zero xs) (omega int_laws)

cons_if :
    {A : Type 0} (f : A → ℤ) (b : Bool) (x : A) (xs : List A)
    → sum_ℤ f (if b then x ∷ xs else xs) ≡ (if b then f x else pos 0) +ℤ sum_ℤ f xs
cons_if f true x xs = refl
cons_if f false x xs = omega int_laws

-- The verified payments on live invoices, added up invoice by invoice.
payments_sum :
    (live : List LedgerInvoice) (ps : List LedgerPayment)
    → Distinct (ids live)
    → sum_ℤ (λ p. p.amount) (verified_payments live ps) ≡ sum_ℤ (λ i. paid_on i.id ps) live
payments_sum live [] d = sym (sum_ℤ-zero live)
payments_sum live (p ∷ ps) d =
    let counted = is_verified p.status && includes p.student_fee_id (ids live) in
    cons_if (λ (q : LedgerPayment). q.amount) counted p (verified_payments live ps)
    ∙ ap₂ ◌+ℤ◌ (sym (share_sum p live d)) (payments_sum live ps d)
    ∙ sym (sum_ℤ-add (λ (i : LedgerInvoice). share p i.id) (λ i. paid_on i.id ps) live)

-- A live invoice whose amounts are sound and whose amount paid is that of its verified payments.
pub record IsReconciled (payments : List LedgerPayment) (i : LedgerInvoice) : Type 0 where
  pub amounts : IsSound i.amounts
  pub paid : i.amounts.amount_paid ≡ paid_on i.id payments

invoices_net :
    (money payments : List LedgerPayment) (live : List LedgerInvoice)
    → All (IsReconciled payments) live
    → sum_ℤ net (all_invoice_entries money live)
      ≡ sum_ℤ owing live +ℤ sum_ℤ (λ i. paid_on i.id payments) live
unfolding all_invoice_entries
invoices_net money payments [] r = omega int_laws
invoices_net money payments (i ∷ live) (r, rs) =
    sum_ℤ-append net (invoice_entries money i) (all_invoice_entries money live)
    ∙ ap₂ ◌+ℤ◌ (invoice_entries-net money i r.amounts ∙ ap (λ t. owing i +ℤ t) r.paid)
        (invoices_net money payments live rs)
    ∙ regroup (owing i) (paid_on i.id payments) (sum_ℤ owing live)
        (sum_ℤ (λ (j : LedgerInvoice). paid_on j.id payments) live)
  where
    regroup : (a b c d : ℤ) → a +ℤ b +ℤ (c +ℤ d) ≡ a +ℤ c +ℤ (b +ℤ d)
    regroup a b c d = omega int_laws

live-All :
    (P : LedgerInvoice → Type 0) (invoices : List LedgerInvoice)
    → All (λ i. is_cancelled i.status ≡ false → P i) invoices
    → All P (live_invoices invoices)
live-All P [] a = tt
live-All P (i ∷ is') (p, a) = elim (Bool-cases (is_cancelled i.status)) [
  | inl gone ↦ rw gone (live-All P is' a)
  | inr kept ↦ rw kept (p kept, live-All P is' a)
]

-- The sum of what the live invoices leave is the expected closing balance.
owing_sum :
    (invoices : List LedgerInvoice)
    → sum_ℤ owing (live_invoices invoices)
      ≡ sum_ℤ
          (λ i. balance i.amounts)
          (filter (λ i. not (is_cancelled i.status) && not (is_waived i.status)) invoices)
owing_sum [] = refl
owing_sum (i ∷ is') = ground (arith, owing_sum is', zero_add (sum_ℤ owing (live_invoices is')))
  where
    zero_add : (a : ℤ) → pos 0 +ℤ a ≡ a
    zero_add a = omega int_laws

-- When no two invoices share an id, and every invoice that is not cancelled is not overpaid and has
-- for its amount paid the sum of its verified payments, the ledger closes at what the open invoices
-- still owe: whatever the order of the entries, the dates and the payments of other students.
pub build_ledger-closing :
    (invoices : List LedgerInvoice) (payments : List LedgerPayment)
    → Distinct (map (λ i. i.id) invoices)
    → All (λ i. is_cancelled i.status ≡ false → IsReconciled payments i) invoices
    → (build_ledger invoices payments).closing_balance ≡ expected_closing_balance invoices
unfolding build_ledger raw_entries expected_closing_balance
build_ledger-closing invoices payments distinct reconciled =
    let live = live_invoices invoices in
    let money = verified_payments live payments in
    let from_invoices = all_invoice_entries money live in
    let from_payments = map payment_entry money in
    let raw = from_invoices ++ from_payments in
    let settled = sum_ℤ (λ (i : LedgerInvoice). paid_on i.id payments) live in
    let is_open = λ (i : LedgerInvoice). not (is_cancelled i.status) && not (is_waived i.status) in
    final_balance-sum_ℤ (pos 0) (sort in_order raw)
    ∙ ap (λ t. pos 0 +ℤ t)
        (sum_ℤ-sort in_order net raw
          ∙ sum_ℤ-append net from_invoices from_payments
          ∙ ap₂ ◌+ℤ◌
              (invoices_net money payments live
                (live-All (IsReconciled payments) invoices reconciled))
              (payment_entries-net money
                ∙ ap (λ t. pos 0 -ℤ t)
                    (payments_sum live payments
                      (Distinct-filter (λ i. not (is_cancelled i.status)) invoices distinct))))
    ∙ cancel (sum_ℤ owing live) settled
    ∙ owing_sum invoices
    ∙ sym (sum-map (λ (i : LedgerInvoice). balance i.amounts) (filter is_open invoices))
  where
    cancel : (a b : ℤ) → pos 0 +ℤ (a +ℤ b +ℤ (pos 0 -ℤ b)) ≡ a
    cancel a b = omega int_laws
