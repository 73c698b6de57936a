-- ===== src/Finance/StudentFees/Keeping.antt =====
-- `discount`, `waive` and `cancel` of src/finance/student-fees.service.ts on consistent rows.
use edu_gear_back_end.Common.Int.{ℤ, ◌+ℤ◌, ◌≤ℤ◌, ltb_ℤ, int_laws}
use edu_gear_back_end.Common.Members.{Has-of-map}
use edu_gear_back_end.Common.Text.{Text}
use edu_gear_back_end.Finance.Ledger.{is_cancelled, is_verified}
use mathlib.Core.Path.{subst}
use mathlib.Core.Option
use edu_gear_back_end.Common.{
  ltb, ◌==◌, if◌then◌else◌, ==_iff, Bool-cases, same, Has, Fault, bad_request, not_found, conflict,
  Outcome, ok, ◌>>◌, throw_if, or_throw, >>=-eq-ok, or_throw-eq-ok, ℕ, ◌≡◌, refl, sym, ap, ◌∙◌, inl,
  inr, Bool, true, false, none, some, List, [], ◌∷◌, arith,
}
use edu_gear_back_end.Finance.FeeMath.{waived, cancelled, InvoiceAmounts, payable, derive_status}
use edu_gear_back_end.Finance.Store.{StudentFee, FinanceStore, find_fee, update_fee, sum_of}
use edu_gear_back_end.Finance.Payments.Consistent.{
  IsConsistent, derive_status_again, find_fee-map, update_fee-keyed,
}
use edu_gear_back_end.Finance.StudentFees.{
  is_closed, mutate_locked, discount_fee, waive_fee, live_payments, cancel_fee,
}

-- An update of one invoice that keeps its id and its amount paid, and gives it a derived status.
update_fee-IsConsistent :
    {s : FinanceStore} (c : IsConsistent s) (id : ℕ) (fee : StudentFee)
    (change : StudentFee → StudentFee)
    → find_fee id s.fees ≡ some fee
    → ((f : StudentFee) → (change f).id ≡ f.id)
    → (change fee).amounts.amount_paid ≡ fee.amounts.amount_paid
    → (change fee).status ≡ derive_status (change fee).amounts (some (change fee).status)
    → IsConsistent (update_fee id change s)
update_fee-IsConsistent {s} c id fee change found same_id same_paid follows = record {
  keyed = c.keyed;
  fees_keyed = update_fee-keyed id change s.fees same_id c.fees_keyed;
  paid = λ f h. let (g, listed, e) = Has-of-map update s.fees f h in rw e (updated g listed).0;
  status = λ f h. let (g, listed, e) = Has-of-map update s.fees f h in rw e (updated g listed).1;
}
  where
    update : StudentFee → StudentFee
    update g = if g.id == id then change g else g

    updated :
        (g : StudentFee)
        → Has g s.fees
        → ((update g).amounts.amount_paid ≡ sum_of is_verified (update g).id s.payments)
          × ((update g).status ≡ derive_status (update g).amounts (some (update g).status))
    updated g listed = elim (Bool-cases (g.id == id)) [
      | inr other ↦ rw other (c.paid g listed, c.status g listed)
      | inl here ↦
          let same : g ≡ fee =
            cc (
              found,
              c.fees_keyed g listed,
              ap (λ k. find_fee k s.fees) ((==_iff g.id id).0 here),
            ) in
          rw here (
            subst
              (λ (f : StudentFee).
                ((change f).amounts.amount_paid ≡ sum_of is_verified (change f).id s.payments)
                × ((change f).status ≡ derive_status (change f).amounts (some (change f).status)))
              (sym same)
              (
                same_paid
                    ∙ ap (λ (f : StudentFee). f.amounts.amount_paid) (sym same)
                    ∙ c.paid g listed
                    ∙ ap (λ k. sum_of is_verified k s.payments)
                        (sym (same_id fee ∙ ap (λ (f : StudentFee). f.id) (sym same))),
                follows,
              ))
    ]

derive_status_waived : (a : InvoiceAmounts) → waived ≡ derive_status a (some waived)
unfolding derive_status
derive_status_waived a = refl

derive_status_cancelled : (a : InvoiceAmounts) → cancelled ≡ derive_status a (some cancelled)
unfolding derive_status
derive_status_cancelled a = refl

-- What a change that went through has found and done.
pub record Changed (id : ℕ) (change : StudentFee → Outcome (StudentFee → StudentFee))
    (s s' : FinanceStore) : Type 0 where
  pub fee : StudentFee
  pub found : find_fee id s.fees ≡ some fee
  pub update : StudentFee → StudentFee
  pub passed : change fee ≡ ok update
  pub result : s' ≡ update_fee id update s

pub mutate_locked-Changed :
    (id : ℕ) (change : StudentFee → Outcome (StudentFee → StudentFee)) (s s' : FinanceStore)
    → mutate_locked id change s ≡ ok s'
    → Changed id change s s'
mutate_locked-Changed id change s s' e =
    let (fee, e₀, e₁) = >>=-eq-ok (or_throw (find_fee id s.fees) not_found) _ e in
    let (update, passed, e₂) = >>=-eq-ok (change fee) _ e₁ in
    record {
      fee = fee;
      found = or_throw-eq-ok (find_fee id s.fees) not_found e₀;
      update = update;
      passed = passed;
      result = cc;
    }

-- The update behind a guard that has passed.
guarded :
    {A : Type 0} (b : Bool) (f : Fault) {u v : A}
    → (throw_if b f >> ok u) ≡ ok v
    → (b ≡ false) × (v ≡ u)
guarded true f h = cc
guarded false f h = (refl, cc)

module _ {s s' : FinanceStore} (c : IsConsistent s) (id : ℕ) (reason : Text) where
  -- A waived invoice keeps its amounts.
  pub waive_fee-IsConsistent : waive_fee id reason s ≡ ok s' → IsConsistent s'
  unfolding waive_fee
  waive_fee-IsConsistent e =
      let m = mutate_locked-Changed id _ s s' e in
      let (_, same) = guarded (is_closed m.fee.status) conflict m.passed in
      rw (m.result, same)
        (update_fee-IsConsistent c id m.fee _ m.found (λ f. refl) refl
          (derive_status_waived m.fee.amounts))

  pub discount_fee-IsConsistent :
      (amount : ℤ) → discount_fee id amount reason s ≡ ok s' → IsConsistent s'
  unfolding discount_fee
  discount_fee-IsConsistent amount e =
      let m = mutate_locked-Changed id _ s s' e in
      let (_, _, passed) = >>=-eq-ok (throw_if (is_closed m.fee.status) conflict) _ m.passed in
      let (_, same) = guarded (ltb_ℤ m.fee.amounts.total_amount amount) bad_request passed in
      rw (m.result, same)
        (update_fee-IsConsistent c id m.fee _ m.found (λ f. refl) refl
          (sym (derive_status_again (record (m.fee.amounts) { discount_amount = amount }) none)))

  pub cancel_fee-IsConsistent : cancel_fee id reason s ≡ ok s' → IsConsistent s'
  unfolding cancel_fee
  cancel_fee-IsConsistent e =
      let m = mutate_locked-Changed id _ s s' e in
      let (_, _, passed) = >>=-eq-ok (throw_if (is_cancelled m.fee.status) conflict) _ m.passed in
      let (_, same) = guarded (ltb 0 (live_payments id s.payments)) conflict passed in
      rw (m.result, same)
        (update_fee-IsConsistent c id m.fee _ m.found (λ f. refl) refl
          (derive_status_cancelled m.fee.amounts))

not_more : (a b : ℤ) → a ≤ℤ b → ltb_ℤ b a ≡ false
not_more a b h = ground arith

find_fee-id : (id : ℕ) (fs : List StudentFee) (f : StudentFee) → find_fee id fs ≡ some f → f.id ≡ id
find_fee-id id [] f h = cc
find_fee-id id (g ∷ fs) f h = ground (arith, find_fee-id id fs f)

-- The id finds the changed row.
found_changed :
    (s : FinanceStore) (id : ℕ) (fee : StudentFee) (change : StudentFee → StudentFee)
    → find_fee id s.fees ≡ some fee
    → ((f : StudentFee) → (change f).id ≡ f.id)
    → find_fee id (update_fee id change s).fees ≡ some (change fee)
found_changed s id fee change found same_id =
    find_fee-map id change id s.fees same_id
    ∙ ap (Option.map (λ (f : StudentFee). if f.id == id then change f else f)) found
    ∙ ap (λ b. some (if b then change fee else fee))
        ((==_iff fee.id id).1 (find_fee-id id s.fees fee found))

too_little :
    (total amount paid_before : ℤ)
    → amount ≤ℤ total
    → ¬ (amount +ℤ paid_before ≤ℤ total)
    → ¬ (
        paid_before
        ≤ℤ payable
            (record { total_amount = total; discount_amount = amount; amount_paid = paid_before }))
unfolding payable
too_little total amount paid_before within over = grind int_laws

-- The ceiling of `record` does not bind a discount: a discount that leaves less payable than is paid
-- already goes through, and leaves the invoice overpaid.
pub discount_fee-overpaid :
    (s : FinanceStore) (id : ℕ) (reason : Text) (amount : ℤ) (fee : StudentFee)
    → find_fee id s.fees ≡ some fee
    → is_closed fee.status ≡ false
    → amount ≤ℤ fee.amounts.total_amount
    → ¬ (amount +ℤ fee.amounts.amount_paid ≤ℤ fee.amounts.total_amount)
    → (s' : FinanceStore) × (fee' : StudentFee) × (discount_fee id amount reason s ≡ ok s')
      × (find_fee id s'.fees ≡ some fee')
      × ¬ (fee'.amounts.amount_paid ≤ℤ payable fee'.amounts)
unfolding discount_fee
discount_fee-overpaid s id reason amount fee found still_open within over =
    let amounts = record (fee.amounts) { discount_amount = amount } in
    let change : (StudentFee → StudentFee) = λ row. record row {
      amounts = record (row.amounts) { discount_amount = amount };
      waiver_reason = some reason;
      status = derive_status amounts none;
    } in
    (
      update_fee id change s,
      change fee,
      rw (found, still_open, not_more amount fee.amounts.total_amount within),
      found_changed s id fee change found (λ f. refl),
      too_little fee.amounts.total_amount amount fee.amounts.amount_paid within over,
    )
