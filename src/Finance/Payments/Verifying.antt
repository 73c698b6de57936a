-- ===== src/Finance/Payments/Verifying.antt =====
-- `verify` and `reject` of src/finance/payments.service.ts beside other writers.
use edu_gear_back_end.Common.Text.{Text}
use edu_gear_back_end.Finance.Ledger.{PaymentStatus, is_verified}
use mathlib.Core.Path.{subst, subst₂}
use edu_gear_back_end.Common.{
  ◌==◌, if◌then◌else◌, Bool-cases, Option-cases, not_found, conflict, Outcome, ok, throw, throw_if,
  or_throw, >>=-eq-ok, or_throw-eq-ok, throw_if-eq-ok, ℕ, zero, suc, ◌≡◌, refl, sym, ap, ◌∙◌, inl,
  inr, Bool, true, false, ◌||◌, Option, some, List, [], ◌∷◌, arith,
}
use edu_gear_back_end.Finance.Store.{
  Payment, FinanceStore, find_fee, find_payment, update_fee, update_payment, matching, sum_of,
}
use edu_gear_back_end.Finance.Payments.{
  is_pending, is_rejected, is_live, recalculated, recalculate_invoice, next_receipt_number, Attempt,
  committed, unique_violation, aborted, attempt_of, is_taken, mark_verified, mark_rejected,
  verify_attempt, verify_loop, verify, reject,
}
use edu_gear_back_end.Finance.Payments.Consistent.{IsConsistent, IsMarking, settled-IsConsistent}

-- The row with the id of `existing`, if it is there, is about the same invoice.
abbrev pub Knows : Payment → FinanceStore → Type 0
Knows existing s =
    (q : Payment)
    → find_payment existing.id s.payments ≡ some q
    → q.student_fee_id ≡ existing.student_fee_id

-- What other writers do: they keep the rows consistent, and they neither move the payment to another
-- invoice nor use its id again.
pub record IsFair (existing : Payment) (others : FinanceStore → FinanceStore) : Type 0 where
  pub consistent : (s : FinanceStore) → IsConsistent s → IsConsistent (others s)
  pub keeps : (s : FinanceStore) → Knows existing s → Knows existing (others s)

abbrev pub store_of : Attempt → FinanceStore
store_of (committed s) = s
store_of (unique_violation s) = s
store_of (aborted e s) = s

-- A row that `updateMany` matches is found by its id.
matching-find :
    (id : ℕ) (test : PaymentStatus → Bool) (ps : List Payment)
    → (matching id test ps == 0) ≡ false
    → (p : Payment) × (find_payment id ps ≡ some p)
matching-find id test [] h = cc
matching-find id test (p ∷ ps) h = elim (Bool-cases (p.id == id)) [
  | inl here ↦ (p, rw here)
  | inr other ↦ let (q, found) = matching-find id test ps (ground arith) in (q, rw other found)
]

find-id : (id : ℕ) (ps : List Payment) (p : Payment) → find_payment id ps ≡ some p → p.id ≡ id
find-id id [] p h = cc
find-id id (q ∷ ps) p h = ground (arith, find-id id ps p)

abbrev rebuilt : (PaymentStatus → Bool) → (Payment → Payment) → FinanceStore → ℕ → ℕ → FinanceStore
rebuilt test change s id fee_id =
    let s' = update_payment id test change s in
    update_fee fee_id (recalculated (sum_of is_verified fee_id s'.payments)) s'

ok-injective : {a b : FinanceStore} → ok a ≡ ok b → a ≡ b
ok-injective h = cc

-- Marking a payment and rebuilding its invoice, when the row to mark is there.
recalculate-IsConsistent :
    {s : FinanceStore} (c : IsConsistent s) (id fee_id : ℕ) (test : PaymentStatus → Bool)
    (change : Payment → Payment)
    → IsMarking change
    → ((q : Payment) → find_payment id s.payments ≡ some q → q.student_fee_id ≡ fee_id)
    → (matching id test s.payments == 0) ≡ false
    → (s' : FinanceStore) → recalculate_invoice fee_id (update_payment id test change s) ≡ ok s'
    → IsConsistent s'
unfolding recalculate_invoice
recalculate-IsConsistent {s} c id fee_id test change m keeps there s' e =
    let (q, found) = matching-find id test s.payments there in
    let same_id = find-id id s.payments q found in
    let same_fee = keeps q found in
    let (f, _, done) = >>=-eq-ok (or_throw (find_fee fee_id s.fees) not_found) _ e in
    let settled_row : IsConsistent (rebuilt test change s q.id q.student_fee_id) =
      settled-IsConsistent c q test change m (rw same_id found) in
    let renamed : IsConsistent (rebuilt test change s id fee_id) =
      subst₂ (λ k l. IsConsistent (rebuilt test change s k l)) same_id same_fee settled_row in
    subst IsConsistent (ok-injective done) renamed

mark_verified-IsMarking :
    (number : Text) (now : ℕ) (actor : Option ℕ) → IsMarking (mark_verified number now actor)
mark_verified-IsMarking number now actor = record {
  same_id = λ p. refl;
  same_fee = λ p. refl;
  same_amount = λ p. refl;
}

mark_rejected-IsMarking :
    (reason : Text) (now : ℕ) (actor : Option ℕ) → IsMarking (mark_rejected reason now actor)
mark_rejected-IsMarking reason now actor = record {
  same_id = λ p. refl;
  same_fee = λ p. refl;
  same_amount = λ p. refl;
}

attempt_of-IsConsistent :
    {s : FinanceStore} (r : Outcome FinanceStore)
    → IsConsistent s
    → ((s' : FinanceStore) → r ≡ ok s' → IsConsistent s')
    → IsConsistent (store_of (attempt_of s r))
attempt_of-IsConsistent (ok s') c f = f s' refl
attempt_of-IsConsistent (throw e) c f = c

violation_case :
    (s' t : FinanceStore) (gone taken : Bool) (r : Outcome FinanceStore)
    → (if gone then aborted conflict t else if taken then unique_violation t else attempt_of t r)
      ≡ unique_violation s'
    → s' ≡ t
violation_case s' t true taken r e = cc
violation_case s' t false true r e = cc
violation_case s' t false false (ok u) e = cc
violation_case s' t false false (throw f) e = cc

-- The row that the id finds is known.
Knows-found :
    (s : FinanceStore) (existing : Payment) (id : ℕ)
    → find_payment id s.payments ≡ some existing
    → Knows existing s
Knows-found s existing id found q h =
    let same_id = find-id id s.payments existing found in
    let equal : q ≡ existing = cc (h, found, ap (λ k. find_payment k s.payments) same_id) in
    ap (λ (p : Payment). p.student_fee_id) equal

module _ (prefix : Text) (now : ℕ) (actor : Option ℕ) where
  verify_attempt-IsConsistent :
      {s : FinanceStore} (others : FinanceStore → FinanceStore) (existing : Payment)
      → IsFair existing others
      → IsConsistent s
      → Knows existing s
      → IsConsistent (store_of (verify_attempt prefix now actor others existing s))
        × Knows existing (others s)
  unfolding verify_attempt
  verify_attempt-IsConsistent {s} others existing fair c known =
      let number = next_receipt_number prefix existing.paid_at s.payments in
      let s' = others s in
      let c' = fair.consistent s c in
      let known' = fair.keeps s known in
      let settled =
        recalculate-IsConsistent c' existing.id existing.student_fee_id is_pending
          (mark_verified number now actor) (mark_verified-IsMarking number now actor) known' in
      elim (Bool-cases (matching existing.id is_pending s'.payments == 0)) [
        | inl gone ↦ rw gone (c', known')
        | inr there ↦ elim (Bool-cases (is_taken existing.id number s'.payments)) [
          | inl taken ↦ rw (there, taken) (c', known')
          | inr free ↦ rw (there, free) (attempt_of-IsConsistent _ c' (settled there), known')
        ]
      ]

  -- A clash of receipt numbers leaves what the others have committed.
  violation-store :
      (others : FinanceStore → FinanceStore) (existing : Payment) (s s' : FinanceStore)
      → verify_attempt prefix now actor others existing s ≡ unique_violation s'
      → s' ≡ others s
  unfolding verify_attempt
  violation-store others existing s s' e =
      let number = next_receipt_number prefix existing.paid_at s.payments in
      let t = others s in
      let written = update_payment existing.id is_pending (mark_verified number now actor) t in
      violation_case s' t (matching existing.id is_pending t.payments == 0)
        (is_taken existing.id number t.payments)
        (recalculate_invoice existing.student_fee_id written) e

  verify_loop-IsConsistent :
      {s : FinanceStore} (left : ℕ) (others : ℕ → FinanceStore → FinanceStore) (existing : Payment)
      → ((n : ℕ) → IsFair existing (others n))
      → IsConsistent s
      → Knows existing s
      → IsConsistent (verify_loop prefix now actor left others existing s).1
  unfolding verify_loop
  verify_loop-IsConsistent zero others existing fair c known = c
  verify_loop-IsConsistent {s} (suc left) others existing fair c known =
      let (kept, known') = verify_attempt-IsConsistent (others left) existing (fair left) c known in
      by_attempt (verify_attempt prefix now actor (others left) existing s) kept
        (λ s' e c'.
          verify_loop-IsConsistent left others existing fair c'
            (subst (Knows existing) (sym (violation-store (others left) existing s s' e)) known'))
        refl
    where
      by_attempt :
          (a : Attempt)
          → IsConsistent (store_of a)
          → ((s' : FinanceStore)
              → verify_attempt prefix now actor (others left) existing s ≡ unique_violation s'
              → IsConsistent s'
              → IsConsistent (verify_loop prefix now actor left others existing s').1)
          → verify_attempt prefix now actor (others left) existing s ≡ a
          → IsConsistent (verify_loop prefix now actor (suc left) others existing s).1
      by_attempt (committed s') k retry e = rw (e, verify_loop) k
      by_attempt (unique_violation s') k retry e = rw (e, verify_loop) (retry s' e k)
      by_attempt (aborted f s') k retry e = rw (e, verify_loop) k

  -- From consistent rows, verifying a payment, whatever its outcome and whatever fair writers commit
  -- during each of its attempts, leaves every invoice's amount paid the sum of its verified payments,
  -- its status the one that the money and the last decision give, and every row found by its id.
  pub verify-IsConsistent :
      (others : ℕ → FinanceStore → FinanceStore) (id : ℕ) (s : FinanceStore)
      → ((existing : Payment) (n : ℕ)
          → find_payment id s.payments ≡ some existing
          → IsFair existing (others n))
      → IsConsistent s
      → IsConsistent (verify prefix now actor others id s).1
  unfolding verify
  verify-IsConsistent others id s fair c = elim (Option-cases (find_payment id s.payments)) [
    | inl missing ↦ rw (missing, verify) c
    | inr (existing, found) ↦
        let known = Knows-found s existing id found in
        let looped =
          verify_loop-IsConsistent 5 others existing (λ n. fair existing n found) c known in
        elim (Bool-cases (is_verified existing.status || is_rejected existing.status)) [
          | inl decided ↦ rw (found, verify, decided) c
          | inr open' ↦ rw (found, verify, open') looped
        ]
  ]

-- Rejecting a payment keeps the rows consistent too, verified before or not.
pub reject-IsConsistent :
    (now : ℕ) (actor : Option ℕ) (others : FinanceStore → FinanceStore) (id : ℕ) (reason : Text)
    (s s' : FinanceStore)
    → ((existing : Payment) → find_payment id s.payments ≡ some existing → IsFair existing others)
    → IsConsistent s
    → reject now actor others id reason s ≡ ok s'
    → IsConsistent s'
unfolding reject
reject-IsConsistent now actor others id reason s s' fair c e =
    let (existing, e₀, e₁) = >>=-eq-ok (or_throw (find_payment id s.payments) not_found) _ e in
    let found = or_throw-eq-ok (find_payment id s.payments) not_found e₀ in
    let (_, _, e₂) = >>=-eq-ok (throw_if (is_rejected existing.status) conflict) _ e₁ in
    let gone = matching id is_live (others s).payments == 0 in
    let (_, there, e₃) = >>=-eq-ok (throw_if gone conflict) _ e₂ in
    let same_id = find-id id s.payments existing found in
    let known = (fair existing found).keeps s (Knows-found s existing id found) in
    recalculate-IsConsistent ((fair existing found).consistent s c) id existing.student_fee_id
      is_live (mark_rejected reason now actor) (mark_rejected-IsMarking reason now actor)
      (λ q h. known q (ap (λ k. find_payment k (others s).payments) same_id ∙ h))
      (throw_if-eq-ok gone conflict there) s' e₃
