-- ===== src/Finance/Payments/Consistent.antt =====
-- What it means for the rows of fees and payments to agree (src/finance/payments.service.ts).
use mathlib.Core.Path.{ap₂}
use mathlib.Core.Option
use edu_gear_back_end.Common.Members.{Has-of-map}
use edu_gear_back_end.Finance.Payments.{recalculated}
use edu_gear_back_end.Common.Int.{ℤ, pos, ◌+ℤ◌, int_laws, sum_ℤ}
use edu_gear_back_end.Common.{
  ◌==◌, if◌then◌else◌, ==_iff, Bool-cases, filter, Has, ℕ, ◌≡◌, refl, sym, ap, ◌∙◌, inl, inr, Bool,
  false, ◌&&◌, Option, none, some, List, [], ◌∷◌, map, arith,
}
use edu_gear_back_end.Finance.FeeMath.Laws.{sum-map}
use edu_gear_back_end.Finance.FeeMath.{
  StudentFeeStatus, unpaid, partial, paid, waived, cancelled, InvoiceAmounts, derive_status,
}
use edu_gear_back_end.Finance.Ledger.{PaymentStatus, is_verified}
use edu_gear_back_end.Finance.Store.{
  StudentFee, Payment, FinanceStore, find_fee, find_payment, update_fee, update_payment, sum_of,
}

-- Each invoice's amount paid is the sum of its verified payments and its status follows the money,
-- and an id finds its row.
pub record IsConsistent (s : FinanceStore) : Type 0 where
  pub keyed : (p : Payment) → Has p s.payments → find_payment p.id s.payments ≡ some p
  pub fees_keyed : (f : StudentFee) → Has f s.fees → find_fee f.id s.fees ≡ some f
  pub paid :
      (f : StudentFee) → Has f s.fees → f.amounts.amount_paid ≡ sum_of is_verified f.id s.payments
  pub status : (f : StudentFee) → Has f s.fees → f.status ≡ derive_status f.amounts (some f.status)

-- A status that was derived follows the money.
pub derive_status_again :
    (a : InvoiceAmounts) (current : Option StudentFeeStatus)
    → derive_status a (some (derive_status a current)) ≡ derive_status a current
unfolding derive_status
derive_status_again a none = ground arith
derive_status_again a (some unpaid) = ground arith
derive_status_again a (some partial) = ground arith
derive_status_again a (some paid) = ground arith
derive_status_again a (some waived) = refl
derive_status_again a (some cancelled) = refl

-- What a payment adds to the sum of an invoice.
abbrev pub share : (PaymentStatus → Bool) → ℕ → Payment → ℤ
share test id p = if p.student_fee_id == id && test p.status then p.amount else pos 0

pub sum_of-sum_ℤ :
    (test : PaymentStatus → Bool) (id : ℕ) (ps : List Payment)
    → sum_of test id ps ≡ sum_ℤ (share test id) ps
unfolding sum_of
sum_of-sum_ℤ test id ps =
    sum-map (λ (p : Payment). p.amount) (filter (λ p. p.student_fee_id == id && test p.status) ps)
    ∙ shares ps
  where
    shares :
        (qs : List Payment)
        → sum_ℤ (λ p. p.amount) (filter (λ p. p.student_fee_id == id && test p.status) qs)
          ≡ sum_ℤ (share test id) qs
    shares [] = refl
    shares (q ∷ qs) = elim (Bool-cases (q.student_fee_id == id && test q.status)) [
      | inl h ↦ rw h (ap (λ t. q.amount +ℤ t) (shares qs))
      | inr h ↦ rw h (shares qs ∙ zero_add (sum_ℤ (share test id) qs))
    ]
      where
        zero_add : (a : ℤ) → a ≡ pos 0 +ℤ a
        zero_add a = omega int_laws

sum_ℤ-map_same :
    {A : Type 0} (f : A → ℤ) (g : A → A) (xs : List A)
    → ((x : A) → Has x xs → f (g x) ≡ f x)
    → sum_ℤ f (map g xs) ≡ sum_ℤ f xs
sum_ℤ-map_same f g [] h = refl
sum_ℤ-map_same f g (x ∷ xs) h =
    ap₂ ◌+ℤ◌ (h x (inl refl)) (sum_ℤ-map_same f g xs (λ y k. h y (inr k)))

-- A change of payments under which each row adds what it did leaves the sum.
pub sum_of-map :
    (test : PaymentStatus → Bool) (id : ℕ) (change : Payment → Payment) (ps : List Payment)
    → ((p : Payment) → Has p ps → share test id (change p) ≡ share test id p)
    → sum_of test id (map change ps) ≡ sum_of test id ps
sum_of-map test id change ps h =
    sum_of-sum_ℤ test id (map change ps)
    ∙ sum_ℤ-map_same (share test id) change ps h
    ∙ sym (sum_of-sum_ℤ test id ps)

-- A change to one payment that leaves its id, its invoice and its amount.
pub record IsMarking (change : Payment → Payment) : Type 0 where
  pub same_id : (p : Payment) → (change p).id ≡ p.id
  pub same_fee : (p : Payment) → (change p).student_fee_id ≡ p.student_fee_id
  pub same_amount : (p : Payment) → (change p).amount ≡ p.amount

-- The change that `update_payment` makes to a row.
abbrev pub marked : ℕ → (PaymentStatus → Bool) → (Payment → Payment) → Payment → Payment
marked id test change p = if p.id == id && test p.status then change p else p

find-map :
    (id : ℕ) (test : PaymentStatus → Bool) (change : Payment → Payment) (k : ℕ) (ps : List Payment)
    → IsMarking change
    → find_payment k (map (marked id test change) ps)
      ≡ Option.map (marked id test change) (find_payment k ps)
find-map id test change k [] m = refl
find-map id test change k (p ∷ ps) m = ground (arith, find-map id test change k ps m, m.same_id p)

-- A change to one invoice that leaves its id.
pub find_fee-map :
    (id : ℕ) (change : StudentFee → StudentFee) (k : ℕ) (fs : List StudentFee)
    → ((f : StudentFee) → (change f).id ≡ f.id)
    → find_fee k (map (λ (f : StudentFee). if f.id == id then change f else f) fs)
      ≡ Option.map (λ (f : StudentFee). if f.id == id then change f else f) (find_fee k fs)
find_fee-map id change k [] h = refl
find_fee-map id change k (f ∷ fs) h = ground (arith, find_fee-map id change k fs h, h f)

-- An update of an invoice that keeps ids keeps the keys.
pub update_fee-keyed :
    (id : ℕ) (change : StudentFee → StudentFee) (fs : List StudentFee)
    → ((f : StudentFee) → (change f).id ≡ f.id)
    → ((f : StudentFee) → Has f fs → find_fee f.id fs ≡ some f)
    → (f : StudentFee) → Has f (map (λ (g : StudentFee). if g.id == id then change g else g) fs)
    → find_fee f.id (map (λ (g : StudentFee). if g.id == id then change g else g) fs) ≡ some f
update_fee-keyed id change fs h keyed f k =
    let update : (StudentFee → StudentFee) = λ g. if g.id == id then change g else g in
    let (g, listed, e) = Has-of-map update fs f k in
    let same : (update g).id ≡ g.id = ground (arith, h g) in
    rw (e, same) (find_fee-map id change g.id fs h ∙ ap (Option.map update) (keyed g listed))

-- The rows that share an id are one row.
pub one_row :
    (ps : List Payment) (p q : Payment)
    → find_payment p.id ps ≡ some p
    → find_payment q.id ps ≡ some q
    → p.id ≡ q.id
    → p ≡ q
one_row ps p q e e' h = cc (e, e', ap (λ k. find_payment k ps) h)

module _ {s : FinanceStore} (c : IsConsistent s) (existing : Payment) (test : PaymentStatus → Bool)
    (change : Payment → Payment) (m : IsMarking change)
    (found : find_payment existing.id s.payments ≡ some existing) where
  -- The sums of the other invoices stay.
  sum_of-others :
      (id : ℕ)
      → (id == existing.student_fee_id) ≡ false
      → sum_of is_verified id (map (marked existing.id test change) s.payments)
        ≡ sum_of is_verified id s.payments
  sum_of-others id other =
      sum_of-map is_verified id (marked existing.id test change) s.payments λ p h.
        elim (Bool-cases (p.id == existing.id && test p.status)) [
          | inr e ↦ rw e
          | inl e ↦ rw e (unrelated p h (ground arith))
        ]
    where
      unrelated :
          (p : Payment)
          → Has p s.payments
          → p.id ≡ existing.id
          → share is_verified id (change p) ≡ share is_verified id p
      unrelated p h e =
          let equal : p ≡ existing = one_row s.payments p existing (c.keyed p h) found e in
          let fee : p.student_fee_id ≡ existing.student_fee_id =
            ap (λ (q : Payment). q.student_fee_id) equal in
          ground (arith, m.same_fee p)

  -- The rows after the payment is marked and its invoice rebuilt.
  abbrev settled : FinanceStore
  settled =
      let s' = update_payment existing.id test change s in
      update_fee existing.student_fee_id
        (recalculated (sum_of is_verified existing.student_fee_id s'.payments)) s'

  marked_id : (p : Payment) → (marked existing.id test change p).id ≡ p.id
  marked_id p = ground (arith, m.same_id p)

  settled_keyed :
      (p : Payment) → Has p settled.payments → find_payment p.id settled.payments ≡ some p
  settled_keyed p h =
      let (q, listed, e) = Has-of-map (marked existing.id test change) s.payments p h in
      rw (e, marked_id q)
        (find-map existing.id test change q.id s.payments m
          ∙ ap (Option.map (marked existing.id test change)) (c.keyed q listed))

  fee_paid :
      (f : StudentFee)
      → Has f s.fees
      → let total = sum_of is_verified existing.student_fee_id settled.payments in
        let f' = if f.id == existing.student_fee_id then recalculated total f else f in
        (f'.amounts.amount_paid ≡ sum_of is_verified f'.id settled.payments)
        × (f'.status ≡ derive_status f'.amounts (some f'.status))
  fee_paid f h = elim (Bool-cases (f.id == existing.student_fee_id)) [
    | inl here ↦ rw here (
      ap (λ k. sum_of is_verified k settled.payments)
          (sym ((==_iff f.id existing.student_fee_id).0 here)),
      sym (derive_status_again _ (some f.status)),
    )
    | inr other ↦ rw other (c.paid f h ∙ sym (sum_of-others f.id other), c.status f h)
  ]

  pub settled-IsConsistent : IsConsistent settled
  settled-IsConsistent = record {
    keyed = settled_keyed;
    fees_keyed =
        update_fee-keyed existing.student_fee_id
          (recalculated (sum_of is_verified existing.student_fee_id settled.payments)) s.fees
          (λ f. refl) c.fees_keyed;
    paid = λ f h. let (g, listed, e) = Has-of-map _ s.fees f h in rw e (fee_paid g listed).0;
    status = λ f h. let (g, listed, e) = Has-of-map _ s.fees f h in rw e (fee_paid g listed).1;
  }
