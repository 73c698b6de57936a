-- ===== src/Finance/Histories.antt =====
-- Histories of fees and payments: any sequence of recordings, verifications, rejections, discounts,
-- waivers and cancellations, one at a time and in any order.
use edu_gear_back_end.Common.{ok, ℕ, ◌≡◌, Option, none}
use edu_gear_back_end.Common.Int.{ℤ}
use edu_gear_back_end.Common.Text.{Text}
use edu_gear_back_end.Finance.Store.{Payment, FinanceStore, find_payment}
use edu_gear_back_end.Finance.Payments.{RecordPaymentDto, record_payment, verify, reject}
use edu_gear_back_end.Finance.Payments.Consistent.{IsConsistent}
use edu_gear_back_end.Finance.Payments.Verifying.{IsFair, verify-IsConsistent, reject-IsConsistent}
use edu_gear_back_end.Finance.Payments.Recording.{record_payment-IsConsistent}
use edu_gear_back_end.Finance.StudentFees.{discount_fee, waive_fee, cancel_fee}
use edu_gear_back_end.Finance.StudentFees.Keeping.{
  waive_fee-IsConsistent, discount_fee-IsConsistent, cancel_fee-IsConsistent,
}

-- No other writer commits during the call.
abbrev pub alone : FinanceStore → FinanceStore
alone s = s

pub alone-IsFair : (existing : Payment) → IsFair existing alone
alone-IsFair existing = record { consistent = λ s c. c; keeps = λ s k. k }

pub data Step (s s' : FinanceStore) : Type 0 where
  recorded :
      (id : ℕ) (placeholder : Text) (actor : Option ℕ) (dto : RecordPaymentDto)
      → find_payment id s.payments ≡ none
      → record_payment id placeholder actor dto s ≡ ok s'
      → Step s s'
  verifying :
      (prefix : Text) (now : ℕ) (actor : Option ℕ) (id : ℕ)
      → s' ≡ (verify prefix now actor (λ n. alone) id s).1
      → Step s s'
  rejecting :
      (now : ℕ) (actor : Option ℕ) (id : ℕ) (reason : Text)
      → reject now actor alone id reason s ≡ ok s'
      → Step s s'
  discounted :
      (id : ℕ) (amount : ℤ) (reason : Text) → discount_fee id amount reason s ≡ ok s' → Step s s'
  waiving : (id : ℕ) (reason : Text) → waive_fee id reason s ≡ ok s' → Step s s'
  cancelling : (id : ℕ) (reason : Text) → cancel_fee id reason s ≡ ok s' → Step s s'

pub data Reach (s : FinanceStore) : FinanceStore → Type 0 where
  here : Reach s s
  next : {t u : FinanceStore} → Reach s t → Step t u → Reach s u

Step-IsConsistent : {s s' : FinanceStore} → IsConsistent s → Step s s' → IsConsistent s'
Step-IsConsistent {s} {s'} c (recorded id placeholder actor dto fresh e) =
    record_payment-IsConsistent id placeholder actor dto s s' fresh c e
Step-IsConsistent {s} c (verifying prefix now actor id e) = rw e (
    verify-IsConsistent prefix now actor (λ n. alone) id s
      (λ existing n found. alone-IsFair existing) c)
Step-IsConsistent {s} {s'} c (rejecting now actor id reason e) =
    reject-IsConsistent now actor alone id reason s s' (λ existing found. alone-IsFair existing) c e
Step-IsConsistent c (discounted id amount reason e) = discount_fee-IsConsistent c id reason amount e
Step-IsConsistent c (waiving id reason e) = waive_fee-IsConsistent c id reason e
Step-IsConsistent c (cancelling id reason e) = cancel_fee-IsConsistent c id reason e

-- After any history of recordings under new ids, verifications, rejections, discounts, waivers and
-- cancellations, one at a time and from consistent rows, each invoice's amount paid is the sum of its
-- verified payments, its status is the one that its amounts and its last decision give, and a row is
-- found by its id.
pub Reach-IsConsistent : {s s' : FinanceStore} → IsConsistent s → Reach s s' → IsConsistent s'
Reach-IsConsistent c here = c
Reach-IsConsistent c (next r st) = Step-IsConsistent (Reach-IsConsistent c r) st
