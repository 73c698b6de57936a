-- ===== src/Finance/StudentFees.antt =====
-- src/finance/student-fees.service.ts: invoices, from the assignment of a fee structure to
-- discounts, waivers and cancellation. Notifications and DTOs are left out, and so are the copied
-- line items, whose amounts are in the total.
pub mod Keeping
use edu_gear_back_end.Common.{
  ltb, ◌==◌, if◌then◌else◌, same, is_none, length, filter, any, find, count, includes, bad_request,
  not_found, conflict, Outcome, ok, throw, ◌>>=◌, ◌>>◌, throw_if, or_throw, ℕ, Bool, false, not,
  ◌&&◌, ◌||◌, Option, none, some, List, [], ◌∷◌, map,
}
use edu_gear_back_end.Common.Int.{ℤ, pos, ltb_ℤ, is_zero}
use edu_gear_back_end.Common.Text.{Text}
use edu_gear_back_end.Finance.FeeMath.{
  StudentFeeStatus, unpaid, paid, waived, cancelled, sum, derive_status,
}
use edu_gear_back_end.Finance.Ledger.{is_cancelled, is_waived}
use edu_gear_back_end.Finance.Store.{StudentFee, Payment, FinanceStore, find_fee, update_fee}
use edu_gear_back_end.Finance.Payments.{is_live}

pub record Student : Type 0 where
  pub id : ℕ
  pub class_arm_id : Option ℕ
  pub is_active : Bool

pub record FeeItem : Type 0 where
  pub id : ℕ
  pub amount : ℤ
  pub is_optional : Bool

pub record FeeStructure : Type 0 where
  pub id : ℕ
  pub is_published : Bool
  pub due_date : Option ℕ
  pub items : List FeeItem

pub record AssignFeeDto : Type 0 where
  pub structure_id : ℕ
  pub class_arm_id : Option ℕ
  pub student_ids : Option (List ℕ)
  pub include_optional_item_ids : List ℕ
  pub due_date : Option ℕ

-- `FeeStructuresService.getPublishedOrThrow` (src/finance/fee-structures.service.ts).
unfoldable pub get_published : ℕ → List FeeStructure → Outcome FeeStructure
get_published id structures = do
  structure ← or_throw (find (λ (t : FeeStructure). t.id == id) structures) not_found
  throw_if (not structure.is_published) conflict
  ok structure

abbrev pub is_arm : ℕ → Option ℕ → Bool
is_arm arm none = false
is_arm arm (some a) = a == arm

abbrev pub in_arm : ℕ → Student → Bool
in_arm arm st = is_arm arm st.class_arm_id && st.is_active

-- `resolveStudents`: the ids of the active students that are named, by an arm or one by one.
unfoldable pub resolve_students : Option ℕ → Option (List ℕ) → List Student → Outcome (List ℕ)
resolve_students (some arm) ids students = do
  let found = filter (in_arm arm) students
  throw_if (length found == 0) conflict
  ok (map (λ (st : Student). st.id) found)
resolve_students none none students = throw bad_request
resolve_students none (some ids) students = do
  let found = filter (λ (st : Student). includes st.id ids && st.is_active) students
  throw_if (not (length found == length ids)) bad_request
  ok (map (λ (st : Student). st.id) found)

abbrev pub item_ids : List FeeItem → List ℕ
item_ids = map (λ (item : FeeItem). item.id)

unfoldable pub billable_items : FeeStructure → List ℕ → Outcome (List FeeItem)
billable_items structure wanted = do
  throw_if (any (λ id. not (includes id (item_ids structure.items))) wanted) bad_request
  ok (filter (λ (item : FeeItem). not item.is_optional || includes item.id wanted) structure.items)

-- `billed`: the students who hold an invoice for the structure.
abbrev pub is_billed : ℕ → List StudentFee → ℕ → Bool
is_billed structure_id fees student_id =
    any (λ (f : StudentFee). f.structure_id == structure_id && f.student_id == student_id) fees

-- `tx.studentFee.create`
abbrev pub new_fee : FeeStructure → ℤ → Option ℕ → ℕ → ℕ → StudentFee
new_fee structure total due id student_id = record {
  id = id;
  student_id = student_id;
  structure_id = structure.id;
  amounts = record { total_amount = total; discount_amount = pos 0; amount_paid = pos 0 };
  status = if is_zero total then paid else unpaid;
  due_date = due;
  waiver_reason = none;
}

-- The loop over the targets; `fresh n` is the id that the database gives to the n-th row.
unfoldable pub create_fees :
    (ℕ → ℕ) → FeeStructure → ℤ → Option ℕ → List ℕ → List StudentFee → List StudentFee
create_fees fresh structure total due [] fees = fees
create_fees fresh structure total due (student_id ∷ targets) fees =
    create_fees fresh structure total due targets
      (new_fee structure total due (fresh (length targets)) student_id ∷ fees)

abbrev pub or_date : Option ℕ → Option ℕ → Option ℕ
or_date none later = later
or_date (some d) later = some d

-- `settings_due` is `settings.defaultDueDate()`.
unfoldable pub assign :
    (ℕ → ℕ)
    → Option ℕ
    → List FeeStructure
    → List Student
    → AssignFeeDto
    → FinanceStore
    → Outcome FinanceStore
unfolding get_published resolve_students billable_items create_fees sum
assign fresh settings_due structures students dto s = do
  throw_if (same (is_none dto.class_arm_id) (is_none dto.student_ids)) bad_request
  structure ← get_published dto.structure_id structures
  ids ← resolve_students dto.class_arm_id dto.student_ids students
  items ← billable_items structure dto.include_optional_item_ids
  let total = sum (map (λ (item : FeeItem). item.amount) items)
  let targets = filter (λ id. not (is_billed dto.structure_id s.fees id)) ids
  let due = or_date dto.due_date (or_date structure.due_date settings_due)
  ok (record s { fees = create_fees fresh structure total due targets s.fees })

-- `assertOpen`
abbrev pub is_closed : StudentFeeStatus → Bool
is_closed status = is_waived status || is_cancelled status

-- `mutateLocked`: a change to the invoice that the lock has found.
abbrev pub mutate_locked :
    ℕ → (StudentFee → Outcome (StudentFee → StudentFee)) → FinanceStore → Outcome FinanceStore
mutate_locked id change s = do
  fee ← or_throw (find_fee id s.fees) not_found
  update ← change fee
  ok (update_fee id update s)

unfoldable pub discount_fee : ℕ → ℤ → Text → FinanceStore → Outcome FinanceStore
unfolding derive_status
discount_fee id amount reason = mutate_locked id λ fee. do
  throw_if (is_closed fee.status) conflict
  throw_if (ltb_ℤ fee.amounts.total_amount amount) bad_request
  let amounts = record (fee.amounts) { discount_amount = amount }
  ok (λ row. record row {
    amounts = record (row.amounts) { discount_amount = amount };
    waiver_reason = some reason;
    status = derive_status amounts none;
  })

unfoldable pub waive_fee : ℕ → Text → FinanceStore → Outcome FinanceStore
waive_fee id reason = mutate_locked id λ fee. do
  throw_if (is_closed fee.status) conflict
  ok (λ row. record row { status = waived; waiver_reason = some reason })

-- The payments that stand in the way of a cancellation: pending or verified.
abbrev pub live_payments : ℕ → List Payment → ℕ
live_payments id = count (λ (p : Payment). p.student_fee_id == id && is_live p.status)

unfoldable pub cancel_fee : ℕ → Text → FinanceStore → Outcome FinanceStore
cancel_fee id reason s =
    mutate_locked id
      (λ fee. do
        throw_if (is_cancelled fee.status) conflict
        throw_if (ltb 0 (live_payments id s.payments)) conflict
        ok (λ row. record row { status = cancelled; waiver_reason = some reason }))
      s
