-- ===== src/Common/Faults.antt =====
-- The result of a handler: a value, or the `AppException` that it throws.
use mathlib.Core.Path.{◌≡◌, refl}
use mathlib.Core.Bool.{Bool, true, false}
use mathlib.Core.Option.{Option, none, some}
use edu_gear_back_end.Common.Tests.{if◌then◌else◌}

-- The kinds of `AppException` (src/common/errors), by status and error code.
pub data Fault : Type 0 where
  bad_request not_found conflict unauthorized forbidden internal : Fault
  invalid_credentials token_invalid token_reused token_expired : Fault
  account_locked account_inactive membership_inactive school_inactive : Fault
  tenant_denied insufficient_permissions : Fault

-- What a handler gives back: the fault it throws, or its value.
pub data Outcome {ℓ} (A : Type ℓ) : Type ℓ where
  throw : Fault → Outcome A
  ok : A → Outcome A

-- `if (test) throw e`
abbrev pub throw_if : Bool → Fault → Outcome (Unit {0})
throw_if test fault = if test then throw fault else ok tt

-- `const a = await …; if (!a) throw e`
abbrev pub or_throw {ℓ} : {A : Type ℓ} → Option A → Fault → Outcome A
or_throw none e = throw e
or_throw (some a) e = ok a

-- `await` of a handler that may throw, and the rest of the block.
module _ {ℓ κ} {A : Type ℓ} {B : Type κ} where
  infixl 5 ◌>>=◌
  abbrev pub ◌>>=◌ : Outcome A → (A → Outcome B) → Outcome B
  throw fault >>= rest = throw fault
  ok value >>= rest = rest value

  -- A block that returned went through its first statement.
  pub >>=-eq-ok :
      (first : Outcome A) (rest : A → Outcome B) {b : B}
      → (first >>= rest) ≡ ok b
      → (value : A) × (first ≡ ok value) × (rest value ≡ ok b)
  >>=-eq-ok (throw fault) rest e = cc
  >>=-eq-ok (ok value) rest e = (value, refl, e)

infixl 5 ◌>>◌
abbrev pub ◌>>◌ {κ} : {B : Type κ} → Outcome (Unit {0}) → Outcome B → Outcome B
first >> rest = first >>= λ done. rest

pub or_throw-eq-ok {ℓ} :
    {A : Type ℓ} (o : Option A) (e : Fault) {a : A} → or_throw o e ≡ ok a → o ≡ some a
or_throw-eq-ok none e h = cc
or_throw-eq-ok (some a) e h = cc

pub throw_if-eq-ok : (b : Bool) (e : Fault) {u : Unit {0}} → throw_if b e ≡ ok u → b ≡ false
throw_if-eq-ok true e h = cc
throw_if-eq-ok false e h = refl
