-- ===== src/Tenancy/Guard.antt =====
-- src/database/tenant-guard.extension.ts: the arguments of an operation on a tenant-owned model, as
-- the guard passes them on. Column names and values are numbers; a condition on a column other than
-- an equation is one that the guard only carries, `opaque`, read by the engine.
pub mod Meaning
pub mod Isolation
use edu_gear_back_end.Common.{
  ◌==◌, if◌then◌else◌, ◌>>◌, ℕ, Bool, true, false, Option, none, some, List, [], ◌∷◌,
}

-- The operations of a Prisma 6 model.
pub data Operation : Type 0 where
  find_first find_first_or_throw find_many update_many delete_many count_rows aggregate group_by :
      Operation
  find_unique find_unique_or_throw update delete upsert : Operation
  create create_many create_many_and_return update_many_and_return : Operation

-- A `where` object: its columns with the values they must have, or a nested `AND`.
pub data Where : Type 0 where
  fields : List (ℕ × ℕ) → Where
  opaque : ℕ → Where
  both : Where → Where → Where

-- A row of input: the columns that it sets.
abbrev pub Row : Type 0
Row = List (ℕ × ℕ)

-- The arguments of an operation; `createMany` gives `create_data` several rows.
pub record Args : Type 0 where
  pub filter_by : Option Where
  pub rows : Option (List Row)
  pub create_row : Option (List Row)
  pub update_row : Option Row

-- `WHERE_FILTER_OPS.has(operation)`
abbrev pub filters : Operation → Bool
filters find_first = true
filters find_first_or_throw = true
filters find_many = true
filters update_many = true
filters delete_many = true
filters count_rows = true
filters aggregate = true
filters group_by = true
filters _ = false

-- `WHERE_UNIQUE_OPS.has(operation)`
abbrev pub finds_unique : Operation → Bool
finds_unique find_unique = true
finds_unique find_unique_or_throw = true
finds_unique update = true
finds_unique delete = true
finds_unique upsert = true
finds_unique _ = false

-- `CREATE_OPS.has(operation)`
abbrev pub creates : Operation → Bool
creates create = true
creates create_many = true
creates create_many_and_return = true
creates _ = false

-- `record[field]`
unfoldable pub field_of : ℕ → Row → Option ℕ
field_of field [] = none
field_of field ((f, v) ∷ row) = if f == field then some v else field_of field row

-- `{ ...row, [field]: value }`
unfoldable pub set_field : ℕ → ℕ → Row → Row
set_field field value [] = (field, value) ∷ []
set_field field value ((f, v) ∷ row) =
    if f == field then (f, value) ∷ row else (f, v) ∷ set_field field value row

pub data GuardFault : Type 0 where
  context_missing foreign_tenant : GuardFault

pub data Guarded (A : Type 0) : Type 0 where
  passed : A → Guarded A
  refused : GuardFault → Guarded A

infixl 5 ◌>>=◌
abbrev pub ◌>>=◌ : {A B : Type 0} → Guarded A → (A → Guarded B) → Guarded B
passed a >>= f = f a
refused e >>= f = refused e

abbrev pub is_upsert : Operation → Bool
is_upsert upsert = true
is_upsert _ = false

abbrev pub is_update : Operation → Bool
is_update update = true
is_update update_many = true
is_update _ = false

module _ (field tenant : ℕ) where
  -- `withTenantFilter`
  abbrev pub with_tenant_filter : Option Where → Where
  with_tenant_filter none = fields ((field, tenant) ∷ [])
  with_tenant_filter (some given) = both given (fields ((field, tenant) ∷ []))

  -- `{ ...(where ?? {}), [field]: tenantId }`: the flat merge for a unique lookup.
  abbrev pub with_tenant_column : Option Where → Where
  with_tenant_column none = fields ((field, tenant) ∷ [])
  with_tenant_column (some (fields given)) = fields (set_field field tenant given)
  with_tenant_column (some (opaque c)) = both (opaque c) (fields ((field, tenant) ∷ []))
  with_tenant_column (some (both a b)) = both (both a b) (fields ((field, tenant) ∷ []))

  -- `assertNoTenantOverride`
  abbrev pub check_tenant : Option ℕ → Guarded (Unit {0})
  check_tenant none = passed tt
  check_tenant (some value) = if value == tenant then passed tt else refused foreign_tenant

  abbrev pub assert_no_tenant_override : Row → Guarded (Unit {0})
  assert_no_tenant_override row = check_tenant (field_of field row)

  -- `applyTenantToCreateData`, over the rows of an array.
  unfoldable pub apply_tenant : List Row → Guarded (List Row)
  apply_tenant [] = passed []
  apply_tenant (row ∷ rows) =
      let rest = apply_tenant rows in
      do
        _ ← assert_no_tenant_override row
        rows' ← rest
        passed (set_field field tenant row ∷ rows')

  abbrev pub guard_where : Operation → Option Where → Option Where
  guard_where operation given =
      if filters operation
      then some (with_tenant_filter given)
      else if finds_unique operation
      then some (with_tenant_column given)
      else given

  abbrev pub apply_to : Bool → Option (List Row) → Guarded (Option (List Row))
  apply_to false rows = passed rows
  apply_to true none = passed none
  apply_to true (some rows) = do rows' ← apply_tenant rows; passed (some rows')

  abbrev pub assert_update : Bool → Option Row → Guarded (Unit {0})
  assert_update false row = passed tt
  assert_update true none = passed tt
  assert_update true (some row) = assert_no_tenant_override row

  -- The body of `$allOperations` once the tenant is known.
  unfoldable pub guard_args : Operation → Args → Guarded Args
  unfolding apply_tenant
  guard_args operation args = do
    rows ← apply_to (creates operation) args.rows
    created ← apply_to (is_upsert operation) args.create_row
    _ ← assert_update (is_upsert operation) args.update_row
    _ ← assert_update (is_update operation) args.update_row
    passed (record {
      filter_by = guard_where operation args.filter_by;
      rows = rows;
      create_row = created;
      update_row = args.update_row;
    })

-- What `RequestContext` holds.
pub record Context : Type 0 where
  pub system_scope : Bool
  pub tenant : Option ℕ

-- A tenant-owned model outside the system scope.
abbrev pub guard_for : ℕ → Option ℕ → Operation → Args → Guarded Args
guard_for field none operation args = refused context_missing
guard_for field (some tenant) operation args = guard_args field tenant operation args

-- `$allOperations`: `none` for `config` is a model that no tenant owns.
unfoldable pub all_operations : Option ℕ → Context → Operation → Args → Guarded Args
unfolding guard_args
all_operations none context operation args = passed args
all_operations (some field) context operation args =
    if context.system_scope then passed args else guard_for field context.tenant operation args
