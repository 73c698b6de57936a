-- ===== src/Tenancy/Guard/Isolation.antt =====
-- What reaches the engine from an operation of src/database/tenant-guard.extension.ts.
use mathlib.Core.Path.{ap₂, subst}
use edu_gear_back_end.Common.{
  List, if◌then◌else◌, ℕ, ◌≡◌, refl, sym, ap, ◌∙◌, Bool, true, false, ◌||◌, Option, none, some, [],
  ◌∷◌, All,
}
use edu_gear_back_end.Tenancy.Guard.{
  guard_for, all_operations, apply_tenant, ◌>>=◌, Operation, Row, Args, filters, finds_unique,
  creates, field_of, set_field, Guarded, passed, refused, guard_where, apply_to, assert_update,
  is_upsert, is_update, guard_args, Context, assert_no_tenant_override,
}
use edu_gear_back_end.Tenancy.Guard.Meaning.{guard_where-holds, field_of-set_field, is_matched}

bind-eq-passed :
    {A B : Type 0} (m : Guarded A) (f : A → Guarded B) {b : B}
    → (m >>= f) ≡ passed b
    → (a : A) × (m ≡ passed a) × (f a ≡ passed b)
bind-eq-passed (passed a) f h = (a, refl, h)
bind-eq-passed (refused e) f h = cc

-- What the guard has done to the arguments that it lets through.
record Checked (field tenant : ℕ) (operation : Operation) (args out : Args) : Type 0 where
  where_clause : out.filter_by ≡ guard_where field tenant operation args.filter_by
  applied : apply_to field tenant (creates operation) args.rows ≡ passed out.rows
  upserted : apply_to field tenant (is_upsert operation) args.create_row ≡ passed out.create_row
  updated : assert_update field tenant (is_update operation) args.update_row ≡ passed tt

guard_args-Checked :
    (field tenant : ℕ) (operation : Operation) (args out : Args)
    → guard_args field tenant operation args ≡ passed out
    → Checked field tenant operation args out
unfolding guard_args
guard_args-Checked field tenant operation args out e =
    let (rows, e₀, e₁) = bind-eq-passed (apply_to field tenant (creates operation) args.rows) _ e in
    let (created, e₂, e₃) =
      bind-eq-passed (apply_to field tenant (is_upsert operation) args.create_row) _ e₁ in
    let (_, _, e₄) =
      bind-eq-passed (assert_update field tenant (is_upsert operation) args.update_row) _ e₃ in
    let (_, e₅, e₆) =
      bind-eq-passed (assert_update field tenant (is_update operation) args.update_row) _ e₄ in
    record {
      where_clause = cc e₆;
      applied = e₀ ∙ ap passed (cc e₆);
      upserted = e₂ ∙ ap passed (cc e₆);
      updated = e₅;
    }

guard_for-passed :
    (field : ℕ) (owner : Option ℕ) (operation : Operation) (args out : Args)
    → guard_for field owner operation args ≡ passed out
    → (tenant : ℕ) × (owner ≡ some tenant) × Checked field tenant operation args out
guard_for-passed field none operation args out e = cc
guard_for-passed field (some tenant) operation args out e =
    (tenant, refl, guard_args-Checked field tenant operation args out e)

-- The context of an operation that went through outside the system scope.
all_operations-passed :
    (field : ℕ) (context : Context) (operation : Operation) (args out : Args)
    → context.system_scope ≡ false
    → all_operations (some field) context operation args ≡ passed out
    → (tenant : ℕ) × (context.tenant ≡ some tenant) × Checked field tenant operation args out
unfolding all_operations
all_operations-passed field context operation args out scoped e =
    guard_for-passed field context.tenant operation args out (
      ap (λ b. if b then passed args else guard_for field context.tenant operation args)
        (sym scoped)
      ∙ e)

apply_tenant-owned :
    (field tenant : ℕ) (rows : List Row) (out : List Row)
    → apply_tenant field tenant rows ≡ passed out
    → All (λ row. field_of field row ≡ some tenant) out
unfolding apply_tenant
apply_tenant-owned field tenant [] out e =
    let it : [] ≡ out = cc e in subst (All (λ row. field_of field row ≡ some tenant)) it tt
apply_tenant-owned field tenant (row ∷ rows) out e =
    let (_, _, e₁) = bind-eq-passed (assert_no_tenant_override field tenant row) _ e in
    let (rows', e₂, e₃) = bind-eq-passed (apply_tenant field tenant rows) _ e₁ in
    let it : set_field field tenant row ∷ rows' ≡ out = cc e₃ in
    subst (All (λ row. field_of field row ≡ some tenant)) it
      (field_of-set_field field tenant row, apply_tenant-owned field tenant rows rows' e₂)

apply_to-owned :
    (field tenant : ℕ) (rows : List Row) (out : Option (List Row))
    → apply_to field tenant true (some rows) ≡ passed out
    → (rows' : List Row) × (out ≡ some rows') × All (λ row. field_of field row ≡ some tenant) rows'
apply_to-owned field tenant rows out e =
    let (rows', e₀, e₁) = bind-eq-passed (apply_tenant field tenant rows) _ e in
    (rows', cc e₁, apply_tenant-owned field tenant rows rows' e₀)

-- An operation with a `where` on a tenant-owned model, outside the system scope, that the guard lets
-- through matches only rows of the context's tenant, however the engine reads the conditions that
-- the guard only carries.
pub all_operations-isolated :
    (meaning : ℕ → Row → Bool) (field : ℕ) (context : Context) (operation : Operation)
    (args out : Args) (row : Row)
    → context.system_scope ≡ false
    → (filters operation || finds_unique operation) ≡ true
    → all_operations (some field) context operation args ≡ passed out
    → is_matched meaning row out.filter_by ≡ true
    → context.tenant ≡ field_of field row
all_operations-isolated meaning field context operation args out row scoped guarded e matched =
    let (tenant, found, checked) =
      all_operations-passed field context operation args out scoped e in
    found
    ∙ sym (
        guard_where-holds meaning field tenant operation args.filter_by row guarded
          (ap (is_matched meaning row) (sym checked.where_clause) ∙ matched))

-- Every row that a create operation on a tenant-owned model writes, outside the system scope, when
-- the guard lets it through, belongs to the context's tenant.
pub all_operations-created :
    (field : ℕ) (context : Context) (operation : Operation) (args out : Args) (rows : List Row)
    → context.system_scope ≡ false
    → creates operation ≡ true
    → args.rows ≡ some rows
    → all_operations (some field) context operation args ≡ passed out
    → (written : List Row) × (out.rows ≡ some written)
      × All (λ row. context.tenant ≡ field_of field row) written
all_operations-created field context operation args out rows scoped creating given e =
    let (tenant, found, checked) =
      all_operations-passed field context operation args out scoped e in
    let applied =
      ap₂ (λ b r. apply_to field tenant b r) (sym creating) (sym given) ∙ checked.applied in
    let (written, same, owned) = apply_to-owned field tenant rows out.rows applied in
    (written, same, all_owned field found written owned)
  where
    all_owned :
        {owner : Option ℕ} {tenant : ℕ} (field : ℕ)
        → owner ≡ some tenant
        → (rows : List Row) → All (λ row. field_of field row ≡ some tenant) rows
        → All (λ row. owner ≡ field_of field row) rows
    all_owned field found [] h = tt
    all_owned field found (row ∷ rows) h = (found ∙ sym h.0, all_owned field found rows h.1)
