-- ===== src/Tenancy/Guard/Meaning.antt =====
-- How the engine reads a `where` of src/database/tenant-guard.extension.ts: as the conjunction of
-- its conditions, where the meaning of an `opaque` condition is a parameter.
use edu_gear_back_end.Common.{
  ◌==◌, if◌then◌else◌, ==_iff, Bool-cases, and-eq-true, ℕ, ◌≡◌, refl, sym, ap, ◌∙◌, inl, inr, Bool,
  true, false, ◌&&◌, ◌||◌, Option, none, some, [], ◌∷◌,
}
use edu_gear_back_end.Tenancy.Guard.{
  Operation, Where, fields, opaque, both, Row, filters, finds_unique, field_of, set_field,
  with_tenant_filter, with_tenant_column, guard_where,
}

abbrev pub is_value : ℕ → Option ℕ → Bool
is_value v none = false
is_value v (some w) = w == v

abbrev pub has_fields : Row → Row → Bool
has_fields row [] = true
has_fields row ((f, v) ∷ fs) = is_value v (field_of f row) && has_fields row fs

module _ (meaning : ℕ → Row → Bool) where
  -- Whether a stored row satisfies the `where`.
  abbrev pub holds : Row → Where → Bool
  holds row (fields fs) = has_fields row fs
  holds row (opaque c) = meaning c row
  holds row (both a b) = holds row a && holds row b

  abbrev pub is_matched : Row → Option Where → Bool
  is_matched row none = true
  is_matched row (some w) = holds row w

is_value-eq : (v : ℕ) (o : Option ℕ) → is_value v o ≡ true → o ≡ some v
is_value-eq v none e = cc
is_value-eq v (some w) e = ap some ((==_iff w v).0 e)

set_field-has :
    (field tenant : ℕ) (given row : Row)
    → has_fields row (set_field field tenant given) ≡ true
    → field_of field row ≡ some tenant
unfolding set_field
set_field-has field tenant [] row e =
    is_value-eq tenant (field_of field row) (and-eq-true _ true e).0
set_field-has field tenant ((f, v) ∷ given) row e = elim (Bool-cases (f == field)) [
  | inl here ↦
      let h =
        ap
          (λ b.
            has_fields row
              (if b then (f, tenant) ∷ given else (f, v) ∷ set_field field tenant given))
          (sym here)
        ∙ e in
      ap (λ k. field_of k row) (sym ((==_iff f field).0 here))
      ∙ is_value-eq tenant (field_of f row) (and-eq-true _ _ h).0
  | inr other ↦
      let h =
        ap
          (λ b.
            has_fields row
              (if b then (f, tenant) ∷ given else (f, v) ∷ set_field field tenant given))
          (sym other)
        ∙ e in
      set_field-has field tenant given row (and-eq-true _ _ h).1
]

pub field_of-set_field :
    (field tenant : ℕ) (row : Row) → field_of field (set_field field tenant row) ≡ some tenant
unfolding field_of set_field
field_of-set_field field tenant [] = rw ((==_iff field field).1 refl) refl
field_of-set_field field tenant ((f, v) ∷ row) = elim (Bool-cases (f == field)) [
  | inl here ↦ rw (here, here) refl
  | inr other ↦ rw (other, other) (field_of-set_field field tenant row)
]

own_field :
    (meaning : ℕ → Row → Bool) (field tenant : ℕ) (row : Row)
    → holds meaning row (fields ((field, tenant) ∷ [])) ≡ true
    → field_of field row ≡ some tenant
own_field meaning field tenant row e =
    is_value-eq tenant (field_of field row) (and-eq-true _ true e).0

filter_holds :
    (meaning : ℕ → Row → Bool) (field tenant : ℕ) (given : Option Where) (row : Row)
    → holds meaning row (with_tenant_filter field tenant given) ≡ true
    → field_of field row ≡ some tenant
filter_holds meaning field tenant none row e = own_field meaning field tenant row e
filter_holds meaning field tenant (some w) row e =
    own_field meaning field tenant row (and-eq-true (holds meaning row w) _ e).1

column_holds :
    (meaning : ℕ → Row → Bool) (field tenant : ℕ) (given : Option Where) (row : Row)
    → holds meaning row (with_tenant_column field tenant given) ≡ true
    → field_of field row ≡ some tenant
column_holds meaning field tenant none row e = own_field meaning field tenant row e
column_holds meaning field tenant (some (fields fs)) row e = set_field-has field tenant fs row e
column_holds meaning field tenant (some (opaque c)) row e =
    own_field meaning field tenant row (and-eq-true (meaning c row) _ e).1
column_holds meaning field tenant (some (both a b)) row e =
    own_field meaning field tenant row (and-eq-true (holds meaning row (both a b)) _ e).1

pub guard_where-holds :
    (meaning : ℕ → Row → Bool) (field tenant : ℕ) (operation : Operation) (given : Option Where)
    (row : Row)
    → (filters operation || finds_unique operation) ≡ true
    → is_matched meaning row (guard_where field tenant operation given) ≡ true
    → field_of field row ≡ some tenant
guard_where-holds meaning field tenant operation given row guarded e =
    elim (Bool-cases (filters operation)) [
      | inl f ↦ filter_holds meaning field tenant given row (
          ap
            (λ b. is_matched meaning row (
              if b
              then some (with_tenant_filter field tenant given)
              else if finds_unique operation
              then some (with_tenant_column field tenant given)
              else given))
            (sym f)
          ∙ e)
      | inr f ↦
          let u : finds_unique operation ≡ true =
            ap (λ b. b || finds_unique operation) (sym f) ∙ guarded in
          column_holds meaning field tenant given row (
            ap
              (λ b.
                is_matched meaning row
                  (if b then some (with_tenant_column field tenant given) else given))
              (sym u)
            ∙ ap
                (λ b. is_matched meaning row (
                  if b
                  then some (with_tenant_filter field tenant given)
                  else if finds_unique operation
                  then some (with_tenant_column field tenant given)
                  else given))
                (sym f)
            ∙ e)
    ]
