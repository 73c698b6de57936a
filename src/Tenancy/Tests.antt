-- ===== src/Tenancy/Tests.antt =====
-- Concrete guarded operations and what reaches the engine from them.
use edu_gear_back_end.Tenancy.Guard.Meaning.{is_matched}
use edu_gear_back_end.Common.{All, ℕ, ◌≡◌, refl, Bool, true, false, none, some, List, [], ◌∷◌}
use edu_gear_back_end.Tenancy.Guard.{
  find_many, create, fields, opaque, both, Row, Args, field_of, set_field, passed, apply_tenant,
  Context, all_operations,
}
use edu_gear_back_end.Tenancy.Guard.Isolation.{all_operations-isolated, all_operations-created}

abbrev context : Context
context = record { system_scope = false; tenant = some 8 }

abbrev query : Args
query = record { filter_by = some (opaque 4); rows = none; create_row = none; update_row = none }

abbrev guarded_query : Args
guarded_query = record query { filter_by = some (both (opaque 4) (fields ((1, 8) ∷ []))) }

query_passed : all_operations (some 1) context find_many query ≡ passed guarded_query
unfolding all_operations
query_passed = refl

abbrev any_row : ℕ → Row → Bool
any_row c row = true

abbrev stored_row : Row
stored_row = (1, 8) ∷ (2, 5) ∷ []

matched_row : is_matched any_row stored_row guarded_query.filter_by ≡ true
unfolding field_of
matched_row = refl

all_operations-isolated_example : context.tenant ≡ field_of 1 stored_row
all_operations-isolated_example =
    all_operations-isolated any_row 1 context find_many query guarded_query stored_row refl refl
      query_passed matched_row

abbrev insertion : Args
insertion = record {
  filter_by = none;
  rows = some (((2, 5) ∷ []) ∷ []);
  create_row = none;
  update_row = none;
}

abbrev guarded_insertion : Args
guarded_insertion = record insertion { rows = some (((2, 5) ∷ (1, 8) ∷ []) ∷ []) }

insertion_passed : all_operations (some 1) context create insertion ≡ passed guarded_insertion
unfolding all_operations apply_tenant set_field field_of
insertion_passed = refl

all_operations-created_example :
    (written : List Row) × (guarded_insertion.rows ≡ some written)
    × All (λ row. context.tenant ≡ field_of 1 row) written
all_operations-created_example =
    all_operations-created 1 context create insertion guarded_insertion (((2, 5) ∷ []) ∷ []) refl
      refl refl insertion_passed
