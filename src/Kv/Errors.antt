-- ===== src/Kv/Errors.antt =====
-- kv/errors.py, with the built-in exceptions that kv/*.py raises. What a message says beyond the
-- numbers is the constructor.
use Prim.Native.Nat.{ℕ}
use mathlib.Core.Path.{◌≡◌, refl, ap}
use mathlib.Core.Logic.{◌⊎◌, inl, inr}
use mathlib.Core.List.{List}

-- the conditions under which `KVInvariantError` is raised
pub data Violation : Type 0 where
  unbound already_bound pool_not_empty : Violation
  free_page_in_use negative_logical_tokens negative_page_count : Violation
  invalid_page_id page_not_allocated page_length_range : Violation
  table_not_covering page_length_mismatch refcount_mismatch : Violation

pub data Error : Type 0 where
  capacity_error : (required_pages available_pages : ℕ) → Error
  invariant_error : Violation → Error
  branch_has_children : (branch_id : ℕ) (live_child_ids : List ℕ) → Error
  key_error : ℕ → Error
  index_error value_error type_error : Error
  -- a loop of the model that used up its fuel
  out_of_fuel : Error

pub data Result {ℓ} (A : Type ℓ) : Type ℓ where
  ok : A → Result A
  err : Error → Result A

pub Result-cases {ℓ} :
    {A : Type ℓ} (r : Result A) → ((e : Error) × (r ≡ err e)) ⊎ ((a : A) × (r ≡ ok a))
Result-cases (ok a) = inr (a, refl)
Result-cases (err e) = inl (e, refl)

result_or {ℓ} : {A : Type ℓ} → A → Result A → A
result_or a (ok b) = b
result_or a (err x) = a

pub ok-injective {ℓ} : {A : Type ℓ} {a b : A} → ok a ≡ ok b → a ≡ b
unfolding result_or
ok-injective {a = a} e = ap (result_or a) e
