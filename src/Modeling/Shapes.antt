-- ===== src/Modeling/Shapes.antt =====
-- The checks that `prefill` and the append behind it make of a prompt and its tensors
-- (modeling/executor.py, kv/tree_state.py), read backwards.
use autotree.Base.{
  ℕ, zero, suc, ◌<◌, ◌≡◌, refl, ap, sym, ◌∙◌, subst, Bool, true, false, List, [], ◌∷◌, map, length,
  ◌==◌, not, ◌&&◌, list_equal_sound, if◌then◌else◌, arith,
}
use autotree.Kv.Errors.{ok-injective, Error, value_error, Result, ok, err}
use autotree.Kv.Config.{PoolConfig}
use autotree.Kv.Pool.{Row, range_from}
use autotree.Kv.Append.{
  Tensor, tensor, same_shape, check_pair, validate_tensor_pair, tokens_of_tokens, count_tokens,
  rows_of, row_at, with_count, dtype_tag, token_shape,
}
use autotree.Modeling.{InputIds, flat, nested, normalize_input_ids}
use autotree.Modeling.Calls.{then_}

-- the parts of a chain that did not raise
pub steps :
    {A B : Type 0} (m : Result A) (f : A → Result B) (b : B)
    → then_ m f ≡ ok b
    → (a : A) × ((m ≡ ok a) × (f a ≡ ok b))
steps (ok a) f b e = (a, (refl, e))
steps (err x) f b e = cc

-- a guard that was passed
passed :
    {A : Type 0} (b : Bool) (x : Error) (r : Result A) (a : A)
    → (if b then err x else r) ≡ ok a
    → r ≡ ok a
passed true x r a e = cc
passed false x r a e = e

pub guarded :
    {A : Type 0} (b : Bool) (x : Error) (r : Result A) (a : A)
    → (if not b then err x else r) ≡ ok a
    → b ≡ true
guarded true x r a e = refl
guarded false x r a e = cc

accepted :
    {A : Type 0} (b : Bool) (x : Error) (r : Result A) (a : A)
    → (if b then r else err x) ≡ ok a
    → r ≡ ok a
accepted true x r a e = e
accepted false x r a e = cc

pub normalized-positive :
    (input : InputIds) (ids : List ℕ) → normalize_input_ids input ≡ ok ids → 0 < length ids
normalized-positive (flat []) ids e = cc
normalized-positive (flat (x ∷ xs)) ids e = omega (arith, ap length (ok-injective e))
normalized-positive (nested []) ids e = cc
normalized-positive (nested ([] ∷ [])) ids e = cc
normalized-positive (nested ((x ∷ xs) ∷ [])) ids e = omega (arith, ap length (ok-injective e))
normalized-positive (nested (x ∷ (y ∷ rest))) ids e = cc

check_pair-same :
    (c : PoolConfig) (k v : Tensor) (p : Tensor × Tensor) → check_pair c k v ≡ ok p → (k, v) ≡ p
check_pair-same c k v p e = ok-injective (
    passed (not (k.device == c.device && v.device == c.device)) value_error (ok (k, v)) p (
      passed
        (not (dtype_tag k.dtype == dtype_tag c.dtype && dtype_tag v.dtype == dtype_tag c.dtype))
        value_error _ p
        (passed (not (k.strided && v.strided)) value_error _ p
          (passed (not (same_shape k.shape v.shape)) value_error _ p e))))

counted_known :
    (c : PoolConfig) (l n h d m : ℕ) → count_tokens c (l ∷ (n ∷ (h ∷ (d ∷ [])))) ≡ ok m → n ≡ m
counted_known c l n h d m e =
    ok-injective (accepted (same_shape (l ∷ (h ∷ (d ∷ []))) (token_shape c)) value_error (ok n) m e)

counted_tokens :
    (c : PoolConfig) (shape : List ℕ) (l n h d m : ℕ)
    → same_shape shape (l ∷ (n ∷ (h ∷ (d ∷ [])))) ≡ true
    → count_tokens c shape ≡ ok m
    → n ≡ m
counted_tokens c shape l n h d m same e =
    let shape_eq =
      list_equal_sound ◌==◌ (λ x y q. ground (arith, q)) shape (l ∷ (n ∷ (h ∷ (d ∷ [])))) same in
    counted_known c l n h d m (subst (λ s. count_tokens c s ≡ ok m) shape_eq e)

counted_rows :
    (c : PoolConfig) (k v : Tensor) (r : Result ℕ) (rows : List Row)
    → with_count c (k, v) r ≡ ok rows
    → (m : ℕ) × ((r ≡ ok m) × (rows_of c k v m ≡ rows))
counted_rows c k v (ok m) rows e = (m, (refl, ok-injective e))
counted_rows c k v (err x) rows e = cc

length-rows :
    (c : PoolConfig) (k v : Tensor) (lo n : ℕ) → length (map (row_at c k v) (range_from lo n)) ≡ n
length-rows c k v lo zero = refl
length-rows c k v lo (suc n) = ap suc (length-rows c k v (suc lo) n)

-- the rows that pass the checks are as many as the shape says
pub shaped_rows :
    (c : PoolConfig) (k v : Tensor) (pair : Tensor × Tensor) (rows : List Row) (l n h d : ℕ)
    → same_shape k.shape (l ∷ (n ∷ (h ∷ (d ∷ [])))) ≡ true
    → validate_tensor_pair c (tensor k) (tensor v) ≡ ok pair
    → tokens_of_tokens c pair ≡ ok rows
    → length rows ≡ n
unfolding validate_tensor_pair
shaped_rows c k v pair rows l n h d same good e =
    let e' =
      subst (λ (p : Tensor × Tensor). tokens_of_tokens c p ≡ ok rows)
        (sym (check_pair-same c k v pair good)) e in
    let (m, (counted, made)) = counted_rows c k v (count_tokens c k.shape) rows e' in
    let known = counted_tokens c k.shape l n h d m same counted in
    ap length (sym made) ∙ (length-rows c k v 0 m ∙ sym known)
