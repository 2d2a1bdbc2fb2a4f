-- ===== src/Kv/Append.antt =====
-- The appends of kv/tree_state.py. Tensors come from torch: their shape, layout, dtype, device and
-- the bytes of one token in one layer are read off. `Cursor` is the pool with the record at hand.
pub mod Cursors
pub mod Chunk
pub mod Rounds
pub mod Loop
pub mod Copy
pub mod Rows
pub mod Commit
pub mod Outcome
use autotree.Base.{
  ℕ, zero, suc, ◌+◌, ◌-◌, ◌%◌, min, Bool, true, false, not, ◌&&◌, ◌||◌, Option, none, some, List,
  [], ◌∷◌, ◌++◌, map, ltb, ◌==◌, if◌then◌else◌, length, take, drop, splice, ceil_div, get_last?,
  set_last, list_equal,
}
use autotree.Kv.Errors.{
  Error, index_error, value_error, type_error, out_of_fuel, invariant_error, negative_page_count,
  Result, ok, err,
}
use autotree.Kv.Exec.{Exec, pure, raise, raise_if, gets, modify, resume, ◌>>=◌, ◌>>◌}
use autotree.Kv.Config.{PoolConfig, Dtype, float32, float16, bfloat16, unsupported}
use autotree.Kv.Pool.{
  Pool, Row, LayerKv, update, range_from, alloc_page, free, refcount, grow_logical,
  require_capacity, copy_page, set_page_length,
}
use autotree.Kv.Branches.{Branch, put}
use autotree.Kv.Tree.{TreeState, get_record, validate_coverage}

pub record Tensor : Type 0 where
  pub shape : List ℕ
  pub strided : Bool
  pub dtype : Dtype
  pub device : ℕ
  -- the bytes at a layer and a token
  pub entry : ℕ → ℕ → List ℕ

-- what a caller passes: a tensor or another object
pub data Argument : Type 0 where
  tensor : Tensor → Argument
  not_a_tensor : Argument

abbrev pub same_shape : List ℕ → List ℕ → Bool
same_shape = list_equal ◌==◌

abbrev pub dtype_tag : Dtype → ℕ
dtype_tag float32 = 0
dtype_tag float16 = 1
dtype_tag bfloat16 = 2
dtype_tag unsupported = 3

abbrev pub check_pair : PoolConfig → Tensor → Tensor → Result (Tensor × Tensor)
check_pair c k v =
    if not (same_shape k.shape v.shape)
    then err value_error
    else if not (k.strided && v.strided)
    then err value_error
    else if not (dtype_tag k.dtype == dtype_tag c.dtype && dtype_tag v.dtype == dtype_tag c.dtype)
    then err value_error
    else if not (k.device == c.device && v.device == c.device)
    then err value_error
    else ok (k, v)

-- `_validate_tensor_pair`
unfoldable pub validate_tensor_pair : PoolConfig → Argument → Argument → Result (Tensor × Tensor)
validate_tensor_pair c (tensor k) (tensor v) = check_pair c k v
validate_tensor_pair c (tensor k) not_a_tensor = err type_error
validate_tensor_pair c not_a_tensor v = err type_error

-- the column of one token through the layers
abbrev pub row_at : PoolConfig → Tensor → Tensor → ℕ → Row
row_at c k v i = map (λ l. record { k = k.entry l i; v = v.entry l i }) (range_from 0 c.num_layers)

abbrev pub rows_of : PoolConfig → Tensor → Tensor → ℕ → List Row
rows_of c k v n = map (row_at c k v) (range_from 0 n)

pub record Cursor : Type 0 where
  pub pool : Pool
  pub record_ : Branch

abbrev pooled : {A : Type 0} → Exec Pool A → Exec Cursor A
pooled m c = let (r, p) = m c.pool in (r, record c { pool = p })

abbrev or_index_error : Option ℕ → Exec Cursor ℕ
or_index_error none c = (err index_error, c)
or_index_error (some pid) c = (ok pid, c)

-- `record.block_table[-1]`
abbrev tail_page : Exec Cursor ℕ
tail_page c = or_index_error (get_last? c.record_.block_table) c

abbrev pub page_offset : Cursor → ℕ
page_offset c = c.record_.num_tokens % c.pool.config.page_size

abbrev pub set_table : List ℕ → Cursor → Cursor
set_table table c = record c { record_ = record c.record_ { block_table = table } }

-- `has_partial_tail and refcount(block_table[-1]) > 1`
unfoldable pub tail_is_shared : Exec Cursor Bool
tail_is_shared c =
    if page_offset c == 0
    then (ok false, c)
    else (do pid ← tail_page; r ← pooled (refcount pid); pure (ltb 1 r)) c

unfoldable pub copy_tail : Exec Cursor (Unit {0})
copy_tail = do
  shared ← tail_page
  copied ← pooled (copy_page shared)
  modify (λ c. set_table (set_last copied c.record_.block_table) c)
  pooled (free shared)

-- `if needs_cow: ...`
unfoldable pub copy_if : Bool → Exec Cursor (Unit {0})
unfolding copy_tail
copy_if true c = copy_tail c
copy_if false c = (ok tt, c)

abbrev pub flag : Bool → ℕ
flag true = 1
flag false = 0

-- `boundary_pages + int(needs_cow)`, negative where the branch has more pages than the result needs
unfoldable pub reserve : ℕ → Bool → Exec Cursor (Unit {0})
reserve n cow = do
  c ← gets (λ c. c)
  let needed = ceil_div (c.record_.num_tokens + n) c.pool.config.page_size + flag cow
  let held = length c.record_.block_table
  raise_if (ltb needed held) (invariant_error negative_page_count)
  pooled (require_capacity (needed - held))

-- the page that the next tokens go to
unfoldable pub target_page : Exec Cursor ℕ
target_page c =
    if page_offset c == 0
    then (do
      pid ← pooled alloc_page
      modify (λ c. set_table (c.record_.block_table ++ pid ∷ []) c)
      pure pid)
        c
    else tail_page c

abbrev pub store : ℕ → ℕ → List Row → Cursor → Cursor
store pid off rows c = record c {
  pool = record c.pool { cache = update c.pool.cache pid (splice off rows (c.pool.cache pid)) };
}

abbrev pub advance : ℕ → Cursor → Cursor
advance n c = record c { record_ = record c.record_ { num_tokens = c.record_.num_tokens + n } }

-- the body of the loop on the rows still to be written: as many as the page has room for
unfoldable pub write_chunk : List Row → Exec Cursor ℕ
unfolding target_page
write_chunk rows = do
  off ← gets page_offset
  size ← gets (λ c. c.pool.config.page_size)
  pid ← target_page
  let count = min (size - off) (length rows)
  modify (store pid off (take count rows))
  pooled (set_page_length pid (off + count))
  modify (advance count)
  pure count

-- `while input_offset < num_new_tokens`; every round writes a row, so as many rounds as rows do
unfoldable pub write_rows : ℕ → List Row → Exec Cursor (Unit {0})
write_rows fuel [] c = (ok tt, c)
write_rows zero (x ∷ xs) c = (err out_of_fuel, c)
write_rows (suc fuel) (x ∷ xs) c =
    resume (write_chunk (x ∷ xs) c) (λ count. write_rows fuel (drop count (x ∷ xs)))

unfoldable pub append_rows : List Row → Exec Cursor (Unit {0})
unfolding tail_is_shared copy_if reserve
append_rows rows = do
  b ← gets (λ c. c.record_)
  pooled (validate_coverage b)
  cow ← tail_is_shared
  reserve (length rows) cow
  copy_if cow
  write_rows (length rows) rows
  pooled (grow_logical (length rows))

-- the record is the one in the dict, so its writes are kept also where the method raises
abbrev on_record : {A : Type 0} → Branch → Exec Cursor A → Exec TreeState A
on_record b m t =
    let (r, c) = m (record { pool = t.pool; record_ = b }) in
    (r, record t { pool = c.pool; branches = put c.record_ t.branches })

-- `_append_validated`
unfoldable pub append_validated : Branch → List Row → Exec TreeState (Unit {0})
append_validated b [] t = (ok tt, t)
append_validated b (x ∷ xs) t = on_record b (append_rows (x ∷ xs)) t

abbrev pub token_shape : PoolConfig → List ℕ
token_shape c = c.num_layers ∷ (c.num_kv_heads ∷ (c.head_dim ∷ []))

abbrev pub tokens_of_token : PoolConfig → Tensor × Tensor → Result (List Row)
tokens_of_token c (k, v) =
    if same_shape k.shape (token_shape c) then ok (rows_of c k v 1) else err value_error

abbrev pub count_tokens : PoolConfig → List ℕ → Result ℕ
count_tokens c (l ∷ (n ∷ (h ∷ (d ∷ [])))) =
    if same_shape (l ∷ (h ∷ (d ∷ []))) (token_shape c) then ok n else err value_error
count_tokens c _ = err value_error

abbrev pub with_count : PoolConfig → Tensor × Tensor → Result ℕ → Result (List Row)
with_count c (k, v) (ok n) = ok (rows_of c k v n)
with_count c (k, v) (err e) = err e

abbrev pub tokens_of_tokens : PoolConfig → Tensor × Tensor → Result (List Row)
tokens_of_tokens c (k, v) = with_count c (k, v) (count_tokens c k.shape)

abbrev lift : {S A : Type 0} → Result A → Exec S A
lift r s = (r, s)

unfoldable pub append_token : ℕ → Argument → Argument → Exec TreeState (Unit {0})
unfolding validate_tensor_pair append_validated
append_token i k v = do
  b ← get_record i
  c ← gets (λ t. t.pool.config)
  pair ← lift (validate_tensor_pair c k v)
  rows ← lift (tokens_of_token c pair)
  append_validated b rows

unfoldable pub append_tokens : ℕ → Argument → Argument → Exec TreeState (Unit {0})
unfolding validate_tensor_pair append_validated
append_tokens i k v = do
  b ← get_record i
  c ← gets (λ t. t.pool.config)
  pair ← lift (validate_tensor_pair c k v)
  rows ← lift (tokens_of_tokens c pair)
  append_validated b rows
