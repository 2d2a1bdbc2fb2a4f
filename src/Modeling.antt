-- ===== src/Modeling.antt =====
-- core/autotree_core/modeling/executor.py: running a causal language model on the paged cache. The
-- model is a parameter: what a forward pass returns, or raises, as a function of what it is given.
pub mod Calls
pub mod Consistent
pub mod Keeps
pub mod Appends
pub mod Decode
pub mod Steps
pub mod Rows
pub mod Batch
pub mod Shapes
pub mod Rooted
pub mod Prefill
pub mod Generated
mod Tests
use autotree.Base.{
  pos, ℕ, zero, suc, ◌+◌, ◌-◌, Bool, true, false, not, ◌&&◌, ◌||◌, Option, none, some, List, [],
  ◌∷◌, ◌++◌, map, ltb, ◌==◌, if◌then◌else◌, length, contains, ceil_div, Dict, get, set, delete,
}
use autotree.Kv.Errors.{Error, key_error, value_error, type_error, Result, ok, err}
use autotree.Kv.Exec.{Exec, pure, raise_if, gets, modify, resume, ◌>>=◌, ◌>>◌}
use autotree.Kv.Config.{Dtype, PoolConfig, Value, integer as integer_value, post_init}
use autotree.Kv.Pool.{KvStats, stats, new_pool}
use autotree.Kv.Branches.{Branch, Snapshot}
use autotree.Kv.Gather.{LayerTokens}
use autotree.Kv.Tree.{TreeState, new_tree, root_id, get_branch, fork, prune, gather, has_items}
use autotree.Kv.Append.{
  Tensor, Argument, tensor, same_shape, dtype_tag, append_token, append_tokens,
}
use autotree.Kv.Dedup.{dedup_scan}
use autotree.Kv.Pool.{Page}

-- the fields of `ModelExecutor` and of its configuration that the calls read
pub record Executor : Type 0 where
  pub owner : ℕ
  pub num_layers : ℕ
  pub num_kv_heads : ℕ
  pub head_dim : ℕ
  pub capacity_pages : ℕ
  pub page_size : ℕ
  pub dtype : Dtype
  pub device : ℕ

-- `past_key_values` in the layout of the pool; `logits` is what the read of `output.logits[0, -1]`
-- gives, or raises where the model returned no such entry
pub record Output (L : Type 0) : Type 0 where
  pub keys : Tensor
  pub values : Tensor
  pub logits : Result L

-- the same for a forward over several branches, row by row; only the shape of the keys is checked
pub record ForestOutput (L : Type 0) : Type 0 where
  pub rows : ℕ
  pub steps : ℕ
  pub key_of : ℕ → Tensor
  pub value_of : ℕ → Tensor
  pub logits_of : ℕ → Result L

-- `ModelExecution`
pub record Execution (L : Type 0) : Type 0 where
  pub tree : TreeState
  pub owner : ℕ
  pub next_logits : Dict L
  pub token_ids : Dict (List ℕ)

pub record DecodeOutput (L : Type 0) : Type 0 where
  pub branch_id : ℕ
  pub token_id : ℕ
  pub logits : L

pub data Token : Type 0 where
  token : ℕ → Token
  not_an_int : Token

pub data InputIds : Type 0 where
  flat : List ℕ → InputIds
  nested : List (List ℕ) → InputIds

abbrev non_empty : List ℕ → Result (List ℕ)
non_empty [] = err value_error
non_empty (x ∷ xs) = ok (x ∷ xs)

-- `_normalize_input_ids`
abbrev pub normalize_input_ids : InputIds → Result (List ℕ)
normalize_input_ids (flat xs) = non_empty xs
normalize_input_ids (nested (xs ∷ [])) = non_empty xs
normalize_input_ids (nested _) = err value_error

-- `_validate_cache_shape`
abbrev pub validate_cache_shape : Executor → Tensor → ℕ → Result (Unit {0})
validate_cache_shape x keys n =
    if not (same_shape keys.shape (x.num_layers ∷ (n ∷ (x.num_kv_heads ∷ (x.head_dim ∷ [])))))
    then err value_error
    else if not (dtype_tag keys.dtype == dtype_tag x.dtype && keys.device == x.device)
    then err value_error
    else ok tt

abbrev drop_second : List ℕ → List ℕ
drop_second (l ∷ (n ∷ rest)) = l ∷ rest
drop_second other = other

abbrev second : List ℕ → ℕ
second (l ∷ (n ∷ rest)) = n
second other = 0

-- `keys[:, -1]`
abbrev pub last_token : Tensor → Tensor
last_token k = record k {
  shape = drop_second k.shape;
  entry = λ l _. k.entry l (second k.shape - 1);
}

abbrev pub int_of : ℕ → Value
int_of n = integer_value (pos n)

abbrev pub integer : Token → Result ℕ
integer (token n) = ok n
integer not_an_int = err type_error

abbrev pub integers : List Token → Result (List ℕ)
integers [] = ok []
integers (not_an_int ∷ rest) = err type_error
integers (token n ∷ rest) = elim (integers rest) [ ok ns ↦ ok (n ∷ ns) | err e ↦ err e ]

abbrev pub repeats : List ℕ → Bool
repeats [] = false
repeats (x ∷ xs) = contains x xs || repeats xs

abbrev pub same_length : {A B : Type 0} → List A → List B → Bool
same_length xs ys = length xs == length ys

abbrev pub lift : {S A : Type 0} → Result A → Exec S A
lift r s = (r, s)

-- the K/V of every layer below n, first layer first
unfoldable pub gather_layers : ℕ → ℕ → ℕ → Exec TreeState (List LayerTokens)
gather_layers i layer zero = pure []
gather_layers i layer (suc n) = do
  first ← gather i layer
  rest ← gather_layers i (suc layer) n
  pure (first ∷ rest)

module _ (L : Type 0) where
  abbrev pub on_tree : {A : Type 0} → Exec TreeState A → Exec (Execution L) A
  on_tree m e = let (r, t) = m e.tree in (r, record e { tree = t })

  abbrev pub item : {A : Type 0} → ℕ → Option A → Result A
  item i none = err (key_error i)
  item i (some a) = ok a

  -- `self._next_logits[branch_id]` and `self._token_ids[branch_id]`
  abbrev pub next_logits : ℕ → Exec (Execution L) L
  next_logits i e = (item i (get i e.next_logits), e)

  abbrev pub token_ids : ℕ → Exec (Execution L) (List ℕ)
  token_ids i e = (item i (get i e.token_ids), e)

  abbrev set_logits : ℕ → L → Execution L → Execution L
  set_logits i l e = record e { next_logits = set i l e.next_logits }

  abbrev set_tokens : ℕ → List ℕ → Execution L → Execution L
  set_tokens i ids e = record e { token_ids = set i ids e.token_ids }

  abbrev pub execution_stats : Execution L → KvStats
  execution_stats e = stats e.tree.pool

  abbrev pub require_execution : Executor → Exec (Execution L) (Unit {0})
  require_execution x e = raise_if (not (e.owner == x.owner)) value_error e

  unfoldable pub fork_execution : Executor → ℕ → Exec (Execution L) ℕ
  fork_execution x i = do
    require_execution x
    child ← on_tree (fork i)
    logits ← next_logits i
    modify (set_logits child logits)
    ids ← token_ids i
    modify (set_tokens child ids)
    pure child

  unfoldable pub prune_execution : Executor → ℕ → Exec (Execution L) (Unit {0})
  prune_execution x i = do
    require_execution x
    on_tree (prune i)
    logits ← next_logits i
    modify (λ e. record e { next_logits = delete i e.next_logits })
    ids ← token_ids i
    modify (λ e. record e { token_ids = delete i e.token_ids })

  unfoldable pub deduplicate : (Page → ℕ) → Executor → Exec (Execution L) ℕ
  deduplicate digest x = do require_execution x; on_tree (dedup_scan digest)

  -- what follows a forward pass: the cache entry, the logits and the token id of one branch; the
  -- logits are read after the append
  unfoldable pub commit_token :
      ℕ → ℕ → Tensor → Tensor → Result L → Exec (Execution L) (DecodeOutput L)
  commit_token i t keys values read = do
    on_tree (append_token i (tensor keys) (tensor values))
    logits ← lift read
    modify (set_logits i logits)
    ids ← token_ids i
    modify (set_tokens i (ids ++ t ∷ []))
    pure (record { branch_id = i; token_id = t; logits = logits })

  module _ (forward_cached : List LayerTokens → ℕ → ℕ → Result (Output L)) where
    unfoldable pub decode : Executor → ℕ → Token → Exec (Execution L) (DecodeOutput L)
    decode x i value = do
      require_execution x
      t ← lift (integer value)
      branch ← on_tree (get_branch i)
      caches ← on_tree (gather_layers i 0 x.num_layers)
      output ← lift (forward_cached caches t (branch.num_tokens + 1))
      lift (validate_cache_shape x output.keys (branch.num_tokens + 1))
      commit_token i t (last_token output.keys) (last_token output.values) output.logits
