-- ===== src/Modeling/Calls.antt =====
-- The calls of modeling/executor.py over several branches or tokens, and those that begin an
-- execution.
use autotree.Base.{
  ℕ, zero, suc, not, ◌&&◌, ◌||◌, some, List, [], ◌∷◌, map, ltb, ◌==◌, if◌then◌else◌, length,
  ceil_div,
}
use autotree.Kv.Errors.{value_error, Result, ok, err}
use autotree.Kv.Exec.{Exec, pure, raise_if, gets, ◌>>=◌, ◌>>◌}
use autotree.Kv.Config.{PoolConfig, RawConfig, post_init}
use autotree.Kv.Pool.{new_pool}
use autotree.Kv.Branches.{Snapshot}
use autotree.Kv.Gather.{LayerTokens}
use autotree.Kv.Tree.{TreeState, new_tree, root_id, get_branch, has_items}
use autotree.Kv.Append.{Tensor, tensor, append_tokens}
use autotree.Modeling.{
  Executor, Output, ForestOutput, Execution, DecodeOutput, Token, token, InputIds,
  normalize_input_ids, validate_cache_shape, int_of, integers, repeats, same_length, lift, on_tree,
  next_logits, require_execution, commit_token, decode,
}

abbrev pub raw_config : Executor → RawConfig
raw_config x = record {
  num_layers = int_of x.num_layers;
  num_kv_heads = int_of x.num_kv_heads;
  head_dim = int_of x.head_dim;
  capacity = int_of x.capacity_pages;
  page_size = int_of x.page_size;
  dtype = x.dtype;
  device = some x.device;
}

abbrev pub pool_config : Executor → Result PoolConfig
pool_config x = post_init (raw_config x)

abbrev pub then_ : {A B : Type 0} → Result A → (A → Result B) → Result B
then_ (ok a) f = f a
then_ (err e) f = err e

abbrev pub fits_capacity : Executor → ℕ → Result (Unit {0})
fits_capacity x n = if ltb x.capacity_pages (ceil_div n x.page_size) then err value_error else ok tt

-- the tree of a new pool with the prompt appended to its root
abbrev pub tree_of : Result (Unit {0}) × TreeState → Result TreeState
tree_of (ok _, t) = ok t
tree_of (err e, t) = err e

abbrev pub filled : Tensor → Tensor → TreeState → Result TreeState
filled keys values t = tree_of (append_tokens root_id (tensor keys) (tensor values) t)

module _ (L : Type 0) where
  module _ (forest_forward : TreeState → List ℕ → List ℕ → List ℕ → Result (ForestOutput L)) where
    unfoldable pub commit_rows :
        ForestOutput L → ℕ → List ℕ → List ℕ → Exec (Execution L) (List (DecodeOutput L))
    commit_rows out row (i ∷ branches) (t ∷ tokens) = do
      first ← commit_token L i t (out.key_of row) (out.value_of row) (out.logits_of row)
      rest ← commit_rows out (suc row) branches tokens
      pure (first ∷ rest)
    commit_rows out row branches tokens = pure []

    unfoldable pub snapshots : List ℕ → Exec (Execution L) (List Snapshot)
    snapshots [] = pure []
    snapshots (i ∷ rest) = do
      first ← on_tree L (get_branch i)
      others ← snapshots rest
      pure (first ∷ others)

    -- the forward itself binds and restores the attention of the model, and reads the pages
    unfoldable pub decode_batch :
        Executor → List ℕ → List Token → Exec (Execution L) (List (DecodeOutput L))
    unfolding commit_rows snapshots
    decode_batch x selected values = do
      require_execution L x
      raise_if (not (has_items selected) || not (same_length selected values)) value_error
      raise_if (repeats selected) value_error
      tokens ← lift (integers values)
      branches ← snapshots selected
      t ← gets (λ e. e.tree)
      output ← lift (forest_forward t selected tokens (map (λ b. b.num_tokens) branches))
      raise_if (not (output.rows == length selected && output.steps == 1)) value_error
      commit_rows output 0 selected tokens

  module _ (forward : List ℕ → Result (Output L)) where
    unfoldable pub prefill : Executor → InputIds → Result (Execution L)
    prefill x input = then_ (normalize_input_ids input) λ ids. then_ (forward ids) λ output.
        then_ (validate_cache_shape x output.keys (length ids)) λ _.
          then_ (fits_capacity x (length ids)) λ _. then_ (pool_config x) λ config.
            then_ (new_tree (new_pool config)) λ t. then_ (filled output.keys output.values t) λ t'.
              then_ output.logits λ logits. ok (record {
                tree = t';
                owner = x.owner;
                next_logits = (root_id, logits) ∷ [];
                token_ids = (root_id, ids) ∷ [];
              })

  module _ (forward : List ℕ → Result (Output L))
      (forward_cached : List LayerTokens → ℕ → ℕ → Result (Output L))
      (choose : ℕ → L → Result ℕ) where
    abbrev pub with_execution : Result (List ℕ) × Execution L → Result (List ℕ × Execution L)
    with_execution (ok ids, e) = ok (ids, e)
    with_execution (err x, e) = err x

    -- the loop of `generate`, with the number of the step for the state of its generator
    unfoldable pub generate_rounds : Executor → ℕ → ℕ → Exec (Execution L) (List ℕ)
    generate_rounds x step zero = pure []
    generate_rounds x step (suc rounds) = do
      logits ← next_logits L root_id
      t ← lift (choose step logits)
      decode L forward_cached x root_id (token t)
      rest ← generate_rounds x (suc step) rounds
      pure (t ∷ rest)

    abbrev pub generated : Executor → ℕ → Result (Execution L) → Result (List ℕ × Execution L)
    generated x n (err e) = err e
    generated x n (ok e) = with_execution (generate_rounds x 0 n e)

    unfoldable pub generate : Executor → InputIds → ℕ → Result (List ℕ × Execution L)
    unfolding generate_rounds
    generate x input n = generated x n (prefill forward x input)
