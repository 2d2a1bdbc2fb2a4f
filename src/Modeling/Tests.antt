-- ===== src/Modeling/Tests.antt =====
-- The theorems on modeling/executor.py at an execution with two branches that share their pages.
use autotree.Base.{◌+◌, ℕ, refl, List, [], ◌∷◌, true, length, ◌≡◌, list_equal}
use autotree.Kv.Errors.{Result, ok, err}
use autotree.Kv.Config.{float32}
use autotree.Kv.Tree.{TreeState, validate_coverage, check_lengths}
use autotree.Kv.Gather.{LayerTokens}
use autotree.Kv.Append.{Tensor}
use autotree.Kv.Tree.Start.{start, new_tree-eq}
use autotree.Kv.Pool.{Page}
use autotree.Kv.Config.{PoolConfig}
use autotree.Modeling.{
  Executor, Execution, Output, ForestOutput, flat, token, decode, fork_execution,
}
use autotree.Modeling.Calls.{prefill, decode_batch}
use autotree.Modeling.Consistent.{IsConsistent}
use autotree.Modeling.Prefill.{Prefilled, prefill-Prefilled}
use autotree.Kv.Pool.{
  new_pool, alloc_page, set_page_length, grow_logical, require_capacity, page_length, refcount,
}
use autotree.Kv.Config.{post_init}
use autotree.Kv.Append.{
  validate_tensor_pair, append_validated, append_tokens, append_rows, tail_is_shared, reserve,
  copy_if, write_rows, write_chunk, target_page,
}
use autotree.Modeling.Keeps.{Forks, fork_execution-Forks, Forks-IsConsistent}
use autotree.Modeling.Steps.{Decodes, decode-Decodes}
use autotree.Modeling.Batch.{Batches, decode_batch-Batches}

abbrev small : PoolConfig
small = record {
  num_layers = 1;
  num_kv_heads = 1;
  head_dim = 1;
  capacity = 4;
  page_size = 2;
  dtype = float32;
  device = 0;
}

abbrev executor : Executor
executor = record {
  owner = 3;
  num_layers = 1;
  num_kv_heads = 1;
  head_dim = 1;
  capacity_pages = 4;
  page_size = 2;
  dtype = float32;
  device = 0;
}

abbrev tensor_of : List ℕ → Tensor
tensor_of shape = record {
  shape = shape;
  strided = true;
  dtype = float32;
  device = 0;
  entry = λ l i. i ∷ [];
}

-- a model whose logits are the token id that it was given
abbrev echo : List LayerTokens → ℕ → ℕ → Result (Output ℕ)
echo caches n count = ok (record {
  keys = tensor_of (1 ∷ (count ∷ (1 ∷ (1 ∷ []))));
  values = tensor_of (1 ∷ (count ∷ (1 ∷ (1 ∷ []))));
  logits = ok n;
})

abbrev echo_forest : TreeState → List ℕ → List ℕ → List ℕ → Result (ForestOutput ℕ)
echo_forest t branches tokens positions = ok (record {
  rows = 2;
  steps = 1;
  key_of = λ row. tensor_of (1 ∷ (1 ∷ (1 ∷ [])));
  value_of = λ row. tensor_of (1 ∷ (1 ∷ (1 ∷ [])));
  logits_of = λ row. ok row;
})

abbrev no_prompt : List ℕ → Result (Output ℕ)
no_prompt ids = echo [] 0 0

abbrev digest : Page → ℕ
digest page = 0

abbrev begun : Execution ℕ
begun = record {
  tree = start small;
  owner = 3;
  next_logits = (0, 9) ∷ [];
  token_ids = (0, []) ∷ [];
}

abbrev prompt : List ℕ → Result (Output ℕ)
prompt ids = echo [] 8 (length ids)

abbrev or_begun : Result (Execution ℕ) → Execution ℕ
or_begun (ok e) = e
or_begun (err x) = begun

abbrev prefilled : Execution ℕ
prefilled = or_begun (prefill ℕ prompt executor (flat (5 ∷ (6 ∷ (7 ∷ [])))))

prefill-runs : prefill ℕ prompt executor (flat (5 ∷ (6 ∷ (7 ∷ [])))) ≡ ok prefilled
unfolding prefill new_pool list_equal validate_tensor_pair append_tokens append_validated
    append_rows validate_coverage check_lengths tail_is_shared reserve copy_if write_rows
    write_chunk target_page alloc_page set_page_length grow_logical require_capacity page_length
    refcount post_init start
prefill-runs = rw (new_tree-eq small) refl

prefill-Prefilled_example : Prefilled executor (flat (5 ∷ (6 ∷ (7 ∷ [])))) prefilled
prefill-Prefilled_example =
    prefill-Prefilled executor prompt (flat (5 ∷ (6 ∷ (7 ∷ [])))) prefilled prefill-runs

abbrev forked : Execution ℕ
forked = (fork_execution ℕ executor 0 prefilled).1

prefilled-IsConsistent : IsConsistent prefilled
prefilled-IsConsistent = prefill-Prefilled_example.consistent

fork_execution-Forks_example : Forks executor prefilled 0 (fork_execution ℕ executor 0 prefilled)
fork_execution-Forks_example = fork_execution-Forks executor prefilled prefilled-IsConsistent 0

forked-IsConsistent : IsConsistent forked
forked-IsConsistent =
    Forks-IsConsistent executor prefilled 0 _ prefilled-IsConsistent
      (fork_execution-Forks executor prefilled prefilled-IsConsistent 0)

decode-Decodes_example :
    Decodes executor echo forked 1 (token 5) (decode ℕ echo executor 1 (token 5) forked)
decode-Decodes_example = decode-Decodes executor echo forked 1 (token 5) forked-IsConsistent

decode_batch-Batches_example :
    Batches echo_forest forked
      (0 ∷ (1 ∷ []))
      (token 4 ∷ (token 6 ∷ []))
      (decode_batch ℕ echo_forest executor (0 ∷ (1 ∷ [])) (token 4 ∷ (token 6 ∷ [])) forked)
decode_batch-Batches_example =
    decode_batch-Batches echo_forest executor forked (0 ∷ (1 ∷ [])) (token 4 ∷ (token 6 ∷ []))
      forked-IsConsistent

abbrev choose : ℕ → ℕ → Result ℕ
choose step l = ok (l + step)
