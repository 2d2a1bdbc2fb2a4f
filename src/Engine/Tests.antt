-- ===== src/Engine/Tests.antt =====
-- A call of `generate` with a model that echoes: one token, after which the scheduler finalizes the root.
mod Pruning
use autotree.Base.{
  get, some, ◌≤◌, some, arith, ℕ, ◌+◌, ◌-◌, ◌≡◌, refl, Bool, true, Option, none, some, List, [],
  ◌∷◌, ltb, Dict, Text, arith,
}
use autotree.Kv.Tree.{root_id}
use autotree.Kv.Tree.Start.{start}
use autotree.Kv.Errors.{Result, ok, err, value_error}
use autotree.Kv.Config.{PoolConfig, float32}
use autotree.Kv.Gather.{LayerTokens}
use autotree.Kv.Append.{Tensor}
use autotree.Modeling.{Executor, Execution, Output}
use autotree.Engine.{
  Fallible, done, failed, Command, finalize, Host, Settings, Run, Event, KvSnapshot,
}
use autotree.Engine.Rounds.{start as begin, Reach, first, next, round, max_key}
use autotree.Engine.Advance.{advance_batch}
use autotree.Modeling.{fork_execution}
use autotree.Engine.{EmvptConfig}
use autotree.Engine.Values.{prune_low_value_branches}
use autotree.Engine.Survivors.{kept, prune_low_value_branches-keeps}
use autotree.Engine.Winner.{finish, path, GenerationDone, summary_of}
use autotree.Engine.Counted.Steps.{Counts}
use autotree.Engine.Counted.Loop.{Reach-IsCounted}
use autotree.Engine.Counted.Path.{IsPath, path-IsPath}
use autotree.Engine.Counted.Finish.{IsFaithful, finish-IsFaithful}

abbrev small : PoolConfig
small = record {
  num_layers = 1;
  num_kv_heads = 1;
  head_dim = 1;
  capacity = 4;
  page_size = 2;
  dtype = float32;
  device = 0;
}

abbrev executor : Executor
executor = record {
  owner = 3;
  num_layers = 1;
  num_kv_heads = 1;
  head_dim = 1;
  capacity_pages = 4;
  page_size = 2;
  dtype = float32;
  device = 0;
}

abbrev tensor_of : List ℕ → Tensor
tensor_of shape = record {
  shape = shape;
  strided = true;
  dtype = float32;
  device = 0;
  entry = λ l i. i ∷ [];
}

-- a model whose logits are the token id that it was given
abbrev echo : List LayerTokens → ℕ → ℕ → Result (Output ℕ)
echo caches n count = ok (record {
  keys = tensor_of (1 ∷ (count ∷ (1 ∷ (1 ∷ []))));
  values = tensor_of (1 ∷ (count ∷ (1 ∷ (1 ∷ []))));
  logits = ok n;
})

-- the state of this scheduler is the commands that it has yet to give
abbrev host : Host ℕ ℕ ℕ (List Command)
host = record {
  zero_score = 0;
  one_score = 1;
  plus = ◌+◌;
  minus = ◌-◌;
  over = λ s n. s;
  exceeds = λ s t. ltb t s;
  feed = λ fed s. s;
  poll = λ s. s;
  polled = λ s. [];
  state_of = λ s i. none;
  sample = λ l g. done ((l, 1), g);
  token_text = λ t. t ∷ [];
  eos_tokens = [];
  consensus_scores = λ texts. [];
  final_answer = λ text. none;
  executor = executor;
  forward_cached = echo;
  forest_forward = λ t branches tokens positions. err value_error;
  digest = λ page. 0;
}

abbrev settings : Settings ℕ
settings = record {
  budget = 5;
  stop = [];
  emvpt = none;
  consensus = none;
  dedup_every_steps = none;
}

abbrev prefilled : Execution ℕ
prefilled = record {
  tree = start small;
  owner = 3;
  next_logits = (0, 7) ∷ [];
  token_ids = (0, []) ∷ [];
}

abbrev begun : Run ℕ ℕ ℕ (List Command)
begun =
    begin host settings prefilled (finalize 0 ∷ []) 0
      (record { logical_tokens = 0; physical_tokens = 0 })

abbrev state_or :
    Run ℕ ℕ ℕ (List Command) → Fallible (Run ℕ ℕ ℕ (List Command)) → Run ℕ ℕ ℕ (List Command)
state_or e (done e') = e'
state_or e (failed x) = e

abbrev advanced : Run ℕ ℕ ℕ (List Command)
advanced = state_or begun (advance_batch host settings (root_id ∷ []) begun)

abbrev ended : Run ℕ ℕ ℕ (List Command)
ended = state_or begun (round host settings advanced)

abbrev last_or :
    GenerationDone ℕ × Run ℕ ℕ ℕ (List Command)
    → Fallible (GenerationDone ℕ × Run ℕ ℕ ℕ (List Command))
    → GenerationDone ℕ × Run ℕ ℕ ℕ (List Command)
last_or d (done out) = out
last_or d (failed x) = d

abbrev last_event : GenerationDone ℕ × Run ℕ ℕ ℕ (List Command)
last_event =
    last_or (summary_of host settings 0 0 [] 0 [] [] begun, begun) (finish host settings 0 ended)

-- the run computes: a token, the end of the root, and the last event
runs :
    (advance_batch host settings (root_id ∷ []) begun ≡ done advanced)
    × (get 0 advanced.parents ≡ some none)
    × (round host settings advanced ≡ done ended)
    × (finish host settings 0 ended ≡ done last_event)
unfolding advance_batch autotree.Engine.◌>>◌ autotree.Engine.◌>>=◌
    autotree.Engine.Advance.sample_all autotree.Engine.Values.on_execution
    autotree.Engine.Advance.decode_all autotree.Modeling.decode autotree.Kv.Tree.get_branch start
    autotree.Modeling.gather_layers autotree.Kv.Tree.gather autotree.Kv.Gather.gather_branch_kv
    autotree.Kv.Gather.check_pages autotree.Base.list_equal autotree.Modeling.commit_token
    autotree.Kv.Append.append_token autotree.Kv.Append.append_rows
    autotree.Kv.Tree.validate_coverage autotree.Engine.Advance.all_token_ids
    autotree.Engine.Advance.dedup_and_merge autotree.Engine.Advance.record_token
    autotree.Engine.Advance.token_exhausts_branch autotree.Engine.Values.feed_consensus_values
    autotree.Engine.Values.for_each autotree.Engine.Values.prune_low_value_branches
    autotree.Kv.Append.append_validated autotree.Kv.Append.copy_if autotree.Kv.Append.copy_tail
    autotree.Kv.Append.reserve autotree.Kv.Append.tail_is_shared autotree.Kv.Append.target_page
    autotree.Kv.Append.validate_tensor_pair autotree.Kv.Append.write_chunk
    autotree.Kv.Append.write_rows autotree.Kv.Exec.for_each autotree.Kv.Pool.alloc_page
    autotree.Kv.Pool.grow_logical autotree.Kv.Pool.new_pool autotree.Kv.Pool.page_length
    autotree.Kv.Pool.refcount autotree.Kv.Pool.require_capacity autotree.Kv.Pool.set_page_length
    autotree.Kv.Tree.check_lengths round autotree.Engine.Rounds.dispatch
    autotree.Engine.Rounds.run_finalize autotree.Modeling.prune_execution autotree.Kv.Tree.prune
    autotree.Kv.Tree.remove_child autotree.Kv.Pool.free autotree.Kv.Pool.shrink_logical
    autotree.Base.push_sorted finish autotree.Engine.Winner.select_winner
    autotree.Engine.Winner.best_by autotree.Engine.Winner.path autotree.Engine.Winner.path_up
    autotree.Engine.Winner.reject_others
runs = (refl, refl, refl, refl)

abbrev snapshot : KvSnapshot
snapshot = record { logical_tokens = 0; physical_tokens = 0 }

reached_first : Reach host settings prefilled (finalize 0 ∷ []) 0 snapshot advanced
reached_first = first runs.0

Reach-IsCounted_example : Counts 5 0 advanced
Reach-IsCounted_example =
    Reach-IsCounted host settings prefilled (finalize 0 ∷ []) 0 snapshot advanced reached_first

path-IsPath_example :
    (ids : List ℕ) × (path 0 advanced.parents ≡ done ids) × IsPath advanced.parents 0 ids
path-IsPath_example =
    path-IsPath host settings prefilled (finalize 0 ∷ []) 0 snapshot advanced 0 none reached_first
      runs.1

finish-IsFaithful_example : IsFaithful host settings ended.finalized last_event
finish-IsFaithful_example =
    finish-IsFaithful host settings prefilled (finalize 0 ∷ []) 0 snapshot 0 ended last_event
      (next reached_first runs.2) runs.3
