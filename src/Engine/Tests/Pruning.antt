-- ===== src/Engine/Tests/Pruning.antt =====
-- Value pruning on two children of the root.
use autotree.Base.{
  ◌≤◌, some, arith, ℕ, ◌+◌, ◌-◌, ◌≡◌, refl, Bool, true, Option, none, some, List, [], ◌∷◌, ltb,
  Dict, Text, arith,
}
use autotree.Kv.Tree.{root_id}
use autotree.Kv.Tree.Start.{start}
use autotree.Modeling.{Executor, Execution, Output}
use autotree.Engine.{
  Fallible, done, failed, Command, finalize, Host, Settings, Run, Event, KvSnapshot,
}
use autotree.Modeling.{fork_execution}
use autotree.Engine.{EmvptConfig}
use autotree.Engine.Values.{prune_low_value_branches}
use autotree.Engine.Survivors.{kept, prune_low_value_branches-keeps}
use autotree.Engine.Tests.{host, settings, executor, prefilled, begun, state_or}

-- two children of the root, of which the first has a low value
abbrev two_children : Execution ℕ
two_children = (fork_execution ℕ executor 0 ((fork_execution ℕ executor 0 prefilled).1)).1

abbrev values : EmvptConfig ℕ
values = record { check_interval = 2; margin = 3; min_keep = 1; warmup_tokens = 2 }

abbrev valued : Settings ℕ
valued = record settings { emvpt = some values }

abbrev unequal : Run ℕ ℕ ℕ (List Command)
unequal = record begun {
  execution = two_children;
  parents = (0, none) ∷ (1, some 0) ∷ (2, some 0) ∷ [];
  value_logprob_sums = (1, 0) ∷ (2, 9) ∷ [];
  value_token_counts = (1, 4) ∷ (2, 4) ∷ [];
  active = 1 ∷ 2 ∷ [];
}

abbrev pruned_once : Run ℕ ℕ ℕ (List Command)
pruned_once = state_or begun (prune_low_value_branches host valued unequal)

prune_low_value_branches-keeps_example : 1 ≤ kept (1 ∷ 2 ∷ []) pruned_once.active
unfolding prune_low_value_branches autotree.Base.sorted autotree.Engine.◌>>=◌
    autotree.Engine.Values.on_execution autotree.Engine.Values.for_each
    autotree.Engine.Values.value_prune autotree.Modeling.fork_execution
    autotree.Modeling.prune_execution autotree.Kv.Tree.fork autotree.Kv.Tree.prune
    autotree.Kv.Tree.get_branch autotree.Kv.Tree.remove_child autotree.Kv.Tree.validate_coverage
    autotree.Kv.Tree.check_lengths autotree.Kv.Tree.Start.start autotree.Kv.Exec.for_each
    autotree.Kv.Pool.retain autotree.Kv.Pool.free autotree.Kv.Pool.grow_logical
    autotree.Kv.Pool.shrink_logical autotree.Kv.Pool.new_pool autotree.Kv.Pool.page_length
    autotree.Kv.Pool.refcount autotree.Base.push_sorted
prune_low_value_branches-keeps_example =
    prune_low_value_branches-keeps host valued values unequal pruned_once refl (λ i. ground arith)
      refl

pruned_once-active : pruned_once.active ≡ 2 ∷ []
unfolding prune_low_value_branches autotree.Base.sorted autotree.Engine.◌>>=◌
    autotree.Engine.Values.on_execution autotree.Engine.Values.for_each
    autotree.Engine.Values.value_prune autotree.Modeling.fork_execution
    autotree.Modeling.prune_execution autotree.Kv.Tree.fork autotree.Kv.Tree.prune
    autotree.Kv.Tree.get_branch autotree.Kv.Tree.remove_child autotree.Kv.Tree.validate_coverage
    autotree.Kv.Tree.check_lengths autotree.Kv.Tree.Start.start autotree.Kv.Exec.for_each
    autotree.Kv.Pool.retain autotree.Kv.Pool.free autotree.Kv.Pool.grow_logical
    autotree.Kv.Pool.shrink_logical autotree.Kv.Pool.new_pool autotree.Kv.Pool.page_length
    autotree.Kv.Pool.refcount autotree.Base.push_sorted
pruned_once-active = refl
