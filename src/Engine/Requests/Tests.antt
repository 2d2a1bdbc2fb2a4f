-- ===== src/Engine/Requests/Tests.antt =====
-- A request for four branches, with value pruning and a vote.
use autotree.Base.{◌≡◌, refl, Bool, true, false, none, some, [], ℤ, pos, negsuc, ◌∷◌}
use autotree.Engine.{Settings}
use autotree.Engine.Requests.{
  Checked, valid, refused, Field, integer, boolean, emvpt_policy, self_consistency, TreeExecution,
  GenerationRequest, SchedulerConfig, beam_search, prepare, ◌>>=◌, bad_value_min_keep,
  bad_value_margin,
}
use autotree.Engine.Requests.Agreed.{IsAgreed, prepare-IsAgreed}

abbrev tree_with : Field ℤ → Field ℤ → TreeExecution ℤ
tree_with margin keep = record {
  policy = emvpt_policy;
  branches = 4;
  budget_tokens = 64;
  scorer = some self_consistency;
  value_check_interval = integer (pos 16);
  value_margin = margin;
  value_min_keep = keep;
  value_warmup_tokens = integer (pos 8);
  consensus_interval = integer (pos 32);
  consensus_warmup = integer (pos 0);
  min_survivors = integer (pos 2);
}

abbrev request_of : TreeExecution ℤ → GenerationRequest ℤ
request_of tree = record { max_tokens = 20; stop = []; seed = none; tree = some tree }

-- here a float is an int
abbrev below_zero : ℤ → Bool
below_zero (pos n) = false
below_zero (negsuc n) = true

abbrev prepared : TreeExecution ℤ → Checked (Settings ℤ × SchedulerConfig)
prepared tree = prepare (λ n. n) (λ s. true) below_zero none (request_of tree)

abbrev settled : Settings ℤ × SchedulerConfig
settled = (
  record {
    budget = 64;
    stop = [];
    emvpt = some (record { check_interval = 16; margin = pos 1; min_keep = 2; warmup_tokens = 8 });
    consensus = some (record { interval = 32; warmup_tokens = 0 });
    dedup_every_steps = none;
  },
  record {
    policy = beam_search;
    branches = 4;
    fork_width = 4;
    fork_at_tokens = 1 ∷ [];
    max_depth = 20;
    budget_tokens = 64;
    per_branch_token_budget = 20;
    seed = pos 0;
    external_scorer = true;
    has_kill_margin = true;
  },
)

-- a bool is no int, and a margin is not negative
runs :
    (prepared (tree_with (integer (pos 1)) (integer (pos 2))) ≡ valid settled)
    × ((prepared (tree_with (integer (pos 1)) (boolean true)) ≡ refused bad_value_min_keep)
        × (prepared (tree_with (integer (negsuc 0)) (boolean true)) ≡ refused bad_value_margin))
unfolding prepare ◌>>=◌
runs = (refl, (refl, refl))

prepare-IsAgreed_example : IsAgreed settled
prepare-IsAgreed_example =
    prepare-IsAgreed (λ n. n) (λ s. true) below_zero none
      (request_of (tree_with (integer (pos 1)) (integer (pos 2)))) settled runs.0
