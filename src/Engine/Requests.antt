-- ===== src/Engine/Requests.antt =====
-- What `generate` makes of a request before it starts: `_emvpt_config`, `_consensus_config`,
-- `_scheduler_config`, and the budget. The fields of a request are dynamic until they are checked.
pub mod Agreed
mod Tests
use autotree.Base.{
  ℕ, zero, suc, ◌≤◌, ◌<◌, ◌≡◌, refl, Bool, true, false, not, ◌||◌, Option, none, some, List, [],
  ◌∷◌, leb, if◌then◌else◌, arith, ℤ, pos, negsuc, Text, inl, inr, Bool-cases,
}
use autotree.Engine.{EmvptConfig, ConsensusConfig, Settings}

pub data RequestError : Type 0 where
  bad_value_check_interval bad_value_margin bad_value_min_keep bad_value_warmup_tokens :
      RequestError
  bad_consensus_interval bad_consensus_warmup bad_min_survivors bad_scorer no_context_length :
      RequestError

pub data Checked (A : Type 0) : Type 0 where
  valid : A → Checked A
  refused : RequestError → Checked A

infixl 5 ◌>>=◌
unfoldable pub ◌>>=◌ : {A B : Type 0} → Checked A → (A → Checked B) → Checked B
◌>>=◌ (valid a) f = f a
◌>>=◌ (refused x) f = refused x

pub data Field (S : Type 0) : Type 0 where
  integer : ℤ → Field S
  boolean : Bool → Field S
  float : S → Field S
  other : Field S

pub data Policy : Type 0 where
  beam best_first mcts emvpt_policy : Policy

pub data Scorer : Type 0 where
  logprob self_consistency unknown_scorer : Scorer

pub record TreeExecution (S : Type 0) : Type 0 where
  pub policy : Policy
  pub branches : ℕ
  pub budget_tokens : ℕ
  pub scorer : Option Scorer
  pub value_check_interval : Field S
  pub value_margin : Field S
  pub value_min_keep : Field S
  pub value_warmup_tokens : Field S
  pub consensus_interval : Field S
  pub consensus_warmup : Field S
  pub min_survivors : Field S

pub record GenerationRequest (S : Type 0) : Type 0 where
  pub max_tokens : ℕ
  pub stop : List Text
  pub seed : Option ℤ
  pub tree : Option (TreeExecution S)

-- the policies that the scheduler has, under its names
pub data SchedulerPolicy : Type 0 where
  beam_search best_first_search monte_carlo : SchedulerPolicy

pub record SchedulerConfig : Type 0 where
  pub policy : SchedulerPolicy
  pub branches : ℕ
  pub fork_width : ℕ
  pub fork_at_tokens : List ℕ
  pub max_depth : ℕ
  pub budget_tokens : ℕ
  pub per_branch_token_budget : ℕ
  pub seed : ℤ
  pub external_scorer : Bool
  -- set, to 0.0, where the scorer is external
  pub has_kill_margin : Bool

abbrev scheduler_policy : Policy → SchedulerPolicy
scheduler_policy best_first = best_first_search
scheduler_policy mcts = monte_carlo
scheduler_policy _ = beam_search

abbrev pub is_external : Option Scorer → Bool
is_external (some self_consistency) = true
is_external _ = false

-- `_resolve_seed`
abbrev resolve_seed : Option ℤ → ℤ
resolve_seed none = pos 0
resolve_seed (some n) = n

abbrev one_at_least : ℕ → ℕ
one_at_least n = if leb 1 n then n else 1

module _ {S : Type 0} where
  -- an `int` that is not a `bool` and is greater than zero
  abbrev pub positive_field : RequestError → Field S → Checked ℕ
  positive_field x (integer (pos (suc n))) = valid (suc n)
  positive_field x _ = refused x

  abbrev pub natural_field : RequestError → Field S → Checked ℕ
  natural_field x (integer (pos n)) = valid n
  natural_field x _ = refused x

  -- `max_position_embeddings`, `n_positions` or `n_ctx`: the first that is a positive int
  abbrev pub model_context_tokens : List (Field S) → Checked ℕ
  model_context_tokens [] = refused no_context_length
  model_context_tokens (integer (pos (suc n)) ∷ fields) = valid (suc n)
  model_context_tokens (_ ∷ fields) = model_context_tokens fields

  module _ (float_of : ℤ → S) (is_finite is_negative : S → Bool) where
    -- an int that no float holds is infinite here, and so refused
    abbrev finite_margin : S → Checked S
    finite_margin s =
        if not (is_finite s) || is_negative s then refused bad_value_margin else valid s

    abbrev pub margin_field : Field S → Checked S
    margin_field (integer n) = finite_margin (float_of n)
    margin_field (float s) = finite_margin s
    margin_field _ = refused bad_value_margin

    abbrev checked_emvpt : TreeExecution S → Checked (Option (EmvptConfig S))
    checked_emvpt t = do
      interval ← positive_field bad_value_check_interval t.value_check_interval
      margin ← margin_field t.value_margin
      keep ← positive_field bad_value_min_keep t.value_min_keep
      warmup ← natural_field bad_value_warmup_tokens t.value_warmup_tokens
      valid (
          some (record {
            check_interval = interval;
            margin = margin;
            min_keep = keep;
            warmup_tokens = warmup;
          }))

    abbrev pub emvpt_of : TreeExecution S → Policy → Checked (Option (EmvptConfig S))
    emvpt_of t emvpt_policy = checked_emvpt t
    emvpt_of t _ = valid none

    -- `_emvpt_config`
    abbrev emvpt_config : Option (TreeExecution S) → Checked (Option (EmvptConfig S))
    emvpt_config none = valid none
    emvpt_config (some t) = emvpt_of t t.policy

  abbrev pub checked_consensus : TreeExecution S → Checked (Option ConsensusConfig)
  checked_consensus t = do
    interval ← positive_field bad_consensus_interval t.consensus_interval
    warmup ← natural_field bad_consensus_warmup t.consensus_warmup
    survivors ← positive_field bad_min_survivors t.min_survivors
    valid (some (record { interval = interval; warmup_tokens = warmup }))

  abbrev pub consensus_of : TreeExecution S → Option Scorer → Checked (Option ConsensusConfig)
  consensus_of t (some self_consistency) = checked_consensus t
  consensus_of t _ = valid none

  -- `_consensus_config`; the number of survivors goes to the scores, which the host gives
  abbrev consensus_config : Option (TreeExecution S) → Checked (Option ConsensusConfig)
  consensus_config none = valid none
  consensus_config (some t) = consensus_of t t.scorer

  abbrev config_for : GenerationRequest S → TreeExecution S → Option Scorer → SchedulerConfig
  config_for r t scorer = record {
    policy = scheduler_policy t.policy;
    branches = t.branches;
    fork_width = t.branches;
    fork_at_tokens = if leb 2 t.branches then 1 ∷ [] else [];
    max_depth = one_at_least r.max_tokens;
    budget_tokens = t.budget_tokens;
    per_branch_token_budget = r.max_tokens;
    seed = resolve_seed r.seed;
    external_scorer = is_external scorer;
    has_kill_margin = is_external scorer;
  }

  abbrev pub config_scored :
      GenerationRequest S → TreeExecution S → Option Scorer → Checked SchedulerConfig
  config_scored r t (some unknown_scorer) = refused bad_scorer
  config_scored r t scorer = valid (config_for r t scorer)

  -- `_scheduler_config`
  abbrev scheduler_config : GenerationRequest S → Option (TreeExecution S) → Checked SchedulerConfig
  scheduler_config r none = valid (record {
    policy = beam_search;
    branches = 1;
    fork_width = 1;
    fork_at_tokens = [];
    max_depth = one_at_least r.max_tokens;
    budget_tokens = r.max_tokens;
    per_branch_token_budget = r.max_tokens;
    seed = resolve_seed r.seed;
    external_scorer = false;
    has_kill_margin = false;
  })
  scheduler_config r (some t) = config_scored r t t.scorer

  -- `request.tree.budget_tokens if request.tree else request.max_tokens`
  abbrev budget_of : GenerationRequest S → Option (TreeExecution S) → ℕ
  budget_of r none = r.max_tokens
  budget_of r (some t) = t.budget_tokens

  module _ (float_of : ℤ → S) (is_finite is_negative : S → Bool) where
    abbrev pub prepare_for :
        Option ℕ
        → GenerationRequest S
        → Option (TreeExecution S)
        → Checked (Settings S × SchedulerConfig)
    prepare_for dedup_every_steps r tree = do
      emvpt ← emvpt_config float_of is_finite is_negative tree
      consensus ← consensus_config tree
      scheduler ← scheduler_config r tree
      valid (
        record {
          budget = budget_of r tree;
          stop = r.stop;
          emvpt = emvpt;
          consensus = consensus;
          dedup_every_steps = dedup_every_steps;
        },
        scheduler,
      )

    -- the settings of a call of `generate`, with those of the scheduler that is made for it
    unfoldable pub prepare : Option ℕ → GenerationRequest S → Checked (Settings S × SchedulerConfig)
    prepare dedup_every_steps r = prepare_for dedup_every_steps r r.tree
