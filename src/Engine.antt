-- ===== src/Engine.antt =====
-- `TreeKVEngine` of core/autotree_core/engine/treekv.py: the state of one `generate` call, and what
-- it stands on. Parameters are the scheduler (a Rust crate behind a binding), the tokenizer, the
-- sampler, the model, floats, and the scores that engine/consensus.py computes. A branch name is the
-- id of the branch; a set is a list without repetition.

pub mod Values
pub mod Merging
pub mod Advance
pub mod Rounds
pub mod Winner
pub mod Ensures
pub mod Events
pub mod Survivors
pub mod Requests
pub mod Counted
mod Tests
use autotree.Base.{
  ℕ, zero, suc, ◌+◌, ◌-◌, Bool, true, false, not, ◌&&◌, ◌||◌, Option, none, some, List, [], ◌∷◌,
  ◌++◌, ltb, ◌==◌, if◌then◌else◌, contains, Dict, get, Text,
}
use autotree.Kv.Errors.{Error, Result, ok, err, capacity_error}
use autotree.Kv.Exec.{Exec}
use autotree.Kv.Pool.{KvStats, Page}
use autotree.Kv.Tree.{TreeState}
use autotree.Kv.Gather.{LayerTokens}
use autotree.Modeling.{Executor, Execution, Output, ForestOutput, execution_stats}

pub data Phase : Type 0 where
  admission decoding : Phase

-- a `KeyError`, the `RuntimeError`s of `generate`, and what the executor raises
pub data Failure : Type 0 where
  missing_key : ℕ → Failure
  not_distinct inactive_branch budget_exceeded child_diverged unsupported_command : Failure
  active_remaining nothing_finalized out_of_fuel : Failure
  kv_capacity_exceeded : Phase → (required available capacity : ℕ) → Failure
  kv_error : Error → Failure

pub data Fallible (A : Type 0) : Type 0 where
  done : A → Fallible A
  failed : Failure → Fallible A

infixl 5 ◌>>=◌ ◌>>◌
unfoldable pub ◌>>=◌ : {A B : Type 0} → Fallible A → (A → Fallible B) → Fallible B
◌>>=◌ (done a) f = f a
◌>>=◌ (failed x) f = failed x

unfoldable pub ◌>>◌ : {A B : Type 0} → Fallible A → Fallible B → Fallible B
◌>>◌ (done a) m = m
◌>>◌ (failed x) m = failed x

abbrev pub fail_if : Bool → Failure → Fallible (Unit {0})
fail_if true x = failed x
fail_if false x = done tt

abbrev pub need : {A : Type 0} → ℕ → Option A → Fallible A
need i none = failed (missing_key i)
need i (some a) = done a

pub data BranchState : Type 0 where
  active_state expanded_state finalized_state killed_state : BranchState

pub data Command : Type 0 where
  continue finalize unsupported : (branch : ℕ) → Command
  fork_at : (branch width : ℕ) → Command
  kill : (branch : ℕ) (reason : Option Text) → Command

abbrev pub branch_of : Command → ℕ
branch_of (continue i) = i
branch_of (finalize i) = i
branch_of (unsupported i) = i
branch_of (fork_at i w) = i
branch_of (kill i r) = i

-- what `feed_event` is given
pub data Fed (S : Type 0) : Type 0 where
  value_scored : (branch : ℕ) (score : S) → Fed S
  branch_exhausted : (branch : ℕ) → Fed S
  token_sampled : (branch token : ℕ) (logprob : S) (eos : Bool) → Fed S

pub data Reason : Type 0 where
  emvpt_below_margin not_selected : Reason
  scheduler_reason : Option Text → Reason

-- the events that `generate` yields before the last
pub data Event (S : Type 0) : Type 0 where
  branch_started : (branch_id : ℕ) (parent_id : Option ℕ) → Event S
  token_generated :
      (branch_id : ℕ) (token : Text) (token_index : ℕ) (logprob : S) (token_id : ℕ) → Event S
  branch_pruned : (branch_id : ℕ) (reason : Reason) → Event S
  branch_merged : (branch_id into_branch_id : ℕ) → Event S

-- `_EMVPTConfig` and `_ConsensusRuntimeConfig`
pub record EmvptConfig (S : Type 0) : Type 0 where
  pub check_interval : ℕ
  pub margin : S
  pub min_keep : ℕ
  pub warmup_tokens : ℕ

pub record ConsensusConfig : Type 0 where
  pub interval : ℕ
  pub warmup_tokens : ℕ

-- floats `S`, logits `L`, the state `G` of the random generator and `Sched` of the scheduler
pub record Host (L S G Sched : Type 0) : Type 0 where
  pub zero_score : S
  pub one_score : S
  pub plus : S → S → S
  pub minus : S → S → S
  -- a sum over a positive count
  pub over : S → ℕ → S
  pub exceeds : S → S → Bool
  pub feed : Fed S → Sched → Sched
  pub poll : Sched → List Command
  pub polled : Sched → Sched
  -- `none` where the scheduler has no `branch_state`
  pub state_of : Sched → ℕ → Option BranchState
  pub sample : L → G → Fallible ((ℕ × S) × G)
  pub token_text : ℕ → Text
  pub eos_tokens : List ℕ
  pub consensus_scores : Dict Text → Dict S
  -- `extract_final_answer`
  pub final_answer : Text → Option Text
  pub executor : Executor
  pub forward_cached : List LayerTokens → ℕ → ℕ → Result (Output L)
  pub forest_forward : TreeState → List ℕ → List ℕ → List ℕ → Result (ForestOutput L)
  pub digest : Page → ℕ

-- what the request and the engine fix for one call
pub record Settings (S : Type 0) : Type 0 where
  pub budget : ℕ
  pub stop : List Text
  pub emvpt : Option (EmvptConfig S)
  pub consensus : Option ConsensusConfig
  pub dedup_every_steps : Option ℕ

pub record KvSnapshot : Type 0 where
  pub logical_tokens : ℕ
  pub physical_tokens : ℕ

-- the local variables of `generate`, with the events yielded so far
pub record Run (L S G Sched : Type 0) : Type 0 where
  pub execution : Execution L
  pub scheduler : Sched
  pub generator : G
  pub parents : Dict (Option ℕ)
  pub own_text : Dict (List Text)
  pub path_text : Dict Text
  pub token_counts : Dict ℕ
  pub ranking_token_counts : Dict ℕ
  pub value_token_counts : Dict ℕ
  pub scores : Dict S
  pub value_logprob_sums : Dict S
  pub pruned_at_tokens : Dict (Option ℕ)
  pub active : List ℕ
  pub finalized : List ℕ
  pub merged : List ℕ
  pub value_pruned : List ℕ
  pub exhaustion_pending : List ℕ
  pub stopped : List ℕ
  pub commands : List Command
  pub completion_tokens : ℕ
  pub pruned_count : ℕ
  pub merged_count : ℕ
  pub decode_steps : ℕ
  pub unique_tokens_per_step : List ℕ
  pub branch_tokens_per_step : List ℕ
  pub best_snapshot : KvSnapshot
  pub events : List (Event S)

-- sets: `discard` and `remove`, `add`
abbrev pub discard : ℕ → List ℕ → List ℕ
discard i [] = []
discard i (x ∷ xs) = let rest = discard i xs in if x == i then rest else x ∷ rest

abbrev pub insert : ℕ → List ℕ → List ℕ
insert i xs = if contains i xs then xs else i ∷ xs

abbrev pub filter : (ℕ → Bool) → List ℕ → List ℕ
filter p [] = []
filter p (x ∷ xs) = let rest = filter p xs in if p x then x ∷ rest else rest
