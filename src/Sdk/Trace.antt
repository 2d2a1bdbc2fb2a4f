-- ===== src/Sdk/Trace.antt =====
-- sdk/autotree_sdk/trace.py. Branch ids are strings that are only compared, and stand here as
-- numbers, as do log-probabilities, which are only kept; a text is its list of characters. Every
-- check of `add` stands before its writes, so a rejected event leaves the assembler as it was.
pub mod Complete
pub mod Sound
pub mod Ends
pub mod Conforms
mod Tests
use autotree.Base.{
  ℕ, zero, suc, ◌+◌, ◌*◌, Bool, true, false, not, ◌&&◌, ◌||◌, Option, none, some, List, [], ◌∷◌,
  ◌++◌, map, ltb, ◌==◌, if◌then◌else◌, length, contains, list_equal, Dict, get, set,
}

pub data TraceError : Type 0 where
  event_after_done duplicate_branch unknown_parent invalid_token_index unknown_branch : TraceError
  branch_not_live invalid_merge_target usage_token_mismatch branch_count_mismatch : TraceError
  unterminated_branches pruned_count_mismatch merged_count_mismatch : TraceError
  branch_token_count_mismatch final_score_branch_mismatch winner_branch_mismatch : TraceError
  invalid_kv_reuse_ratio winner_text_mismatch missing_done : TraceError
  -- `TreeStreamError`, and a `KeyError`
  stream_error missing_key : ℕ → TraceError

pub data Checked (A : Type 0) : Type 0 where
  accepted : A → Checked A
  rejected : TraceError → Checked A

infixl 5 ◌>>=◌ ◌>>◌
abbrev pub ◌>>=◌ : {A B : Type 0} → Checked A → (A → Checked B) → Checked B
◌>>=◌ (accepted a) f = f a
◌>>=◌ (rejected e) f = rejected e

abbrev pub ◌>>◌ : {A B : Type 0} → Checked A → Checked B → Checked B
◌>>◌ (accepted a) m = m
◌>>◌ (rejected e) m = rejected e

abbrev pub reject_if : Bool → TraceError → Checked (Unit {0})
reject_if true e = rejected e
reject_if false e = accepted tt

pub data Status : Type 0 where
  live completed pruned merged : Status

abbrev pub is_live : Status → Bool
is_live live = true
is_live _ = false

abbrev pub is_pruned : Status → Bool
is_pruned pruned = true
is_pruned _ = false

abbrev pub is_merged : Status → Bool
is_merged merged = true
is_merged _ = false

pub record RolloutBranch : Type 0 where
  pub branch_id : ℕ
  pub parent_id : Option ℕ
  pub branch_path : List ℕ
  pub tokens : List (List ℕ)
  pub token_ids : List (Option ℕ)
  pub token_logprobs : List ℕ
  pub token_indices : List ℕ
  pub status : Status
  pub prune_reason : Option (List ℕ)
  pub merged_into : Option ℕ

-- the usage, the summary of the tree and the counters that end a stream
pub record DoneEvent : Type 0 where
  pub branch_id : ℕ
  pub text : List ℕ
  pub completion_tokens : ℕ
  pub branch_count : ℕ
  pub pruned_count : ℕ
  pub merged_count : ℕ
  pub tokens_spent_per_branch : Dict ℕ
  pub final_scores : Dict ℕ
  pub winner_branch_id : ℕ
  pub kv_reuse_ratio : Option ℕ
  pub logical_tokens : ℕ
  pub physical_tokens : ℕ

pub data TreeEvent : Type 0 where
  branch_started : (branch_id : ℕ) (parent_id : Option ℕ) → TreeEvent
  token :
      (branch_id token_index : ℕ) (text : List ℕ) (token_id : Option ℕ) (logprob : ℕ) → TreeEvent
  branch_pruned : (branch_id : ℕ) (reason : List ℕ) → TreeEvent
  branch_merged : (branch_id into_branch_id : ℕ) → TreeEvent
  error_event : (code : ℕ) → TreeEvent
  done_event : DoneEvent → TreeEvent

pub record TraceAssembler : Type 0 where
  pub branches : Dict RolloutBranch
  pub done : Option DoneEvent
  pub token_count : ℕ

abbrev pub new_assembler : TraceAssembler
new_assembler = record { branches = []; done = none; token_count = 0 }

abbrev pub is_some : {A : Type 0} → Option A → Bool
is_some none = false
is_some (some a) = true

abbrev pub found : TraceError → Option RolloutBranch → Checked RolloutBranch
found e none = rejected e
found e (some b) = accepted b

-- `_known_live`
abbrev pub known_live : TraceAssembler → ℕ → Checked RolloutBranch
known_live a i = do
  b ← found unknown_branch (get i a.branches)
  reject_if (not (is_live b.status)) branch_not_live
  accepted b

abbrev pub save : RolloutBranch → TraceAssembler → TraceAssembler
save b a = record a { branches = set b.branch_id b a.branches }

abbrev path_from : TraceAssembler → ℕ → Option ℕ → Checked (List ℕ)
path_from a i none = accepted (i ∷ [])
path_from a i (some p) = do
  parent ← found unknown_parent (get p a.branches)
  accepted (parent.branch_path ++ i ∷ [])

abbrev new_branch : ℕ → Option ℕ → List ℕ → RolloutBranch
new_branch i parent path = record {
  branch_id = i;
  parent_id = parent;
  branch_path = path;
  tokens = [];
  token_ids = [];
  token_logprobs = [];
  token_indices = [];
  status = live;
  prune_reason = none;
  merged_into = none;
}

-- `_start`
unfoldable pub start : ℕ → Option ℕ → TraceAssembler → Checked TraceAssembler
start i parent a = do
  reject_if (is_some (get i a.branches)) duplicate_branch
  path ← path_from a i parent
  accepted (record a { branches = set i (new_branch i parent path) a.branches })

abbrev pub with_token : ℕ → List ℕ → Option ℕ → ℕ → RolloutBranch → RolloutBranch
with_token index text id logprob b = record b {
  token_indices = b.token_indices ++ index ∷ [];
  tokens = b.tokens ++ text ∷ [];
  token_ids = b.token_ids ++ id ∷ [];
  token_logprobs = b.token_logprobs ++ logprob ∷ [];
}

-- `_token`
unfoldable pub add_token : ℕ → ℕ → List ℕ → Option ℕ → ℕ → TraceAssembler → Checked TraceAssembler
add_token i index text id logprob a = do
  b ← known_live a i
  reject_if (not (index == length b.token_indices)) invalid_token_index
  accepted (record a {
    branches = set i (with_token index text id logprob b) a.branches;
    token_count = a.token_count + 1;
  })

unfoldable pub add_pruned : ℕ → List ℕ → TraceAssembler → Checked TraceAssembler
add_pruned i reason a = do
  b ← known_live a i
  let ended = record b { status = pruned; prune_reason = some reason }
  accepted (record a { branches = set i ended a.branches })

unfoldable pub add_merged : ℕ → ℕ → TraceAssembler → Checked TraceAssembler
add_merged i into a = do
  b ← known_live a i
  reject_if (into == i) invalid_merge_target
  known_live a into
  let ended = record b { status = merged; merged_into = some into }
  accepted (record a { branches = set i ended a.branches })
