-- ===== src/Sdk/Trace/Complete.antt =====
-- The end of sdk/autotree_sdk/trace.py: the checks of `_complete`, `add` and `finish`.
use autotree.Base.{
  ℕ, ◌+◌, Bool, true, false, not, ◌&&◌, Option, none, some, List, [], ◌∷◌, ◌++◌, ltb, ◌==◌,
  if◌then◌else◌, length, list_equal, Dict, get, set,
}
use autotree.Sdk.Trace.{
  event_after_done, usage_token_mismatch, branch_count_mismatch, unterminated_branches,
  pruned_count_mismatch, merged_count_mismatch, branch_token_count_mismatch,
  final_score_branch_mismatch, winner_branch_mismatch, invalid_kv_reuse_ratio, winner_text_mismatch,
  missing_done, stream_error, missing_key, Checked, accepted, rejected, ◌>>=◌, ◌>>◌, reject_if,
  completed, is_live, is_pruned, is_merged, RolloutBranch, DoneEvent, TreeEvent, branch_started,
  token, branch_pruned, branch_merged, error_event, done_event, TraceAssembler, is_some, found,
  known_live, start, add_token, add_pruned, add_merged,
}

-- how many branches pass a test
abbrev pub branches_with : (RolloutBranch → Bool) → Dict RolloutBranch → ℕ
branches_with p [] = 0
branches_with p ((i, b) ∷ rest) = (if p b then 1 else 0) + branches_with p rest

abbrev pub unterminated : ℕ → RolloutBranch → Bool
unterminated winner b = is_live b.status && not (b.branch_id == winner)

abbrev pub spent_on : Dict RolloutBranch → ℕ → ℕ → Bool
spent_on branches i n = elim (get i branches) [ none ↦ false | some b ↦ length b.tokens == n ]

abbrev pub all_spent : Dict RolloutBranch → Dict ℕ → Bool
all_spent branches [] = true
all_spent branches ((i, n) ∷ rest) = spent_on branches i n && all_spent branches rest

-- equality of the two dicts of token counts, each with its keys once
abbrev pub same_counts : Dict ℕ → Dict RolloutBranch → Bool
same_counts spent branches = length spent == length branches && all_spent branches spent

abbrev pub keys_within : {A B : Type 0} → Dict A → Dict B → Bool
keys_within [] other = true
keys_within ((i, a) ∷ rest) other = is_some (get i other) && keys_within rest other

abbrev pub same_keys : {A B : Type 0} → Dict A → Dict B → Bool
same_keys d e = keys_within d e && keys_within e d

abbrev pub joined : List (List ℕ) → List ℕ
joined [] = []
joined (t ∷ ts) = t ++ joined ts

-- the text along a path
abbrev pub path_text : Dict RolloutBranch → List ℕ → Checked (List ℕ)
path_text branches [] = accepted []
path_text branches (i ∷ path) = do
  b ← found (missing_key i) (get i branches)
  rest ← path_text branches path
  accepted (joined b.tokens ++ rest)

module _ (is_close : ℕ → ℕ → ℕ → Bool) where
  abbrev pub ratio_differs : Option ℕ → ℕ → ℕ → Bool
  ratio_differs none logical physical = false
  ratio_differs (some ratio) logical physical = not (is_close ratio logical physical)

  -- `_complete`
  unfoldable pub complete : DoneEvent → TraceAssembler → Checked TraceAssembler
  complete event a = do
    reject_if (not (event.completion_tokens == a.token_count)) usage_token_mismatch
    reject_if (not (event.branch_count == length a.branches)) branch_count_mismatch
    winner ← known_live a event.branch_id
    reject_if (ltb 0 (branches_with (unterminated event.branch_id) a.branches))
        unterminated_branches
    reject_if (not (event.pruned_count == branches_with (λ b. is_pruned b.status) a.branches))
        pruned_count_mismatch
    reject_if (not (event.merged_count == branches_with (λ b. is_merged b.status) a.branches))
        merged_count_mismatch
    reject_if (not (same_counts event.tokens_spent_per_branch a.branches))
        branch_token_count_mismatch
    reject_if (not (same_keys event.final_scores a.branches)) final_score_branch_mismatch
    reject_if (not (event.winner_branch_id == event.branch_id)) winner_branch_mismatch
    reject_if (event.physical_tokens == 0) invalid_kv_reuse_ratio
    reject_if (ratio_differs event.kv_reuse_ratio event.logical_tokens event.physical_tokens)
        invalid_kv_reuse_ratio
    text ← path_text a.branches winner.branch_path
    reject_if (not (list_equal ◌==◌ event.text text)) winner_text_mismatch
    accepted (record a {
      branches = set event.branch_id (record winner { status = completed }) a.branches;
      done = some event;
    })

  abbrev pub dispatch : TreeEvent → TraceAssembler → Checked TraceAssembler
  dispatch (branch_started i parent) a = start i parent a
  dispatch (token i index text id logprob) a = add_token i index text id logprob a
  dispatch (branch_pruned i reason) a = add_pruned i reason a
  dispatch (branch_merged i into) a = add_merged i into a
  dispatch (error_event code) a = rejected (stream_error code)
  dispatch (done_event event) a = complete event a

  unfoldable pub add : TreeEvent → TraceAssembler → Checked TraceAssembler
  unfolding complete
  add event a = do reject_if (is_some a.done) event_after_done; dispatch event a

  -- the events of a stream, up to the first that is rejected
  unfoldable pub add_all : List TreeEvent → TraceAssembler → Checked TraceAssembler
  unfolding add
  add_all [] a = accepted a
  add_all (event ∷ rest) a = do next ← add event a; add_all rest next

-- `finish`, with the branches and the event that the tree is made of
abbrev ended : Option DoneEvent → Dict RolloutBranch → Checked (Dict RolloutBranch × DoneEvent)
ended none branches = rejected missing_done
ended (some event) branches = accepted (branches, event)

unfoldable pub finish : TraceAssembler → Checked (Dict RolloutBranch × DoneEvent)
finish a = ended a.done a.branches
