-- ===== src/Sdk/Trace/Tests.antt =====
-- A stream of two branches, of which the first is pruned and the second wins.
use autotree.Base.{ℕ, ◌≡◌, refl, none, some, List, [], ◌∷◌, ◌==◌, Bool, list_equal}
use autotree.Sdk.Trace.{
  Checked, accepted, rejected, DoneEvent, TreeEvent, branch_started, token, branch_pruned,
  done_event, TraceAssembler, new_assembler, start, add_token, add_pruned,
}
use autotree.Sdk.Trace.Complete.{complete, add, add_all}
use autotree.Sdk.Trace.Sound.{IsSound}
use autotree.Sdk.Trace.Ends.{add_all-IsSound}
use autotree.Sdk.Trace.Conforms.{Conforms, add-Conforms, new_assembler-IsSound}

-- ratios and counters in the same unit
abbrev close : ℕ → ℕ → ℕ → Bool
close ratio logical physical = ratio == logical

abbrev state_of : Checked TraceAssembler → TraceAssembler
state_of (accepted a) = a
state_of (rejected e) = new_assembler

abbrev events : List TreeEvent
events =
    branch_started 1 none
    ∷ (token 1 0 (97 ∷ []) (some 5) 0
        ∷ (branch_started 2 (some 1)
            ∷ (token 2 0 (98 ∷ []) none 0 ∷ (branch_pruned 1 (120 ∷ []) ∷ []))))

abbrev last : DoneEvent
last = record {
  branch_id = 2;
  text = 97 ∷ (98 ∷ []);
  completion_tokens = 2;
  branch_count = 2;
  pruned_count = 1;
  merged_count = 0;
  tokens_spent_per_branch = (1, 1) ∷ ((2, 1) ∷ []);
  final_scores = (2, 0) ∷ ((1, 0) ∷ []);
  winner_branch_id = 2;
  kv_reuse_ratio = some 3;
  logical_tokens = 3;
  physical_tokens = 4;
}

abbrev before : TraceAssembler
before = state_of (add_all close events new_assembler)

abbrev after : TraceAssembler
after = state_of (add close (done_event last) before)

runs :
    (add_all close events new_assembler ≡ accepted before)
    × (add close (done_event last) before ≡ accepted after)
    × (after.done ≡ some last)
unfolding add_all add start add_token add_pruned complete list_equal
runs = (refl, refl, refl)

add_all-IsSound_example : IsSound before
add_all-IsSound_example =
    add_all-IsSound close events new_assembler before new_assembler-IsSound runs.0

add-Conforms_example : Conforms last before after
add-Conforms_example = add-Conforms close events last before after runs.0 runs.1
