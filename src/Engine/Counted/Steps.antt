-- ===== src/Engine/Counted/Steps.antt =====
-- The steps inside of a round keep the counters right: values, merges and recorded tokens.
use autotree.Base.{
  ℕ, inl, inr, Bool, true, false, Option, none, some, List, [], ◌∷◌, length, Dict, get, Bool-cases,
  contains, sorted, leb, ◌==◌,
}
use autotree.Modeling.{Execution, prune_execution}
use autotree.Engine.{
  need, Command, emvpt_below_margin, EmvptConfig, ConsensusConfig, Host, Settings, Run, kv_error,
}
use autotree.Engine.Values.{
  for_each, on_execution, feed_consensus_values, feed_with, feed_pending, feed_score, branch_scores,
  prune_low_value_branches, prune_with, value_prune, low_value_pruned, leave_active, sibling_groups,
  live_of, is_active, scheduler_is_active,
}
use autotree.Engine.Merging.{
  merge_converged_branches, merge_one, merge_group, tell_merged, is_terminal, group_one, Group,
}
use autotree.Engine.Ensures.{
  Ensures, Ensures-done, Ensures-bind, Ensures-bound, Ensures-for_each, Ensures-on_execution,
}
use autotree.Engine.Counted.{IsCounted, IsCounted-pruned, IsCounted-merged}

module _ {L S G Sched : Type 0} (budget coming : ℕ) where
  abbrev pub Counts : Run L S G Sched → Type 0
  Counts e =
      IsCounted budget coming e.parents e.token_counts e.path_text e.completion_tokens
        e.pruned_count e.merged_count e.events

module _ {L S G Sched : Type 0} (h : Host L S G Sched) (c : Settings S) (budget coming : ℕ) where
  feed_score-Counts :
      (scores : Dict S) (i : ℕ) (e : Run L S G Sched)
      → Counts budget coming e
      → Ensures (feed_score h c scores i e) (Counts budget coming)
  feed_score-Counts scores i e k =
      Ensures-bound (need i (get i scores)) _ (Counts budget coming)
        (λ score found. Ensures-done _ (Counts budget coming) k)

  feed_pending-Counts :
      (t : ConsensusConfig) (pending live : List ℕ) (e : Run L S G Sched)
      → Counts budget coming e
      → Ensures (feed_pending h c t pending live e) (Counts budget coming)
  feed_pending-Counts t [] live e k = Ensures-done e (Counts budget coming) k
  feed_pending-Counts t (i ∷ rest) live e k =
      Ensures-bound (branch_scores h c t e (i ∷ rest) live) _ (Counts budget coming)
        (λ scores found.
          Ensures-for_each (i ∷ rest) (feed_score h c scores) (Counts budget coming) e
            (feed_score-Counts scores) k)

  pub feed_consensus_values-Counts :
      (ids : List ℕ) (e : Run L S G Sched)
      → Counts budget coming e
      → Ensures (feed_consensus_values h c ids e) (Counts budget coming)
  unfolding feed_consensus_values
  feed_consensus_values-Counts ids e k = by_config c.consensus
    where
      by_config :
          (o : Option ConsensusConfig) → Ensures (feed_with h c o ids e) (Counts budget coming)
      by_config none = Ensures-done e (Counts budget coming) k
      by_config (some t) = feed_pending-Counts t _ _ e k

  -- a pruning is counted whether or not the scheduler is told
  low_value_pruned-Counts :
      (i count : ℕ) (e : Run L S G Sched)
      → Counts budget coming e
      → Counts budget coming (low_value_pruned h c i count e)
  low_value_pruned-Counts i count e k = elim (Bool-cases (scheduler_is_active h c e i)) [
    | inl told ↦
        rw told (IsCounted-pruned budget coming _ _ _ _ _ _ e.events i emvpt_below_margin k)
    | inr silent ↦
        rw silent (IsCounted-pruned budget coming _ _ _ _ _ _ e.events i emvpt_below_margin k)
  ]

  value_prune-Counts :
      (i : ℕ) (e : Run L S G Sched)
      → Counts budget coming e
      → Ensures (value_prune h c i e) (Counts budget coming)
  unfolding value_prune
  value_prune-Counts i e k = elim (Bool-cases (contains i e.active)) [
    | inr gone ↦ rw gone (Ensures-done e (Counts budget coming) k)
    | inl here ↦ rw here (
        Ensures-bind (on_execution kv_error (prune_execution L h.executor i) (leave_active h c i e))
          _ (λ out. Counts budget coming (out.1)) (Counts budget coming)
          (Ensures-on_execution kv_error (leave_active h c i e)
            (λ out. Counts budget coming (out.1)) (λ u x. k) (prune_execution L h.executor i))
          (λ out k'.
            Ensures-bound (need i (get i (out.1).value_token_counts)) _ (Counts budget coming)
              (λ count found.
                Ensures-done _ (Counts budget coming)
                  (low_value_pruned-Counts i count (out.1) k'))))
  ]

  pub prune_low_value_branches-Counts :
      (e : Run L S G Sched)
      → Counts budget coming e
      → Ensures (prune_low_value_branches h c e) (Counts budget coming)
  unfolding prune_low_value_branches
  prune_low_value_branches-Counts e k = by_config c.emvpt
    where
      by_config : (o : Option (EmvptConfig S)) → Ensures (prune_with h c o e) (Counts budget coming)
      by_config none = Ensures-done e (Counts budget coming) k
      by_config (some t) =
          elim (Bool-cases (leb (length (live_of h c (is_active h c) e e.active)) t.min_keep)) [
            | inl few ↦ rw few (Ensures-done e (Counts budget coming) k)
            | inr many ↦ rw many (
                Ensures-bound (sibling_groups h c e (live_of h c (is_active h c) e e.active) []) _
                  (Counts budget coming)
                  (λ groups found.
                    Ensures-for_each _ (value_prune h c) (Counts budget coming) e value_prune-Counts
                      k))
          ]

  merge_one-Counts :
      (ended : ℕ → Bool) (target i : ℕ) (e : Run L S G Sched)
      → Counts budget coming e
      → Ensures (merge_one h c ended target i e) (Counts budget coming)
  unfolding merge_one
  merge_one-Counts ended target i e k = elim (Bool-cases (i == target)) [
    | inl same ↦ rw same (Ensures-done e (Counts budget coming) k)
    | inr other ↦ rw other (
        Ensures-bind
          (on_execution kv_error (prune_execution L h.executor i)
            (leave_active h c i (tell_merged h c (ended i) i e)))
          _ (λ out. Counts budget coming (out.1)) (Counts budget coming)
          (Ensures-on_execution kv_error _ (λ out. Counts budget coming (out.1))
            (λ u x. told_merged (ended i) x) (prune_execution L h.executor i))
          (λ out k'.
            Ensures-done _ (Counts budget coming)
              (IsCounted-merged budget coming _ _ _ _ _ _ (out.1).events i target k')))
  ]
    where
      told_merged :
          (b : Bool) (x : Execution L)
          → Counts budget coming
              (record (leave_active h c i (tell_merged h c b i e)) { execution = x })
      told_merged true x = k
      told_merged false x = k

  merge_group-Counts :
      (ended : ℕ → Bool) (g : Group h c) (e : Run L S G Sched)
      → Counts budget coming e
      → Ensures (merge_group h c ended g e) (Counts budget coming)
  merge_group-Counts ended (tokens, page, []) e k = Ensures-done e (Counts budget coming) k
  merge_group-Counts ended (tokens, page, (i ∷ [])) e k = Ensures-done e (Counts budget coming) k
  merge_group-Counts ended (tokens, page, (i ∷ (j ∷ rest))) e k =
      Ensures-for_each _ (merge_one h c ended _) (Counts budget coming) e (merge_one-Counts ended _)
        k

  pub merge_converged_branches-Counts :
      (pending : List Command) (e : Run L S G Sched)
      → Counts budget coming e
      → Ensures (merge_converged_branches h c pending e) (Counts budget coming)
  unfolding merge_converged_branches
  merge_converged_branches-Counts pending e k =
      Ensures-bound (for_each (sorted e.active) (group_one h c pending e) []) _
        (Counts budget coming)
        (λ groups found.
          Ensures-for_each groups (merge_group h c (is_terminal h c pending e))
            (Counts budget coming) e (merge_group-Counts (is_terminal h c pending e)) k)
