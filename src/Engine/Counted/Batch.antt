-- ===== src/Engine/Counted/Batch.antt =====
-- `advance_batch` keeps the counters right and the tokens within the budget.
use autotree.Base.{
  ℕ, suc, ◌+◌, ◌≤◌, ◌≡◌, refl, ap, inl, inr, not, ◌||◌, List, [], ◌∷◌, length, arith, get,
  Bool-cases, ltb, map,
}
use autotree.Modeling.{next_logits, decode, deduplicate, token, repeats}
use autotree.Modeling.Calls.{decode_batch}
use autotree.Engine.{
  need, fail_if, Command, Host, Settings, Run, kv_error, budget_exceeded, not_distinct,
  inactive_branch,
}
use autotree.Engine.Values.{for_each, on_execution, feed_consensus_values, prune_low_value_branches}
use autotree.Engine.Advance.{
  sample_all, decode_all, record_token, all_token_ids, dedup_and_merge, dedup_is_due, advance_batch,
  take_snapshot, poll_commands, has_ids, any_inactive, step_counted, capacity_wrapped, token_of,
  branch_of_sample,
}
use autotree.Engine.Ensures.{
  Ensures, Ensures-done, Ensures-bind, Ensures-bound, Ensures-then, Ensures-on_execution,
  need-found, fail_if-passed,
}
use autotree.Engine.Counted.{IsCounted-token}
use autotree.Engine.Counted.Steps.{
  Counts, feed_consensus_values-Counts, prune_low_value_branches-Counts,
  merge_converged_branches-Counts,
}

-- a smaller number of coming tokens, or one that was checked
Counts-coming :
    {L S G Sched : Type 0} (budget n m : ℕ) (e : Run L S G Sched)
    → e.completion_tokens + m ≤ budget
    → Counts budget n e
    → Counts budget m e
Counts-coming budget n m e fits k = record {
  started = k.started;
  tokens = k.tokens;
  prunes = k.prunes;
  merges = k.merges;
  spent = k.spent;
  within = fits;
  counted_known = k.counted_known;
  texts_known = k.texts_known;
  older = k.older;
  rooted = k.rooted;
}

module _ {L S G Sched : Type 0} (h : Host L S G Sched) (c : Settings S) (budget : ℕ) where
  abbrev Drew : List ℕ → ℕ → List (ℕ × (ℕ × S)) × Run L S G Sched → Type 0
  Drew ids n out = (length (out.0) ≡ length ids) × Counts budget n (out.1)

  sample_all-Counts :
      (n : ℕ) (ids : List ℕ) (e : Run L S G Sched)
      → Counts budget n e
      → Ensures (sample_all h c ids e) (Drew ids n)
  unfolding sample_all
  sample_all-Counts n [] e k = Ensures-done ([], e) (Drew [] n) (refl, k)
  sample_all-Counts n (i ∷ ids) e k =
      Ensures-bound (on_execution kv_error (next_logits L i) e) _ (Drew (i ∷ ids) n) λ logits found.
        Ensures-bound (h.sample (logits.0) e.generator) _ (Drew (i ∷ ids) n) λ drawn sampled.
          Ensures-bind (sample_all h c ids (record e { generator = drawn.1 })) _ (Drew ids n)
            (Drew (i ∷ ids) n) (sample_all-Counts n ids (record e { generator = drawn.1 }) k)
            λ rest r. Ensures-done _ (Drew (i ∷ ids) n) (ap suc r.0, r.1)

  decode_all-Counts :
      (n : ℕ) (sampled : List (ℕ × (ℕ × S))) (e : Run L S G Sched)
      → Counts budget n e
      → Ensures (decode_all h c sampled e) (Counts budget n)
  unfolding decode_all
  decode_all-Counts n [] e k =
      Ensures-bind
        (on_execution (capacity_wrapped h.executor.capacity_pages)
          (decode_batch L h.forest_forward h.executor [] []) e)
        _ (λ out. Counts budget n (out.1)) (Counts budget n)
        (Ensures-on_execution _ e (λ out. Counts budget n (out.1)) (λ u x. k) _)
        (λ out k'. Ensures-done (out.1) (Counts budget n) k')
  decode_all-Counts n ((i, (t, p)) ∷ []) e k =
      Ensures-bind
        (on_execution (capacity_wrapped h.executor.capacity_pages)
          (decode L h.forward_cached h.executor i (token t)) e)
        _ (λ out. Counts budget n (out.1)) (Counts budget n)
        (Ensures-on_execution _ e (λ out. Counts budget n (out.1)) (λ u x. k) _)
        (λ out k'. Ensures-done (out.1) (Counts budget n) k')
  decode_all-Counts n ((i, (t, p)) ∷ (s ∷ more)) e k =
      Ensures-bind
        (on_execution (capacity_wrapped h.executor.capacity_pages)
          (decode_batch L h.forest_forward h.executor
            (map (branch_of_sample h c) ((i, (t, p)) ∷ (s ∷ more)))
            (map (λ s. token (token_of h c s)) ((i, (t, p)) ∷ (s ∷ more))))
          e)
        _ (λ out. Counts budget n (out.1)) (Counts budget n)
        (Ensures-on_execution _ e (λ out. Counts budget n (out.1)) (λ u x. k) _)
        (λ out k'. Ensures-done (out.1) (Counts budget n) k')

  record_token-Counts :
      (n : ℕ) (s : ℕ × (ℕ × S)) (e : Run L S G Sched)
      → Counts budget (suc n) e
      → Ensures (record_token h c s e) (Counts budget n)
  unfolding record_token
  record_token-Counts n (i, (t, p)) e k =
      Ensures-bound (need i (get i e.token_counts)) _ (Counts budget n) λ index at.
        Ensures-bound (need i (get i e.ranking_token_counts)) _ (Counts budget n) λ ranking r.
          Ensures-bound (need i (get i e.own_text)) _ (Counts budget n) λ own o.
            Ensures-bound (need i (get i e.path_text)) _ (Counts budget n) λ path text.
              Ensures-bound (need i (get i e.scores)) _ (Counts budget n) λ score s.
                Ensures-bound (need i (get i e.value_logprob_sums)) _ (Counts budget n) λ sum m.
                  Ensures-bound (need i (get i e.value_token_counts)) _ (Counts budget n)
                    λ values v. Ensures-done _ (Counts budget n) (
                      IsCounted-token budget n e.parents e.token_counts e.path_text
                        e.completion_tokens e.pruned_count e.merged_count e.events i index t
                        (h.token_text t) path _ p (need-found i (get i e.token_counts) index at)
                        (need-found i (get i e.path_text) path text) k)

  record_all-Counts :
      (sampled : List (ℕ × (ℕ × S))) (e : Run L S G Sched)
      → Counts budget (length sampled) e
      → Ensures (for_each sampled (record_token h c) e) (Counts budget 0)
  unfolding for_each
  record_all-Counts [] e k = Ensures-done e (Counts budget 0) k
  record_all-Counts (s ∷ sampled) e k =
      Ensures-bind (record_token h c s e) _ (Counts budget (length sampled)) (Counts budget 0)
        (record_token-Counts (length sampled) s e k) (record_all-Counts sampled)

  dedup_and_merge-Counts :
      (pending : List Command) (e : Run L S G Sched)
      → Counts budget 0 e
      → Ensures (dedup_and_merge h c pending e) (Counts budget 0)
  unfolding dedup_and_merge
  dedup_and_merge-Counts pending e k =
      elim (Bool-cases (dedup_is_due h c c.dedup_every_steps e.decode_steps)) [
        | inr later ↦ rw later (Ensures-done e (Counts budget 0) k)
        | inl due ↦ rw due (
            Ensures-bind (on_execution kv_error (deduplicate L h.digest h.executor) e) _
              (λ out. Counts budget 0 (out.1)) (Counts budget 0)
              (Ensures-on_execution kv_error e (λ out. Counts budget 0 (out.1)) (λ n x. k)
                (deduplicate L h.digest h.executor))
              (λ out k'.
                merge_converged_branches-Counts h c budget 0 pending (take_snapshot h c (out.1))
                  k'))
      ]

module _ {L S G Sched : Type 0} (h : Host L S G Sched) (c : Settings S) where
  -- A batch is decoded only where the budget has a token for each of its branches.
  pub advance_batch-Counts :
      (ids : List ℕ) (e : Run L S G Sched)
      → Counts c.budget 0 e
      → Ensures (advance_batch h c ids e) (Counts c.budget 0)
  unfolding advance_batch
  advance_batch-Counts ids e k =
      Ensures-then (fail_if (not (has_ids h c ids) || repeats ids) not_distinct) _
        (Counts c.budget 0)
        λ u some_ids.
          Ensures-then (fail_if (any_inactive h c e.active ids) inactive_branch) _
            (Counts c.budget 0)
            λ u' active.
              Ensures-then
                (fail_if (ltb c.budget (e.completion_tokens + length ids)) budget_exceeded) _
                (Counts c.budget 0)
                λ u'' within.
                  let room =
                    fail_if-passed (ltb c.budget (e.completion_tokens + length ids)) budget_exceeded
                      u'' within in
                  Ensures-bind (sample_all h c ids e) _ (Drew h c c.budget ids (length ids))
                    (Counts c.budget 0)
                    (sample_all-Counts h c c.budget (length ids) ids e
                      (Counts-coming c.budget 0 (length ids) e (ground (arith, room)) k))
                    λ drawn d.
                      Ensures-bind (decode_all h c (drawn.0) (drawn.1)) _
                        (Counts c.budget (length (drawn.0))) (Counts c.budget 0)
                        (decode_all-Counts h c c.budget (length (drawn.0)) (drawn.0) (drawn.1)
                          (rw (d.0) (d.1)))
                        λ e2 k2.
                          Ensures-bind (for_each (drawn.0) (record_token h c) e2) _
                            (Counts c.budget 0) (Counts c.budget 0)
                            (record_all-Counts h c c.budget (drawn.0) e2 k2)
                            λ e3 k3.
                              Ensures-bound (all_token_ids h c ids e3) _ (Counts c.budget 0)
                                λ tokens found.
                                  Ensures-bind
                                    (feed_consensus_values h c ids
                                      (step_counted h c (length ids) tokens e3))
                                    _ (Counts c.budget 0) (Counts c.budget 0)
                                    (feed_consensus_values-Counts h c c.budget 0 ids
                                      (step_counted h c (length ids) tokens e3) k3)
                                    λ e4 k4.
                                      Ensures-bind (prune_low_value_branches h c e4) _
                                        (Counts c.budget 0) (Counts c.budget 0)
                                        (prune_low_value_branches-Counts h c c.budget 0 e4 k4)
                                        λ e5 k5.
                                          Ensures-bind
                                            (dedup_and_merge h c ((poll_commands h c e5).0)
                                              ((poll_commands h c e5).1))
                                            _ (Counts c.budget 0) (Counts c.budget 0)
                                            (dedup_and_merge-Counts h c c.budget
                                              ((poll_commands h c e5).0) ((poll_commands h c e5).1)
                                              k5)
                                            λ e6 k6. Ensures-done _ (Counts c.budget 0) k6
