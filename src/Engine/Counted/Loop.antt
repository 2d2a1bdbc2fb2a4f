-- ===== src/Engine/Counted/Loop.antt =====
-- Every round of the loop of `generate` keeps the counters right.
use autotree.Base.{
  ℕ, zero, suc, ◌≡◌, refl, sym, ◌∙◌, inl, inr, Bool, true, false, not, ◌||◌, Option, none, some,
  List, [], ◌∷◌, arith, get, Text, Bool-cases, some-injective, none≢some, contains, ◌==◌,
}
use autotree.Modeling.{Execution, fork_execution, prune_execution}
use autotree.Kv.Tree.{root_id}
use autotree.Engine.{
  done, need, fail_if, Command, continue, finalize, unsupported, fork_at, kill, branch_of, Host,
  Settings, Run, kv_error, inactive_branch, child_diverged, branch_started, scheduler_reason,
  KvSnapshot, insert,
}
use autotree.Engine.Values.{for_each, on_execution, scheduler_is_active, leave_active, yield_event}
use autotree.Engine.Rounds.{
  max_key, start, take_continues, continue_one, advance_ready, continue_all, mark_exhausted,
  child_started, fork_one, fork_children, run_fork, run_kill, run_finalize, dispatch, next_round,
  round, Reach, first, next,
}
use autotree.Engine.Ensures.{
  Ensures, Ensures-done, Ensures-bind, Ensures-bound, Ensures-then, Ensures-for_each,
  Ensures-on_execution, need-found, fail_if-passed,
}
use autotree.Engine.Counted.{IsCounted-pruned, IsCounted-started}
use autotree.Engine.Counted.Steps.{Counts}
use autotree.Engine.Counted.Batch.{advance_batch-Counts}

only_root :
    (i : ℕ) (q : Option ℕ) → get i ((root_id, none) ∷ []) ≡ some q → (i ≡ root_id) × (none ≡ q)
only_root i q k = elim (Bool-cases (root_id == i)) [
  | inl same ↦ (ground (arith, same), some-injective (sym (rw same refl) ∙ k))
  | inr other ↦ absurd (none≢some (sym (rw other refl) ∙ k))
]

module _ {L S G Sched : Type 0} (h : Host L S G Sched) (c : Settings S) where
  abbrev ReadyCounts : List ℕ × Run L S G Sched → Type 0
  ReadyCounts out = Counts c.budget 0 (out.1)

  continue_one-Counts :
      (i : ℕ) (out : List ℕ × Run L S G Sched)
      → ReadyCounts out
      → Ensures (continue_one h c i out) ReadyCounts
  unfolding continue_one
  continue_one-Counts i (ready, e) k =
      elim (Bool-cases
        (contains i e.merged || not (contains i e.active) || not (scheduler_is_active h c e i))) [
          | inl skipped ↦ rw skipped (Ensures-done (ready, e) ReadyCounts k)
          | inr active ↦ elim (Bool-cases (contains i e.exhaustion_pending)) [
            | inl pending ↦ rw active (rw pending (Ensures-done _ ReadyCounts k))
            | inr open_still ↦ rw active (rw open_still (Ensures-done _ ReadyCounts k))
          ]
        ]

  advance_ready-Counts :
      (out : List ℕ × Run L S G Sched)
      → ReadyCounts out
      → Ensures (advance_ready h c out) (Counts c.budget 0)
  advance_ready-Counts ([], e) k = Ensures-done e (Counts c.budget 0) k
  advance_ready-Counts ((i ∷ ready), e) k = advance_batch-Counts h c (i ∷ ready) e k

  continue_all-Counts :
      (i : ℕ) (rest : List Command) (e : Run L S G Sched)
      → Counts c.budget 0 e
      → Ensures (continue_all h c i rest e) (Counts c.budget 0)
  unfolding continue_all
  continue_all-Counts i rest e k =
      Ensures-bind
        (for_each (i ∷ (take_continues h c rest).0) (continue_one h c)
          ([], record e { commands = (take_continues h c rest).1 }))
        _ ReadyCounts (Counts c.budget 0)
        (Ensures-for_each _ (continue_one h c) ReadyCounts _ continue_one-Counts k)
        advance_ready-Counts

  child_started-Counts :
      (exhausted : Bool) (i child : ℕ) (path : Text) (ranking : ℕ) (score : S) (e : Run L S G Sched)
      → child ≡ suc (max_key e.parents)
      → get i e.path_text ≡ some path
      → Counts c.budget 0 e
      → Counts c.budget 0 (
          yield_event
            (branch_started child (some i))
            (mark_exhausted h c exhausted child (child_started h c i child path ranking score e)))
  child_started-Counts true i child path ranking score e newest at k =
      IsCounted-started c.budget 0 e.parents e.token_counts e.path_text _ _ _ e.events i child path
        newest at k
  child_started-Counts false i child path ranking score e newest at k =
      IsCounted-started c.budget 0 e.parents e.token_counts e.path_text _ _ _ e.events i child path
        newest at k

  abbrev SameParents : Run L S G Sched → ℕ × Run L S G Sched → Type 0
  SameParents e out = Counts c.budget 0 (out.1) × ((out.1).parents ≡ e.parents)

  fork_one-Counts :
      (exhausted : Bool) (i : ℕ) (e : Run L S G Sched)
      → Counts c.budget 0 e
      → Ensures (fork_one h c exhausted i e) (Counts c.budget 0)
  unfolding fork_one
  fork_one-Counts exhausted i e k =
      Ensures-bind (on_execution kv_error (fork_execution L h.executor i) e) _ (SameParents e)
        (Counts c.budget 0)
        (Ensures-on_execution kv_error e (SameParents e) (λ child x. (k, refl))
          (fork_execution L h.executor i))
        λ out same.
          Ensures-then (fail_if (not (out.0 == suc (max_key e.parents))) child_diverged) _
            (Counts c.budget 0)
            λ u expected.
              Ensures-bound (need i (get i (out.1).path_text)) _ (Counts c.budget 0) λ path at.
                Ensures-bound (need i (get i (out.1).ranking_token_counts)) _ (Counts c.budget 0)
                  λ ranking r.
                    Ensures-bound (need i (get i (out.1).scores)) _ (Counts c.budget 0) λ score s.
                      Ensures-done _ (Counts c.budget 0) (
                        child_started-Counts exhausted i (out.0) path ranking score (out.1)
                          (expected_id e out same.1 u expected)
                          (need-found i (get i (out.1).path_text) path at) same.0)
    where
      expected_id :
          (e : Run L S G Sched) (out : ℕ × Run L S G Sched)
          → (out.1).parents ≡ e.parents
          → (u : Unit {0})
          → fail_if (not (out.0 == suc (max_key e.parents))) child_diverged ≡ done u
          → out.0 ≡ suc (max_key (out.1).parents)
      expected_id e out same u expected =
          let test =
            fail_if-passed (not (out.0 == suc (max_key e.parents))) child_diverged u expected in
          rw same (ground (arith, test))

  fork_children-Counts :
      (width : ℕ) (exhausted : Bool) (i : ℕ) (e : Run L S G Sched)
      → Counts c.budget 0 e
      → Ensures (fork_children h c width exhausted i e) (Counts c.budget 0)
  unfolding fork_children
  fork_children-Counts zero exhausted i e k = Ensures-done e (Counts c.budget 0) k
  fork_children-Counts (suc width) exhausted i e k =
      Ensures-bind (fork_one h c exhausted i e) _ (Counts c.budget 0) (Counts c.budget 0)
        (fork_one-Counts exhausted i e k) (fork_children-Counts width exhausted i)

  run_fork-Counts :
      (i width : ℕ) (e : Run L S G Sched)
      → Counts c.budget 0 e
      → Ensures (run_fork h c i width e) (Counts c.budget 0)
  unfolding run_fork
  run_fork-Counts i width e k =
      Ensures-then (fail_if (not (contains i e.active)) inactive_branch) _ (Counts c.budget 0)
        λ u active.
          Ensures-bind
            (fork_children h c width (contains i e.exhaustion_pending) i (leave_active h c i e)) _
            (Counts c.budget 0) (Counts c.budget 0)
            (fork_children-Counts width (contains i e.exhaustion_pending) i (leave_active h c i e)
              k)
            λ e' k'. Ensures-done _ (Counts c.budget 0) k'

  run_kill-Counts :
      (i : ℕ) (reason : Option Text) (e : Run L S G Sched)
      → Counts c.budget 0 e
      → Ensures (run_kill h c i reason e) (Counts c.budget 0)
  unfolding run_kill
  run_kill-Counts i reason e k =
      Ensures-bind (on_execution kv_error (prune_execution L h.executor i) (leave_active h c i e)) _
        (λ out. Counts c.budget 0 (out.1)) (Counts c.budget 0)
        (Ensures-on_execution kv_error _ (λ out. Counts c.budget 0 (out.1)) (λ u x. k)
          (prune_execution L h.executor i))
        λ out k'.
          Ensures-done _ (Counts c.budget 0)
            (IsCounted-pruned c.budget 0 _ _ _ _ _ _ (out.1).events i (scheduler_reason reason) k')

  run_finalize-Counts :
      (i : ℕ) (e : Run L S G Sched)
      → Counts c.budget 0 e
      → Ensures (run_finalize h c i e) (Counts c.budget 0)
  unfolding run_finalize
  run_finalize-Counts i e k =
      Ensures-bind
        (on_execution kv_error (prune_execution L h.executor i)
          (record (leave_active h c i e) { finalized = insert i e.finalized }))
        _ (λ out. Counts c.budget 0 (out.1)) (Counts c.budget 0)
        (Ensures-on_execution kv_error _ (λ out. Counts c.budget 0 (out.1)) (λ u x. k)
          (prune_execution L h.executor i))
        λ out k'. Ensures-done (out.1) (Counts c.budget 0) k'

  dispatch-Counts :
      (k : Command) (rest : List Command) (e : Run L S G Sched)
      → Counts c.budget 0 e
      → Ensures (dispatch h c k rest e) (Counts c.budget 0)
  unfolding dispatch
  dispatch-Counts (continue i) rest e k = continue_all-Counts i rest e k
  dispatch-Counts (fork_at i width) rest e k =
      run_fork-Counts i width (record e { commands = rest }) k
  dispatch-Counts (kill i reason) rest e k =
      run_kill-Counts i reason (record e { commands = rest }) k
  dispatch-Counts (finalize i) rest e k = run_finalize-Counts i (record e { commands = rest }) k
  dispatch-Counts (unsupported i) rest e k = record { ensured = λ a q. cc }

  round-Counts :
      (e : Run L S G Sched) → Counts c.budget 0 e → Ensures (round h c e) (Counts c.budget 0)
  unfolding round
  round-Counts e k = by_commands e.commands
    where
      by_commands : (ks : List Command) → Ensures (next_round h c ks e) (Counts c.budget 0)
      by_commands [] = Ensures-done e (Counts c.budget 0) k
      by_commands (x ∷ rest) =
          elim (Bool-cases
            (contains (branch_of x) e.merged || contains (branch_of x) e.value_pruned)) [
              | inl gone ↦ rw gone (Ensures-done _ (Counts c.budget 0) k)
              | inr here ↦ rw here (dispatch-Counts x rest e k)
            ]

  module _ (x : Execution L) (scheduler : Sched) (generator : G) (snapshot : KvSnapshot) where
    start-Counts : Counts c.budget 0 (start h c x scheduler generator snapshot)
    start-Counts = record {
      started = refl;
      tokens = refl;
      prunes = refl;
      merges = refl;
      spent = refl;
      within = omega arith;
      counted_known = λ i k. ground (arith, k);
      texts_known = λ i k. ground (arith, k);
      older = λ i p k. absurd (none≢some (only_root i (some p) k).1);
      rooted = λ i k. (only_root i none k).0;
    }

    -- Whatever the scheduler, the model, the sampler and the tokenizer do, whenever the loop of `generate`
    -- stands at the start of a round: the branches, tokens, prunings and merges that it has counted are
    -- the events of that kind that it has yielded, the tokens of all branches add up to the completion
    -- tokens, these do not exceed the budget, and every branch but the root has an older branch that is
    -- its parent.
    pub Reach-IsCounted :
        (e : Run L S G Sched) → Reach h c x scheduler generator snapshot e → Counts c.budget 0 e
    Reach-IsCounted e (first ran) =
        (advance_batch-Counts h c (root_id ∷ []) (start h c x scheduler generator snapshot)
            start-Counts).ensured
          e ran
    Reach-IsCounted e (next before ran) = (round-Counts _ (Reach-IsCounted _ before)).ensured e ran
