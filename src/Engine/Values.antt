-- ===== src/Engine/Values.antt =====
-- What `generate` does with values: the scores it feeds to the scheduler, and the branches it prunes for
-- a low value. Sorting is on exact comparisons of the floats that the host has.
use autotree.Base.{
  ℕ, suc, ◌-◌, ◌%◌, Bool, true, false, not, ◌&&◌, ◌||◌, Option, none, some, List, [], ◌∷◌, ◌++◌,
  ltb, leb, ◌==◌, if◌then◌else◌, contains, sorted, length, take, Dict, get, set, Text,
}
use autotree.Kv.Errors.{Error, Result, ok, err}
use autotree.Kv.Exec.{Exec}
use autotree.Modeling.{Execution, prune_execution}
use autotree.Engine.{
  Failure, kv_error, Fallible, done, failed, ◌>>=◌, need, BranchState, active_state, expanded_state,
  Fed, value_scored, branch_exhausted, Event, branch_pruned, emvpt_below_margin, EmvptConfig,
  ConsensusConfig, Host, Settings, Run, discard, insert, filter,
}

-- for loops over branch ids that may raise
unfoldable pub for_each : {A B : Type 0} → List A → (A → B → Fallible B) → B → Fallible B
for_each [] body e = done e
for_each (x ∷ xs) body e = body x e >>= λ e'. for_each xs body e'

module _ {L S G Sched : Type 0} where
  abbrev pub placed :
      {A : Type 0}
      → (Error → Failure)
      → Run L S G Sched
      → Result A × Execution L
      → Fallible (A × Run L S G Sched)
  placed wrap e (ok a, x) = done (a, record e { execution = x })
  placed wrap e (err y, x) = failed (wrap y)

  -- a call of the executor, whose error is wrapped
  unfoldable pub on_execution :
      {A : Type 0}
      → (Error → Failure)
      → Exec (Execution L) A
      → Run L S G Sched
      → Fallible (A × Run L S G Sched)
  on_execution wrap m e = placed wrap e (m e.execution)

  abbrev pub yield_event : Event S → Run L S G Sched → Run L S G Sched
  yield_event event e = record e { events = e.events ++ event ∷ [] }

  module _ (h : Host L S G Sched) (c : Settings S) where
    abbrev pub feed_event : Fed S → Run L S G Sched → Run L S G Sched
    feed_event fed e = record e { scheduler = h.feed fed e.scheduler }

    -- `scheduler_branch_is_active` and `scheduler_branch_is_live`
    abbrev pub is_active : Option BranchState → Bool
    is_active none = true
    is_active (some active_state) = true
    is_active (some _) = false

    abbrev pub is_live : Option BranchState → Bool
    is_live none = true
    is_live (some active_state) = true
    is_live (some expanded_state) = true
    is_live (some _) = false

    abbrev pub scheduler_is_active : Run L S G Sched → ℕ → Bool
    scheduler_is_active e i = is_active (h.state_of e.scheduler i)

    abbrev estimate_of : Option S → Option ℕ → Option S
    estimate_of (some sum) (some (suc n)) = some (h.over sum (suc n))
    estimate_of _ _ = none

    abbrev value_estimate : Run L S G Sched → ℕ → Option S
    value_estimate e i = estimate_of (get i e.value_logprob_sums) (get i e.value_token_counts)

    -- the branches of a set that the scheduler still has, in order
    abbrev pub live_of : (Option BranchState → Bool) → Run L S G Sched → List ℕ → List ℕ
    live_of test e ids =
        filter (λ i. not (contains i e.exhaustion_pending) && test (h.state_of e.scheduler i))
          (sorted ids)

    abbrev is_due : ConsensusConfig → Option ℕ → Bool
    is_due k none = false
    is_due k (some n) = leb k.warmup_tokens n && (n - k.warmup_tokens) % k.interval == 0

    abbrev any_due : ConsensusConfig → Run L S G Sched → List ℕ → Bool
    any_due k e [] = false
    any_due k e (i ∷ ids) = is_due k (get i e.ranking_token_counts) || any_due k e ids

    abbrev texts_of : Run L S G Sched → List ℕ → Fallible (Dict Text)
    texts_of e [] = done []
    texts_of e (i ∷ ids) = do
      text ← need i (get i e.path_text)
      rest ← texts_of e ids
      done ((i, text) ∷ rest)

    abbrev ones : List ℕ → Dict S
    ones [] = []
    ones (i ∷ ids) = (i, h.one_score) ∷ ones ids

    abbrev pub branch_scores :
        ConsensusConfig → Run L S G Sched → List ℕ → List ℕ → Fallible (Dict S)
    branch_scores k e pending live =
        if any_due k e pending
        then (texts_of e live >>= λ texts. done (h.consensus_scores texts))
        else done (ones live)

    abbrev pub feed_score : Dict S → ℕ → Run L S G Sched → Fallible (Run L S G Sched)
    feed_score scores i e = do
      score ← need i (get i scores)
      done (feed_event (value_scored i score) e)

    abbrev pub feed_pending :
        ConsensusConfig → List ℕ → List ℕ → Run L S G Sched → Fallible (Run L S G Sched)
    feed_pending k [] live e = done e
    feed_pending k (i ∷ rest) live e =
        branch_scores k e (i ∷ rest) live >>= λ scores. for_each (i ∷ rest) (feed_score scores) e

    abbrev pub feed_with :
        Option ConsensusConfig → List ℕ → Run L S G Sched → Fallible (Run L S G Sched)
    feed_with none ids e = done e
    feed_with (some k) ids e = feed_pending k (live_of is_live e ids) (live_of is_live e e.active) e

    unfoldable pub feed_consensus_values : List ℕ → Run L S G Sched → Fallible (Run L S G Sched)
    feed_consensus_values ids e = feed_with c.consensus ids e

    abbrev same_parent : Option ℕ → Option ℕ → Bool
    same_parent none none = true
    same_parent (some a) (some b) = a == b
    same_parent _ _ = false

    -- `groups.setdefault(parent, []).append(i)`
    abbrev add_to_group : Option ℕ → ℕ → List (Option ℕ × List ℕ) → List (Option ℕ × List ℕ)
    add_to_group parent i [] = (parent, i ∷ []) ∷ []
    add_to_group parent i ((p, ids) ∷ rest) =
        if same_parent p parent
        then (p, ids ++ i ∷ []) ∷ rest
        else (p, ids) ∷ add_to_group parent i rest

    abbrev pub sibling_groups :
        Run L S G Sched → List ℕ → List (Option ℕ × List ℕ) → Fallible (List (Option ℕ × List ℕ))
    sibling_groups e [] groups = done groups
    sibling_groups e (i ∷ ids) groups = do
      parent ← need i (get i e.parents)
      sibling_groups e ids (add_to_group parent i groups)

    abbrev with_estimate : ℕ → Option S → Dict S → Dict S
    with_estimate i none rest = rest
    with_estimate i (some s) rest = (i, s) ∷ rest

    abbrev finite_estimates : Run L S G Sched → List ℕ → Dict S
    finite_estimates e [] = []
    finite_estimates e (i ∷ ids) = with_estimate i (value_estimate e i) (finite_estimates e ids)

    -- `max` keeps the first of the greatest
    abbrev best_of : S → Dict S → S
    best_of best [] = best
    best_of best ((i, s) ∷ rest) = best_of (if h.exceeds s best then s else best) rest

    abbrev is_low : EmvptConfig S → S → Option ℕ → Bool
    is_low k gap none = false
    is_low k gap (some n) =
        leb k.warmup_tokens n && n % k.check_interval == 0 && h.exceeds gap k.margin

    abbrev low_ones : EmvptConfig S → Run L S G Sched → S → Dict S → List (S × ℕ)
    low_ones k e best [] = []
    low_ones k e best ((i, s) ∷ rest) =
        let others = low_ones k e best rest in
        if is_low k (h.minus best s) (get i e.value_token_counts)
        then (h.minus best s, i) ∷ others
        else others

    -- fewer than two values give no candidate
    abbrev group_candidates : EmvptConfig S → Run L S G Sched → Dict S → List (S × ℕ)
    group_candidates k e ((i, s) ∷ ((j, t) ∷ rest)) =
        low_ones k e (best_of s ((j, t) ∷ rest)) ((i, s) ∷ ((j, t) ∷ rest))
    group_candidates k e _ = []

    abbrev pub candidates :
        EmvptConfig S → Run L S G Sched → List (Option ℕ × List ℕ) → List (S × ℕ)
    candidates k e [] = []
    candidates k e ((parent, ids) ∷ rest) =
        group_candidates k e (finite_estimates e ids) ++ candidates k e rest

    abbrev before : S × ℕ → S × ℕ → Bool
    before (gap, i) (gap', j) = h.exceeds gap gap' || not (h.exceeds gap' gap) && ltb i j

    abbrev place : S × ℕ → List (S × ℕ) → List (S × ℕ)
    place x [] = x ∷ []
    place x (y ∷ ys) = let later = place x ys in if before y x then y ∷ later else x ∷ y ∷ ys

    abbrev pub ranked : List (S × ℕ) → List ℕ
    ranked xs = ids_of (sort xs)
      where
        sort : List (S × ℕ) → List (S × ℕ)
        sort [] = []
        sort (x ∷ rest) = place x (sort rest)

        ids_of : List (S × ℕ) → List ℕ
        ids_of [] = []
        ids_of ((gap, i) ∷ rest) = i ∷ ids_of rest

    -- the tests of the scheduler come after the writes
    abbrev tell_exhausted : ℕ → Run L S G Sched → Run L S G Sched
    tell_exhausted i e = if scheduler_is_active e i then feed_event (branch_exhausted i) e else e

    abbrev pub low_value_pruned : ℕ → ℕ → Run L S G Sched → Run L S G Sched
    low_value_pruned i count e = yield_event (branch_pruned i emvpt_below_margin) (
        tell_exhausted i (record e {
          value_pruned = insert i e.value_pruned;
          pruned_at_tokens = set i (some count) e.pruned_at_tokens;
          pruned_count = suc e.pruned_count;
        }))

    abbrev pub leave_active : ℕ → Run L S G Sched → Run L S G Sched
    leave_active i e = record e {
      active = discard i e.active;
      exhaustion_pending = discard i e.exhaustion_pending;
    }

    unfoldable pub value_prune : ℕ → Run L S G Sched → Fallible (Run L S G Sched)
    value_prune i e =
        if not (contains i e.active)
        then done e
        else (on_execution kv_error (prune_execution L h.executor i) (leave_active i e)
            >>= λ (u, e'). need i (get i e'.value_token_counts) >>= λ count.
                done (low_value_pruned i count e'))

    abbrev pub prune_with : Option (EmvptConfig S) → Run L S G Sched → Fallible (Run L S G Sched)
    prune_with none e = done e
    prune_with (some k) e =
        let live = live_of is_active e e.active in
        if leb (length live) k.min_keep
        then done e
        else (sibling_groups e live [] >>= λ groups.
            for_each (take (length live - k.min_keep) (ranked (candidates k e groups))) value_prune
              e)

    unfoldable pub prune_low_value_branches : Run L S G Sched → Fallible (Run L S G Sched)
    prune_low_value_branches e = prune_with c.emvpt e
