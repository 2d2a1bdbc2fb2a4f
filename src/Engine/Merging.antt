-- ===== src/Engine/Merging.antt =====
-- `merge_converged_branches`: active branches that hold the same tokens up to the end of the same page
-- become one.
use autotree.Base.{
  ℕ, suc, ◌%◌, Bool, true, false, not, ◌&&◌, ◌||◌, Option, none, some, List, [], ◌∷◌, ◌++◌, ltb,
  ◌==◌, if◌then◌else◌, contains, sorted, list_equal, get_last?,
}
use autotree.Kv.Tree.{get_branch}
use autotree.Kv.Branches.{Snapshot}
use autotree.Modeling.{prune_execution, on_tree, token_ids}
use autotree.Engine.{
  kv_error, Fallible, done, ◌>>=◌, BranchState, expanded_state, finalized_state, killed_state,
  Command, finalize, fork_at, kill, branch_exhausted, branch_merged, Host, Settings, Run, insert,
}
use autotree.Engine.Values.{for_each, on_execution, yield_event, feed_event, leave_active}

module _ {L S G Sched : Type 0} (h : Host L S G Sched) (c : Settings S) where
  abbrev ended_state : Option BranchState → Bool
  ended_state (some killed_state) = true
  ended_state (some finalized_state) = true
  ended_state _ = false

  abbrev expanding_state : Option BranchState → Bool
  expanding_state (some expanded_state) = true
  expanding_state _ = false

  abbrev ends : ℕ → Command → Bool
  ends i (kill j reason) = j == i
  ends i (finalize j) = j == i
  ends i _ = false

  abbrev expands : ℕ → Command → Bool
  expands i (fork_at j width) = j == i
  expands i _ = false

  abbrev any_command : (Command → Bool) → List Command → Bool
  any_command p [] = false
  any_command p (k ∷ ks) = p k || any_command p ks

  -- membership of an active branch in `scheduler_terminal` and in `scheduler_expanding`
  abbrev pub is_terminal : List Command → Run L S G Sched → ℕ → Bool
  is_terminal pending e i = any_command (ends i) pending || ended_state (h.state_of e.scheduler i)

  abbrev is_expanding : List Command → Run L S G Sched → ℕ → Bool
  is_expanding pending e i =
      any_command (expands i) pending || expanding_state (h.state_of e.scheduler i)

  abbrev pub Group : Type 0
  Group = List ℕ × ℕ × List ℕ

  abbrev add_to : List ℕ → ℕ → ℕ → List Group → List Group
  add_to tokens page i [] = (tokens, page, i ∷ []) ∷ []
  add_to tokens page i ((t, p, ids) ∷ rest) =
      if list_equal ◌==◌ t tokens && p == page
      then (t, p, ids ++ i ∷ []) ∷ rest
      else (t, p, ids) ∷ add_to tokens page i rest

  -- a branch with a page table that ends with a full page
  abbrev grouped : ℕ → Snapshot → Option ℕ → Run L S G Sched → List Group → Fallible (List Group)
  grouped i branch none e groups = done groups
  grouped i branch (some page) e groups =
      if not (branch.num_tokens % e.execution.tree.pool.config.page_size == 0)
      then done groups
      else (on_execution kv_error (token_ids L i) e >>= λ (tokens, same).
          done (add_to tokens page i groups))

  abbrev pub group_one : List Command → Run L S G Sched → ℕ → List Group → Fallible (List Group)
  group_one pending e i groups =
      if contains i e.exhaustion_pending || is_expanding pending e i
      then done groups
      else (on_execution kv_error (on_tree L (get_branch i)) e >>= λ (branch, same).
          grouped i branch (get_last? branch.block_table) e groups)

  -- the least by whether the scheduler has ended it, then by id
  abbrev before : Bool × ℕ → Bool × ℕ → Bool
  before (false, i) (true, j) = true
  before (true, i) (false, j) = false
  before (_, i) (_, j) = ltb i j

  abbrev least : (ℕ → Bool) → ℕ → List ℕ → ℕ
  least ended best [] = best
  least ended best (i ∷ ids) =
      least ended (if before (ended i, i) (ended best, best) then i else best) ids

  abbrev pub tell_merged : Bool → ℕ → Run L S G Sched → Run L S G Sched
  tell_merged ended i e = if ended then e else feed_event h c (branch_exhausted i) e

  abbrev pub merged_into : ℕ → ℕ → Run L S G Sched → Run L S G Sched
  merged_into target i e =
      yield_event (branch_merged i target)
        (record e { merged = insert i e.merged; merged_count = suc e.merged_count })

  unfoldable pub merge_one : (ℕ → Bool) → ℕ → ℕ → Run L S G Sched → Fallible (Run L S G Sched)
  merge_one ended target i e =
      if i == target
      then done e
      else (on_execution kv_error (prune_execution L h.executor i)
            (leave_active h c i (tell_merged (ended i) i e))
          >>= λ (u, e'). done (merged_into target i e'))

  abbrev pub merge_group : (ℕ → Bool) → Group → Run L S G Sched → Fallible (Run L S G Sched)
  merge_group ended (tokens, page, (i ∷ (j ∷ rest))) e =
      let target = least ended i (j ∷ rest) in
      for_each (sorted (i ∷ (j ∷ rest))) (merge_one ended target) e
  merge_group ended _ e = done e

  -- the tests on the scheduler are those before the first merge
  unfoldable pub merge_converged_branches :
      List Command → Run L S G Sched → Fallible (Run L S G Sched)
  merge_converged_branches pending e = do
    groups ← for_each (sorted e.active) (group_one pending e) []
    for_each groups (merge_group (is_terminal pending e)) e
