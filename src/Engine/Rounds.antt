-- ===== src/Engine/Rounds.antt =====
-- The loop of `generate` over the commands of the scheduler: one round is one turn of it, and a run is
-- any number of rounds, since only the scheduler ends the loop.
use autotree.Base.{
  ℕ, zero, suc, ◌≡◌, Bool, true, false, not, ◌||◌, Option, none, some, List, [], ◌∷◌, ◌++◌, leb,
  ◌==◌, if◌then◌else◌, contains, Dict, get, set, Text,
}
use autotree.Modeling.{Execution, fork_execution, prune_execution}
use autotree.Kv.Tree.{root_id}
use autotree.Engine.{
  inactive_branch, child_diverged, unsupported_command, kv_error, Fallible, done, failed, ◌>>=◌,
  ◌>>◌, fail_if, need, Command, continue, finalize, unsupported, fork_at, kill, branch_of,
  branch_exhausted, branch_started, branch_pruned, scheduler_reason, Host, Settings, Run,
  KvSnapshot, discard, insert,
}
use autotree.Engine.Values.{
  for_each, on_execution, yield_event, feed_event, scheduler_is_active, leave_active,
}
use autotree.Engine.Advance.{advance_batch, take_snapshot, poll_more}

-- `max(parents)`
abbrev pub max_key : {A : Type 0} → Dict A → ℕ
max_key [] = 0
max_key ((k, a) ∷ rest) = let m = max_key rest in if leb m k then k else m

module _ {L S G Sched : Type 0} (h : Host L S G Sched) (c : Settings S) where
  -- the state before the first token, at an execution that was just prefilled
  abbrev pub start : Execution L → Sched → G → KvSnapshot → Run L S G Sched
  start x scheduler generator snapshot = record {
    execution = x;
    scheduler = scheduler;
    generator = generator;
    parents = (root_id, none) ∷ [];
    own_text = (root_id, []) ∷ [];
    path_text = (root_id, []) ∷ [];
    token_counts = (root_id, 0) ∷ [];
    ranking_token_counts = (root_id, 0) ∷ [];
    value_token_counts = (root_id, 0) ∷ [];
    scores = (root_id, h.zero_score) ∷ [];
    value_logprob_sums = (root_id, h.zero_score) ∷ [];
    pruned_at_tokens = (root_id, none) ∷ [];
    active = root_id ∷ [];
    finalized = [];
    merged = [];
    value_pruned = [];
    exhaustion_pending = [];
    stopped = [];
    commands = [];
    completion_tokens = 0;
    pruned_count = 0;
    merged_count = 0;
    decode_steps = 0;
    unique_tokens_per_step = [];
    branch_tokens_per_step = [];
    best_snapshot = snapshot;
    events = branch_started root_id none ∷ [];
  }

  -- the continue commands at the front of the queue, and what is left of it
  abbrev pub take_continues : List Command → List ℕ × List Command
  take_continues (continue i ∷ rest) = let (ids, later) = take_continues rest in (i ∷ ids, later)
  take_continues rest = ([], rest)

  -- a pending exhaustion is told to the scheduler in place of a token
  unfoldable pub continue_one : ℕ → List ℕ × Run L S G Sched → Fallible (List ℕ × Run L S G Sched)
  continue_one i (ready, e) =
      if contains i e.merged || not (contains i e.active) || not (scheduler_is_active h c e i)
      then done (ready, e)
      else (if contains i e.exhaustion_pending
          then done (
            ready,
            poll_more h c (
                feed_event h c (branch_exhausted i)
                  (record e { exhaustion_pending = discard i e.exhaustion_pending })),
          )
          else done (ready ++ i ∷ [], e))

  abbrev pub advance_ready : List ℕ × Run L S G Sched → Fallible (Run L S G Sched)
  advance_ready ([], e) = done e
  advance_ready ((i ∷ ready), e) = advance_batch h c (i ∷ ready) e

  unfoldable pub continue_all : ℕ → List Command → Run L S G Sched → Fallible (Run L S G Sched)
  continue_all i rest e = do
    out ←
        for_each (i ∷ (take_continues rest).0) continue_one
          ([], record e { commands = (take_continues rest).1 })
    advance_ready out

  abbrev pub mark_exhausted : Bool → ℕ → Run L S G Sched → Run L S G Sched
  mark_exhausted false child e = e
  mark_exhausted true child e = record e {
    exhaustion_pending = insert child e.exhaustion_pending;
    stopped = insert child e.stopped;
  }

  abbrev pub child_started : ℕ → ℕ → Text → ℕ → S → Run L S G Sched → Run L S G Sched
  child_started i child path ranking score e = record e {
    parents = set child (some i) e.parents;
    own_text = set child [] e.own_text;
    path_text = set child path e.path_text;
    token_counts = set child 0 e.token_counts;
    ranking_token_counts = set child ranking e.ranking_token_counts;
    scores = set child score e.scores;
    value_logprob_sums = set child h.zero_score e.value_logprob_sums;
    value_token_counts = set child 0 e.value_token_counts;
    pruned_at_tokens = set child none e.pruned_at_tokens;
    active = insert child e.active;
  }

  unfoldable pub fork_one : Bool → ℕ → Run L S G Sched → Fallible (Run L S G Sched)
  fork_one exhausted i e =
      on_execution kv_error (fork_execution L h.executor i) e >>= λ (child, e1).
      fail_if (not (child == suc (max_key e.parents))) child_diverged
      >> (need i (get i e1.path_text) >>= λ path.
          need i (get i e1.ranking_token_counts) >>= λ ranking.
          need i (get i e1.scores) >>= λ score. done (
            yield_event (branch_started child (some i))
              (mark_exhausted exhausted child (child_started i child path ranking score e1))))

  unfoldable pub fork_children : ℕ → Bool → ℕ → Run L S G Sched → Fallible (Run L S G Sched)
  fork_children zero exhausted i e = done e
  fork_children (suc width) exhausted i e =
      fork_one exhausted i e >>= λ e'. fork_children width exhausted i e'

  unfoldable pub run_fork : ℕ → ℕ → Run L S G Sched → Fallible (Run L S G Sched)
  run_fork i width e = do
    fail_if (not (contains i e.active)) inactive_branch
    e' ← fork_children width (contains i e.exhaustion_pending) i (leave_active h c i e)
    done (take_snapshot h c e')

  abbrev killed : ℕ → Option Text → Run L S G Sched → Run L S G Sched
  killed i reason e =
      yield_event (branch_pruned i (scheduler_reason reason))
        (record e { pruned_count = suc e.pruned_count })

  unfoldable pub run_kill : ℕ → Option Text → Run L S G Sched → Fallible (Run L S G Sched)
  run_kill i reason e =
      on_execution kv_error (prune_execution L h.executor i) (leave_active h c i e) >>= λ (u, e').
      done (killed i reason e')

  unfoldable pub run_finalize : ℕ → Run L S G Sched → Fallible (Run L S G Sched)
  run_finalize i e =
      on_execution kv_error (prune_execution L h.executor i)
        (record (leave_active h c i e) { finalized = insert i e.finalized })
      >>= λ (u, e'). done e'

  unfoldable pub dispatch : Command → List Command → Run L S G Sched → Fallible (Run L S G Sched)
  dispatch (continue i) rest e = continue_all i rest e
  dispatch (fork_at i width) rest e = run_fork i width (record e { commands = rest })
  dispatch (kill i reason) rest e = run_kill i reason (record e { commands = rest })
  dispatch (finalize i) rest e = run_finalize i (record e { commands = rest })
  dispatch (unsupported i) rest e = failed unsupported_command

  -- the next command, which is dropped where its branch has been merged or pruned for its value
  abbrev pub next_round : List Command → Run L S G Sched → Fallible (Run L S G Sched)
  next_round [] e = done e
  next_round (k ∷ rest) e =
      if contains (branch_of k) e.merged || contains (branch_of k) e.value_pruned
      then done (record e { commands = rest })
      else dispatch k rest e

  unfoldable pub round : Run L S G Sched → Fallible (Run L S G Sched)
  round e = next_round e.commands e

  -- the first token, and then rounds
  pub data Reach (x : Execution L) (scheduler : Sched) (generator : G) (snapshot : KvSnapshot)
      : Run L S G Sched → Type 0 where
    first :
        {e : Run L S G Sched}
        → advance_batch h c (root_id ∷ []) (start x scheduler generator snapshot) ≡ done e
        → Reach x scheduler generator snapshot e
    next :
        {e e' : Run L S G Sched}
        → Reach x scheduler generator snapshot e
        → round e ≡ done e'
        → Reach x scheduler generator snapshot e'
