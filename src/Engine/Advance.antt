-- ===== src/Engine/Advance.antt =====
-- `advance_batch`: one token for each of some active branches, and what follows from it.
use autotree.Base.{
  ℕ, suc, ◌+◌, ◌*◌, ◌%◌, Bool, true, false, not, ◌&&◌, ◌||◌, Option, none, some, List, [], ◌∷◌,
  ◌++◌, ltb, leb, ◌==◌, if◌then◌else◌, contains, list_equal, length, map, get, set, Text,
}
use autotree.Kv.Errors.{Error, capacity_error}
use autotree.Modeling.{token, next_logits, token_ids, decode, deduplicate, execution_stats, repeats}
use autotree.Modeling.Calls.{decode_batch}
use autotree.Engine.{
  decoding, Failure, not_distinct, inactive_branch, budget_exceeded, kv_capacity_exceeded, kv_error,
  Fallible, done, ◌>>=◌, ◌>>◌, fail_if, need, Command, token_sampled, token_generated, Host,
  Settings, Run, KvSnapshot, insert,
}
use autotree.Engine.Values.{
  for_each, on_execution, yield_event, feed_event, feed_consensus_values, prune_low_value_branches,
}
use autotree.Engine.Merging.{merge_converged_branches}

-- `candidate.ratio > current.ratio`, compared as fractions
abbrev at_least_one : ℕ → ℕ
at_least_one n = if leb 1 n then n else 1

abbrev better_snapshot : KvSnapshot → KvSnapshot → KvSnapshot
better_snapshot current candidate =
    if ltb (current.logical_tokens * at_least_one candidate.physical_tokens)
      (candidate.logical_tokens * at_least_one current.physical_tokens)
    then candidate
    else current

abbrev starts_with : Text → Text → Bool
starts_with [] text = true
starts_with (p ∷ ps) [] = false
starts_with (p ∷ ps) (c ∷ cs) = p == c && starts_with ps cs

-- `stop in text`
abbrev occurs : Text → Text → Bool
occurs stop [] = starts_with stop []
occurs stop (c ∷ cs) = starts_with stop (c ∷ cs) || occurs stop cs

abbrev any_stop : List Text → Text → Bool
any_stop [] text = false
any_stop ([] ∷ stops) text = any_stop stops text
any_stop ((c ∷ cs) ∷ stops) text = occurs (c ∷ cs) text || any_stop stops text

-- a capacity error of the pool becomes that of the engine
abbrev pub capacity_wrapped : ℕ → Error → Failure
capacity_wrapped capacity (capacity_error required available) =
    kv_capacity_exceeded decoding required available capacity
capacity_wrapped capacity e = kv_error e

module _ {L S G Sched : Type 0} (h : Host L S G Sched) (c : Settings S) where
  abbrev Sampled : Type 0
  Sampled = ℕ × (ℕ × S)

  -- `_token_exhausts_branch`
  unfoldable pub token_exhausts_branch : ℕ → Text → Bool
  token_exhausts_branch id text = contains id h.eos_tokens || any_stop c.stop text

  abbrev pub take_snapshot : Run L S G Sched → Run L S G Sched
  take_snapshot e = record e {
    best_snapshot = better_snapshot e.best_snapshot (record {
      logical_tokens = (execution_stats L e.execution).logical_tokens;
      physical_tokens = (execution_stats L e.execution).physical_tokens;
    });
  }

  abbrev pub any_inactive : List ℕ → List ℕ → Bool
  any_inactive active [] = false
  any_inactive active (i ∷ ids) = not (contains i active) || any_inactive active ids

  unfoldable pub sample_all : List ℕ → Run L S G Sched → Fallible (List Sampled × Run L S G Sched)
  sample_all [] e = done ([], e)
  sample_all (i ∷ ids) e = on_execution kv_error (next_logits L i) e >>= λ (logits, same).
      h.sample logits e.generator >>= λ (drawn, generator).
      sample_all ids (record e { generator = generator }) >>= λ (rest, e').
      done ((i, drawn) ∷ rest, e')

  abbrev pub token_of : Sampled → ℕ
  token_of (i, (token_id, logprob)) = token_id

  abbrev pub branch_of_sample : Sampled → ℕ
  branch_of_sample (i, drawn) = i

  -- `decode` for one branch, else `decode_batch`
  unfoldable pub decode_all : List Sampled → Run L S G Sched → Fallible (Run L S G Sched)
  decode_all ((i, (token_id, logprob)) ∷ []) e =
      on_execution (capacity_wrapped h.executor.capacity_pages)
        (decode L h.forward_cached h.executor i (token token_id)) e
      >>= λ (u, e'). done e'
  decode_all sampled e =
      on_execution (capacity_wrapped h.executor.capacity_pages)
        (decode_batch L h.forest_forward h.executor (map branch_of_sample sampled)
          (map (λ s. token (token_of s)) sampled))
        e
      >>= λ (u, e'). done e'

  abbrev pub counted :
      ℕ → ℕ → S → Text → List Text → Text → ℕ → ℕ → ℕ → S → S → Run L S G Sched → Run L S G Sched
  counted i token_id logprob text own path index ranking values score sum e =
      let exhausted = token_exhausts_branch token_id (path ++ text) in
      yield_event (token_generated i text index logprob token_id) (
        feed_event h c (token_sampled i token_id logprob exhausted) (record e {
          token_counts = set i (suc index) e.token_counts;
          ranking_token_counts = set i (suc ranking) e.ranking_token_counts;
          own_text = set i (own ++ text ∷ []) e.own_text;
          path_text = set i (path ++ text) e.path_text;
          scores = set i (h.plus score logprob) e.scores;
          value_logprob_sums = set i (h.plus sum logprob) e.value_logprob_sums;
          value_token_counts = set i (suc values) e.value_token_counts;
          completion_tokens = suc e.completion_tokens;
          exhaustion_pending =
              if exhausted then insert i e.exhaustion_pending else e.exhaustion_pending;
          stopped = if exhausted then insert i e.stopped else e.stopped;
        }))

  -- one round of the loop over the sampled tokens
  unfoldable pub record_token : Sampled → Run L S G Sched → Fallible (Run L S G Sched)
  record_token (i, (token_id, logprob)) e = do
    index ← need i (get i e.token_counts)
    ranking ← need i (get i e.ranking_token_counts)
    own ← need i (get i e.own_text)
    path ← need i (get i e.path_text)
    score ← need i (get i e.scores)
    sum ← need i (get i e.value_logprob_sums)
    values ← need i (get i e.value_token_counts)
    done (
        counted i token_id logprob (h.token_text token_id) own path index ranking values score sum
          e)

  abbrev pub distinct : List (List ℕ) → ℕ
  distinct [] = 0
  distinct (x ∷ xs) = let n = distinct xs in if among x xs then n else suc n
    where
      among : List ℕ → List (List ℕ) → Bool
      among x [] = false
      among x (y ∷ ys) = list_equal ◌==◌ x y || among x ys

  unfoldable pub all_token_ids : List ℕ → Run L S G Sched → Fallible (List (List ℕ))
  all_token_ids [] e = done []
  all_token_ids (i ∷ ids) e = on_execution kv_error (token_ids L i) e >>= λ (tokens, same).
      all_token_ids ids e >>= λ rest. done (tokens ∷ rest)

  abbrev pub step_counted : ℕ → List (List ℕ) → Run L S G Sched → Run L S G Sched
  step_counted size tokens e = record e {
    decode_steps = suc e.decode_steps;
    branch_tokens_per_step = e.branch_tokens_per_step ++ size ∷ [];
    unique_tokens_per_step = e.unique_tokens_per_step ++ distinct tokens ∷ [];
  }

  abbrev pub dedup_is_due : Option ℕ → ℕ → Bool
  dedup_is_due none steps = false
  dedup_is_due (some every) steps = steps % every == 0

  -- every so many steps the pages are deduplicated and converged branches merged
  unfoldable pub dedup_and_merge : List Command → Run L S G Sched → Fallible (Run L S G Sched)
  dedup_and_merge pending e =
      if dedup_is_due c.dedup_every_steps e.decode_steps
      then (on_execution kv_error (deduplicate L h.digest h.executor) e >>= λ (n, e').
          merge_converged_branches h c pending (take_snapshot e'))
      else done e

  abbrev pub poll_commands : Run L S G Sched → List Command × Run L S G Sched
  poll_commands e = (h.poll e.scheduler, record e { scheduler = h.polled e.scheduler })

  abbrev extend_commands : List Command → Run L S G Sched → Run L S G Sched
  extend_commands more e = record e { commands = e.commands ++ more }

  abbrev pub poll_more : Run L S G Sched → Run L S G Sched
  poll_more e = let (more, e') = poll_commands e in extend_commands more e'

  abbrev pub has_ids : List ℕ → Bool
  has_ids [] = false
  has_ids (i ∷ ids) = true

  unfoldable pub advance_batch : List ℕ → Run L S G Sched → Fallible (Run L S G Sched)
  advance_batch ids e = do
    fail_if (not (has_ids ids) || repeats ids) not_distinct
    fail_if (any_inactive e.active ids) inactive_branch
    fail_if (ltb c.budget (e.completion_tokens + length ids)) budget_exceeded
    (sampled, e1) ← sample_all ids e
    e2 ← decode_all sampled e1
    e3 ← for_each sampled record_token e2
    tokens ← all_token_ids ids e3
    e4 ← feed_consensus_values h c ids (step_counted (length ids) tokens e3)
    e5 ← prune_low_value_branches h c e4
    e6 ← dedup_and_merge ((poll_commands e5).0) ((poll_commands e5).1)
    done (take_snapshot (poll_more (extend_commands ((poll_commands e5).0) e6)))
