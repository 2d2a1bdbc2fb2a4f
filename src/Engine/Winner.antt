-- ===== src/Engine/Winner.antt =====
-- The end of `generate`: the choice among the finalized branches, the path to the winner, and the
-- last event. Times are left out.
use autotree.Base.{
  ℕ, zero, suc, ◌+◌, Bool, false, not, ◌&&◌, ◌||◌, Option, none, some, List, [], ◌∷◌, ◌++◌, ltb,
  ◌==◌, if◌then◌else◌, contains, sorted, length, Dict, get, Text, same_text,
}
use autotree.Engine.{
  active_remaining, nothing_finalized, out_of_fuel, Fallible, done, failed, ◌>>=◌, ◌>>◌, fail_if,
  need, branch_pruned, not_selected, Host, Settings, Run, ConsensusConfig, discard,
}
use autotree.Engine.Values.{yield_event}
use autotree.Kv.Tree.{has_items}

-- `_path`, on fuel: a parent is older than its child, so a branch has at most as many ancestors as its
-- id says
abbrev pub climb : (ℕ → Fallible (List ℕ)) → List ℕ → Option ℕ → Fallible (List ℕ)
climb up path none = done path
climb up path (some p) = up p

unfoldable pub path_up : ℕ → List ℕ → ℕ → Dict (Option ℕ) → Fallible (List ℕ)
path_up zero below i parents = failed out_of_fuel
path_up (suc fuel) below i parents =
    need i (get i parents) >>= climb (λ p. path_up fuel (i ∷ below) p parents) (i ∷ below)

unfoldable pub path : ℕ → Dict (Option ℕ) → Fallible (List ℕ)
path i parents = path_up (suc i) [] i parents

-- the end of the stream, `GenerationDone` with its usage and counters, and the summary that it has where
-- the request asks for a tree
pub record GenerationDone (S : Type 0) : Type 0 where
  pub branch_id : ℕ
  pub text : Text
  pub stopped : Bool
  pub prompt_tokens : ℕ
  pub completion_tokens : ℕ
  pub logical_tokens : ℕ
  pub physical_tokens : ℕ
  pub useful_tokens : ℕ
  pub unique_tokens_per_step : List ℕ
  pub branch_tokens_per_step : List ℕ
  pub branch_count : ℕ
  pub pruned_count : ℕ
  pub merged_count : ℕ
  pub tokens_spent_per_branch : Dict ℕ
  pub final_scores : Dict S

-- `"".join(texts)`
abbrev join : List Text → Text
join [] = []
join (t ∷ ts) = t ++ join ts

abbrev pub mapped : {A B : Type 0} → (ℕ → Fallible B) → Dict A → Fallible (Dict B)
mapped f [] = done []
mapped f ((i, a) ∷ rest) = do b ← f i; others ← mapped f rest; done ((i, b) ∷ others)

module _ {L S G Sched : Type 0} (h : Host L S G Sched) (c : Settings S) where
  abbrev pub path_texts : Run L S G Sched → List ℕ → Fallible Text
  path_texts e [] = done []
  path_texts e (i ∷ ids) = do
    own ← need i (get i e.own_text)
    rest ← path_texts e ids
    done (join own ++ rest)

  abbrev pub path_tokens : Run L S G Sched → List ℕ → Fallible ℕ
  path_tokens e [] = done 0
  path_tokens e (i ∷ ids) = do
    n ← need i (get i e.token_counts)
    rest ← path_tokens e ids
    done (n + rest)

  abbrev one_at_least : ℕ → ℕ
  one_at_least zero = 1
  one_at_least (suc n) = suc n

  abbrev pub ranking_score : Run L S G Sched → ℕ → Fallible S
  ranking_score e i = do
    score ← need i (get i e.scores)
    n ← need i (get i e.ranking_token_counts)
    done (h.over score (one_at_least n))

  -- comparison by a score, then by the least id
  abbrev beats : Option S → Option S → Bool → Bool
  beats (some s) (some t) smaller = h.exceeds s t || not (h.exceeds t s) && smaller
  beats _ _ smaller = false

  abbrev pub better : Dict S → ℕ → ℕ → Bool
  better scores i j = beats (get i scores) (get j scores) (ltb i j)

  -- `max(ids, key=lambda i: (scores[i], -i))`
  unfoldable pub best_by : Dict S → ℕ → List ℕ → ℕ
  best_by scores best [] = best
  best_by scores best (i ∷ ids) = best_by scores (if better scores i best then i else best) ids

  abbrev pub Group : Type 0
  Group = Option Text × ℕ × List ℕ

  -- finalized branches with one answer are one group; a branch without an answer is its own
  abbrev pub same_answer : Option Text → Option Text → Bool
  same_answer (some a) (some b) = same_text a b
  same_answer _ _ = false

  abbrev pub add_vote : Option Text → ℕ → List Group → List Group
  add_vote answer i [] = (answer, i, []) ∷ []
  add_vote answer i ((a, j, more) ∷ rest) =
      if same_answer a answer
      then (a, j, more ++ i ∷ []) ∷ rest
      else (a, j, more) ∷ add_vote answer i rest

  unfoldable pub votes : Run L S G Sched → List ℕ → List Group → Fallible (List Group)
  votes e [] groups = done groups
  votes e (i ∷ ids) groups = do
    text ← need i (get i e.path_text)
    votes e ids (add_vote (h.final_answer text) i groups)

  abbrev sum_of : Dict S → S → List ℕ → S
  sum_of scores sum [] = sum
  sum_of scores sum (i ∷ ids) =
      sum_of scores (elim (get i scores) [ none ↦ sum | some s ↦ h.plus sum s ]) ids

  abbrev least_of : ℕ → List ℕ → ℕ
  least_of m [] = m
  least_of m (i ∷ ids) = least_of (if ltb i m then i else m) ids

  -- by the number of votes, the sum of their scores, the best of them and the least id
  abbrev pub outvotes : Dict S → Group → Group → Bool
  outvotes scores (a, i, is) (b, j, js) =
      let s = sum_of scores h.zero_score (i ∷ is) in
      let t = sum_of scores h.zero_score (j ∷ js) in
      ltb (length js) (length is)
      || length is == length js
        && (h.exceeds s t
            || not (h.exceeds t s)
              && beats (get (best_by scores i is) scores) (get (best_by scores j js) scores)
                  (ltb (least_of i is) (least_of j js)))

  unfoldable pub winning_group : Dict S → Group → List Group → Group
  winning_group scores best [] = best
  winning_group scores best (g ∷ gs) =
      winning_group scores (if outvotes scores g best then g else best) gs

  abbrev pub winner_of : Dict S → Group → ℕ
  winner_of scores (a, i, is) = best_by scores i is

  abbrev pub winner_of_votes : Dict S → List Group → Fallible ℕ
  winner_of_votes scores [] = failed nothing_finalized
  winner_of_votes scores (g ∷ gs) = done (winner_of scores (winning_group scores g gs))

  -- `_select_winner`, for the scorer `self_consistency` and for the others
  unfoldable pub select_winner :
      Option ConsensusConfig → Dict S → List ℕ → Run L S G Sched → Fallible ℕ
  select_winner scorer ranking [] e = failed nothing_finalized
  select_winner none ranking (i ∷ ids) e = done (best_by ranking i ids)
  select_winner (some k) ranking (i ∷ ids) e =
      votes e (sorted (i ∷ ids)) [] >>= winner_of_votes e.scores

  unfoldable pub reject_others : List ℕ → Run L S G Sched → Run L S G Sched
  reject_others [] e = e
  reject_others (i ∷ ids) e =
      reject_others ids (
        yield_event (branch_pruned i not_selected) (record e { pruned_count = suc e.pruned_count }))

  abbrev pub summary_of : ℕ → ℕ → Text → ℕ → Dict ℕ → Dict S → Run L S G Sched → GenerationDone S
  summary_of prompt_tokens winner text useful spent ranking e = record {
    branch_id = winner;
    text = text;
    stopped = contains winner e.stopped;
    prompt_tokens = prompt_tokens;
    completion_tokens = e.completion_tokens;
    logical_tokens = e.best_snapshot.logical_tokens;
    physical_tokens = e.best_snapshot.physical_tokens;
    useful_tokens = useful;
    unique_tokens_per_step = e.unique_tokens_per_step;
    branch_tokens_per_step = e.branch_tokens_per_step;
    branch_count = length e.parents;
    pruned_count = e.pruned_count;
    merged_count = e.merged_count;
    tokens_spent_per_branch = spent;
    final_scores = ranking;
  }

  -- what follows the loop
  unfoldable pub finish : ℕ → Run L S G Sched → Fallible (GenerationDone S × Run L S G Sched)
  finish prompt_tokens e = do
    fail_if (has_items e.active) active_remaining
    ranking ← mapped (ranking_score e) e.parents
    winner ← select_winner c.consensus ranking e.finalized e
    winner_path ← path winner e.parents
    text ← path_texts e winner_path
    useful ← path_tokens e winner_path
    spent ← mapped (λ i. need i (get i e.token_counts)) e.parents
    let e' = reject_others (sorted (discard winner e.finalized)) e
    done (summary_of prompt_tokens winner text useful spent ranking e', e')
