-- ===== src/Engine/Counted/Finish.antt =====
-- The last event of `generate` against the events before it.
use autotree.Base.{
  ℕ, ◌≤◌, ◌≡◌, sym, ◌∙◌, inl, inr, Bool, true, false, Option, none, some, List, [], ◌∷◌,
  if◌then◌else◌, arith, Dict, get, Text, All, All-append, All-contains, Bool-cases, contains,
  sorted, contains-sorted,
}
use autotree.Kv.Tree.{has_items}
use autotree.Modeling.{Execution}
use autotree.Engine.{
  done, need, fail_if, active_remaining, not_selected, ConsensusConfig, Host, Settings, Run,
  KvSnapshot, discard,
}
use autotree.Engine.Rounds.{Reach}
use autotree.Engine.Winner.{
  GenerationDone, Group, same_answer, better, best_by, add_vote, votes, winning_group, outvotes,
  winner_of, winner_of_votes, select_winner, reject_others, finish, path, path_texts, path_tokens,
  mapped, ranking_score,
}
use autotree.Engine.Ensures.{Ensures, Ensures-done, Ensures-bind, Ensures-bound, Ensures-then}
use autotree.Engine.Counted.{IsCounted-pruned}
use autotree.Engine.Events.{started_events, token_events, pruned_events, merged_events}
use autotree.Engine.Counted.Steps.{Counts}
use autotree.Engine.Counted.Loop.{Reach-IsCounted}

module _ {L S G Sched : Type 0} (h : Host L S G Sched) (c : Settings S) (P : ℕ → Type 0) where
  abbrev GroupOf : Group h c → Type 0
  GroupOf (answer, i, more) = P i × All P more

  best_by-member :
      (scores : Dict S) (best : ℕ) (ids : List ℕ)
      → P best
      → All P ids
      → P (best_by h c scores best ids)
  unfolding best_by
  best_by-member scores best [] p a = p
  best_by-member scores best (i ∷ ids) p a = elim (Bool-cases (better h c scores i best)) [
    | inl more ↦ rw more (best_by-member scores i ids a.0 a.1)
    | inr less ↦ rw less (best_by-member scores best ids p a.1)
  ]

  add_vote-member :
      (answer : Option Text) (i : ℕ) (groups : List (Group h c))
      → P i
      → All GroupOf groups
      → All GroupOf (add_vote h c answer i groups)
  add_vote-member answer i [] p a = ((p, tt), tt)
  add_vote-member answer i ((b, j, more) ∷ rest) p a =
      elim (Bool-cases (same_answer h c b answer)) [
        | inl same ↦ rw same ((a.0.0, All-append P more (i ∷ []) a.0.1 (p, tt)), a.1)
        | inr other ↦ rw other (a.0, add_vote-member answer i rest p a.1)
      ]

  votes-member :
      (e : Run L S G Sched) (ids : List ℕ) (groups : List (Group h c))
      → All P ids
      → All GroupOf groups
      → Ensures (votes h c e ids groups) (All GroupOf)
  unfolding votes
  votes-member e [] groups p a = Ensures-done groups (All GroupOf) a
  votes-member e (i ∷ ids) groups p a =
      Ensures-bound (need i (get i e.path_text)) _ (All GroupOf) λ text found.
        votes-member e ids (add_vote h c (h.final_answer text) i groups) p.1
          (add_vote-member (h.final_answer text) i groups p.0 a)

  winning_group-member :
      (scores : Dict S) (best : Group h c) (gs : List (Group h c))
      → GroupOf best
      → All GroupOf gs
      → GroupOf (winning_group h c scores best gs)
  unfolding winning_group
  winning_group-member scores best [] p a = p
  winning_group-member scores best (g ∷ gs) p a =
      chosen (outvotes h c scores g best) (winning_group-member scores g gs a.0 a.1)
        (winning_group-member scores best gs p a.1)
    where
      chosen :
          (b : Bool)
          → GroupOf (winning_group h c scores g gs)
          → GroupOf (winning_group h c scores best gs)
          → GroupOf (winning_group h c scores (if b then g else best) gs)
      chosen true q r = q
      chosen false q r = r

  winner_of-member : (scores : Dict S) (g : Group h c) → GroupOf g → P (winner_of h c scores g)
  winner_of-member scores (answer, i, more) p = best_by-member scores i more p.0 p.1

  winner_of_votes-member :
      (scores : Dict S) (groups : List (Group h c))
      → All GroupOf groups
      → Ensures (winner_of_votes h c scores groups) P
  winner_of_votes-member scores [] a = record { ensured = λ b q. cc }
  winner_of_votes-member scores (g ∷ gs) a = Ensures-done _ P (
      winner_of-member scores (winning_group h c scores g gs)
        (winning_group-member scores g gs a.0 a.1))

  select_winner-member :
      (scorer : Option ConsensusConfig) (ranking : Dict S) (ids : List ℕ) (e : Run L S G Sched)
      → All P ids
      → All P (sorted ids)
      → Ensures (select_winner h c scorer ranking ids e) P
  unfolding select_winner
  select_winner-member scorer ranking [] e p q = record { ensured = λ b r. cc }
  select_winner-member none ranking (i ∷ ids) e p q =
      Ensures-done _ P (best_by-member ranking i ids p.0 p.1)
  select_winner-member (some k) ranking (i ∷ ids) e p q =
      Ensures-bind (votes h c e (sorted (i ∷ ids)) []) _ (All GroupOf) P
        (votes-member e (sorted (i ∷ ids)) [] q tt) (winner_of_votes-member e.scores)

module _ {L S G Sched : Type 0} (h : Host L S G Sched) (c : Settings S) where
  -- what the last event says is what the stream held
  pub record IsFaithful (finalized : List ℕ) (out : GenerationDone S × Run L S G Sched)
      : Type 0 where
    pub completion : (out.0).completion_tokens ≡ token_events (out.1).events
    pub budget : (out.0).completion_tokens ≤ c.budget
    pub branches : (out.0).branch_count ≡ started_events (out.1).events
    pub prunes : (out.0).pruned_count ≡ pruned_events (out.1).events
    pub merges : (out.0).merged_count ≡ merged_events (out.1).events
    pub winner : contains (out.0).branch_id finalized ≡ true

  reject_others-Counts :
      (ids : List ℕ) (e : Run L S G Sched)
      → Counts c.budget 0 e
      → Counts c.budget 0 (reject_others h c ids e)
  unfolding reject_others
  reject_others-Counts [] e k = k
  reject_others-Counts (i ∷ ids) e k =
      reject_others-Counts ids _ (IsCounted-pruned c.budget 0 _ _ _ _ _ _ e.events i not_selected k)

  finish-Ensures :
      (prompt : ℕ) (e : Run L S G Sched)
      → Counts c.budget 0 e
      → Ensures (finish h c prompt e) (IsFaithful e.finalized)
  unfolding finish
  finish-Ensures prompt e k =
      let Member : ℕ → Type 0 = λ j. contains j e.finalized ≡ true in
      let Q : GenerationDone S × Run L S G Sched → Type 0 = IsFaithful e.finalized in
      Ensures-then (fail_if (has_items e.active) active_remaining) _ Q λ u idle.
        Ensures-bound (mapped (ranking_score h c e) e.parents) _ Q λ ranking r.
          Ensures-bind (select_winner h c c.consensus ranking e.finalized e) _ Member Q
            (select_winner-member h c Member c.consensus ranking e.finalized e
              (All-contains Member e.finalized (λ j m. m))
              (All-contains Member (sorted e.finalized)
                (λ j m. sym (contains-sorted j e.finalized) ∙ m)))
            λ winner member. Ensures-bound (path winner e.parents) _ Q λ ids p.
              Ensures-bound (path_texts h c e ids) _ Q λ text t.
                Ensures-bound (path_tokens h c e ids) _ Q λ useful n.
                  Ensures-bound (mapped (λ i. need i (get i e.token_counts)) e.parents) _ Q
                    λ spent s.
                      let after = reject_others-Counts (sorted (discard winner e.finalized)) e k in
                      Ensures-done _ Q (record {
                        completion = sym after.tokens;
                        budget = omega (arith, after.within);
                        branches = sym after.started;
                        prunes = sym after.prunes;
                        merges = sym after.merges;
                        winner = member;
                      })

  -- Where `generate` ends with its last event, that event counts the completion tokens, branches, prunings
  -- and merges of the stream before it, the completion tokens do not exceed the budget, and the winner is
  -- a finalized branch.
  pub finish-IsFaithful :
      (x : Execution L) (scheduler : Sched) (generator : G) (snapshot : KvSnapshot) (prompt : ℕ)
      (e : Run L S G Sched) (out : GenerationDone S × Run L S G Sched)
      → Reach h c x scheduler generator snapshot e
      → finish h c prompt e ≡ done out
      → IsFaithful e.finalized out
  finish-IsFaithful x scheduler generator snapshot prompt e out reached ends =
      (finish-Ensures prompt e
          (Reach-IsCounted h c x scheduler generator snapshot e reached)).ensured
        out ends
