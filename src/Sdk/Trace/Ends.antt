-- ===== src/Sdk/Trace/Ends.antt =====
-- What a `done` event that is accepted says, and what every accepted stream keeps.
use autotree.Base.{
  ℕ, ◌≡◌, refl, ap, sym, ◌∙◌, subst, Bool, true, false, not, some, List, [], ◌∷◌, arith, ltb, ◌==◌,
  ==_iff, length, list_equal, list_equal_sound, get, set, inl, inr, Bool-cases, Option-cases,
}
use autotree.Sdk.Trace.{
  TraceError, Checked, accepted, rejected, completed, merged, is_live, is_pruned, is_merged,
  RolloutBranch, DoneEvent, TreeEvent, branch_started, token, branch_pruned, branch_merged,
  error_event, done_event, TraceAssembler, is_some, known_live, add_merged, ◌>>=◌, ◌>>◌, reject_if,
}
use autotree.Sdk.Trace.Complete.{
  branches_with, unterminated, same_counts, same_keys, ratio_differs, path_text, complete, dispatch,
  add, add_all,
}
use autotree.Sdk.Trace.Sound.{
  IsSound, Sound, ends-IsSound, start-Sound, add_token-Sound, add_pruned-Sound,
}

module _ {A : Type 0} where
  passed :
      (b : Bool) (e : TraceError) (m : Checked A) (x : A)
      → reject_if b e >> m ≡ accepted x
      → (b ≡ false) × (m ≡ accepted x)
  passed true e m x h = ground (arith, h)
  passed false e m x h = (refl, h)

  bound :
      {B : Type 0} (m : Checked B) (f : B → Checked A) (x : A)
      → m >>= f ≡ accepted x
      → (b : B) × (m ≡ accepted b) × (f b ≡ accepted x)
  bound (accepted b) f x h = (b, refl, h)
  bound (rejected e) f x h = ground (arith, h)

known_live-found :
    (a : TraceAssembler) (i : ℕ) (b : RolloutBranch)
    → known_live a i ≡ accepted b
    → (get i a.branches ≡ some b) × (is_live b.status ≡ true)
known_live-found a i b h = elim (Option-cases (get i a.branches)) [
  | inl gone ↦ ground (arith, h, gone)
  | inr (c, there) ↦ elim (Bool-cases (is_live c.status)) [
    | inl going ↦
        let same : c ≡ b = ground (arith, h, there, going) in
        (there ∙ ap some same, subst (λ d. is_live d.status ≡ true) same going)
    | inr over ↦ ground (arith, h, there, over)
  ]
]

-- the checks that an accepted `done` event has passed
pub record Completed (event : DoneEvent) (a a' : TraceAssembler) : Type 0 where
  pub winner : RolloutBranch
  pub known : get event.branch_id a.branches ≡ some winner
  pub going : is_live winner.status ≡ true
  pub tokens : event.completion_tokens ≡ a.token_count
  pub count : event.branch_count ≡ length a.branches
  pub others_ended : branches_with (unterminated event.branch_id) a.branches ≡ 0
  pub pruned_ones : event.pruned_count ≡ branches_with (λ b. is_pruned b.status) a.branches
  pub merged_ones : event.merged_count ≡ branches_with (λ b. is_merged b.status) a.branches
  pub spent_right : same_counts event.tokens_spent_per_branch a.branches ≡ true
  pub scores_right : same_keys event.final_scores a.branches ≡ true
  pub chosen : event.winner_branch_id ≡ event.branch_id
  pub text : path_text a.branches winner.branch_path ≡ accepted event.text
  pub after : a' ≡ record a {
    branches = set event.branch_id (record winner { status = completed }) a.branches;
    done = some event;
  }

equal_of : (m n : ℕ) → not (m == n) ≡ false → m ≡ n
equal_of m n h = ground (arith, h)

module _ (is_close : ℕ → ℕ → ℕ → Bool) where
  complete-Completed :
      (event : DoneEvent) (a a' : TraceAssembler)
      → complete is_close event a ≡ accepted a'
      → Completed event a a'
  unfolding complete
  complete-Completed event a a' h0 =
      let (tokens, h1) = passed (not (event.completion_tokens == a.token_count)) _ _ a' h0 in
      let (count, h2) = passed (not (event.branch_count == length a.branches)) _ _ a' h1 in
      let (winner, known, h3) = bound (known_live a event.branch_id) _ a' h2 in
      let (others, h4) =
        passed (ltb 0 (branches_with (unterminated event.branch_id) a.branches)) _ _ a' h3 in
      let (pruned_, h5) =
        passed (not (event.pruned_count == branches_with (λ b. is_pruned b.status) a.branches)) _ _
          a' h4 in
      let (merged_, h6) =
        passed (not (event.merged_count == branches_with (λ b. is_merged b.status) a.branches)) _ _
          a' h5 in
      let (spent_, h7) =
        passed (not (same_counts event.tokens_spent_per_branch a.branches)) _ _ a' h6 in
      let (scores, h8) = passed (not (same_keys event.final_scores a.branches)) _ _ a' h7 in
      let (chosen, h9) = passed (not (event.winner_branch_id == event.branch_id)) _ _ a' h8 in
      let (physical, h10) = passed (event.physical_tokens == 0) _ _ a' h9 in
      let (ratio, h11) =
        passed
          (ratio_differs is_close event.kv_reuse_ratio event.logical_tokens event.physical_tokens) _
          _ a' h10 in
      let (text, spelled, h12) = bound (path_text a.branches winner.branch_path) _ a' h11 in
      let (same, h13) = passed (not (list_equal ◌==◌ event.text text)) _ _ a' h12 in
      let (at, going) = known_live-found a event.branch_id winner known in
      record {
        winner = winner;
        known = at;
        going = going;
        tokens = equal_of _ _ tokens;
        count = equal_of _ _ count;
        others_ended = ground (arith, others);
        pruned_ones = equal_of _ _ pruned_;
        merged_ones = equal_of _ _ merged_;
        spent_right = ground (arith, spent_);
        scores_right = ground (arith, scores);
        chosen = equal_of _ _ chosen;
        text =
            spelled
            ∙ ap accepted (
                sym (
                  list_equal_sound ◌==◌ (λ x y. (==_iff x y).0) event.text text
                    (ground (arith, same))));
        after = ground (arith, h13);
      }

  complete-Sound :
      (event : DoneEvent) (a : TraceAssembler) → IsSound a → Sound (complete is_close event a)
  complete-Sound event a s = sound_of (complete is_close event a) refl
    where
      sound_of : (m : Checked TraceAssembler) → complete is_close event a ≡ m → Sound m
      sound_of (rejected e) h = tt
      sound_of (accepted a') h =
          let c = complete-Completed event a a' h in
          let e = s.entries event.branch_id c.winner c.known in
          let closed =
            ends-IsSound a event.branch_id c.winner (record c.winner { status = completed }) s
              c.known
              (record { named = e.named; indices = e.indices; ids = e.ids; logprobs = e.logprobs })
              refl in
          subst IsSound (sym c.after)
            (record { entries = closed.entries; counted = closed.counted })

add_merged-Sound : (i into : ℕ) (a : TraceAssembler) → IsSound a → Sound (add_merged i into a)
unfolding add_merged
add_merged-Sound i into a s = elim (Option-cases (get i a.branches)) [
  | inl gone ↦ rw gone tt
  | inr (b, there) ↦ elim (Bool-cases (is_live b.status)) [
    | inr over ↦ rw there (rw over tt)
    | inl going ↦ elim (Bool-cases (into == i)) [
      | inl self ↦ rw there (rw going (rw self tt))
      | inr other ↦ elim (Option-cases (get into a.branches)) [
        | inl gone ↦ rw there (rw going (rw other (rw gone tt)))
        | inr (c, known) ↦ elim (Bool-cases (is_live c.status)) [
          | inr over ↦ rw there (rw going (rw other (rw known (rw over tt))))
          | inl alive ↦
              let e = s.entries i b there in
              rw there (
                rw going (
                  rw other (
                    rw known (
                      rw alive (
                        ends-IsSound a i b (record b { status = merged; merged_into = some into }) s
                          there
                          (record {
                            named = e.named;
                            indices = e.indices;
                            ids = e.ids;
                            logprobs = e.logprobs;
                          })
                          refl)))))
        ]
      ]
    ]
  ]
]

module _ (is_close : ℕ → ℕ → ℕ → Bool) where
  dispatch-Sound :
      (event : TreeEvent) (a : TraceAssembler) → IsSound a → Sound (dispatch is_close event a)
  dispatch-Sound (branch_started i parent) a s = start-Sound i parent a s
  dispatch-Sound (token i index text id logprob) a s = add_token-Sound i index text id logprob a s
  dispatch-Sound (branch_pruned i reason) a s = add_pruned-Sound i reason a s
  dispatch-Sound (branch_merged i into) a s = add_merged-Sound i into a s
  dispatch-Sound (error_event code) a s = tt
  dispatch-Sound (done_event event) a s = complete-Sound is_close event a s

  add-Sound : (event : TreeEvent) (a : TraceAssembler) → IsSound a → Sound (add is_close event a)
  unfolding add
  add-Sound event a s = elim (Bool-cases (is_some a.done)) [
    | inl over ↦ rw over tt
    | inr going ↦ rw going (dispatch-Sound event a s)
  ]

  -- In an assembler that a stream of events leads to from a sound one, each branch is found under
  -- its own id, its token indices are 0, 1, 2, ... in order, its ids and log-probabilities are as
  -- many as its tokens, and the tokens of all branches add up to the token count.
  pub add_all-IsSound :
      (events : List TreeEvent) (a a' : TraceAssembler)
      → IsSound a
      → add_all is_close events a ≡ accepted a'
      → IsSound a'
  unfolding add_all
  add_all-IsSound [] a a' s h = subst Sound h s
  add_all-IsSound (event ∷ rest) a a' s h =
      let (next, first, others) = bound (add is_close event a) _ a' h in
      add_all-IsSound rest next a' (subst Sound first (add-Sound event a s)) others

  pub add-Completed :
      (event : DoneEvent) (a a' : TraceAssembler)
      → add is_close (done_event event) a ≡ accepted a'
      → Completed event a a'
  unfolding add
  add-Completed event a a' h = complete-Completed is_close event a a' ((passed _ _ _ a' h).1)
