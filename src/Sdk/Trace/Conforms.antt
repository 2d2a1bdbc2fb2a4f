-- ===== src/Sdk/Trace/Conforms.antt =====
-- What an accepted stream with its `done` event says of the whole generation.
use autotree.Base.{
  ℕ, ◌≡◌, refl, ap, sym, ◌∙◌, Bool, true, false, some, List, [], ◌∷◌, arith, ◌==◌, ==_iff, length,
  Dict, get, get-set, inl, inr, Bool-cases, Option-cases, some-injective, if◌then◌else◌,
}
use autotree.Sdk.Trace.{
  accepted, completed, is_live, is_pruned, is_merged, RolloutBranch, DoneEvent, TreeEvent,
  done_event, TraceAssembler, new_assembler, is_some,
}
use autotree.Sdk.Trace.Complete.{
  branches_with, unterminated, spent_on, all_spent, keys_within, path_text, add, add_all,
}
use autotree.Sdk.Trace.Sound.{IsSound, spent}
use autotree.Sdk.Trace.Ends.{Completed, add-Completed, add_all-IsSound}

-- The event against the branches that were observed before it, and the branches after it.
pub record Conforms (event : DoneEvent) (a a' : TraceAssembler) : Type 0 where
  pub ended : (j : ℕ) (b : RolloutBranch) → get j a'.branches ≡ some b → is_live b.status ≡ false
  pub total : event.completion_tokens ≡ spent a.branches
  pub branches : event.branch_count ≡ length a.branches
  pub pruned_ones : event.pruned_count ≡ branches_with (λ b. is_pruned b.status) a.branches
  pub merged_ones : event.merged_count ≡ branches_with (λ b. is_merged b.status) a.branches
  pub spent_each :
      (j n : ℕ)
      → get j event.tokens_spent_per_branch ≡ some n
      → (b : RolloutBranch) × ((get j a.branches ≡ some b) × (length b.tokens ≡ n))
  pub scored : (j : ℕ) → is_some (get j event.final_scores) ≡ is_some (get j a.branches)
  pub winner : RolloutBranch
  pub known : get event.winner_branch_id a.branches ≡ some winner
  pub was_live : is_live winner.status ≡ true
  pub text : path_text a.branches winner.branch_path ≡ accepted event.text
  pub kept : (j : ℕ) → (event.winner_branch_id == j) ≡ false → get j a'.branches ≡ get j a.branches
  pub closed : a'.done ≡ some event

none_unterminated :
    (w : ℕ) (d : Dict RolloutBranch) (j : ℕ) (b : RolloutBranch)
    → branches_with (unterminated w) d ≡ 0
    → get j d ≡ some b
    → unterminated w b ≡ false
none_unterminated w [] j b h e = cc
none_unterminated w ((i, c) ∷ rest) j b h e = elim (Bool-cases (i == j)) [
  | inl here ↦
      let same : c ≡ b = ground (arith, e, here) in
      ap (unterminated w) (sym same) ∙ elim (Bool-cases (unterminated w c)) [
        | inl open_ ↦ ground (arith, h, open_)
        | inr ended ↦ ended
      ]
  | inr there ↦ none_unterminated w rest j b (ground (arith, h)) (ground (arith, e, there))
]

spent_found :
    (branches : Dict RolloutBranch) (d : Dict ℕ) (j n : ℕ)
    → all_spent branches d ≡ true
    → get j d ≡ some n
    → spent_on branches j n ≡ true
spent_found branches [] j n h e = cc
spent_found branches ((i, m) ∷ rest) j n h e = elim (Bool-cases (i == j)) [
  | inl here ↦
      let same : m ≡ n = ground (arith, e, here) in
      let at : i ≡ j = (==_iff i j).0 here in
      let first : spent_on branches i m ≡ true = ground (arith, h) in
      ap (λ k. spent_on branches k n) (sym at) ∙ (ap (spent_on branches i) (sym same) ∙ first)
  | inr there ↦ spent_found branches rest j n (ground (arith, h)) (ground (arith, e, there))
]

spent_on-length :
    (branches : Dict RolloutBranch) (j n : ℕ)
    → spent_on branches j n ≡ true
    → (b : RolloutBranch) × ((get j branches ≡ some b) × (length b.tokens ≡ n))
spent_on-length branches j n h = elim (Option-cases (get j branches)) [
  | inl gone ↦ ground (arith, h, gone)
  | inr (b, there) ↦ (b, (there, ground (arith, h, there)))
]

key_within :
    {A B : Type 0} (d : Dict A) (e : Dict B) (j : ℕ)
    → keys_within d e ≡ true
    → is_some (get j d) ≡ true
    → is_some (get j e) ≡ true
key_within [] e j h k = cc
key_within ((i, a) ∷ rest) e j h k = elim (Bool-cases (i == j)) [
  | inl here ↦ ap (λ m. is_some (get m e)) (sym ((==_iff i j).0 here)) ∙ ground (arith, h)
  | inr there ↦ key_within rest e j (ground (arith, h)) (ground (arith, k, there))
]

equal_tests : (p q : Bool) → (p ≡ true → q ≡ true) → (q ≡ true → p ≡ true) → p ≡ q
equal_tests true q f g = sym (f refl)
equal_tests false true f g = g refl
equal_tests false false f g = refl

pub new_assembler-IsSound : IsSound new_assembler
new_assembler-IsSound = record { entries = λ i b h. ground (arith, h); counted = refl }

module _ (event : DoneEvent) (a a' : TraceAssembler) (s : IsSound a)
    (c : Completed event a a') where
  branch_after :
      (j : ℕ)
      → get j a'.branches ≡ (
          if event.branch_id == j
          then some (record c.winner { status = completed })
          else get j a.branches)
  branch_after j =
      ap (λ (t : TraceAssembler). get j t.branches) c.after
      ∙ get-set j event.branch_id (record c.winner { status = completed }) a.branches

  all_ended : (j : ℕ) (b : RolloutBranch) → get j a'.branches ≡ some b → is_live b.status ≡ false
  all_ended j b h = elim (Bool-cases (event.branch_id == j)) [
    | inl here ↦
        let same : record c.winner { status = completed } ≡ b =
          some-injective (rw here refl ∙ (sym (branch_after j) ∙ h)) in
        ap (λ (d : RolloutBranch). is_live d.status) (sym same)
    | inr there ↦
        let at : get j a.branches ≡ some b = rw there refl ∙ (sym (branch_after j) ∙ h) in
        let named = (s.entries j b at).named in
        let over = none_unterminated event.branch_id a.branches j b c.others_ended at in
        ground (arith, over, named, there)
  ]

  completed-Conforms : Conforms event a a'
  completed-Conforms = record {
    ended = all_ended;
    total = c.tokens ∙ s.counted;
    branches = c.count;
    pruned_ones = c.pruned_ones;
    merged_ones = c.merged_ones;
    spent_each = λ j n h. spent_on-length a.branches j n (
        spent_found a.branches event.tokens_spent_per_branch j n (ground (arith, c.spent_right)) h);
    scored = λ j.
        equal_tests _ _
          (key_within event.final_scores a.branches j (ground (arith, c.scores_right)))
          (key_within a.branches event.final_scores j (ground (arith, c.scores_right)));
    winner = c.winner;
    known = ap (λ k. get k a.branches) c.chosen ∙ c.known;
    was_live = c.going;
    text = c.text;
    kept = λ j other.
        let there : (event.branch_id == j) ≡ false = ap (λ k. k == j) (sym c.chosen) ∙ other in
        branch_after j ∙ rw there refl;
    closed = ap (λ (t : TraceAssembler). t.done) c.after;
  }

-- If an assembler accepts a stream from its start and then a `done` event, then the event agrees with
-- the stream: its completion tokens are the tokens of all branches together; its counts of
-- branches, of pruned and of merged ones are those observed; every entry of its tokens per branch is
-- for an observed branch with so many tokens; its scores name exactly the observed branches; its
-- winner was live, and its text is that of the tokens along the winner's path. Afterwards no branch
-- is live, and all but the winner are as they were.
pub add-Conforms :
    (is_close : ℕ → ℕ → ℕ → Bool) (events : List TreeEvent) (event : DoneEvent)
    (a a' : TraceAssembler)
    → add_all is_close events new_assembler ≡ accepted a
    → add is_close (done_event event) a ≡ accepted a'
    → Conforms event a a'
add-Conforms is_close events event a a' h k =
    completed-Conforms event a a'
      (add_all-IsSound is_close events new_assembler a new_assembler-IsSound h)
      (add-Completed is_close event a a' k)
