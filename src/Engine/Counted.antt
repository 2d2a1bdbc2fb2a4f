-- ===== src/Engine/Counted.antt =====
-- What the counters of `generate` count: the events that were yielded.
pub mod Steps
pub mod Batch
pub mod Loop
pub mod Path
pub mod Finish
use autotree.Base.{
  ℕ, zero, suc, ◌+◌, ◌≤◌, ◌<◌, ◌≡◌, refl, sym, ap, subst, ◌∙◌, inl, inr, Bool, true, false, Option,
  none, some, List, [], ◌∷◌, ◌++◌, leb, ◌==◌, if◌then◌else◌, length, arith, Dict, get, set, get-set,
  Text, some-injective, none≢some, Option-cases, Bool-cases,
}
use native.Mathlib.Decide.{dec_lt}
use autotree.Kv.Tree.{root_id}
use autotree.Engine.{
  Event, branch_started, token_generated, branch_pruned, branch_merged, Reason, Run,
}
use autotree.Engine.Rounds.{max_key}
use autotree.Engine.Events.{
  started_events, token_events, pruned_events, merged_events, counts-append, total, total-set,
  total-set_new, length-set_new, get-above,
}

-- The counters, the parents and the texts against the events; `coming` tokens are still in the budget.
pub record IsCounted {S : Type 0} (budget coming : ℕ) (parents : Dict (Option ℕ)) (counts : Dict ℕ)
    (texts : Dict Text) (completion pruned merged : ℕ) (events : List (Event S)) : Type 0 where
  pub started : started_events events ≡ length parents
  pub tokens : token_events events ≡ completion
  pub prunes : pruned_events events ≡ pruned
  pub merges : merged_events events ≡ merged
  pub spent : total counts ≡ completion
  pub within : completion + coming ≤ budget
  pub counted_known : (i : ℕ) → get i parents ≡ none → get i counts ≡ none
  pub texts_known : (i : ℕ) → get i parents ≡ none → get i texts ≡ none
  pub older :
      (i p : ℕ)
      → get i parents ≡ some (some p)
      → (p < i) × ((q : Option ℕ) × (get p parents ≡ some q))
  pub rooted : (i : ℕ) → get i parents ≡ some none → i ≡ root_id

module _ {S : Type 0} (budget coming : ℕ) (parents : Dict (Option ℕ)) (counts : Dict ℕ)
    (texts : Dict Text) (completion pruned merged : ℕ) (events : List (Event S)) where
  pub IsCounted-pruned :
      (i : ℕ) (r : Reason)
      → IsCounted budget coming parents counts texts completion pruned merged events
      → IsCounted budget coming parents counts texts completion
          (suc pruned)
          merged
          (events ++ branch_pruned i r ∷ [])
  IsCounted-pruned i r k =
      let (a, b, c, d) = counts-append events (branch_pruned i r ∷ []) in
      record {
        started = omega (arith, a, k.started);
        tokens = omega (arith, b, k.tokens);
        prunes = omega (arith, c, k.prunes);
        merges = omega (arith, d, k.merges);
        spent = k.spent;
        within = k.within;
        counted_known = k.counted_known;
        texts_known = k.texts_known;
        older = k.older;
        rooted = k.rooted;
      }

  pub IsCounted-merged :
      (i j : ℕ)
      → IsCounted budget coming parents counts texts completion pruned merged events
      → IsCounted budget coming parents counts texts completion pruned
          (suc merged)
          (events ++ branch_merged i j ∷ [])
  IsCounted-merged i j k =
      let (a, b, c, d) = counts-append events (branch_merged i j ∷ []) in
      record {
        started = omega (arith, a, k.started);
        tokens = omega (arith, b, k.tokens);
        prunes = omega (arith, c, k.prunes);
        merges = omega (arith, d, k.merges);
        spent = k.spent;
        within = k.within;
        counted_known = k.counted_known;
        texts_known = k.texts_known;
        older = k.older;
        rooted = k.rooted;
      }

  pub IsCounted-token :
      (i index id : ℕ) (token old new : Text) (logprob : S)
      → get i counts ≡ some index
      → get i texts ≡ some old
      → IsCounted budget (suc coming) parents counts texts completion pruned merged events
      → IsCounted budget coming parents
          (set i (suc index) counts)
          (set i new texts)
          (suc completion)
          pruned
          merged
          (events ++ token_generated i token index logprob id ∷ [])
  IsCounted-token i index id token old new logprob at text k =
      let (a, b, c, d) = counts-append events (token_generated i token index logprob id ∷ []) in
      record {
        started = omega (arith, a, k.started);
        tokens = omega (arith, b, k.tokens);
        prunes = omega (arith, c, k.prunes);
        merges = omega (arith, d, k.merges);
        spent = omega (arith, total-set i index (suc index) counts at, k.spent);
        within = omega (arith, k.within);
        counted_known =
            λ j h. ground (arith, get-set j i (suc index) counts, k.counted_known j h, at);
        texts_known = λ j h. ground (arith, get-set j i new texts, k.texts_known j h, text);
        older = k.older;
        rooted = k.rooted;
      }

  known_parent :
      (i : ℕ) (text : Text)
      → get i texts ≡ some text
      → IsCounted budget coming parents counts texts completion pruned merged events
      → (i ≤ max_key parents) × ((q : Option ℕ) × (get i parents ≡ some q))
  known_parent i text at k = elim (Option-cases (get i parents)) [
    | inl gone ↦ absurd (none≢some (sym (k.texts_known i gone) ∙ at))
    | inr (q, here) ↦ elim (dec_lt (max_key parents) i) [
      | yes above ↦ absurd (none≢some (sym (get-above i parents above) ∙ here))
      | no below ↦ (omega arith, (q, here))
    ]
  ]

  -- a key of a dict after another key was added
  still_known :
      (i child p : ℕ)
      → ((q : Option ℕ) × (get p parents ≡ some q))
      → (q : Option ℕ) × (get p (set child (some i) parents) ≡ some q)
  still_known i child p (q, here) = elim (Bool-cases (child == p)) [
    | inl same ↦ (some i, get-set p child (some i) parents ∙ rw same refl)
    | inr other ↦ (q, get-set p child (some i) parents ∙ rw other here)
  ]

  older_child :
      (i child : ℕ)
      → i ≤ max_key parents
      → child ≡ suc (max_key parents)
      → ((q : Option ℕ) × (get i parents ≡ some q))
      → IsCounted budget coming parents counts texts completion pruned merged events
      → (j p : ℕ) → get j (set child (some i) parents) ≡ some (some p)
      → (p < j) × ((q : Option ℕ) × (get p (set child (some i) parents) ≡ some q))
  older_child i child low next here k j p h =
      let split = sym (get-set j child (some i) parents) ∙ h in
      elim (Bool-cases (child == j)) [
        | inl same ↦
            let parent : i ≡ p = some-injective (
              some-injective
                (ap (λ b. if b then some (some i) else get j parents) (sym same) ∙ split)) in
            (
              ground (arith, same, parent, low, next),
              still_known i child p
                  (subst (λ z. (q : Option ℕ) × (get z parents ≡ some q)) parent here),
            )
        | inr other ↦
            let old =
              k.older j p
                (ap (λ b. if b then some (some i) else get j parents) (sym other) ∙ split) in
            (old.0, still_known i child p old.1)
      ]

  rooted_child :
      (i child : ℕ)
      → IsCounted budget coming parents counts texts completion pruned merged events
      → (j : ℕ) → get j (set child (some i) parents) ≡ some none
      → j ≡ root_id
  rooted_child i child k j h =
      let split = sym (get-set j child (some i) parents) ∙ h in
      elim (Bool-cases (child == j)) [
        | inl same ↦
            let parent : some i ≡ none =
              some-injective
                (ap (λ b. if b then some (some i) else get j parents) (sym same) ∙ split) in
            absurd (none≢some (sym parent))
        | inr other ↦
            k.rooted j (ap (λ b. if b then some (some i) else get j parents) (sym other) ∙ split)
      ]

  pub IsCounted-started :
      (i child : ℕ) (text : Text)
      → child ≡ suc (max_key parents)
      → get i texts ≡ some text
      → IsCounted budget coming parents counts texts completion pruned merged events
      → IsCounted budget coming
          (set child (some i) parents)
          (set child 0 counts)
          (set child text texts)
          completion
          pruned
          merged
          (events ++ branch_started child (some i) ∷ [])
  IsCounted-started i child text next at k =
      let (a, b, c, d) = counts-append events (branch_started child (some i) ∷ []) in
      let (low, here) = known_parent i text at k in
      let new : get child parents ≡ none = get-above child parents (omega (arith, next)) in
      record {
        started = omega (arith, a, k.started, length-set_new child (some i) parents new);
        tokens = omega (arith, b, k.tokens);
        prunes = omega (arith, c, k.prunes);
        merges = omega (arith, d, k.merges);
        spent = omega (arith, total-set_new child 0 counts (k.counted_known child new), k.spent);
        within = k.within;
        counted_known = λ j h. ground (
          arith,
          get-set j child (some i) parents,
          get-set j child 0 counts,
          h,
          k.counted_known j,
        );
        texts_known = λ j h. ground (
          arith,
          get-set j child (some i) parents,
          get-set j child text texts,
          h,
          k.texts_known j,
        );
        older = λ j p h. older_child i child low next here k j p h;
        rooted = λ j h. rooted_child i child k j h;
      }
