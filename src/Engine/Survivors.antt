-- ===== src/Engine/Survivors.antt =====
-- How many branches the pruning for low values leaves.
use autotree.Base.{
  ℕ, suc, ◌+◌, ◌-◌, ◌≤◌, ◌≡◌, ◌⊎◌, inl, inr, refl, sym, ap, ◌∙◌, Bool, true, not, ◌&&◌, some, List,
  [], ◌∷◌, length, length-take, take, min, count, count-sorted, contains, contains-sorted, sorted,
  All, All-contains, leb, ◌==◌, arith, Bool-cases, get,
}
use autotree.Modeling.{prune_execution}
use autotree.Engine.{done, need, EmvptConfig, Host, Settings, Run, kv_error, discard, filter}
use autotree.Engine.Values.{
  for_each, on_execution, value_prune, low_value_pruned, leave_active, prune_low_value_branches,
  prune_with, live_of, is_active, sibling_groups, scheduler_is_active, ranked, candidates,
}
use autotree.Engine.Ensures.{
  Ensures, Ensures-done, Ensures-bind, Ensures-bound, Ensures-on_execution,
}

-- the branches of a list that are in a set
abbrev pub kept : List ℕ → List ℕ → ℕ
kept ids active = length (filter (λ i. contains i active) ids)

contains-discard :
    (j i : ℕ) (xs : List ℕ) → contains j (discard i xs) ≡ (contains j xs && not (i == j))
contains-discard j i [] = refl
contains-discard j i (x ∷ xs) = ground (arith, contains-discard j i xs)

-- a removal loses no more than the occurrences of the branch
kept-discard :
    (i : ℕ) (ids active : List ℕ) → kept ids active ≤ kept ids (discard i active) + count i ids
kept-discard i [] active = omega arith
kept-discard i (x ∷ ids) active =
    ground (arith, kept-discard i ids active, contains-discard x i active)

kept-all :
    (ids active : List ℕ) → All (λ i. contains i active ≡ true) ids → kept ids active ≡ length ids
kept-all [] active a = refl
kept-all (i ∷ ids) active a = ground (arith, a.0, kept-all ids active a.1)

All-filter : (P : ℕ → Type 0) (p : ℕ → Bool) (xs : List ℕ) → All P xs → All P (filter p xs)
All-filter P p [] a = tt
All-filter P p (x ∷ xs) a = elim (Bool-cases (p x)) [
  | inl yes_p ↦ rw yes_p (a.0, All-filter P p xs a.1)
  | inr no_p ↦ rw no_p (All-filter P p xs a.1)
]

count-filter : (i : ℕ) (p : ℕ → Bool) (xs : List ℕ) → count i (filter p xs) ≤ count i xs
count-filter i p [] = omega arith
count-filter i p (x ∷ xs) = ground (arith, count-filter i p xs)

module _ {L S G Sched : Type 0} (h : Host L S G Sched) (c : Settings S) where
  -- one pruning takes one branch out of the active ones, or none
  abbrev Took : ℕ → List ℕ → Run L S G Sched → Type 0
  Took i active e = (e.active ≡ active) ⊎ (e.active ≡ discard i active)

  low_value_pruned-active :
      (i n : ℕ) (e : Run L S G Sched) → (low_value_pruned h c i n e).active ≡ e.active
  low_value_pruned-active i n e = elim (Bool-cases (scheduler_is_active h c e i)) [
    | inl told ↦ rw told refl
    | inr silent ↦ rw silent refl
  ]

  value_prune-Took : (i : ℕ) (e : Run L S G Sched) → Ensures (value_prune h c i e) (Took i e.active)
  unfolding value_prune
  value_prune-Took i e = elim (Bool-cases (contains i e.active)) [
    | inr gone ↦ rw gone (Ensures-done e (Took i e.active) (inl refl))
    | inl here ↦ rw here (
        Ensures-bind (on_execution kv_error (prune_execution L h.executor i) (leave_active h c i e))
          _ (λ out. (out.1).active ≡ discard i e.active) (Took i e.active)
          (Ensures-on_execution kv_error _ (λ out. (out.1).active ≡ discard i e.active)
            (λ u x. refl) (prune_execution L h.executor i))
          (λ out same.
            Ensures-bound (need i (get i (out.1).value_token_counts)) _ (Took i e.active)
              (λ n found.
                Ensures-done _ (Took i e.active)
                  (inr (low_value_pruned-active i n (out.1) ∙ same)))))
  ]

  module _ (live : List ℕ) (distinct : (i : ℕ) → count i live ≤ 1) where
    Took-kept :
        (i : ℕ) (active : List ℕ) (e : Run L S G Sched)
        → Took i active e
        → kept live active ≤ kept live e.active + 1
    Took-kept i active e (inl same) = rw same (omega arith)
    Took-kept i active e (inr less) =
        rw less (omega (arith, kept-discard i live active, distinct i))

    prunes-kept :
        (ids : List ℕ) (e : Run L S G Sched)
        → Ensures
            (for_each ids (value_prune h c) e)
            (λ e'. kept live e.active ≤ kept live e'.active + length ids)
    unfolding for_each
    prunes-kept [] e = Ensures-done e _ (omega arith)
    prunes-kept (i ∷ ids) e =
        Ensures-bind (value_prune h c i e) _ (Took i e.active)
          (λ e'. kept live e.active ≤ kept live e'.active + suc (length ids)) (value_prune-Took i e)
          (λ e1 took. record {
            ensured = λ e2 ends.
                omega (arith, Took-kept i e.active e1 took, (prunes-kept ids e1).ensured e2 ends);
          })

  -- the live branches are active, each of them once
  live_once :
      (e : Run L S G Sched)
      → ((i : ℕ) → count i e.active ≤ 1)
      → (i : ℕ) → count i (live_of h c (is_active h c) e e.active) ≤ 1
  live_once e distinct i =
      omega (arith, distinct i, count-sorted i e.active, count-filter i _ (sorted e.active))

  kept-live :
      (e : Run L S G Sched)
      → let live = live_of h c (is_active h c) e e.active in kept live e.active ≡ length live
  kept-live e = kept-all _ e.active (
      All-filter (λ i. contains i e.active ≡ true) _ (sorted e.active)
        (All-contains (λ i. contains i e.active ≡ true) (sorted e.active)
          (λ i m. sym (contains-sorted i e.active) ∙ m)))

  prune_with-keeps :
      (k : EmvptConfig S) (e : Run L S G Sched)
      → ((i : ℕ) → count i e.active ≤ 1)
      → let live = live_of h c (is_active h c) e e.active in
        Ensures
          (prune_with h c (some k) e)
          (λ e'. min k.min_keep (length live) ≤ kept live e'.active)
  prune_with-keeps k e distinct =
      let live = live_of h c (is_active h c) e e.active in
      let Q : Run L S G Sched → Type 0 = λ e'. min k.min_keep (length live) ≤ kept live e'.active in
      elim (Bool-cases (leb (length live) k.min_keep)) [
        | inl few ↦ rw few (Ensures-done e Q (omega (arith, kept-live e)))
        | inr many ↦ rw many (
            Ensures-bound (sibling_groups h c e live []) _ Q (λ groups found. record {
              ensured = λ e' ends.
                  let order = ranked h c (candidates h c k e groups) in
                  omega (
                    arith,
                    (prunes-kept live (live_once e distinct) (take (length live - k.min_keep) order)
                          e).ensured
                        e' ends,
                    length-take (length live - k.min_keep) order,
                    kept-live e,
                  );
            }))
      ]

  -- Where values are compared and no branch is listed twice among the active ones, the pruning leaves at
  -- least `min_keep` of the branches that the scheduler has active, or all of them where there are no
  -- more.
  pub prune_low_value_branches-keeps :
      (k : EmvptConfig S) (e e' : Run L S G Sched)
      → c.emvpt ≡ some k
      → ((i : ℕ) → count i e.active ≤ 1)
      → prune_low_value_branches h c e ≡ done e'
      → let live = live_of h c (is_active h c) e e.active in
        min k.min_keep (length live) ≤ kept live e'.active
  unfolding prune_low_value_branches
  prune_low_value_branches-keeps k e e' config distinct ends =
      (prune_with-keeps k e distinct).ensured e' (ap (λ o. prune_with h c o e) (sym config) ∙ ends)
