-- ===== src/Modeling/Keeps.antt =====
-- `fork`, `prune` and `deduplicate` on executions that match their tree.
use autotree.Base.{
  ℕ, ◌≡◌, refl, ap, sym, ◌∙◌, true, false, none, ◌⊎◌, get, subst, if◌then◌else◌, some, [], ◌==◌,
  get-set, get-delete, inl, inr, Option-cases, Bool-cases, List-cases,
}
use autotree.Kv.Errors.{Result, ok, err}
use autotree.Kv.Pool.{Page}
use autotree.Kv.Branches.{Branch, lookup}
use autotree.Kv.Tree.View.{node_of, view, view_fork}
use autotree.Kv.Tree.Valid.{IsValid}
use autotree.Kv.Promises.Forks.{fork-refines, unknown_branch}
use autotree.Kv.Promises.Prunes.{prune-refines, prune_refused}
use autotree.Kv.Promises.Scans.{dedup_scan-refines}
use autotree.Modeling.{Executor, Execution, fork_execution, prune_execution, deduplicate}
use autotree.Modeling.Consistent.{IsConsistent, node_size, is_some, live_ids, live_logits}

-- the outcome of a call that is all or nothing
abbrev pub Keeps : {L A : Type 0} → Execution L → Result A × Execution L → Type 0
Keeps e (ok _, e') = IsConsistent e'
Keeps e (err _, e') = e' ≡ e

-- a child with the tokens and the logits of a branch, and no other branch changed
pub record Forked {L : Type 0} (e e' : Execution L) (i child : ℕ) : Type 0 where
  pub source : Branch
  pub live : lookup i e.tree.branches ≡ some source
  pub fresh : child ≡ e.tree.next_branch_id
  pub valid : IsValid e'.tree
  pub views : (j : ℕ) → view e'.tree j ≡ view_fork (view e.tree) i child j
  pub tokens :
      (j : ℕ) → get j e'.token_ids ≡ (if child == j then get i e.token_ids else get j e.token_ids)
  pub logits :
      (j : ℕ)
      → get j e'.next_logits ≡ (if child == j then get i e.next_logits else get j e.next_logits)
  pub owner : e'.owner ≡ e.owner

-- it is refused only for an unknown branch or for the execution of another executor
abbrev pub Forks : {L : Type 0} → Executor → Execution L → ℕ → Result ℕ × Execution L → Type 0
Forks x e i (ok child, e') = Forked e e' i child
Forks x e i (err z, e') =
    (e' ≡ e) × ((lookup i e.tree.branches ≡ none) ⊎ ((e.owner == x.owner) ≡ false))

Forked-IsConsistent :
    {L : Type 0} (e e' : Execution L) (i child : ℕ)
    → IsConsistent e
    → Forked e e' i child
    → IsConsistent e'
Forked-IsConsistent e e' i child c f =
    let seen = ap (node_of e.tree.pool) f.live in
    let (ids, known, long) = live_ids e i c _ seen in
    let (l, scored) = live_logits e i c _ seen in
    record {
      valid = f.valid;
      tokens = λ j. elim (Bool-cases (child == j)) [
        | inl here ↦ rw (f.tokens j, f.views j, here, seen, known) (ap some long)
        | inr there ↦ rw (f.tokens j, f.views j, there) (c.tokens j)
      ];
      logits = λ j. elim (Bool-cases (child == j)) [
        | inl here ↦ rw (f.logits j, f.views j, here, seen, scored) refl
        | inr there ↦ rw (f.logits j, f.views j, there) (c.logits j)
      ];
    }

pub Forks-IsConsistent :
    {L : Type 0} (x : Executor) (e : Execution L) (i : ℕ) (m : Result ℕ × Execution L)
    → IsConsistent e
    → Forks x e i m
    → IsConsistent (m.1)
Forks-IsConsistent x e i (ok child, e') c f = Forked-IsConsistent e e' i child c f
Forks-IsConsistent x e i (err z, e') c f = subst IsConsistent (sym f.0) c

module _ {L : Type 0} (x : Executor) (e : Execution L) (c : IsConsistent e) where
  fork_live :
      (i : ℕ) (b : Branch)
      → lookup i e.tree.branches ≡ some b
      → (e.owner == x.owner) ≡ true
      → Forks x e i (fork_execution L x i e)
  unfolding fork_execution
  fork_live i b live owned =
      let (t', runs, valid, views) = fork-refines e.tree i b c.valid live in
      let child = e.tree.next_branch_id in
      let seen = ap (node_of e.tree.pool) live in
      let (ids, known, long) = live_ids e i c _ seen in
      let (l, scored) = live_logits e i c _ seen in
      rw owned (
        rw runs (
          rw scored (
            rw known (record {
              source = b;
              live = live;
              fresh = refl;
              valid = valid;
              views = views;
              tokens = λ j. get-set j child ids e.token_ids ∙ rw known refl;
              logits = λ j. get-set j child l e.next_logits ∙ rw scored refl;
              owner = refl;
            }))))

  -- On an execution whose dicts match its tree, forking through the executor either makes a
  -- new branch, in the tree a child of the source with its rows, in the dicts with the token ids and
  -- the logits of the source, while no other branch changes; or it raises and changes nothing. It
  -- raises only where the branch is unknown or the execution belongs to another executor.
  pub fork_execution-Forks : (i : ℕ) → Forks x e i (fork_execution L x i e)
  unfolding fork_execution
  fork_execution-Forks i = elim (Bool-cases (e.owner == x.owner)) [
    | inl owned ↦ elim (Option-cases (lookup i e.tree.branches)) [
      | inl gone ↦ rw owned (rw ((unknown_branch e.tree i 0 gone).0) (refl, inl gone))
      | inr (b, live) ↦ fork_live i b live owned
    ]
    | inr foreign ↦ rw foreign (refl, inr foreign)
  ]

  prune_leaf :
      (i : ℕ) (b : Branch)
      → lookup i e.tree.branches ≡ some b
      → b.child_ids ≡ []
      → (e.owner == x.owner) ≡ true
      → Keeps e (prune_execution L x i e)
  unfolding prune_execution
  prune_leaf i b live leaf owned =
      let (t', runs, valid, views) = prune-refines e.tree i b c.valid live leaf in
      let seen = ap (node_of e.tree.pool) live in
      let (ids, known, long) = live_ids e i c _ seen in
      let (l, scored) = live_logits e i c _ seen in
      rw owned (
        rw runs (
          rw scored (
            rw known (record {
              valid = valid;
              tokens = λ j. elim (Bool-cases (i == j)) [
                | inl here ↦ rw (get-delete j i e.token_ids, views j, here) refl
                | inr there ↦ rw (get-delete j i e.token_ids, views j, there) (c.tokens j)
              ];
              logits = λ j. elim (Bool-cases (i == j)) [
                | inl here ↦ rw (get-delete j i e.next_logits, views j, here) refl
                | inr there ↦ rw (get-delete j i e.next_logits, views j, there) (c.logits j)
              ];
            }))))

  -- Pruning through the executor either gives an execution whose dicts match its tree again, or
  -- raises and changes nothing.
  prune_execution-Keeps : (i : ℕ) → Keeps e (prune_execution L x i e)
  unfolding prune_execution
  prune_execution-Keeps i = elim (Bool-cases (e.owner == x.owner)) [
    | inl owned ↦ elim (Option-cases (lookup i e.tree.branches)) [
      | inl gone ↦ rw owned (rw ((unknown_branch e.tree i 0 gone).1) refl)
      | inr (b, live) ↦ elim (List-cases b.child_ids) [
        | inl leaf ↦ prune_leaf i b live leaf owned
        | inr (k, ks, more) ↦ rw owned (rw (prune_refused e.tree i k ks b live more) refl)
      ]
    ]
    | inr foreign ↦ rw foreign refl
  ]

  -- Deduplicating through the executor either gives an execution whose dicts match its tree, or
  -- raises and changes nothing.
  deduplicate-Keeps : (digest : Page → ℕ) → Keeps e (deduplicate L digest x e)
  unfolding deduplicate
  deduplicate-Keeps digest = elim (Bool-cases (e.owner == x.owner)) [
    | inl owned ↦
        let s = dedup_scan-refines digest e.tree c.valid in
        rw owned (
          rw s.runs (record {
            valid = s.valid;
            tokens = λ j. c.tokens j ∙ ap node_size (sym (s.views j));
            logits = λ j. c.logits j ∙ ap is_some (sym (s.views j));
          }))
    | inr foreign ↦ rw foreign refl
  ]
