-- ===== src/Kv/Tree/Pruned.antt =====
-- The state after `TreeState.prune`: the invariant, the view and the pages that came back.
use autotree.Base.{
  ℕ, ◌<◌, ◌≡◌, ◌≢◌, refl, sym, true, Option, none, some, [], arith, count, contains,
}
use autotree.Kv.Pool.Sound.{logical-IsSound}
use autotree.Kv.Branches.{Branch, lookup, references, le-total, erase-Unique}
use autotree.Kv.Cover.{Covers, Covers-agree}
use autotree.Kv.Tree.{TreeState}
use autotree.Kv.Tree.Valid.{IsValid, IsParent, IsChild}
use autotree.Kv.Tree.Loops.{release_all, Released}
use autotree.Kv.Tree.Prune.{
  pruned, strip, stripped, freed, lookup-pruned, total-pruned, pruned-cases, detached-Unique,
  contains-without,
}
use autotree.Kv.Tree.View.{view, view_prune, node_of}

module _ (t : TreeState) (i : ℕ) (b : Branch) (v : IsValid t) (live : lookup i t.branches ≡ some b)
    (leaf : b.child_ids ≡ []) where
  drop : Released b.block_table t.pool (release_all b.block_table t.pool)
  drop = freed t i b v live leaf

  pruned_refs : (r : ℕ) → (pruned t b).pool.refcounts r ≡ references r (pruned t b).branches
  pruned_refs r = omega (
    arith,
    drop.dropped r,
    v.refs r,
    total-pruned t i b v live leaf (λ c. count r c.block_table) (λ c xs. refl),
  )

  -- the pages of a branch that is left are still in use, and keep their length
  kept_lengths :
      (j : ℕ) (c : Branch) (r : ℕ)
      → lookup j (pruned t b).branches ≡ some c
      → 0 < count r c.block_table
      → t.pool.valid_lengths r ≡ (pruned t b).pool.valid_lengths r
  kept_lengths j c r h k = sym (
      drop.kept r (
        omega (
          arith,
          pruned_refs r,
          le-total (λ (d : Branch). count r d.block_table) j c (pruned t b).branches h,
        )))

  pruned-Covers :
      (j : ℕ) (c : Branch)
      → lookup j (pruned t b).branches ≡ some c
      → Covers
          (pruned t b).pool.config.page_size
          (pruned t b).pool.valid_lengths
          c.block_table
          c.num_tokens
  pruned-Covers j c h =
      let (d, old, e, _) = pruned-cases t i b v live leaf j c h in
      let before : Covers t.pool.config.page_size t.pool.valid_lengths c.block_table c.num_tokens =
        rw e (v.covers j d old) in
      rw drop.config (
        Covers-agree t.pool.config.page_size t.pool.valid_lengths (pruned t b).pool.valid_lengths
          c.block_table c.num_tokens (λ r k. kept_lengths j c r h k) before)

  pruned-parents :
      (j k : ℕ) (c : Branch)
      → lookup j (pruned t b).branches ≡ some c
      → c.parent_id ≡ some k
      → IsParent (pruned t b).branches j k
  pruned-parents j k c h p =
      let (d, old, e, other) = pruned-cases t i b v live leaf j c h in
      let q : IsParent t.branches j k = v.parents j k d old (ground arith) in
      let parent_left : k ≢ i = λ z. ground (arith, q.live, q.listed) in
      record {
        older = q.older;
        entry = strip i q.entry;
        live = ground (arith, lookup-pruned t i b v live leaf k, q.live);
        listed = ground (arith, contains-without j i q.entry.child_ids, q.listed);
      }

  pruned-children :
      (j k : ℕ) (c : Branch)
      → lookup j (pruned t b).branches ≡ some c
      → contains k c.child_ids ≡ true
      → IsChild (pruned t b).branches j k
  pruned-children j k c h p =
      let (d, old, e, _) = pruned-cases t i b v live leaf j c h in
      let both : (contains k d.child_ids ≡ true) × (k ≢ i) =
        ground (arith, contains-without k i d.child_ids) in
      let q : IsChild t.branches j k = v.children j k d old both.0 in
      record {
        entry = strip i q.entry;
        live = ground (arith, lookup-pruned t i b v live leaf k, q.live);
        names = q.names;
      }

  pub pruned-IsValid : IsValid (pruned t b)
  pruned-IsValid = record {
    sound = logical-IsSound _ _ drop.sound;
    unique = erase-Unique b.branch_id _ (detached-Unique t i b v live leaf);
    refs = pruned_refs;
    covers = pruned-Covers;
    tokens =
        omega (arith, v.tokens, total-pruned t i b v live leaf (λ c. c.num_tokens) (λ c xs. refl));
    fresh = λ j h. ground (arith, lookup-pruned t i b v live leaf j, v.fresh j);
    parents = pruned-parents;
    children = pruned-children;
  }

  same_node : (o : Option Branch) → node_of (pruned t b).pool (stripped i o) ≡ node_of t.pool o
  same_node none = refl
  same_node (some c) = rw (drop.config, drop.cache)

  -- The branch is gone, and every other one has its tokens and its parent as before.
  pub view-pruned : (j : ℕ) → view (pruned t b) j ≡ view_prune (view t) i j
  view-pruned j = ground (arith, lookup-pruned t i b v live leaf j, same_node (lookup j t.branches))
