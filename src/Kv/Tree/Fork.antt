-- ===== src/Kv/Tree/Fork.antt =====
-- `TreeState.fork` on a live branch.
use autotree.Base.{
  ℕ, ◌+◌, ◌<◌, ◌≡◌, refl, true, false, ◌||◌, none, some, [], ◌∷◌, ◌++◌, arith, count, contains,
  ◌==◌, if◌then◌else◌, ◌⊎◌, inl, inr, contains-append, Bool-cases,
}
use autotree.Kv.Errors.{ok}
use autotree.Kv.Pool.{grow_logical}
use autotree.Kv.Pool.Sound.{logical-IsSound}
use autotree.Kv.Branches.{
  Branch, lookup, put, total, lookup-put, branch_id-lookup, put-Unique, total-put_new,
  total-put_old,
}
use autotree.Kv.Cover.{Covers}
use autotree.Kv.Tree.{TreeState, fork}
use autotree.Kv.Tree.Valid.{IsValid, IsParent, IsChild, count-le-refcount}
use autotree.Kv.Tree.Loops.{validate_coverage-eq, for_each-retain, retain_all, retain_all-IsSound}
use autotree.Kv.Tree.View.{view, view_fork}

abbrev new_child : TreeState → Branch → Branch
new_child t b = record {
  branch_id = t.next_branch_id;
  parent_id = some b.branch_id;
  num_tokens = b.num_tokens;
  block_table = b.block_table;
  child_ids = [];
}

abbrev with_child : TreeState → Branch → Branch
with_child t b = record b { child_ids = b.child_ids ++ t.next_branch_id ∷ [] }

abbrev pub forked : TreeState → Branch → TreeState
forked t b = record {
  pool = record (retain_all b.block_table t.pool) {
    logical_tokens = t.pool.logical_tokens + b.num_tokens;
  };
  branches = put (with_child t b) (put (new_child t b) t.branches);
  next_branch_id = t.next_branch_id + 1;
}

module _ (t : TreeState) (i : ℕ) (b : Branch) (v : IsValid t)
    (live : lookup i t.branches ≡ some b) where
  in_use : (r : ℕ) → 0 < count r b.block_table → 0 < t.pool.refcounts r
  in_use r h = omega (arith, count-le-refcount t i b r v live)

  same_id : b.branch_id ≡ i
  same_id = branch_id-lookup i t.branches b live

  next_free : lookup t.next_branch_id t.branches ≡ none
  next_free = v.fresh t.next_branch_id (omega arith)

  below_next : i < t.next_branch_id
  below_next = ground (arith, v.fresh i)

  new_to_set : contains t.next_branch_id b.child_ids ≡ false
  new_to_set = elim (Bool-cases (contains t.next_branch_id b.child_ids)) [
    | inl listed ↦
        let c : IsChild t.branches i t.next_branch_id =
          v.children i t.next_branch_id b live listed in
        cc (c.live, next_free)
    | inr new ↦ new
  ]

  pub fork-eq : fork i t ≡ (ok t.next_branch_id, forked t b)
  unfolding fork grow_logical
  fork-eq = rw live (
      rw (validate_coverage-eq t.pool b v.sound in_use (v.covers i b live))
        (rw (for_each-retain b.block_table t.pool v.sound in_use) (rw new_to_set)))

  lookup-forked :
      (j : ℕ)
      → lookup j (forked t b).branches ≡ (
          if i == j
          then some (with_child t b)
          else if t.next_branch_id == j
          then some (new_child t b)
          else lookup j t.branches)
  lookup-forked j = ground (
    arith,
    same_id,
    lookup-put j (with_child t b) (put (new_child t b) t.branches),
    lookup-put j (new_child t b) t.branches,
  )

  put_live : lookup b.branch_id (put (new_child t b) t.branches) ≡ some b
  put_live = ground (arith, same_id, below_next, lookup-put b.branch_id (new_child t b) t.branches)

  total-forked :
      (f : Branch → ℕ)
      → f (with_child t b) ≡ f b
      → total f (forked t b).branches ≡ total f t.branches + f (new_child t b)
  total-forked f same = omega (
    arith,
    same,
    total-put_old f (with_child t b) b (put (new_child t b) t.branches) put_live,
    total-put_new f (new_child t b) t.branches next_free,
  )

  -- a branch after the fork is the source with one more child, the child, or an old branch
  forked-cases :
      (j : ℕ) (c : Branch)
      → lookup j (forked t b).branches ≡ some c
      → ((j ≡ i) × (c ≡ with_child t b))
        ⊎ (((j ≡ t.next_branch_id) × (c ≡ new_child t b)) ⊎ (lookup j t.branches ≡ some c))
  forked-cases j c h = ground (arith, lookup-forked j)

  forked-Covers :
      (j : ℕ) (c : Branch)
      → lookup j (forked t b).branches ≡ some c
      → Covers t.pool.config.page_size t.pool.valid_lengths c.block_table c.num_tokens
  forked-Covers j c h = elim (forked-cases j c h) [
    | inl (_, e) ↦ rw e (v.covers i b live)
    | inr (inl (_, e)) ↦ rw e (v.covers i b live)
    | inr (inr old) ↦ v.covers j c old
  ]

  source_entry : lookup i (forked t b).branches ≡ some (with_child t b)
  source_entry = ground (arith, lookup-forked i)

  child_entry : lookup t.next_branch_id (forked t b).branches ≡ some (new_child t b)
  child_entry = ground (arith, lookup-forked t.next_branch_id, below_next)

  child_listed :
      (k : ℕ)
      → contains k (with_child t b).child_ids ≡ (contains k b.child_ids || t.next_branch_id == k)
  child_listed k = ground (arith, contains-append k b.child_ids (t.next_branch_id ∷ []))

  IsParent-kept : (j k : ℕ) → IsParent t.branches j k → IsParent (forked t b).branches j k
  IsParent-kept j k p = elim (Bool-cases (i == k)) [
    | inl source ↦ record {
      older = p.older;
      entry = with_child t b;
      live = ground (arith, source_entry);
      listed = ground (arith, child_listed j, p.live, p.listed, live);
    }
    | inr other ↦ record {
      older = p.older;
      entry = p.entry;
      live = ground (arith, lookup-forked k, p.live, next_free);
      listed = p.listed;
    }
  ]

  forked-parents :
      (j k : ℕ) (c : Branch)
      → lookup j (forked t b).branches ≡ some c
      → c.parent_id ≡ some k
      → IsParent (forked t b).branches j k
  forked-parents j k c h p = elim (forked-cases j c h) [
    | inl (at, e) ↦ IsParent-kept j k (v.parents j k b (ground (arith, live)) (ground arith))
    | inr (inl (at, e)) ↦
        let source : k ≡ i = ground (arith, same_id) in
        record {
          older = ground (arith, below_next);
          entry = with_child t b;
          live = ground (arith, source_entry);
          listed = ground (arith, child_listed j);
        }
    | inr (inr old) ↦ IsParent-kept j k (v.parents j k c old p)
  ]

  IsChild-kept : (j k : ℕ) → IsChild t.branches j k → IsChild (forked t b).branches j k
  IsChild-kept j k c = elim (Bool-cases (i == k)) [
    | inl source ↦ record {
      entry = with_child t b;
      live = ground (arith, source_entry);
      names = ground (arith, c.live, c.names, live);
    }
    | inr other ↦ record {
      entry = c.entry;
      live = ground (arith, lookup-forked k, c.live, next_free);
      names = c.names;
    }
  ]

  forked-children :
      (j k : ℕ) (c : Branch)
      → lookup j (forked t b).branches ≡ some c
      → contains k c.child_ids ≡ true
      → IsChild (forked t b).branches j k
  forked-children j k c h p = elim (forked-cases j c h) [
    | inl (at, e) ↦ elim (Bool-cases (contains k b.child_ids)) [
      | inl old ↦ IsChild-kept j k (v.children j k b (ground (arith, live)) old)
      | inr new ↦ record {
        entry = new_child t b;
        live = ground (arith, child_listed k, child_entry);
        names = ground (arith, same_id);
      }
    ]
    | inr (inl (at, e)) ↦ ground arith
    | inr (inr old) ↦ IsChild-kept j k (v.children j k c old p)
  ]

  pub forked-IsValid : IsValid (forked t b)
  forked-IsValid = record {
    sound = logical-IsSound _ _ (retain_all-IsSound b.block_table t.pool v.sound in_use);
    unique = put-Unique (with_child t b) _ (put-Unique (new_child t b) t.branches v.unique);
    refs = λ r. omega (arith, v.refs r, total-forked (λ c. count r c.block_table) refl);
    covers = forked-Covers;
    tokens = omega (arith, v.tokens, total-forked (λ c. c.num_tokens) refl);
    fresh = λ j h. ground (arith, lookup-forked j, below_next, v.fresh j);
    parents = forked-parents;
    children = forked-children;
  }

  -- The new branch starts with the tokens of its source, which is its parent; no other branch moves.
  pub view-forked : (j : ℕ) → view (forked t b) j ≡ view_fork (view t) i t.next_branch_id j
  view-forked j = ground (arith, lookup-forked j, same_id, below_next)
