-- ===== src/Kv/Tree/Prune.antt =====
-- `TreeState.prune` on a live leaf.
use autotree.Base.{
  ℕ, ◌+◌, ◌-◌, ◌≤◌, ◌≡◌, ◌≢◌, refl, ap, sym, ◌∙◌, false, not, ◌&&◌, Option, none, some, List, [],
  ◌∷◌, arith, count, contains, ◌==◌, if◌then◌else◌, le→ltb, inl, inr, Bool-cases, Option-cases,
}
use autotree.Kv.Errors.{ok}
use autotree.Kv.Pool.{Pool, shrink_logical}
use autotree.Kv.Branches.{
  Branch, lookup, put, erase, Unique, total, lookup-put, lookup-erase_ne, lookup-erase_self,
  branch_id-lookup, put-Unique, total-erase, total-put_old, le-total,
}
use autotree.Kv.Tree.{TreeState, prune, remove_child, without, detach, has_items}
use autotree.Kv.Tree.Valid.{IsValid, IsParent, IsChild, count-le-refcount}
use autotree.Kv.Tree.Loops.{
  validate_coverage-eq, for_each-free, release_all, Released, release_all-Released,
}

pub contains-without :
    (k i : ℕ) (xs : List ℕ) → contains k (without i xs) ≡ (contains k xs && not (k == i))
contains-without k i [] = refl
contains-without k i (x ∷ xs) = ground (arith, contains-without k i xs)

without_absent : (i : ℕ) (xs : List ℕ) → contains i xs ≡ false → without i xs ≡ xs
without_absent i [] h = refl
without_absent i (x ∷ xs) h = ground (arith, without_absent i xs)

abbrev pub strip : ℕ → Branch → Branch
strip i c = record c { child_ids = without i c.child_ids }

abbrev pub stripped : ℕ → Option Branch → Option Branch
stripped i none = none
stripped i (some c) = some (strip i c)

abbrev put_stripped : ℕ → Option Branch → List Branch → List Branch
put_stripped i none bs = bs
put_stripped i (some p) bs = put (strip i p) bs

abbrev detached : ℕ → Option ℕ → List Branch → List Branch
detached i none bs = bs
detached i (some j) bs = put_stripped i (lookup j bs) bs

abbrev pub pruned : TreeState → Branch → TreeState
pruned t b = record {
  pool = record (release_all b.block_table t.pool) {
    logical_tokens = t.pool.logical_tokens - b.num_tokens;
  };
  branches = erase b.branch_id (detached b.branch_id b.parent_id t.branches);
  next_branch_id = t.next_branch_id;
}

module _ (t : TreeState) (i : ℕ) (b : Branch) (v : IsValid t) (live : lookup i t.branches ≡ some b)
    (leaf : b.child_ids ≡ []) where
  pub enough : (r : ℕ) → count r b.block_table ≤ t.pool.refcounts r
  enough r = count-le-refcount t i b r v live

  pub freed : Released b.block_table t.pool (release_all b.block_table t.pool)
  freed = release_all-Released b.block_table t.pool v.sound enough

  pub same_id : b.branch_id ≡ i
  same_id = branch_id-lookup i t.branches b live

  counted : b.num_tokens ≤ t.pool.logical_tokens
  counted = omega (arith, v.tokens, le-total (λ c. c.num_tokens) i b t.branches live)

  IsParent-of : (j : ℕ) → b.parent_id ≡ some j → IsParent t.branches i j
  IsParent-of j e = v.parents i j b live e

  -- a branch that is not the parent does not list the leaf
  unlisted :
      (j : ℕ) (c : Branch) → lookup j t.branches ≡ some c → b.parent_id ≢ some j → strip i c ≡ c
  unlisted j c h other = elim (Bool-cases (contains i c.child_ids)) [
    | inl listed ↦
        let d : IsChild t.branches j i = v.children j i c h listed in
        absurd (other (cc (d.live, live, d.names)))
    | inr absent ↦
        ap (λ (xs : List ℕ). record c { child_ids = xs }) (without_absent i c.child_ids absent)
  ]

  stripped_unlisted :
      (j : ℕ) → b.parent_id ≢ some j → lookup j t.branches ≡ stripped i (lookup j t.branches)
  stripped_unlisted j other = elim (Option-cases (lookup j t.branches)) [
    | inl gone ↦ rw gone
    | inr (c, h) ↦ rw h (ap some (sym (unlisted j c h other)))
  ]

  -- only the parent lists the leaf, so removing it there removes it everywhere
  lookup-detached :
      (j : ℕ)
      → lookup j (detached b.branch_id b.parent_id t.branches) ≡ stripped i (lookup j t.branches)
  lookup-detached j = elim (Option-cases b.parent_id) [
    | inl none_ ↦ rw none_ (stripped_unlisted j (λ e. cc (e, none_)))
    | inr (k, e) ↦
        let p : IsParent t.branches i k = IsParent-of k e in
        let at : p.entry.branch_id ≡ k = branch_id-lookup k t.branches p.entry p.live in
        elim (Bool-cases (k == j)) [
          | inl here ↦
              rw (e, p.live)
                (ground
                  (arith, same_id, at, p.live, lookup-put j (strip b.branch_id p.entry) t.branches))
          | inr there ↦
              let other : lookup j t.branches ≡ stripped i (lookup j t.branches) =
                stripped_unlisted j (λ f. ground arith) in
              rw (e, p.live)
                (lookup-put j (strip b.branch_id p.entry) t.branches ∙ rw (at, there) other)
        ]
  ]

  total-detached :
      (f : Branch → ℕ)
      → ((c : Branch) (xs : List ℕ) → f (record c { child_ids = xs }) ≡ f c)
      → total f (detached b.branch_id b.parent_id t.branches) ≡ total f t.branches
  total-detached f same = elim (Option-cases b.parent_id) [
    | inl none_ ↦ rw none_
    | inr (k, e) ↦
        let p : IsParent t.branches i k = IsParent-of k e in
        let at : p.entry.branch_id ≡ k = branch_id-lookup k t.branches p.entry p.live in
        rw (e, p.live)
          (omega (
            arith,
            same p.entry (without b.branch_id p.entry.child_ids),
            total-put_old f (strip b.branch_id p.entry) p.entry t.branches
                (ap (λ (n : ℕ). lookup n t.branches) at ∙ p.live),
          ))
  ]

  pub detached-Unique : Unique (detached b.branch_id b.parent_id t.branches)
  detached-Unique = elim (Option-cases b.parent_id) [
    | inl none_ ↦ rw none_ v.unique
    | inr (k, e) ↦
        let p : IsParent t.branches i k = IsParent-of k e in
        rw (e, p.live) (put-Unique (strip b.branch_id p.entry) t.branches v.unique)
  ]

  detach-eq :
      (q : Pool)
      → detach b.branch_id b.parent_id (record t { pool = q })
        ≡ (ok tt, record t { pool = q; branches = detached b.branch_id b.parent_id t.branches })
  unfolding remove_child
  detach-eq q = elim (Option-cases b.parent_id) [
    | inl none_ ↦ rw none_
    | inr (j, e) ↦
        let p : IsParent t.branches i j = IsParent-of j e in
        rw (e, p.live) (rw same_id (rw p.listed))
  ]

  no_items : has_items b.child_ids ≡ false
  no_items = ground arith

  pub prune-eq : prune i t ≡ (ok tt, pruned t b)
  unfolding prune shrink_logical
  prune-eq = rw live (
      rw no_items (
        rw
          (validate_coverage-eq t.pool b v.sound (λ r h. omega (arith, enough r))
            (v.covers i b live))
          (rw (for_each-free b.block_table t.pool v.sound enough) (
            rw (freed.logical, le→ltb t.pool.logical_tokens b.num_tokens counted)
              (rw (detach-eq (pruned t b).pool))))))

  pub lookup-pruned :
      (j : ℕ)
      → lookup j (pruned t b).branches ≡ (if i == j then none else stripped i (lookup j t.branches))
  lookup-pruned j = elim (Bool-cases (i == j)) [
    | inl here ↦
        let at : j ≡ b.branch_id = ground (arith, same_id) in
        rw here (
          rw at (
            lookup-erase_self b.branch_id (detached b.branch_id b.parent_id t.branches)
              detached-Unique))
    | inr there ↦ rw there (
        lookup-erase_ne j b.branch_id (detached b.branch_id b.parent_id t.branches)
          (λ e. ground (arith, same_id))
        ∙ lookup-detached j)
  ]

  pub total-pruned :
      (f : Branch → ℕ)
      → ((c : Branch) (xs : List ℕ) → f (record c { child_ids = xs }) ≡ f c)
      → total f (pruned t b).branches + f b ≡ total f t.branches
  total-pruned f same =
      let mine : lookup b.branch_id (detached b.branch_id b.parent_id t.branches)
          ≡ some (strip i b) =
        ap (λ (n : ℕ). lookup n (detached b.branch_id b.parent_id t.branches)) same_id
        ∙ lookup-detached i
        ∙ ap (stripped i) live in
      omega (
        arith,
        same b (without i b.child_ids),
        total-erase f b.branch_id (strip i b) (detached b.branch_id b.parent_id t.branches) mine,
        total-detached f same,
      )

  -- a branch left by the prune is an old one, and other than the leaf
  pub pruned-cases :
      (j : ℕ) (c : Branch)
      → lookup j (pruned t b).branches ≡ some c
      → (d : Branch) × (lookup j t.branches ≡ some d) × (c ≡ strip i d) × (j ≢ i)
  pruned-cases j c h = elim (Option-cases (lookup j t.branches)) [
    | inl gone ↦ ground (arith, lookup-pruned j)
    | inr (d, e) ↦ (d, e, ground (arith, lookup-pruned j), ground (arith, lookup-pruned j))
  ]
