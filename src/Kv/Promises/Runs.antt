-- ===== src/Kv/Promises/Runs.antt =====
-- Any sequence of calls on one `TreeState`, errors caught by the caller.
use autotree.Base.{
  ℕ, ◌<◌, ◌≡◌, refl, sym, subst, ap, contains, ltb, ◌&&◌, ◌∙◌, ◌==◌, not, tally, List, [], ◌∷◌, inl,
  inr, Option-cases, List-cases,
}
use autotree.Kv.Errors.{Result, ok, err, ok-injective}
use autotree.Kv.Config.{PoolConfig}
use autotree.Kv.Pool.{new_pool, used_pages, available_pages}
use autotree.Kv.Branches.{lookup, references}
use autotree.Kv.Tree.{TreeState, fork, prune, new_tree}
use autotree.Kv.Tree.Start.{start, start-IsValid, new_tree-eq}
use autotree.Kv.Tree.Valid.{IsValid, IsAtomic}
use autotree.Kv.Append.{Argument, append_token, append_tokens}
use autotree.Kv.Promises.Forks.{fork-refines, unknown_branch}
use autotree.Kv.Promises.Prunes.{
  prune-refines, prune_refused, used_pages-eq-held, all_pruned-reclaims,
}
use autotree.Kv.Pool.{Page}
use autotree.Kv.Dedup.{dedup_scan}
use autotree.Kv.Promises.Scans.{dedup_scan-refines}
use autotree.Kv.Promises.Appends.{append_tokens-IsAtomic, append_token-IsAtomic}

pub data Call : Type 0 where
  call_fork call_prune : (branch_id : ℕ) → Call
  call_dedup_scan : Call
  call_append_token call_append_tokens : (branch_id : ℕ) (k v : Argument) → Call

module _ (digest : Page → ℕ) where
  unfoldable pub after : TreeState → Call → TreeState
  after t (call_fork i) = (fork i t).1
  after t (call_prune i) = (prune i t).1
  after t call_dedup_scan = (dedup_scan digest t).1
  after t (call_append_token i k v) = (append_token i k v t).1
  after t (call_append_tokens i k v) = (append_tokens i k v t).1

  unfoldable pub run : TreeState → List Call → TreeState
  unfolding after
  run t [] = t
  run t (c ∷ cs) = run (after t c) cs

fork-IsAtomic : (t : TreeState) (i : ℕ) → IsValid t → IsAtomic t (fork i t)
fork-IsAtomic t i v = elim (Option-cases (lookup i t.branches)) [
  | inl gone ↦ rw ((unknown_branch t i 0 gone).0) refl
  | inr (b, live) ↦ let (t', runs, valid, _) = fork-refines t i b v live in rw runs valid
]

prune-IsAtomic : (t : TreeState) (i : ℕ) → IsValid t → IsAtomic t (prune i t)
prune-IsAtomic t i v = elim (Option-cases (lookup i t.branches)) [
  | inl gone ↦ rw ((unknown_branch t i 0 gone).1) refl
  | inr (b, live) ↦ elim (List-cases b.child_ids) [
    | inl leaf ↦ let (t', runs, valid, _) = prune-refines t i b v live leaf in rw runs valid
    | inr (c, cs, more) ↦ rw (prune_refused t i c cs b live more) refl
  ]
]

IsValid-after :
    {A : Type 0} (t : TreeState) (m : Result A × TreeState)
    → IsValid t
    → IsAtomic t m
    → IsValid (m.1)
IsValid-after t (ok _, t') v a = a
IsValid-after t (err _, t') v a = subst IsValid (sym a) v

module _ (digest : Page → ℕ) where
  scan-IsAtomic : (t : TreeState) → IsValid t → IsAtomic t (dedup_scan digest t)
  scan-IsAtomic t v = let s = dedup_scan-refines digest t v in rw s.runs (s.valid)

  after-IsValid : (t : TreeState) (c : Call) → IsValid t → IsValid (after digest t c)
  unfolding after
  after-IsValid t (call_fork i) v = IsValid-after t (fork i t) v (fork-IsAtomic t i v)
  after-IsValid t (call_prune i) v = IsValid-after t (prune i t) v (prune-IsAtomic t i v)
  after-IsValid t call_dedup_scan v = IsValid-after t (dedup_scan digest t) v (scan-IsAtomic t v)
  after-IsValid t (call_append_token i k w) v =
      IsValid-after t (append_token i k w t) v (append_token-IsAtomic t i k w v)
  after-IsValid t (call_append_tokens i k w) v =
      IsValid-after t (append_tokens i k w t) v (append_tokens-IsAtomic t i k w v)

  -- Whatever calls are made on a valid tree, in whatever order and with whatever arguments, the
  -- tree that they leave is valid.
  pub run-IsValid : (t : TreeState) (cs : List Call) → IsValid t → IsValid (run digest t cs)
  unfolding run
  run-IsValid t [] v = v
  run-IsValid t (c ∷ cs) v = run-IsValid (after digest t c) cs (after-IsValid t c v)

  -- A pool that was just made from a configuration with a positive page size can be bound to a tree,
  -- and every sequence of calls on that tree leaves it valid.
  pub new_tree-run-IsValid :
      (c : PoolConfig) (cs : List Call)
      → 0 < c.page_size
      → (t : TreeState) × (new_tree (new_pool c) ≡ ok t) × IsValid (run digest t cs)
  new_tree-run-IsValid c cs h =
      (start c, new_tree-eq c, run-IsValid (start c) cs (start-IsValid c h))

  new-IsValid :
      (c : PoolConfig) (cs : List Call) (t : TreeState)
      → 0 < c.page_size
      → new_tree (new_pool c) ≡ ok t
      → IsValid (run digest t cs)
  new-IsValid c cs t h new =
      run-IsValid t cs
        (subst IsValid (ok-injective (sym (new_tree-eq c) ∙ new)) (start-IsValid c h))

  -- After any sequence of calls on a tree that was just made, a page of the pool is in the free list
  -- exactly if it stands in no block table of a live branch, and `used_pages` is the number of those
  -- that stand in one.
  pub run-used_pages :
      (c : PoolConfig) (cs : List Call) (t : TreeState)
      → 0 < c.page_size
      → new_tree (new_pool c) ≡ ok t
      → ((r : ℕ)
          → contains r (run digest t cs).pool.free_pages ≡ (
              ltb r (run digest t cs).pool.config.capacity
              && references r (run digest t cs).branches == 0))
        × (used_pages (run digest t cs).pool
            ≡ tally
                (λ r. not (references r (run digest t cs).branches == 0))
                0
                (run digest t cs).pool.config.capacity)
  run-used_pages c cs t h new =
      let v = new-IsValid c cs t h new in
      (
        λ r.
            v.sound.free_iff r
            ∙ ap (λ n. ltb r (run digest t cs).pool.config.capacity && n == 0) (v.refs r),
        used_pages-eq-held (run digest t cs) v,
      )

  -- After any sequence of calls on a tree that was just made that leaves no branch live, every page is
  -- available again and no logical tokens are counted.
  pub run-reclaims :
      (c : PoolConfig) (cs : List Call) (t : TreeState)
      → 0 < c.page_size
      → new_tree (new_pool c) ≡ ok t
      → (run digest t cs).branches ≡ []
      → (available_pages (run digest t cs).pool ≡ (run digest t cs).pool.config.capacity)
        × ((run digest t cs).pool.logical_tokens ≡ 0)
  run-reclaims c cs t h new gone =
      all_pruned-reclaims (run digest t cs) (new-IsValid c cs t h new) gone
