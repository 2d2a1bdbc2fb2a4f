-- ===== src/Kv/Promises/Forks.antt =====
-- `TreeState.fork`, `gather` and `get_branch` against the view.
use autotree.Base.{ℕ, ◌<◌, ◌≡◌, none, some, count, arith, List}
use autotree.Kv.Errors.{ok, err, key_error}
use autotree.Kv.Pool.{Row}
use autotree.Kv.Branches.{Branch, lookup}
use autotree.Kv.Gather.{layer_tokens}
use autotree.Kv.Gather.Reads.{gather_branch_kv-eq}
use autotree.Kv.Tree.{TreeState, fork, gather, prune, get_branch}
use autotree.Kv.Tree.Valid.{IsValid, count-le-refcount}
use autotree.Kv.Tree.View.{view, view_fork, branch_rows}
use autotree.Kv.Tree.Fork.{fork-eq, forked, forked-IsValid, view-forked}

-- On a valid tree, forking a live branch succeeds with the next unused id; the tree stays valid,
-- and its view gains exactly that branch, a child with the source's tokens.
pub fork-refines :
    (t : TreeState) (i : ℕ) (b : Branch)
    → IsValid t
    → lookup i t.branches ≡ some b
    → (t' : TreeState) × (fork i t ≡ (ok t.next_branch_id, t'))
      × IsValid t'
      × ((j : ℕ) → view t' j ≡ view_fork (view t) i t.next_branch_id j)
fork-refines t i b v live =
    (forked t b, fork-eq t i b v live, forked-IsValid t i b v live, view-forked t i b v live)

-- On a valid tree, `gather` of a live branch at a layer of the pool returns that layer of the
-- branch's tokens in the view, and changes nothing.
pub gather-reads_view :
    (t : TreeState) (i layer : ℕ) (b : Branch)
    → IsValid t
    → lookup i t.branches ≡ some b
    → layer < t.pool.config.num_layers
    → (rows : List Row) × (view t i ≡ some (record { parent = b.parent_id; rows = rows }))
      × (gather i layer t ≡ (ok (layer_tokens layer rows), t))
unfolding gather
gather-reads_view t i layer b v live known =
    let used : (r : ℕ) → 0 < count r b.block_table → 0 < t.pool.refcounts r =
      λ r h. omega (arith, count-le-refcount t i b r v live) in
    (
      branch_rows t.pool b,
      rw live,
      rw live (
          rw (
            gather_branch_kv-eq t.pool b.block_table b.num_tokens layer v.sound used
              (v.covers i b live) known)),
    )

-- On an id that no live branch has, `fork`, `prune`, `gather` and `get_branch` raise `KeyError`
-- and change nothing.
pub unknown_branch :
    (t : TreeState) (i layer : ℕ)
    → lookup i t.branches ≡ none
    → (fork i t ≡ (err (key_error i), t))
      × (prune i t ≡ (err (key_error i), t))
      × (gather i layer t ≡ (err (key_error i), t))
      × (get_branch i t ≡ (err (key_error i), t))
unfolding fork prune gather get_branch
unknown_branch t i layer gone = (rw gone, rw gone, rw gone, rw gone)
