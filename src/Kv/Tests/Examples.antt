-- ===== src/Kv/Tests/Examples.antt =====
-- The theorems on kv/tree_state.py at the states of a small pool.
use autotree.Base.{
  contains, ltb, ◌&&◌, ◌-◌, length, ℕ, ◌≡◌, ◌<◌, ◌↔◌, pos, refl, none, some, List, [], ◌∷◌, arith,
  tally, not, ◌==◌,
}
use autotree.Kv.Append.Rows.{pages_needed}
use autotree.Kv.Append.Commit.{cursor}
use autotree.Kv.Errors.{Error, value_error, capacity_error, ok, err}
use autotree.Kv.Pool.{Row, new_pool, used_pages, available_pages}
use autotree.Kv.Branches.{references}
use autotree.Kv.Gather.{layer_tokens}
use autotree.Kv.Tree.{TreeState, fork, prune, gather, new_tree}
use autotree.Kv.Tree.Valid.{IsValid, IsAtomic}
use autotree.Kv.Tree.View.{view, view_fork, view_prune}
use autotree.Kv.Append.{row_at, append_token, append_tokens, rows_of, not_a_tensor}
use autotree.Kv.Append.Outcome.{Grown}
use autotree.Kv.Promises.Forks.{fork-refines, gather-reads_view}
use autotree.Kv.Promises.Prunes.{prune-refines, prune_iff, IsLeaf}
use autotree.Kv.Promises.Appends.{
  append_tokens-out_of_pages, append_tokens-refines, append_token-refines, append_tokens-IsAtomic,
  append_token-IsAtomic,
}
use autotree.Kv.Dedup.{dedup_scan}
use autotree.Kv.Dedup.Outcome.{Scanned}
use autotree.Kv.Promises.Scans.{dedup_scan-refines, dedup_scan-settles}
use autotree.Kv.Config.{RawConfig, PoolConfig, integer, float32, post_init}
use autotree.Kv.Promises.Configs.{Configures, post_init_lem}
use autotree.Kv.Promises.Runs.{
  run, new_tree-run-IsValid, run-used_pages, run-reclaims, call_fork, call_prune,
}
use autotree.Kv.Tree.Start.{start, new_tree-eq}
use autotree.Kv.Tests.{
  six_rest, copies, copies-IsValid, digest, small, tokens, one_token, grow_root, three, root_three,
  two, child, cleared, three-IsValid, two-IsValid, states, append_states, batch, single,
}

fork-refines_example :
    (t' : TreeState) × (fork 0 three ≡ (ok three.next_branch_id, t'))
    × IsValid t'
    × ((j : ℕ) → view t' j ≡ view_fork (view three) 0 three.next_branch_id j)
fork-refines_example = fork-refines three 0 root_three three-IsValid states.0

layer_known : 0 < three.pool.config.num_layers
layer_known = rw (states.2) (omega arith)

gather-reads_view_example :
    (rows : List Row) × (view three 0 ≡ some (record { parent = none; rows = rows }))
    × (gather 0 0 three ≡ (ok (layer_tokens 0 rows), three))
gather-reads_view_example =
    gather-reads_view three 0 0 root_three three-IsValid states.0 layer_known

prune-refines_example :
    (t' : TreeState) × (prune 1 two ≡ (ok tt, t'))
    × IsValid t'
    × ((j : ℕ) → view t' j ≡ view_prune (view two) 1 j)
prune-refines_example = prune-refines two 1 child two-IsValid states.4 refl

prune_iff_example : ((prune 0 two).0 ≡ ok tt) ↔ IsLeaf (view two) 0
prune_iff_example = prune_iff two 0 two-IsValid

run-used_pages_example :
    ((r : ℕ)
      → contains r two.pool.free_pages
        ≡ (ltb r two.pool.config.capacity && references r two.branches == 0))
    × (used_pages two.pool
        ≡ tally (λ r. not (references r two.branches == 0)) 0 two.pool.config.capacity)
run-used_pages_example =
    run-used_pages digest small (grow_root ∷ (call_fork 0 ∷ [])) (start small) (omega arith)
      (new_tree-eq small)

run-reclaims_example :
    (available_pages cleared.pool ≡ cleared.pool.config.capacity)
    × (cleared.pool.logical_tokens ≡ 0)
run-reclaims_example =
    run-reclaims digest small (grow_root ∷ (call_fork 0 ∷ (call_prune 1 ∷ (call_prune 0 ∷ []))))
      (start small) (omega arith) (new_tree-eq small) states.8

append_tokens-refines_example :
    Grown two 1 (rows_of small (batch 2) (batch 2) 2) (append_tokens 1 (tokens 2) (tokens 2) two)
append_tokens-refines_example =
    append_tokens-refines two 1 child (tokens 2) (tokens 2) (batch 2, batch 2)
      (rows_of small (batch 2) (batch 2) 2) two-IsValid states.4 append_states.0 append_states.1
      append_states.2

append_token-refines_example :
    Grown two 1 (rows_of small single single 1) (append_token 1 one_token one_token two)
append_token-refines_example =
    append_token-refines two 1 child one_token one_token (single, single)
      (rows_of small single single 1) two-IsValid states.4 append_states.3 append_states.4
      append_states.5

append_tokens-IsAtomic_example : IsAtomic two (append_tokens 0 (tokens 12) (tokens 12) two)
append_tokens-IsAtomic_example = append_tokens-IsAtomic two 0 (tokens 12) (tokens 12) two-IsValid

append_token-IsAtomic_example : IsAtomic two (append_token 1 one_token not_a_tensor two)
append_token-IsAtomic_example = append_token-IsAtomic two 1 one_token not_a_tensor two-IsValid

new_tree-run-IsValid_example :
    (t : TreeState) × (new_tree (new_pool small) ≡ ok t)
    × IsValid (run digest t (grow_root ∷ (call_fork 0 ∷ [])))
new_tree-run-IsValid_example =
    new_tree-run-IsValid digest small (grow_root ∷ (call_fork 0 ∷ [])) (omega arith)

dedup_scan-refines_example : Scanned copies (dedup_scan digest copies)
dedup_scan-refines_example = dedup_scan-refines digest copies copies-IsValid

dedup_scan-settles_example :
    dedup_scan digest (dedup_scan digest copies).1 ≡ (ok 0, (dedup_scan digest copies).1)
dedup_scan-settles_example = dedup_scan-settles digest copies copies-IsValid

abbrev no_layers : RawConfig
no_layers = record {
  num_layers = integer (pos 0);
  num_kv_heads = integer (pos 1);
  head_dim = integer (pos 1);
  capacity = integer (pos 4);
  page_size = integer (pos 2);
  dtype = float32;
  device = some 0;
}

post_init_example :
    ((c : PoolConfig) → (post_init no_layers ≡ ok c) ↔ Configures no_layers c)
    × ((e : Error) → post_init no_layers ≡ err e → e ≡ value_error)
post_init_example = post_init_lem no_layers

append_tokens-out_of_pages_example : append_tokens 1 (tokens 6) (tokens 6) two ≡ (
  err (
      capacity_error
        (pages_needed 6 (cursor two child) - length child.block_table)
        (length two.pool.free_pages)),
  two,
)
append_tokens-out_of_pages_example =
    append_tokens-out_of_pages two 1 child (tokens 6) (tokens 6) (batch 6, batch 6)
      (row_at small (batch 6) (batch 6) 0) six_rest two-IsValid states.4 append_states.6
      append_states.7 append_states.8
