-- ===== src/Kv/Tests.antt =====
-- A small pool, and the states that a few calls on its tree lead to.
mod Examples
use autotree.Base.{
  map, ◌<◌, ℕ, ◌≡◌, refl, ◌<◌, ◌≤◌, Option, none, some, List, [], ◌∷◌, arith, true, false,
  list_equal, push_sorted, contains, sorted,
}
use autotree.Kv.Errors.{ok, err}
use autotree.Kv.Config.{PoolConfig, float32}
use autotree.Kv.Pool.{
  Row, Page, new_pool, alloc_page, set_page_length, grow_logical, shrink_logical, require_capacity,
  page_length, refcount, retain, free, copy_page, available_pages, used_pages,
}
use autotree.Kv.Exec.{for_each}
use autotree.Kv.Branches.{Branch, lookup, references}
use autotree.Kv.Tree.{
  TreeState, validate_coverage, check_lengths, fork, prune, gather, remove_child, get_branch,
  new_tree,
}
use autotree.Kv.Tree.Start.{start, start-IsValid}
use autotree.Kv.Tree.Valid.{IsValid}
use autotree.Kv.Append.{
  row_at, Argument, Tensor, tensor, not_a_tensor, append_tokens, append_token, append_validated,
  validate_tensor_pair, append_rows, tail_is_shared, reserve, copy_if, copy_tail, write_rows,
  write_chunk, target_page, tokens_of_token, tokens_of_tokens, rows_of,
}
use autotree.Kv.Append.Rows.{pages_needed, pages_at_hand}
use autotree.Kv.Append.Commit.{cursor}
use autotree.Kv.Dedup.{
  dedup_scan, sorted_records, insert_record, occurring_pages, add_keys, add_key, full_pages,
  check_refcount, merge_pages, retain_canonical, free_duplicate, discover, discover_page_redirects,
  page_equal,
}
use autotree.Kv.Promises.Runs.{
  Call, call_fork, call_prune, call_append_token, call_append_tokens, run, after, run-IsValid,
}

-- a digest under which all pages collide
abbrev pub digest : Page → ℕ
digest page = 0

abbrev pub small : PoolConfig
small = record {
  num_layers = 1;
  num_kv_heads = 1;
  head_dim = 1;
  capacity = 4;
  page_size = 2;
  dtype = float32;
  device = 0;
}

-- n tokens whose bytes are their number
abbrev pub batch : ℕ → Tensor
batch n = record {
  shape = 1 ∷ (n ∷ (1 ∷ (1 ∷ [])));
  strided = true;
  dtype = float32;
  device = 0;
  entry = λ l i. i ∷ [];
}

abbrev pub tokens : ℕ → Argument
tokens n = tensor (batch n)

abbrev pub three : TreeState
three = run digest (start small) (call_append_tokens 0 (tokens 3) (tokens 3) ∷ [])

abbrev pub root_three : Branch
root_three = record {
  branch_id = 0;
  parent_id = none;
  num_tokens = 3;
  block_table = 0 ∷ (1 ∷ []);
  child_ids = [];
}

abbrev pub single : Tensor
single = record {
  shape = 1 ∷ (1 ∷ (1 ∷ []));
  strided = true;
  dtype = float32;
  device = 0;
  entry = λ l i. 7 ∷ [];
}

abbrev pub one_token : Argument
one_token = tensor single

abbrev pub grow_root : Call
grow_root = call_append_tokens 0 (tokens 3) (tokens 3)

abbrev grow_twice : Call
grow_twice = call_append_tokens 0 (tokens 2) (tokens 2)

abbrev pub six_rest : List Row
six_rest = map (row_at small (batch 6) (batch 6)) (1 ∷ (2 ∷ (3 ∷ (4 ∷ (5 ∷ [])))))

-- the root and a fork of it, which share both pages
abbrev pub two : TreeState
two = run digest (start small) (grow_root ∷ (call_fork 0 ∷ []))

-- four tokens in two pages with the same bytes
abbrev pub copies : TreeState
copies = run digest (start small) (grow_twice ∷ (grow_twice ∷ []))

abbrev pub cleared : TreeState
cleared =
    run digest (start small) (grow_root ∷ (call_fork 0 ∷ (call_prune 1 ∷ (call_prune 0 ∷ []))))

abbrev pub child : Branch
child = record {
  branch_id = 1;
  parent_id = some 0;
  num_tokens = 3;
  block_table = 0 ∷ (1 ∷ []);
  child_ids = [];
}

abbrev pub parent : Branch
parent = record {
  branch_id = 0;
  parent_id = none;
  num_tokens = 3;
  block_table = 0 ∷ (1 ∷ []);
  child_ids = 1 ∷ [];
}

small-IsValid : IsValid (start small)
small-IsValid = start-IsValid small (omega arith)

pub three-IsValid : IsValid three
three-IsValid = run-IsValid digest (start small) _ small-IsValid

pub two-IsValid : IsValid two
two-IsValid = run-IsValid digest (start small) _ small-IsValid

pub copies-IsValid : IsValid copies
copies-IsValid = run-IsValid digest (start small) _ small-IsValid

-- the scan of the copies merges the two pages
copies_merged : (dedup_scan digest copies).0 ≡ ok 1
unfolding run after start new_pool list_equal push_sorted for_each validate_tensor_pair
    append_tokens append_validated append_rows validate_coverage check_lengths tail_is_shared
    reserve copy_if write_rows write_chunk target_page alloc_page set_page_length grow_logical
    require_capacity page_length refcount retain free dedup_scan sorted_records insert_record
    occurring_pages add_keys add_key full_pages check_refcount merge_pages retain_canonical
    free_duplicate discover discover_page_redirects page_equal
copies_merged = refl

cleared-IsValid : IsValid cleared
cleared-IsValid = run-IsValid digest (start small) _ small-IsValid

pub states :
    (lookup 0 three.branches ≡ some root_three)
    × (lookup 7 three.branches ≡ none)
    × (three.pool.config ≡ small)
    × (lookup 0 two.branches ≡ some parent)
    × (lookup 1 two.branches ≡ some child)
    × (two.pool.config ≡ small)
    × (two.pool.free_pages ≡ 2 ∷ (3 ∷ []))
    × (two.pool.refcounts 1 ≡ 2)
    × (cleared.branches ≡ [])
unfolding run after start new_pool list_equal push_sorted for_each validate_tensor_pair
    append_tokens append_validated append_rows validate_coverage check_lengths tail_is_shared
    reserve copy_if copy_tail copy_page write_rows write_chunk target_page alloc_page
    set_page_length grow_logical shrink_logical require_capacity page_length refcount retain free
    fork prune remove_child
states = (refl, refl, refl, refl, refl, refl, refl, refl, refl)

pub append_states :
    (validate_tensor_pair two.pool.config (tokens 2) (tokens 2) ≡ ok (batch 2, batch 2))
    × (tokens_of_tokens two.pool.config (batch 2, batch 2)
        ≡ ok (rows_of small (batch 2) (batch 2) 2))
    × (pages_needed 2 (cursor two child) ≤ pages_at_hand (cursor two child))
    × (validate_tensor_pair two.pool.config one_token one_token ≡ ok (single, single))
    × (tokens_of_token two.pool.config (single, single) ≡ ok (rows_of small single single 1))
    × (pages_needed 1 (cursor two child) ≤ pages_at_hand (cursor two child))
    × (validate_tensor_pair two.pool.config (tokens 6) (tokens 6) ≡ ok (batch 6, batch 6))
    × (tokens_of_tokens two.pool.config (batch 6, batch 6)
        ≡ ok (row_at small (batch 6) (batch 6) 0 ∷ six_rest))
    × (pages_at_hand (cursor two child) < pages_needed 6 (cursor two child))
unfolding run after start new_pool list_equal push_sorted for_each validate_tensor_pair
    append_tokens append_validated append_rows validate_coverage check_lengths tail_is_shared
    reserve copy_if copy_tail copy_page write_rows write_chunk target_page alloc_page
    set_page_length grow_logical shrink_logical require_capacity page_length refcount retain free
    fork prune remove_child
append_states = (refl, refl, omega arith, refl, refl, omega arith, refl, refl, omega arith)
