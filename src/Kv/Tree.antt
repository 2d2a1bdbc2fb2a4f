-- ===== src/Kv/Tree.antt =====
-- kv/tree_state.py. `TreeState` holds its pool; a branch record is found by its id, in the order
-- of the `dict`, and a method that mutates a record writes it back under its id.
pub mod Start
pub mod Loops
pub mod Valid
pub mod View
pub mod Fork
pub mod Prune
pub mod Pruned
use autotree.Base.{
  ℕ, zero, suc, ◌+◌, ◌-◌, ◌*◌, ◌%◌, min, Bool, true, false, not, ◌&&◌, ◌||◌, Option, none, some,
  List, [], ◌∷◌, ◌++◌, ltb, leb, ◌==◌, if◌then◌else◌, length, take, drop, splice, contains, sorted,
  ceil_div,
}
use autotree.Kv.Errors.{
  Error, branch_has_children, key_error, index_error, value_error, type_error, out_of_fuel,
  invariant_error, table_not_covering, page_length_mismatch, negative_page_count, Result, ok, err,
}
use autotree.Kv.Exec.{Exec, pure, raise, raise_if, gets, modify, for_each, resume, ◌>>=◌, ◌>>◌}
use autotree.Kv.Config.{PoolConfig, Dtype}
use autotree.Kv.Pool.{
  Pool, Row, LayerKv, update, alloc_page, free, refcount, retain, grow_logical, shrink_logical,
  bind_tree_state, require_capacity, copy_page, page_length, set_page_length,
}
use autotree.Kv.Branches.{Branch, Snapshot}
use autotree.Kv.Branches
use autotree.Kv.Gather.{LayerTokens, gather_branch_kv}

pub record TreeState : Type 0 where
  pub pool : Pool
  pub branches : List Branch
  pub next_branch_id : ℕ

abbrev pub root_id : ℕ
root_id = 0

abbrev pub root_branch : Branch
root_branch = record {
  branch_id = root_id;
  parent_id = none;
  num_tokens = 0;
  block_table = [];
  child_ids = [];
}

abbrev attach : Result (Unit {0}) × Pool → Result TreeState
attach (ok _, p) =
    ok (record { pool = p; branches = root_branch ∷ []; next_branch_id = root_id + 1 })
attach (err e, p) = err e

-- `TreeState.__init__`
pub new_tree : Pool → Result TreeState
new_tree p = attach (bind_tree_state p)

abbrev pub on_pool : {A : Type 0} → Exec Pool A → Exec TreeState A
on_pool m t = let (r, p) = m t.pool in (r, record t { pool = p })

abbrev found : ℕ → Option Branch → Result Branch
found i none = err (key_error i)
found i (some b) = ok b

abbrev pub get_record : ℕ → Exec TreeState Branch
get_record i t = (found i (Branches.lookup i t.branches), t)

abbrev pub snapshot : Branch → Snapshot
snapshot b = record {
  branch_id = b.branch_id;
  parent_id = b.parent_id;
  num_tokens = b.num_tokens;
  block_table = b.block_table;
}

unfoldable pub get_branch : ℕ → Exec TreeState Snapshot
get_branch i = do b ← get_record i; pure (snapshot b)

-- the loop of `_validate_branch_coverage`
unfoldable pub check_lengths : ℕ → ℕ → List ℕ → Exec Pool (Unit {0})
check_lengths n index [] = gets (λ _. tt)
check_lengths n index (pid ∷ rest) = do
  size ← gets (λ p. p.config.page_size)
  valid ← page_length pid
  raise_if (not (valid == min size (n - index * size))) (invariant_error page_length_mismatch)
  check_lengths n (suc index) rest

unfoldable pub validate_coverage : Branch → Exec Pool (Unit {0})
validate_coverage b = do
  size ← gets (λ p. p.config.page_size)
  raise_if (not (length b.block_table == ceil_div b.num_tokens size))
      (invariant_error table_not_covering)
  check_lengths b.num_tokens 0 b.block_table

-- `child_ids.add` and `child_ids.remove`
abbrev add_child : ℕ → Branch → Branch
add_child i b = if contains i b.child_ids then b else record b { child_ids = b.child_ids ++ i ∷ [] }

abbrev pub without : ℕ → List ℕ → List ℕ
without i [] = []
without i (x ∷ xs) = let rest = without i xs in if x == i then rest else x ∷ rest

abbrev pub save : Branch → TreeState → TreeState
save b t = record t { branches = Branches.put b t.branches }

unfoldable pub fork : ℕ → Exec TreeState ℕ
fork i = do
  source ← get_record i
  on_pool (validate_coverage source)
  child ← gets (λ t. t.next_branch_id)
  on_pool (for_each source.block_table retain)
  on_pool (grow_logical source.num_tokens)
  modify (
      save (record {
        branch_id = child;
        parent_id = some source.branch_id;
        num_tokens = source.num_tokens;
        block_table = source.block_table;
        child_ids = [];
      }))
  modify (save (add_child child source))
  modify (λ t. record t { next_branch_id = t.next_branch_id + 1 })
  pure child

unfoldable pub remove_child : ℕ → ℕ → Exec TreeState (Unit {0})
remove_child i parent = do
  b ← get_record parent
  raise_if (not (contains i b.child_ids)) (key_error i)
  modify (save (record b { child_ids = without i b.child_ids }))

abbrev detach : ℕ → Option ℕ → Exec TreeState (Unit {0})
detach i none t = (ok tt, t)
detach i (some parent) t = remove_child i parent t

abbrev pub has_items : List ℕ → Bool
has_items [] = false
has_items (x ∷ xs) = true

unfoldable pub prune : ℕ → Exec TreeState (Unit {0})
unfolding remove_child
prune i = do
  b ← get_record i
  raise_if (has_items b.child_ids) (branch_has_children b.branch_id (sorted b.child_ids))
  on_pool (validate_coverage b)
  on_pool (for_each b.block_table free)
  on_pool (shrink_logical b.num_tokens)
  detach b.branch_id b.parent_id
  modify (λ t. record t { branches = Branches.erase b.branch_id t.branches })

unfoldable pub gather : ℕ → ℕ → Exec TreeState LayerTokens
gather i layer = do b ← get_record i; on_pool (gather_branch_kv b.block_table b.num_tokens layer)
