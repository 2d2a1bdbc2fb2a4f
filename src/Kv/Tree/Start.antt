-- ===== src/Kv/Tree/Start.antt =====
-- `PagedKVPool.__init__` and `TreeState.__init__`: the tree that a configuration starts with.
use autotree.Base.{◌<◌, ◌≡◌, refl, true, [], ◌∷◌, arith}
use autotree.Kv.Errors.{ok}
use autotree.Kv.Config.{PoolConfig}
use autotree.Kv.Pool.{new_pool}
use autotree.Kv.Pool.Bound.{bind_tree_state-new}
use autotree.Kv.Pool.Alloc.{new_pool-IsSound}
use autotree.Kv.Tree.{TreeState, new_tree, root_branch}
use autotree.Kv.Tree.Valid.{IsValid}

unfoldable pub start : PoolConfig → TreeState
unfolding new_pool
start c = record {
  pool = record (new_pool c) { bound = true };
  branches = root_branch ∷ [];
  next_branch_id = 1;
}

pub new_tree-eq : (c : PoolConfig) → new_tree (new_pool c) ≡ ok (start c)
unfolding new_tree start
new_tree-eq c = rw (bind_tree_state-new c) refl

pub start-IsValid : (c : PoolConfig) → 0 < c.page_size → IsValid (start c)
unfolding start new_pool
start-IsValid c h = record {
  sound =
      let s = new_pool-IsSound c h in
      record {
        slots = s.slots;
        sorted = s.sorted;
        free_iff = s.free_iff;
        in_range = s.in_range;
        idle = s.idle;
        fits = s.fits;
        width = s.width;
      };
  unique = (refl, tt);
  refs = λ r. refl;
  covers = λ i b l. ground (arith, l);
  tokens = refl;
  fresh = λ i k. ground (arith, k);
  parents = λ i j b l n. ground (arith, l, n);
  children = λ i j b l n. ground (arith, l, n);
}
