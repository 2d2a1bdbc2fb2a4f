-- ===== src/Kv/Pool/Bound.antt =====
-- `_bind_tree_state` on a pool that was just made.
use autotree.Base.{ℕ, zero, suc, ◌-◌, ◌≡◌, refl, ap, true, false, arith, length, ◌==◌}
use autotree.Kv.Errors.{ok}
use autotree.Kv.Config.{PoolConfig}
use autotree.Kv.Pool.{new_pool, range_from, bind_tree_state, any_below}

length-range_from : (lo n : ℕ) → length (range_from lo n) ≡ n
length-range_from lo zero = refl
length-range_from lo (suc n) = ap suc (length-range_from (suc lo) n)

any_below-zero : (n : ℕ) → any_below n (λ _. 0) ≡ false
unfolding any_below
any_below-zero zero = refl
any_below-zero (suc n) = any_below-zero n

pub bind_tree_state-new :
    (c : PoolConfig) → bind_tree_state (new_pool c) ≡ (ok tt, record (new_pool c) { bound = true })
unfolding new_pool bind_tree_state
bind_tree_state-new c =
    let clean : (c.capacity - length (range_from 0 c.capacity) == 0) ≡ true =
      ground (arith, length-range_from 0 c.capacity) in
    rw (clean, any_below-zero c.capacity) refl
