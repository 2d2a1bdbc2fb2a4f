-- ===== src/Kv/Pool.antt =====
-- kv/pool.py. A slot of a page holds one token's key and value bytes for every layer, so a `Row`
-- is the column through all of `k_cache` and `v_cache` at one page and offset. The heap of free
-- pages is its ascending list, which is what `heapq` promises of index 0, `heappop`, `heappush`.
pub mod Sound
pub mod Alloc
pub mod Accounting
pub mod Bound
use autotree.Base.{◌≡◌, arith}
use autotree.Base.{
  ℕ, zero, suc, ◌+◌, ◌-◌, ◌*◌, ◌≡◌, Bool, true, false, not, ◌&&◌, ◌||◌, List, [], ◌∷◌, ltb, leb,
  ◌==◌, if◌then◌else◌, length, replicate, push_sorted,
}
use autotree.Kv.Errors.{
  Error, capacity_error, invariant_error, already_bound, pool_not_empty, free_page_in_use,
  negative_logical_tokens, invalid_page_id, page_not_allocated, page_length_range, Result, ok, err,
}
use autotree.Kv.Exec.{Exec, pure, raise, raise_if, gets, modify, ◌>>=◌, ◌>>◌}
use autotree.Kv.Config.{PoolConfig, itemsize}

pub record LayerKv : Type 0 where
  pub k : List ℕ
  pub v : List ℕ

abbrev pub Row : Type 0
Row = List LayerKv

abbrev pub Page : Type 0
Page = List Row

pub record Pool : Type 0 where
  pub config : PoolConfig
  pub cache : ℕ → Page
  pub refcounts : ℕ → ℕ
  pub valid_lengths : ℕ → ℕ
  pub free_pages : List ℕ
  pub logical_tokens : ℕ
  pub bound : Bool

-- `a[i] = x`
abbrev pub update {ℓ} : {A : Type ℓ} → (ℕ → A) → ℕ → A → ℕ → A
update f i x j = if j == i then x else f j

abbrev pub range_from : ℕ → ℕ → List ℕ
range_from lo zero = []
range_from lo (suc n) = lo ∷ range_from (suc lo) n

abbrev pub blank_row : PoolConfig → Row
blank_row c =
    let zeros = replicate (c.num_kv_heads * c.head_dim * itemsize c.dtype) 0 in
    replicate c.num_layers (record { k = zeros; v = zeros })

abbrev pub blank_page : PoolConfig → Page
blank_page c = replicate c.page_size (blank_row c)

-- `PagedKVPool.__init__`
unfoldable pub new_pool : PoolConfig → Pool
new_pool c = record {
  config = c;
  cache = λ _. blank_page c;
  refcounts = λ _. 0;
  valid_lengths = λ _. 0;
  free_pages = range_from 0 c.capacity;
  logical_tokens = 0;
  bound = false;
}

abbrev pub used_pages : Pool → ℕ
used_pages p = p.config.capacity - length p.free_pages

abbrev pub available_pages : Pool → ℕ
available_pages p = length p.free_pages

abbrev pub physical_tokens : Pool → ℕ
physical_tokens p = used_pages p * p.config.page_size

-- the quotient of two counts, with the denominator 1 for the literal 0.0
pub record Ratio : Type 0 where
  pub num : ℕ
  pub den : ℕ

abbrev pub kv_reuse_ratio : Pool → Ratio
kv_reuse_ratio p =
    if physical_tokens p == 0
    then record { num = 0; den = 1 }
    else record { num = p.logical_tokens; den = physical_tokens p }

pub record KvStats : Type 0 where
  pub used_pages : ℕ
  pub available_pages : ℕ
  pub physical_tokens : ℕ
  pub logical_tokens : ℕ
  pub kv_reuse_ratio : Ratio

abbrev pub stats : Pool → KvStats
stats p = record {
  used_pages = used_pages p;
  available_pages = available_pages p;
  physical_tokens = physical_tokens p;
  logical_tokens = p.logical_tokens;
  kv_reuse_ratio = kv_reuse_ratio p;
}

abbrev validate_page_id : ℕ → Exec Pool (Unit {0})
validate_page_id pid p = raise_if (leb p.config.capacity pid) (invariant_error invalid_page_id) p

abbrev pub require_allocated : ℕ → Exec Pool (Unit {0})
require_allocated pid = do
  validate_page_id pid
  r ← gets (λ p. p.refcounts pid)
  raise_if (r == 0) (invariant_error page_not_allocated)

-- the writes of `alloc_page` once the lowest free page is at hand
abbrev pub claim : ℕ → List ℕ → Pool → Pool
claim pid rest p = record p {
  free_pages = rest;
  cache = update p.cache pid (blank_page p.config);
  valid_lengths = update p.valid_lengths pid 0;
  refcounts = update p.refcounts pid 1;
}

abbrev alloc_from : List ℕ → Exec Pool ℕ
alloc_from [] p = (err (capacity_error 1 0), p)
alloc_from (pid ∷ rest) p =
    if p.refcounts pid == 0
    then (ok pid, claim pid rest p)
    else (err (invariant_error free_page_in_use), p)

unfoldable pub alloc_page : Exec Pool ℕ
alloc_page p = alloc_from p.free_pages p

-- the writes of `free`
abbrev pub release : ℕ → Pool → Pool
release pid p =
    if ltb 1 (p.refcounts pid)
    then record p { refcounts = update p.refcounts pid (p.refcounts pid - 1) }
    else record p {
      valid_lengths = update p.valid_lengths pid 0;
      refcounts = update p.refcounts pid 0;
      free_pages = push_sorted pid p.free_pages;
    }

unfoldable pub free : ℕ → Exec Pool (Unit {0})
free pid = do require_allocated pid; modify (release pid)

unfoldable pub refcount : ℕ → Exec Pool ℕ
refcount pid = do validate_page_id pid; gets (λ p. p.refcounts pid)

unfoldable pub retain : ℕ → Exec Pool (Unit {0})
retain pid = do
  require_allocated pid
  modify (λ p. record p { refcounts = update p.refcounts pid (p.refcounts pid + 1) })

-- `_adjust_logical_tokens(delta)` at delta ≥ 0 and at delta ≤ 0
unfoldable pub grow_logical : ℕ → Exec Pool (Unit {0})
grow_logical n = modify (λ p. record p { logical_tokens = p.logical_tokens + n })

unfoldable pub shrink_logical : ℕ → Exec Pool (Unit {0})
shrink_logical n p =
    if ltb p.logical_tokens n
    then (err (invariant_error negative_logical_tokens), p)
    else (ok tt, record p { logical_tokens = p.logical_tokens - n })

any_below : ℕ → (ℕ → ℕ) → Bool
any_below zero f = false
any_below (suc n) f = not (f n == 0) || any_below n f

pub bind_tree_state : Exec Pool (Unit {0})
unfolding any_below
bind_tree_state = do
  b ← gets (λ p. p.bound)
  raise_if b (invariant_error already_bound)
  dirty ← gets (λ p.
      not (used_pages p == 0)
      || not (p.logical_tokens == 0)
      || any_below p.config.capacity p.refcounts
      || any_below p.config.capacity p.valid_lengths)
  raise_if dirty (invariant_error pool_not_empty)
  modify (λ p. record p { bound = true })

unfoldable pub require_capacity : ℕ → Exec Pool (Unit {0})
require_capacity required p =
    raise_if (ltb (available_pages p) required) (capacity_error required (available_pages p)) p

-- the byte copy cannot raise here, so the rollback of the source has no counterpart
unfoldable pub copy_page : ℕ → Exec Pool ℕ
unfolding alloc_page
copy_page pid = do
  require_allocated pid
  copied ← alloc_page
  modify (λ p. record p {
    cache = update p.cache copied (p.cache pid);
    valid_lengths = update p.valid_lengths copied (p.valid_lengths pid);
  })
  pure copied

unfoldable pub page_length : ℕ → Exec Pool ℕ
page_length pid = do require_allocated pid; gets (λ p. p.valid_lengths pid)

unfoldable pub set_page_length : ℕ → ℕ → Exec Pool (Unit {0})
set_page_length pid len = do
  require_allocated pid
  size ← gets (λ p. p.config.page_size)
  raise_if (ltb size len) (invariant_error page_length_range)
  modify (λ p. record p { valid_lengths = update p.valid_lengths pid len })

pub update_self {ℓ} : {A : Type ℓ} (f : ℕ → A) (i : ℕ) (x : A) → update f i x i ≡ x
update_self f i x = ground arith
