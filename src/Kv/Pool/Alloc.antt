-- ===== src/Kv/Pool/Alloc.antt =====
-- `alloc_page`, `_copy_page` and the constructor of the pool.
use autotree.Base.{
  ℕ, zero, suc, ◌+◌, ◌≤◌, ◌<◌, ◌≡◌, refl, true, ◌&&◌, List, ◌∷◌, arith, ltb, leb, length,
  length-replicate, contains, Ascending, Ascending-below, Ascending-weaken, splice, length-splice,
}
use autotree.Kv.Errors.{ok}
use autotree.Kv.Config.{PoolConfig}
use autotree.Kv.Pool.{
  Pool, Row, blank_row, update, range_from, alloc_page, claim, copy_page, new_pool,
}
use autotree.Kv.Pool.Sound.{IsSound}

range_from-Ascending : (lo n : ℕ) → Ascending lo (range_from lo n)
range_from-Ascending lo zero = tt
range_from-Ascending lo (suc n) = (omega arith, range_from-Ascending (suc lo) n)

contains-range_from : (r lo n : ℕ) → contains r (range_from lo n) ≡ (leb lo r && ltb r (lo + n))
contains-range_from r lo zero = ground arith
contains-range_from r lo (suc n) = ground (arith, contains-range_from r (suc lo) n)

pub new_pool-IsSound : (c : PoolConfig) → 0 < c.page_size → IsSound (new_pool c)
unfolding new_pool
new_pool-IsSound c h = record {
  slots = h;
  sorted = range_from-Ascending 0 c.capacity;
  free_iff = λ r. ground (arith, contains-range_from r 0 c.capacity);
  in_range = λ r _. refl;
  idle = λ r _. refl;
  fits = λ r. omega arith;
  width = λ r. length-replicate c.page_size (blank_row c);
}

module _ (p : Pool) (pid : ℕ) (rest : List ℕ) (s : IsSound p)
    (top : p.free_pages ≡ pid ∷ rest) where
  head_free : (pid < p.config.capacity) × (p.refcounts pid ≡ 0)
  head_free = ground (arith, s.free_iff pid)

  head_sorted : Ascending (suc pid) rest
  head_sorted = ground (arith, s.sorted)

  pub alloc_page-eq : alloc_page p ≡ (ok pid, claim pid rest p)
  unfolding alloc_page
  alloc_page-eq = ground (arith, head_free)

  pub claim-IsSound : IsSound (claim pid rest p)
  claim-IsSound = record {
    slots = s.slots;
    sorted = Ascending-weaken {m = 0} {n = suc pid} rest (omega arith) head_sorted;
    free_iff = λ r.
        ground (arith, s.free_iff r, head_free, head_sorted, Ascending-below (suc pid) pid rest);
    in_range = λ r h. ground (arith, s.in_range r, head_free);
    idle = λ r h. ground (arith, s.idle r);
    fits = λ r. ground (arith, s.fits r);
    width =
        λ r. ground (arith, s.width r, length-replicate p.config.page_size (blank_row p.config));
  }

  -- the page handed out was free, and every other free page has a greater id
  alloc_page-lowest : (r : ℕ) → contains r p.free_pages ≡ true → pid ≤ r
  alloc_page-lowest r h = ground (arith, head_sorted, Ascending-below (suc pid) r rest)

-- writes into a page in use keep the pool sound
pub write-IsSound :
    (p : Pool) (pid off : ℕ) (rows : List Row)
    → IsSound p
    → off + length rows ≤ p.config.page_size
    → IsSound (record p { cache = update p.cache pid (splice off rows (p.cache pid)) })
write-IsSound p pid off rows s h = record {
  slots = s.slots;
  sorted = s.sorted;
  free_iff = s.free_iff;
  in_range = s.in_range;
  idle = s.idle;
  fits = s.fits;
  width = λ r. ground (arith, s.width r, s.width pid, length-splice off rows (p.cache pid));
}

copy-IsSound :
    (p : Pool) (to from : ℕ)
    → IsSound p
    → IsSound (record p { cache = update p.cache to (p.cache from) })
copy-IsSound p to from s = record {
  slots = s.slots;
  sorted = s.sorted;
  free_iff = s.free_iff;
  in_range = s.in_range;
  idle = s.idle;
  fits = s.fits;
  width = λ r. ground (arith, s.width r, s.width from);
}

pub resize-IsSound :
    (p : Pool) (pid n : ℕ)
    → IsSound p
    → 0 < p.refcounts pid
    → n ≤ p.config.page_size
    → IsSound (record p { valid_lengths = update p.valid_lengths pid n })
resize-IsSound p pid n s used h = record {
  slots = s.slots;
  sorted = s.sorted;
  free_iff = s.free_iff;
  in_range = s.in_range;
  idle = λ r z. ground (arith, s.idle r);
  fits = λ r. ground (arith, s.fits r);
  width = s.width;
}

-- the state after `_copy_page`
abbrev pub duplicate : ℕ → ℕ → List ℕ → Pool → Pool
duplicate from to rest p = record (claim to rest p) {
  cache = update (claim to rest p).cache to ((claim to rest p).cache from);
  valid_lengths = update (claim to rest p).valid_lengths to ((claim to rest p).valid_lengths from);
}

module _ (p : Pool) (from to : ℕ) (rest : List ℕ) (s : IsSound p) (used : 0 < p.refcounts from)
    (top : p.free_pages ≡ to ∷ rest) where
  pub copy_page-eq : copy_page from p ≡ (ok to, duplicate from to rest p)
  unfolding copy_page
  copy_page-eq = ground (arith, s.in_range from, s.free_iff to)

  pub duplicate-IsSound : IsSound (duplicate from to rest p)
  duplicate-IsSound =
      resize-IsSound _ to _ (copy-IsSound _ to from (claim-IsSound p to rest s top)) (ground arith)
        (ground (arith, s.fits from))
