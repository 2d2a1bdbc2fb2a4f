-- ===== src/Kv/Pool/Sound.antt =====
-- The invariant of `PagedKVPool` on its own, and what each method does to it.
use autotree.Base.{
  ℕ, ◌+◌, ◌≤◌, ◌<◌, ◌≡◌, ◌&&◌, arith, ltb, ◌==◌, length, contains, Ascending, Ascending-push_sorted,
  contains-push_sorted,
}
use autotree.Kv.Errors.{ok}
use autotree.Kv.Pool.{Pool, update, release, free, retain, page_length, set_page_length, refcount}

pub record IsSound (p : Pool) : Type 0 where
  pub slots : 0 < p.config.page_size
  -- the heap is sorted and holds exactly the pages in range that nothing refers to
  pub sorted : Ascending 0 p.free_pages
  pub free_iff : (r : ℕ) → contains r p.free_pages ≡ (ltb r p.config.capacity && p.refcounts r == 0)
  pub in_range : (r : ℕ) → p.config.capacity ≤ r → p.refcounts r ≡ 0
  pub idle : (r : ℕ) → p.refcounts r ≡ 0 → p.valid_lengths r ≡ 0
  pub fits : (r : ℕ) → p.valid_lengths r ≤ p.config.page_size
  pub width : (r : ℕ) → length (p.cache r) ≡ p.config.page_size

module _ (p : Pool) (pid : ℕ) (s : IsSound p) (used : 0 < p.refcounts pid) where
  used-lt : pid < p.config.capacity
  used-lt = ground (arith, s.in_range pid)

  pub free-eq : free pid p ≡ (ok tt, release pid p)
  unfolding free
  free-eq = ground (arith, s.in_range pid)

  pub retain-eq :
      retain pid p ≡ (ok tt, record p { refcounts = update p.refcounts pid (p.refcounts pid + 1) })
  unfolding retain
  retain-eq = ground (arith, s.in_range pid)

  pub page_length-eq : page_length pid p ≡ (ok (p.valid_lengths pid), p)
  unfolding page_length
  page_length-eq = ground (arith, s.in_range pid)

  pub refcount-eq : refcount pid p ≡ (ok (p.refcounts pid), p)
  unfolding refcount
  refcount-eq = ground (arith, s.in_range pid)

  pub set_page_length-eq :
      (n : ℕ)
      → n ≤ p.config.page_size
      → set_page_length pid n p ≡ (ok tt, record p { valid_lengths = update p.valid_lengths pid n })
  unfolding set_page_length
  set_page_length-eq n h = ground (arith, s.in_range pid)

  pub release-IsSound : IsSound (release pid p)
  release-IsSound = record {
    slots = ground (arith, s.slots);
    sorted = ground (arith, s.sorted, s.free_iff pid, Ascending-push_sorted 0 pid p.free_pages);
    free_iff = λ r. ground (
      arith,
      s.in_range pid,
      s.free_iff r,
      s.free_iff pid,
      contains-push_sorted r pid p.free_pages,
    );
    in_range = λ r h. ground (arith, s.in_range r, s.in_range pid);
    idle = λ r h. ground (arith, s.idle r);
    fits = λ r. ground (arith, s.fits r);
    width = λ r. ground (arith, s.width r);
  }

  pub retain-IsSound :
      IsSound (record p { refcounts = update p.refcounts pid (p.refcounts pid + 1) })
  retain-IsSound = record {
    slots = s.slots;
    sorted = s.sorted;
    free_iff = λ r. ground (arith, s.free_iff r);
    in_range = λ r h. ground (arith, s.in_range r, s.in_range pid);
    idle = λ r h. ground (arith, s.idle r);
    fits = s.fits;
    width = s.width;
  }

-- the token count is no part of the invariant
pub logical-IsSound : (p : Pool) (n : ℕ) → IsSound p → IsSound (record p { logical_tokens = n })
logical-IsSound p n s = record {
  slots = s.slots;
  sorted = s.sorted;
  free_iff = s.free_iff;
  in_range = s.in_range;
  idle = s.idle;
  fits = s.fits;
  width = s.width;
}
