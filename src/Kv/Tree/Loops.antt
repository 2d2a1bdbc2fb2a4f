-- ===== src/Kv/Tree/Loops.antt =====
-- The loops of kv/tree_state.py over one block table: checking, retaining and freeing its pages.
use autotree.Base.{
  ℕ, suc, ◌+◌, ◌-◌, ◌*◌, ◌≤◌, ◌<◌, min, ◌≡◌, refl, ap, ◌∙◌, fun_ext, true, List, [], ◌∷◌, arith,
  count, ◌==◌,
}
use autotree.Kv.Errors.{ok}
use autotree.Kv.Exec.{for_each}
use autotree.Kv.Pool.{Pool, update, free, release, retain}
use autotree.Kv.Pool.Sound.{
  IsSound, free-eq, retain-eq, page_length-eq, release-IsSound, retain-IsSound,
}
use autotree.Kv.Branches.{Branch}
use autotree.Kv.Cover.{Covers, length-Covers}
use autotree.Kv.Tree.{check_lengths, validate_coverage}

check_lengths-eq :
    (p : Pool) (n : ℕ) (table : List ℕ) (index m : ℕ)
    → IsSound p
    → ((r : ℕ) → 0 < count r table → 0 < p.refcounts r)
    → n - index * p.config.page_size ≡ m
    → Covers p.config.page_size p.valid_lengths table m
    → check_lengths n index table p ≡ (ok tt, p)
unfolding check_lengths
check_lengths-eq p n [] index m s used e c = refl
check_lengths-eq p n (pid ∷ rest) index m s used e c =
    let next : n - suc index * p.config.page_size ≡ m - p.config.page_size = omega (arith, e) in
    let tail : check_lengths n (suc index) rest p ≡ (ok tt, p) =
      check_lengths-eq p n rest (suc index) (m - p.config.page_size) s
        (λ r k. used r (ground arith)) next c.2 in
    let test : (p.valid_lengths pid == min p.config.page_size (n - index * p.config.page_size))
        ≡ true =
      ground (arith, e, c.1) in
    rw (page_length-eq p pid s (used pid (ground arith)), test) tail

-- a covered branch over pages in use passes `_validate_branch_coverage`
pub validate_coverage-eq :
    (p : Pool) (b : Branch)
    → IsSound p
    → ((r : ℕ) → 0 < count r b.block_table → 0 < p.refcounts r)
    → Covers p.config.page_size p.valid_lengths b.block_table b.num_tokens
    → validate_coverage b p ≡ (ok tt, p)
unfolding validate_coverage
validate_coverage-eq p b s used c =
    let start : b.num_tokens - 0 * p.config.page_size ≡ b.num_tokens = omega arith in
    ground (
      arith,
      length-Covers p.config.page_size p.valid_lengths b.block_table b.num_tokens s.slots c,
      check_lengths-eq p b.num_tokens b.block_table 0 b.num_tokens s used start c,
    )

abbrev pub retain_all : List ℕ → Pool → Pool
retain_all table p = record p { refcounts = λ r. p.refcounts r + count r table }

-- retaining every page of a table adds its occurrences
pub for_each-retain :
    (table : List ℕ) (p : Pool)
    → IsSound p
    → ((r : ℕ) → 0 < count r table → 0 < p.refcounts r)
    → for_each table retain p ≡ (ok tt, retain_all table p)
unfolding for_each
for_each-retain [] p s used =
    ap (λ (f : ℕ → ℕ). (ok tt, record p { refcounts = f })) (fun_ext λ r. omega arith)
for_each-retain (pid ∷ rest) p s used =
    let q : Pool = record p { refcounts = update p.refcounts pid (p.refcounts pid + 1) } in
    rw (retain-eq p pid s (used pid (ground arith))) (
      for_each-retain rest q (retain-IsSound p pid s (used pid (ground arith)))
        (λ r k. ground (arith, used r))
      ∙ ap (λ (f : ℕ → ℕ). (ok tt, record p { refcounts = f })) (fun_ext λ r. ground arith))

pub retain_all-IsSound :
    (table : List ℕ) (p : Pool)
    → IsSound p
    → ((r : ℕ) → 0 < count r table → 0 < p.refcounts r)
    → IsSound (retain_all table p)
retain_all-IsSound table p s used = record {
  slots = s.slots;
  sorted = s.sorted;
  free_iff = λ r. ground (arith, s.free_iff r, used r);
  in_range = λ r h. ground (arith, s.in_range r, used r);
  idle = λ r h. ground (arith, s.idle r);
  fits = s.fits;
  width = s.width;
}

abbrev pub release_all : List ℕ → Pool → Pool
release_all [] p = p
release_all (pid ∷ rest) p = release_all rest (release pid p)

-- what freeing a table leaves of the pool
pub record Released (table : List ℕ) (p q : Pool) : Type 0 where
  pub sound : IsSound q
  pub dropped : (r : ℕ) → q.refcounts r + count r table ≡ p.refcounts r
  pub kept : (r : ℕ) → 0 < q.refcounts r → q.valid_lengths r ≡ p.valid_lengths r
  pub cache : q.cache ≡ p.cache
  pub config : q.config ≡ p.config
  pub logical : q.logical_tokens ≡ p.logical_tokens

pub release_all-Released :
    (table : List ℕ) (p : Pool)
    → IsSound p
    → ((r : ℕ) → count r table ≤ p.refcounts r)
    → Released table p (release_all table p)
release_all-Released [] p s enough = record {
  sound = s;
  dropped = λ r. omega arith;
  kept = λ r _. refl;
  cache = refl;
  config = refl;
  logical = refl;
}
release_all-Released (pid ∷ rest) p s enough =
    let used : 0 < p.refcounts pid = ground (arith, enough pid) in
    let h : Released rest (release pid p) (release_all rest (release pid p)) =
      release_all-Released rest (release pid p) (release-IsSound p pid s used)
        (λ r. ground (arith, enough r)) in
    record {
      sound = h.sound;
      dropped = λ r. ground (arith, h.dropped r);
      kept = λ r k. ground (arith, h.kept r, h.dropped r);
      cache = ground (arith, h.cache);
      config = ground (arith, h.config);
      logical = ground (arith, h.logical);
    }

pub for_each-free :
    (table : List ℕ) (p : Pool)
    → IsSound p
    → ((r : ℕ) → count r table ≤ p.refcounts r)
    → for_each table free p ≡ (ok tt, release_all table p)
unfolding for_each
for_each-free [] p s enough = refl
for_each-free (pid ∷ rest) p s enough =
    let used : 0 < p.refcounts pid = ground (arith, enough pid) in
    rw (free-eq p pid s used) (
      for_each-free rest (release pid p) (release-IsSound p pid s used)
        (λ r. ground (arith, enough r)))
