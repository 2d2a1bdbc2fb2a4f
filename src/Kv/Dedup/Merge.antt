-- ===== src/Kv/Dedup/Merge.antt =====
-- The second half of `TreeState.dedup_scan`, run on the redirects that the first half found.
use autotree.Base.{
  ℕ, ◌≤◌, ◌<◌, ◌≡◌, refl, ap, sym, ◌∙◌, fun_ext, List, [], ◌∷◌, ◌++◌, map, arith, length, count,
  replicate, All,
}
use autotree.Kv.Errors.{Result, ok, err}
use autotree.Kv.Exec.{Exec, for_each, resume}
use autotree.Kv.Pool.{Pool, retain, free}
use autotree.Kv.Pool.Sound.{IsSound}
use autotree.Kv.Branches.{references}
use autotree.Kv.Tree.{TreeState}
use autotree.Kv.Tree.Valid.{IsValid}
use autotree.Kv.Tree.Loops.{
  retain_all, for_each-retain, retain_all-IsSound, release_all, Released, release_all-Released,
  for_each-free,
}
use autotree.Kv.Dedup.{Redirects, redirect_branch, retain_canonical, free_duplicate, merge_pages}
use autotree.Kv.Dedup.Flow.{
  inflow, targets, sources, Rising, count-targets, count-sources, outflow-le,
}
use autotree.Kv.Dedup.Found.{IsMerge}

resume-resume :
    {S A B C : Type 0} (m : Result A × S) (f : A → Exec S B) (g : B → Exec S C)
    → resume (resume m f) g ≡ resume m (λ a s. resume (f a s) g)
resume-resume (ok a, s) f g = refl
resume-resume (err e, s) f g = refl

for_each-append :
    {S A : Type 0} (body : A → Exec S (Unit {0})) (xs ys : List A) (s : S)
    → for_each (xs ++ ys) body s ≡ resume (for_each xs body s) (λ _. for_each ys body)
unfolding for_each
for_each-append body [] ys s = refl
for_each-append {S = S} body (x ∷ xs) ys s =
    ap (λ (f : Unit {0} → Exec S (Unit {0})). resume (body x s) f)
      (fun_ext λ _. fun_ext λ t. for_each-append body xs ys t)
    ∙ sym (resume-resume (body x s) (λ _. for_each xs body) (λ _. for_each ys body))

module _ (f : ℕ → ℕ) where
  retain-targets :
      (r : Redirects) (p : Pool)
      → for_each r (retain_canonical f) p ≡ for_each (targets f r) retain p
  unfolding for_each retain_canonical
  retain-targets [] p = refl
  retain-targets ((d, c) ∷ rest) p =
      ap (λ (g : Unit {0} → Exec Pool (Unit {0})). resume (for_each (replicate (f d) c) retain p) g)
        (fun_ext λ _. fun_ext λ q. retain-targets rest q)
      ∙ sym (for_each-append retain (replicate (f d) c) (targets f rest) p)

  free-sources :
      (r : Redirects) (p : Pool) → for_each r (free_duplicate f) p ≡ for_each (sources f r) free p
  unfolding for_each free_duplicate
  free-sources [] p = refl
  free-sources ((d, c) ∷ rest) p =
      ap (λ (g : Unit {0} → Exec Pool (Unit {0})). resume (for_each (replicate (f d) d) free p) g)
        (fun_ext λ _. fun_ext λ q. free-sources rest q)
      ∙ sym (for_each-append free (replicate (f d) d) (sources f rest) p)

-- every page that gains references is in use
inflow-used :
    (p : Pool) (f : ℕ → ℕ) (q : ℕ) (r : Redirects)
    → All (λ (x : ℕ × ℕ). IsMerge p (x.0) (x.1)) r
    → 0 < inflow f q r
    → 0 < p.refcounts q
inflow-used p f q [] a h = omega (arith, h)
inflow-used p f q ((d, c) ∷ rest) a h = ground (arith, a.0.to.used, inflow-used p f q rest a.1, h)

module _ (t : TreeState) (r : Redirects) (v : IsValid t)
    (found : All (λ (x : ℕ × ℕ). IsMerge t.pool (x.0) (x.1)) r) (rising : Rising 0 r) where
  abbrev pub occ : ℕ → ℕ
  occ d = references d t.branches

  abbrev gained : Pool
  gained = retain_all (targets occ r) t.pool

  abbrev pub merged : TreeState
  merged = record t {
    pool = release_all (sources occ r) gained;
    branches = map (redirect_branch r) t.branches;
  }

  gains-used : (q : ℕ) → 0 < count q (targets occ r) → 0 < t.pool.refcounts q
  gains-used q h = inflow-used t.pool occ q r found (omega (arith, count-targets occ q r, h))

  gained-IsSound : IsSound gained
  gained-IsSound = retain_all-IsSound (targets occ r) t.pool v.sound gains-used

  losses : (q : ℕ) → count q (sources occ r) ≤ gained.refcounts q
  losses q = ground (arith, count-sources occ q r, outflow-le occ q 0 r rising, v.refs q)

  pub merged-Released : Released (sources occ r) gained merged.pool
  merged-Released = release_all-Released (sources occ r) gained gained-IsSound losses

  retained : for_each r (retain_canonical occ) t.pool ≡ (ok tt, gained)
  retained = retain-targets occ r t.pool ∙ for_each-retain (targets occ r) t.pool v.sound gains-used

  freed : for_each r (free_duplicate occ) gained ≡ (ok tt, merged.pool)
  freed = free-sources occ r gained ∙ for_each-free (sources occ r) gained gained-IsSound losses

pub merge_pages-eq :
    (t : TreeState) (x : ℕ × ℕ) (xs : Redirects) (v : IsValid t)
    (found : All (λ (x : ℕ × ℕ). IsMerge t.pool (x.0) (x.1)) (x ∷ xs)) (rising : Rising 0 (x ∷ xs))
    → merge_pages (x ∷ xs) t ≡ (ok (length (x ∷ xs)), merged t (x ∷ xs) v found rising)
unfolding merge_pages
merge_pages-eq t x xs v found rising =
    rw (retained t (x ∷ xs) v found rising) (rw (freed t (x ∷ xs) v found rising) refl)
