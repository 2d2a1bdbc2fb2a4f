-- ===== src/Kv/Dedup/Origin.antt =====
-- Where a page of a redirected table comes from.
use autotree.Base.{
  ℕ, ◌<◌, ◌≡◌, sym, inl, inr, false, List, [], ◌∷◌, map, arith, ◌==◌, ltb, count, All, Bool-cases,
}
use autotree.Kv.Pool.{Pool}
use autotree.Kv.Branches.{Branch, references}
use autotree.Kv.Dedup.{Redirects, redirect, redirect_branch}
use autotree.Kv.Dedup.Found.{IsMerge}
use autotree.Kv.Dedup.Canonical.{has_key}

-- a page of a redirected table comes from a page of the table
count-origin :
    (f : ℕ → ℕ) (q : ℕ) (table : List ℕ)
    → 0 < count q (map f table)
    → (x : ℕ) × (0 < count x table) × (f x ≡ q)
count-origin f q [] h = ground (arith, h)
count-origin f q (x ∷ table) h = elim (Bool-cases (f x == q)) [
  | inl here ↦ (x, ground arith, ground (arith, here))
  | inr there ↦
      let (y, used, at) = count-origin f q table (ground (arith, h, there)) in
      (y, omega (arith, used), at)
]

pub references-origin :
    (rs : Redirects) (q : ℕ) (bs : List Branch)
    → 0 < references q (map (redirect_branch rs) bs)
    → (x : ℕ) × (0 < references x bs) × (redirect rs x ≡ q)
references-origin rs q [] h = ground (arith, h)
references-origin rs q (b ∷ bs) h =
    elim (Bool-cases (ltb 0 (count q (map (redirect rs) b.block_table)))) [
      | inl here ↦
          let (x, used, at) = count-origin (redirect rs) q b.block_table (ground (arith, here)) in
          (x, omega (arith, used), at)
      | inr there ↦
          let (x, used, at) = references-origin rs q bs (ground (arith, h, there)) in
          (x, omega (arith, used), at)
    ]

-- where no target is a duplicate, a redirected page is none
pub redirect-no_key :
    (all rs : Redirects) (x : ℕ)
    → has_key x rs ≡ has_key x all
    → All (λ (y : ℕ × ℕ). has_key (y.1) all ≡ false) rs
    → has_key (redirect rs x) all ≡ false
redirect-no_key all [] x same h = sym same
redirect-no_key all ((d, c) ∷ rest) x same h = elim (Bool-cases (d == x)) [
  | inl here ↦ rw here (h.0)
  | inr there ↦ rw there (redirect-no_key all rest x (ground (arith, there, same)) h.1)
]

pub redirect-used :
    (p : Pool) (rs : Redirects) (x : ℕ)
    → All (λ (y : ℕ × ℕ). IsMerge p (y.0) (y.1)) rs
    → 0 < p.refcounts x
    → 0 < p.refcounts (redirect rs x)
redirect-used p [] x h used = used
redirect-used p ((d, c) ∷ rest) x h used =
    ground (arith, h.0.to.used, used, redirect-used p rest x h.1 used)
