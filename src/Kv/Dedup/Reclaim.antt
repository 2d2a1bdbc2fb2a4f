-- ===== src/Kv/Dedup/Reclaim.antt =====
-- The pages that a merge gives back.
use autotree.Base.{
  ℕ, zero, suc, ◌+◌, ◌<◌, ◌≡◌, refl, ap, subst, inl, inr, Bool, true, false, not, [], ◌∷◌, arith,
  ◌==◌, ltb, if◌then◌else◌, length, tally, All, Bool-cases,
}
use autotree.Kv.Config.{PoolConfig}
use autotree.Kv.Pool.{Pool, used_pages}
use autotree.Kv.Pool.Accounting.{used_pages-eq-tally}
use autotree.Kv.Branches.{references}
use autotree.Kv.Tree.{TreeState}
use autotree.Kv.Tree.Valid.{IsValid}
use autotree.Kv.Dedup.{Redirects}
use autotree.Kv.Dedup.Flow.{Rising, outflow, references-redirected}
use autotree.Kv.Dedup.Found.{IsMerge}
use autotree.Kv.Dedup.Canonical.{has_key, low_key, NoChain}
use autotree.Kv.Dedup.Merge.{merged, merged-Released}
use autotree.Kv.Dedup.Merged.{merged-IsValid}
use autotree.Kv.Dedup.Origin.{references-origin, redirect-no_key, redirect-used}

tally-split :
    (p q r : ℕ → Bool) (lo n : ℕ)
    → ((k : ℕ) → (if p k then 1 else 0) ≡ (if q k then 1 else 0) + (if r k then 1 else 0))
    → tally p lo n ≡ tally q lo n + tally r lo n
tally-split p q r lo zero h = refl
tally-split p q r lo (suc n) h = omega (arith, h lo, tally-split p q r (suc lo) n h)

tally-none : (lo n : ℕ) → tally (λ _. false) lo n ≡ 0
tally-none lo zero = refl
tally-none lo (suc n) = omega (arith, tally-none (suc lo) n)

tally-one :
    (d lo n : ℕ)
    → tally (λ k. d == k) lo n ≡ (if ltb d lo then 0 else if ltb d (lo + n) then 1 else 0)
tally-one d lo zero = ground arith
tally-one d lo (suc n) = ground (arith, tally-one d (suc lo) n)

-- the duplicates are as many as the redirects
tally-keys :
    (capacity lo : ℕ) (r : Redirects)
    → Rising lo r
    → All (λ (x : ℕ × ℕ). x.0 < capacity) r
    → tally (λ k. has_key k r) 0 capacity ≡ length r
tally-keys capacity lo [] h a = tally-none 0 capacity
tally-keys capacity lo ((d, c) ∷ rest) h a =
    let split =
      tally-split (λ k. has_key k ((d, c) ∷ rest)) (λ k. d == k) (λ k. has_key k rest) 0 capacity
        (λ k. ground (arith, low_key d (suc d) rest (omega arith) h.1)) in
    let one : tally (λ k. d == k) 0 capacity ≡ 1 = ground (arith, tally-one d 0 capacity, a.0) in
    omega (arith, split, one, tally-keys capacity (suc d) rest h.1 a.1)

no_outflow : (f : ℕ → ℕ) (q : ℕ) (r : Redirects) → has_key q r ≡ false → outflow f q r ≡ 0
no_outflow f q [] h = refl
no_outflow f q ((d, c) ∷ rest) h = ground (arith, h, no_outflow f q rest)

keys-used :
    (p : Pool) (q : ℕ) (r : Redirects)
    → All (λ (x : ℕ × ℕ). IsMerge p (x.0) (x.1)) r
    → has_key q r ≡ true
    → 0 < p.refcounts q
keys-used p q [] a h = cc
keys-used p q ((d, c) ∷ rest) a h = ground (arith, a.0.from.used, h, keys-used p q rest a.1)

keys-in_range :
    (t : TreeState) (v : IsValid t) (r : Redirects)
    → All (λ (x : ℕ × ℕ). IsMerge t.pool (x.0) (x.1)) r
    → All (λ (x : ℕ × ℕ). x.0 < t.pool.config.capacity) r
keys-in_range t v [] a = tt
keys-in_range t v ((d, c) ∷ rest) a =
    (ground (arith, a.0.from.used, v.sound.in_range d), keys-in_range t v rest a.1)

module _ (t : TreeState) (rs : Redirects) (v : IsValid t)
    (found : All (λ (x : ℕ × ℕ). IsMerge t.pool (x.0) (x.1)) rs) (rising : Rising 0 rs)
    (chain : NoChain rs) where
  abbrev after_merge : TreeState
  after_merge = merged t rs v found rising

  -- a page is held before exactly if it is held after, or is a duplicate
  held-split :
      (k : ℕ)
      → (if not (t.pool.refcounts k == 0) then 1 else 0)
        ≡ (if not (after_merge.pool.refcounts k == 0) then 1 else 0)
          + (if has_key k rs then 1 else 0)
  held-split k = elim (Bool-cases (has_key k rs)) [
    | inl dup ↦
        let gone : references k after_merge.branches ≡ 0 =
          elim (Bool-cases (ltb 0 (references k after_merge.branches))) [
            | inl held ↦
                let (x, old, at) = references-origin rs k t.branches (ground (arith, held)) in
                let clear : has_key k rs ≡ false =
                  subst (λ z. has_key z rs ≡ false) at (redirect-no_key rs rs x refl chain) in
                ground (arith, clear, dup)
            | inr free_ ↦ ground (arith, free_)
          ] in
        ground (
          arith,
          dup,
          gone,
          (merged-IsValid t rs v found rising).refs k,
          keys-used t.pool k rs found dup,
        )
    | inr stays ↦
        let moved = references-redirected k 0 rs t.branches rising in
        let same_ : 0 < t.pool.refcounts k → 0 < after_merge.pool.refcounts k = λ h. omega (
          arith,
          h,
          v.refs k,
          moved,
          no_outflow (λ d. references d t.branches) k rs stays,
          (merged-IsValid t rs v found rising).refs k,
        ) in
        let back : 0 < after_merge.pool.refcounts k → 0 < t.pool.refcounts k = λ h.
          let (x, old, at) =
            references-origin rs k t.branches
              (omega (arith, h, (merged-IsValid t rs v found rising).refs k)) in
          subst (λ z. 0 < t.pool.refcounts z) at
            (redirect-used t.pool rs x found (omega (arith, old, v.refs x))) in
        ground (arith, stays, same_, back)
  ]

  pub merged-reclaims : used_pages after_merge.pool + length rs ≡ used_pages t.pool
  merged-reclaims =
      let now = used_pages-eq-tally after_merge.pool (merged-IsValid t rs v found rising).sound in
      let same : after_merge.pool.config.capacity ≡ t.pool.config.capacity =
        ap (λ (c : PoolConfig). c.capacity) (merged-Released t rs v found rising).config in
      omega (
        arith,
        now,
        used_pages-eq-tally t.pool v.sound,
        ap (tally (λ r. not (after_merge.pool.refcounts r == 0)) 0) same,
        tally-split (λ k. not (t.pool.refcounts k == 0))
            (λ k. not (after_merge.pool.refcounts k == 0)) (λ k. has_key k rs) 0
            t.pool.config.capacity held-split,
        tally-keys t.pool.config.capacity 0 rs rising (keys-in_range t v rs found),
      )
