-- ===== src/Kv/Pool/Accounting.antt =====
-- `used_pages` against the reference counts.
use autotree.Base.{
  ℕ, zero, suc, ◌+◌, ◌<◌, ◌≡◌, refl, Bool, true, false, not, Bool-cases, ==_iff, inl, inr, List, [],
  ◌∷◌, arith, ◌==◌, length, contains, Ascending, Ascending-below, tally, tally-ext,
}
use autotree.Kv.Pool.{Pool, used_pages, available_pages}
use autotree.Kv.Pool.Sound.{IsSound}

tally_none : (lo n : ℕ) → tally (λ _. false) lo n ≡ 0
tally_none lo zero = refl
tally_none lo (suc n) = omega (arith, tally_none (suc lo) n)

tally-not : (p : ℕ → Bool) (lo n : ℕ) → tally p lo n + tally (λ r. not (p r)) lo n ≡ n
tally-not p lo zero = omega arith
tally-not p lo (suc n) = ground (arith, tally-not p (suc lo) n)

-- an ascending list is as long as the range has members of it
length-tally :
    (lo n : ℕ) (xs : List ℕ)
    → Ascending lo xs
    → ((r : ℕ) → contains r xs ≡ true → r < lo + n)
    → length xs ≡ tally (λ r. contains r xs) lo n
length-tally lo zero [] a h = refl
length-tally lo zero (x ∷ xs) a h = absurd (omega (arith, h x (ground arith)))
length-tally lo (suc n) [] a h = ground (arith, tally_none (suc lo) n)
length-tally lo (suc n) (x ∷ xs) a h = elim (Bool-cases (x == lo)) [
  | inl here ↦ ground (
    arith,
    length-tally (suc lo) n xs (rw (← (==_iff x lo).0 here) a.1)
        (λ r k. let b : r < lo + suc n = h r (ground arith) in omega arith),
    tally-ext (λ r. contains r (x ∷ xs)) (λ r. contains r xs) (suc lo) n (λ r k _. ground arith),
  )
  | inr later ↦
      let above : Ascending (suc lo) (x ∷ xs) = (ground arith, a.1) in
      ground (
        arith,
        Ascending-below (suc x) lo xs,
        length-tally (suc lo) n (x ∷ xs) above
            (λ r k. let b : r < lo + suc n = h r k in omega arith),
      )
]

module _ (p : Pool) (s : IsSound p) where
  -- the free pages and the pages in use make up the capacity
  available-add-used :
      available_pages p + tally (λ r. not (p.refcounts r == 0)) 0 p.config.capacity
      ≡ p.config.capacity
  available-add-used =
      let size : length p.free_pages ≡ tally (λ r. contains r p.free_pages) 0 p.config.capacity =
        length-tally 0 p.config.capacity p.free_pages s.sorted
          (λ r k. ground (arith, s.free_iff r)) in
      let same : tally (λ r. contains r p.free_pages) 0 p.config.capacity
          ≡ tally (λ r. p.refcounts r == 0) 0 p.config.capacity =
        tally-ext _ _ 0 p.config.capacity (λ r _ k. ground (arith, s.free_iff r)) in
      omega (arith, size, same, tally-not (λ r. p.refcounts r == 0) 0 p.config.capacity)

  pub used_pages-eq-tally : used_pages p ≡ tally (λ r. not (p.refcounts r == 0)) 0 p.config.capacity
  used_pages-eq-tally = omega (arith, available-add-used)

  -- with no reference left, every page is free
  pub all_free : ((r : ℕ) → p.refcounts r ≡ 0) → available_pages p ≡ p.config.capacity
  all_free none_ = omega (
    arith,
    available-add-used,
    tally-ext (λ r. not (p.refcounts r == 0)) (λ _. false) 0 p.config.capacity
        (λ r _ _. ground (arith, none_ r)),
    tally_none 0 p.config.capacity,
  )
