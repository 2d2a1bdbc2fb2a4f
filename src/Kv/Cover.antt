-- ===== src/Kv/Cover.antt =====
-- How a block table covers a branch's tokens, and the rows that it spells: the view behind
-- `_validate_branch_coverage` and `gather_branch_kv`.
pub mod Extend
pub mod Tail
use autotree.Base.{
  ℕ, zero, suc, ◌+◌, ◌-◌, ◌*◌, ◌%◌, ◌≤◌, ◌<◌, min, ◌≡◌, ◌≢◌, refl, ap, sym, ◌∙◌, List, [], ◌∷◌,
  ◌++◌, arith, length, take, count, ceil_div, ceil_div-zero, ceil_div-step, take-append,
  length-append, length-take,
}
use autotree.Kv.Pool.{Row, Page}
use autotree.Kv.Gather.{select_pages}

-- every page but the last is full, and the last holds the rest
abbrev pub Covers : ℕ → (ℕ → ℕ) → List ℕ → ℕ → Type 0
Covers size lens [] n = n ≡ 0
Covers size lens (pid ∷ rest) n =
    (0 < n) × (lens pid ≡ min size n) × Covers size lens rest (n - size)

abbrev pub rows_in : ℕ → (ℕ → Page) → List ℕ → ℕ → List Row
rows_in size cache [] n = []
rows_in size cache (pid ∷ rest) n = take n (cache pid) ++ rows_in size cache rest (n - size)

pub length-Covers :
    (size : ℕ) (lens : ℕ → ℕ) (table : List ℕ) (n : ℕ)
    → 0 < size
    → Covers size lens table n
    → length table ≡ ceil_div n size
length-Covers size lens [] n h c =
    ground (arith, ceil_div-zero size h, ap (λ (t : ℕ). ceil_div t size) c)
length-Covers size lens (pid ∷ rest) n h c =
    omega (arith, ceil_div-step n size h c.0, length-Covers size lens rest (n - size) h c.2)

module _ (size : ℕ) (cache : ℕ → Page) (wide : (r : ℕ) → length (cache r) ≡ size) where
  -- what `gather_branch_kv` reads
  pub take-select_pages :
      (table : List ℕ) (n : ℕ) → take n (select_pages cache table) ≡ rows_in size cache table n
  take-select_pages [] zero = refl
  take-select_pages [] (suc n) = refl
  take-select_pages (pid ∷ rest) n =
      take-append n (cache pid) (select_pages cache rest)
      ∙ ap (◌++◌ (take n (cache pid))) (
          ap (λ (k : ℕ). take (n - k) (select_pages cache rest)) (wide pid)
          ∙ take-select_pages rest (n - size))

  length-rows_in :
      (lens : ℕ → ℕ) (table : List ℕ) (n : ℕ)
      → Covers size lens table n
      → length (rows_in size cache table n) ≡ n
  length-rows_in lens [] n c = sym c
  length-rows_in lens (pid ∷ rest) n c = omega (
    arith,
    length-append (take n (cache pid)) (rows_in size cache rest (n - size)),
    length-take n (cache pid),
    wide pid,
    length-rows_in lens rest (n - size) c.2,
  )

-- two caches that agree on the pages of a table spell the same rows
pub rows_in-agree :
    (size : ℕ) (f g : ℕ → Page) (table : List ℕ) (n : ℕ)
    → ((r : ℕ) → 0 < count r table → f r ≡ g r)
    → rows_in size f table n ≡ rows_in size g table n
rows_in-agree size f g [] n h = refl
rows_in-agree size f g (pid ∷ rest) n h =
    ground (arith, h pid, rows_in-agree size f g rest (n - size) (λ r k. h r (ground arith)))

pub Covers-agree :
    (size : ℕ) (f g : ℕ → ℕ) (table : List ℕ) (n : ℕ)
    → ((r : ℕ) → 0 < count r table → f r ≡ g r)
    → Covers size f table n
    → Covers size g table n
Covers-agree size f g [] n h c = c
Covers-agree size f g (pid ∷ rest) n h c = (
  c.0,
  ground (arith, h pid),
  Covers-agree size f g rest (n - size) (λ r k. h r (ground arith)) c.2,
)
