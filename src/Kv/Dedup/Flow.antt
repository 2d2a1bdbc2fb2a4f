-- ===== src/Kv/Dedup/Flow.antt =====
-- How many references a list of redirects moves onto a page, and away from it.
use autotree.Base.{
  ℕ, zero, suc, ◌+◌, ◌≤◌, ◌<◌, ◌≡◌, refl, List, [], ◌∷◌, ◌++◌, map, arith, ltb, ◌==◌, if◌then◌else◌,
  count, count-append, replicate,
}
use autotree.Kv.Branches.{Branch, references}
use autotree.Kv.Dedup.{Redirects, redirect, redirect_branch}

abbrev pub inflow : (ℕ → ℕ) → ℕ → Redirects → ℕ
inflow f q [] = 0
inflow f q ((d, c) ∷ rest) = (if c == q then f d else 0) + inflow f q rest

abbrev pub outflow : (ℕ → ℕ) → ℕ → Redirects → ℕ
outflow f q [] = 0
outflow f q ((d, c) ∷ rest) = (if d == q then f d else 0) + outflow f q rest

-- the pages that the two loops of the merge go through, one entry for each call
abbrev pub targets : (ℕ → ℕ) → Redirects → List ℕ
targets f [] = []
targets f ((d, c) ∷ rest) = replicate (f d) c ++ targets f rest

abbrev pub sources : (ℕ → ℕ) → Redirects → List ℕ
sources f [] = []
sources f ((d, c) ∷ rest) = replicate (f d) d ++ sources f rest

abbrev pub Rising : ℕ → Redirects → Type 0
Rising lo [] = Unit {0}
Rising lo ((d, c) ∷ rest) = (lo ≤ d) × Rising (suc d) rest

count-replicate : (q n x : ℕ) → count q (replicate n x) ≡ (if x == q then n else 0)
count-replicate q zero x = ground arith
count-replicate q (suc n) x = ground (arith, count-replicate q n x)

pub count-targets : (f : ℕ → ℕ) (q : ℕ) (r : Redirects) → count q (targets f r) ≡ inflow f q r
count-targets f q [] = refl
count-targets f q ((d, c) ∷ rest) = omega (
  arith,
  count-append q (replicate (f d) c) (targets f rest),
  count-replicate q (f d) c,
  count-targets f q rest,
)

pub count-sources : (f : ℕ → ℕ) (q : ℕ) (r : Redirects) → count q (sources f r) ≡ outflow f q r
count-sources f q [] = refl
count-sources f q ((d, c) ∷ rest) = omega (
  arith,
  count-append q (replicate (f d) d) (sources f rest),
  count-replicate q (f d) d,
  count-sources f q rest,
)

-- a page loses at most the references that it has
pub outflow-le :
    (f : ℕ → ℕ) (q lo : ℕ) (r : Redirects)
    → Rising lo r
    → outflow f q r ≤ (if ltb q lo then 0 else f q)
outflow-le f q lo [] h = omega arith
outflow-le f q lo ((d, c) ∷ rest) h = ground (arith, outflow-le f q (suc d) rest h.1)

module _ (f g h : ℕ → ℕ) (split : (d : ℕ) → f d ≡ g d + h d) (q : ℕ) where
  inflow-add : (r : Redirects) → inflow f q r ≡ inflow g q r + inflow h q r
  inflow-add [] = refl
  inflow-add ((d, c) ∷ rest) = ground (arith, split d, inflow-add rest)

  outflow-add : (r : Redirects) → outflow f q r ≡ outflow g q r + outflow h q r
  outflow-add [] = refl
  outflow-add ((d, c) ∷ rest) = ground (arith, split d, outflow-add rest)

inflow-zero : (q : ℕ) (r : Redirects) → inflow (λ _. 0) q r ≡ 0
inflow-zero q [] = refl
inflow-zero q ((d, c) ∷ rest) = ground (arith, inflow-zero q rest)

outflow-zero : (q : ℕ) (r : Redirects) → outflow (λ _. 0) q r ≡ 0
outflow-zero q [] = refl
outflow-zero q ((d, c) ∷ rest) = ground (arith, outflow-zero q rest)

-- an entry below every key moves nothing
low_inflow :
    (x q lo : ℕ) (r : Redirects)
    → x < lo
    → Rising lo r
    → inflow (λ d. if x == d then 1 else 0) q r ≡ 0
low_inflow x q lo [] l h = refl
low_inflow x q lo ((d, c) ∷ rest) l h = ground (arith, low_inflow x q (suc d) rest)

low_outflow :
    (x q lo : ℕ) (r : Redirects)
    → x < lo
    → Rising lo r
    → outflow (λ d. if x == d then 1 else 0) q r ≡ 0
low_outflow x q lo [] l h = refl
low_outflow x q lo ((d, c) ∷ rest) l h = ground (arith, low_outflow x q (suc d) rest)

one_entry :
    (x q lo : ℕ) (r : Redirects)
    → Rising lo r
    → (if redirect r x == q then 1 else 0) + outflow (λ d. if x == d then 1 else 0) q r
      ≡ (if x == q then 1 else 0) + inflow (λ d. if x == d then 1 else 0) q r
one_entry x q lo [] h = refl
one_entry x q lo ((d, c) ∷ rest) h = ground (
  arith,
  one_entry x q (suc d) rest h.1,
  low_inflow x q (suc d) rest,
  low_outflow x q (suc d) rest,
)

-- the occurrences of a page in a redirected table
count-redirected :
    (q lo : ℕ) (r : Redirects) (table : List ℕ)
    → Rising lo r
    → count q (map (redirect r) table) + outflow (λ d. count d table) q r
      ≡ count q table + inflow (λ d. count d table) q r
count-redirected q lo r [] h = omega (arith, inflow-zero q r, outflow-zero q r)
count-redirected q lo r (x ∷ rest) h =
    let one : ℕ → ℕ = λ d. if x == d then 1 else 0 in
    omega (
      arith,
      one_entry x q lo r h,
      count-redirected q lo r rest h,
      inflow-add (λ d. count d (x ∷ rest)) one (λ d. count d rest) (λ d. refl) q r,
      outflow-add (λ d. count d (x ∷ rest)) one (λ d. count d rest) (λ d. refl) q r,
    )

-- the references to a page from redirected tables
pub references-redirected :
    (q lo : ℕ) (r : Redirects) (bs : List Branch)
    → Rising lo r
    → references q (map (redirect_branch r) bs) + outflow (λ d. references d bs) q r
      ≡ references q bs + inflow (λ d. references d bs) q r
references-redirected q lo r [] h = omega (arith, inflow-zero q r, outflow-zero q r)
references-redirected q lo r (b ∷ bs) h =
    let own : ℕ → ℕ = λ d. count d b.block_table in
    omega (
      arith,
      count-redirected q lo r b.block_table h,
      references-redirected q lo r bs h,
      inflow-add (λ d. references d (b ∷ bs)) own (λ d. references d bs) (λ d. refl) q r,
      outflow-add (λ d. references d (b ∷ bs)) own (λ d. references d bs) (λ d. refl) q r,
    )
