-- ===== src/Kv/Branches.antt =====
-- The branch records of kv/tree_state.py and the `dict` that holds them: found by id, in order.
use autotree.Base.{
  ℕ, ◌+◌, ◌≤◌, ◌≡◌, ◌≢◌, refl, Option, none, some, List, [], ◌∷◌, ◌==◌, if◌then◌else◌, arith, count,
}

-- `_BranchRecord`
pub record Branch : Type 0 where
  pub branch_id : ℕ
  pub parent_id : Option ℕ
  pub num_tokens : ℕ
  pub block_table : List ℕ
  pub child_ids : List ℕ

-- `Branch` of the source, a record without its children
pub record Snapshot : Type 0 where
  pub branch_id : ℕ
  pub parent_id : Option ℕ
  pub num_tokens : ℕ
  pub block_table : List ℕ

abbrev pub lookup : ℕ → List Branch → Option Branch
lookup i [] = none
lookup i (b ∷ bs) = if b.branch_id == i then some b else lookup i bs

-- the record under `b.branch_id` becomes `b`
abbrev pub put : Branch → List Branch → List Branch
put b [] = b ∷ []
put b (c ∷ bs) = if c.branch_id == b.branch_id then b ∷ bs else c ∷ put b bs

abbrev pub erase : ℕ → List Branch → List Branch
erase i [] = []
erase i (b ∷ bs) = if b.branch_id == i then bs else b ∷ erase i bs

abbrev pub Unique : List Branch → Type 0
Unique [] = Unit {0}
Unique (b ∷ bs) = (lookup b.branch_id bs ≡ none) × Unique bs

pub lookup-put :
    (j : ℕ) (b : Branch) (bs : List Branch)
    → lookup j (put b bs) ≡ (if b.branch_id == j then some b else lookup j bs)
lookup-put j b [] = refl
lookup-put j b (c ∷ bs) = ground (arith, lookup-put j b bs)

pub lookup-erase_ne : (j i : ℕ) (bs : List Branch) → j ≢ i → lookup j (erase i bs) ≡ lookup j bs
lookup-erase_ne j i [] h = refl
lookup-erase_ne j i (b ∷ bs) h = ground (arith, lookup-erase_ne j i bs h)

pub lookup-erase_self : (i : ℕ) (bs : List Branch) → Unique bs → lookup i (erase i bs) ≡ none
lookup-erase_self i [] u = refl
lookup-erase_self i (b ∷ bs) u = ground (arith, lookup-erase_self i bs u.1)

pub branch_id-lookup :
    (i : ℕ) (bs : List Branch) (b : Branch) → lookup i bs ≡ some b → b.branch_id ≡ i
branch_id-lookup i [] b h = cc
branch_id-lookup i (c ∷ bs) b h = ground (arith, branch_id-lookup i bs b)

pub put-Unique : (b : Branch) (bs : List Branch) → Unique bs → Unique (put b bs)
put-Unique b [] u = (refl, tt)
put-Unique b (c ∷ bs) u = ground (arith, put-Unique b bs u.1, lookup-put c.branch_id b bs)

pub erase-Unique : (i : ℕ) (bs : List Branch) → Unique bs → Unique (erase i bs)
erase-Unique i [] u = tt
erase-Unique i (c ∷ bs) u = ground (arith, erase-Unique i bs u.1, lookup-erase_ne c.branch_id i bs)

-- the sum of a measure over the live branches
abbrev pub total : (Branch → ℕ) → List Branch → ℕ
total f [] = 0
total f (b ∷ bs) = f b + total f bs

-- the references to a page from all block tables
abbrev pub references : ℕ → List Branch → ℕ
references pid = total (λ b. count pid b.block_table)

module _ (f : Branch → ℕ) where
  pub total-put_new :
      (b : Branch) (bs : List Branch)
      → lookup b.branch_id bs ≡ none
      → total f (put b bs) ≡ total f bs + f b
  total-put_new b [] h = omega arith
  total-put_new b (c ∷ bs) h = ground (arith, total-put_new b bs)

  pub total-put_old :
      (b old : Branch) (bs : List Branch)
      → lookup b.branch_id bs ≡ some old
      → total f (put b bs) + f old ≡ total f bs + f b
  total-put_old b old [] h = cc
  total-put_old b old (c ∷ bs) h = ground (arith, total-put_old b old bs)

  pub total-erase :
      (i : ℕ) (b : Branch) (bs : List Branch)
      → lookup i bs ≡ some b
      → total f (erase i bs) + f b ≡ total f bs
  total-erase i b [] h = cc
  total-erase i b (c ∷ bs) h = ground (arith, total-erase i b bs)

  pub le-total : (i : ℕ) (b : Branch) (bs : List Branch) → lookup i bs ≡ some b → f b ≤ total f bs
  le-total i b bs h = omega (arith, total-erase i b bs h)

pub put_live : (b : Branch) (bs : List Branch) → lookup b.branch_id bs ≡ some b → put b bs ≡ bs
put_live b [] h = cc
put_live b (c ∷ bs) h = ground (arith, put_live b bs)
