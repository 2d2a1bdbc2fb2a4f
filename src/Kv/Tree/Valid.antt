-- ===== src/Kv/Tree/Valid.antt =====
-- The invariant that ties the branches of a `TreeState` to its pool.
use autotree.Base.{ℕ, ◌≤◌, ◌<◌, ◌≡◌, none, some, List, arith, true, contains, count}
use autotree.Kv.Errors.{Result, ok, err}
use autotree.Kv.Pool.Sound.{IsSound}
use autotree.Kv.Branches.{Branch, lookup, Unique, total, references, le-total}
use autotree.Kv.Cover.{Covers}
use autotree.Kv.Tree.{TreeState}

-- a live branch that a record names as its parent, and lists the child
pub record IsParent (bs : List Branch) (child parent : ℕ) : Type 0 where
  pub older : parent < child
  pub entry : Branch
  pub live : lookup parent bs ≡ some entry
  pub listed : contains child entry.child_ids ≡ true

pub record IsChild (bs : List Branch) (parent child : ℕ) : Type 0 where
  pub entry : Branch
  pub live : lookup child bs ≡ some entry
  pub names : entry.parent_id ≡ some parent

pub record IsValid (t : TreeState) : Type 0 where
  pub sound : IsSound t.pool
  pub unique : Unique t.branches
  -- each page is referred to as often as it stands in the block tables
  pub refs : (r : ℕ) → t.pool.refcounts r ≡ references r t.branches
  pub covers :
      (i : ℕ) (b : Branch)
      → lookup i t.branches ≡ some b
      → Covers t.pool.config.page_size t.pool.valid_lengths b.block_table b.num_tokens
  pub tokens : t.pool.logical_tokens ≡ total (λ b. b.num_tokens) t.branches
  pub fresh : (i : ℕ) → t.next_branch_id ≤ i → lookup i t.branches ≡ none
  pub parents :
      (i j : ℕ) (b : Branch)
      → lookup i t.branches ≡ some b
      → b.parent_id ≡ some j
      → IsParent t.branches i j
  pub children :
      (i c : ℕ) (b : Branch)
      → lookup i t.branches ≡ some b
      → contains c b.child_ids ≡ true
      → IsChild t.branches i c

-- the outcome of a method that raises before it writes
abbrev pub IsAtomic : {A : Type 0} → TreeState → Result A × TreeState → Type 0
IsAtomic t (ok _, t') = IsValid t'
IsAtomic t (err _, t') = t' ≡ t

-- the pages of a live branch are in use
pub count-le-refcount :
    (t : TreeState) (i : ℕ) (b : Branch) (r : ℕ)
    → IsValid t
    → lookup i t.branches ≡ some b
    → count r b.block_table ≤ t.pool.refcounts r
count-le-refcount t i b r v h =
    omega (arith, v.refs r, le-total (λ b. count r b.block_table) i b t.branches h)
