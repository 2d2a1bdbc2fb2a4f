-- ===== src/Kv/Promises/Prunes.antt =====
-- `TreeState.prune` against the view, and the pages that it gives back.
use autotree.Base.{
  ℕ, ◌≡◌, ◌≢◌, ◌↔◌, refl, Option, none, some, some-injective, contains, sym, inl, inr, Option-cases,
  List-cases, arith, List, [], ◌∷◌, true, not, tally, ◌==◌, sorted, ◌∙◌, ap, tally-ext,
}
use autotree.Kv.Errors.{Error, Result, ok, err, key_error, branch_has_children}
use autotree.Kv.Pool.{available_pages, used_pages}
use autotree.Kv.Pool.Accounting.{all_free, used_pages-eq-tally}
use autotree.Kv.Branches.{Branch, lookup, references, total}
use autotree.Kv.Tree.{TreeState, prune, has_items}
use autotree.Kv.Tree.Valid.{IsValid}
use autotree.Kv.Tree.View.{Node, view, node_of, branch_rows, view_prune}
use autotree.Kv.Tree.Prune.{prune-eq, pruned}
use autotree.Kv.Tree.Pruned.{pruned-IsValid, view-pruned}

-- On a valid tree, pruning a live branch without children succeeds; the tree stays valid, and its
-- view loses exactly that branch.
pub prune-refines :
    (t : TreeState) (i : ℕ) (b : Branch)
    → IsValid t
    → lookup i t.branches ≡ some b
    → b.child_ids ≡ []
    → (t' : TreeState) × (prune i t ≡ (ok tt, t'))
      × IsValid t'
      × ((j : ℕ) → view t' j ≡ view_prune (view t) i j)
prune-refines t i b v live leaf = (
  pruned t b,
  prune-eq t i b v live leaf,
  pruned-IsValid t i b v live leaf,
  view-pruned t i b v live leaf,
)

-- a branch with children is refused
pub prune_refused :
    (t : TreeState) (i c : ℕ) (cs : List ℕ) (b : Branch)
    → lookup i t.branches ≡ some b
    → b.child_ids ≡ c ∷ cs
    → prune i t ≡ (err (branch_has_children b.branch_id (sorted b.child_ids)), t)
unfolding prune
prune_refused t i c cs b live more =
    let busy : has_items b.child_ids ≡ true = ground arith in rw live (rw busy)

-- a branch of the view that no other one has for its parent
abbrev pub IsLeaf : (ℕ → Option Node) → ℕ → Type 0
IsLeaf v i = ((n : Node) × (v i ≡ some n)) × ((j : ℕ) (n : Node) → v j ≡ some n → n.parent ≢ some i)

unpruned : {z : Error} → ◌≢◌ {A = Result (Unit {0})} (err z) (ok tt)
unpruned e = cc

unknown : (t : TreeState) (i : ℕ) → lookup i t.branches ≡ none → (prune i t).0 ≡ err (key_error i)
unfolding prune
unknown t i gone = rw gone refl

childless-IsLeaf :
    (t : TreeState) (i : ℕ) (b : Branch)
    → IsValid t
    → lookup i t.branches ≡ some b
    → b.child_ids ≡ []
    → IsLeaf (view t) i
childless-IsLeaf t i b v live leaf = (
  (record { parent = b.parent_id; rows = branch_rows t.pool b }, ap (node_of t.pool) live),
  λ j n seen of_i. elim (Option-cases (lookup j t.branches)) [
    | inl gone ↦ let nothing : none ≡ some n = ap (node_of t.pool) (sym gone) ∙ seen in cc
    | inr (d, there) ↦
        let node : some (record { parent = d.parent_id; rows = branch_rows t.pool d }) ≡ some n =
          ap (node_of t.pool) (sym there) ∙ seen in
        let p = v.parents j i d there (ap (λ (m : Node). m.parent) (some-injective node) ∙ of_i) in
        let same : p.entry ≡ b = some-injective (sym p.live ∙ live) in
        let none_listed : contains j [] ≡ true =
          ap (contains j) (sym leaf)
          ∙ (ap (λ (k : Branch). contains j k.child_ids) (sym same) ∙ p.listed) in
        cc
  ],
)

parent-IsLeaf :
    (t : TreeState) (i c : ℕ) (cs : List ℕ) (b : Branch)
    → IsValid t
    → lookup i t.branches ≡ some b
    → b.child_ids ≡ c ∷ cs
    → ¬ IsLeaf (view t) i
parent-IsLeaf t i c cs b v live more (seen, alone) =
    let k = v.children i c b live (rw more (ground arith)) in
    alone c (record { parent = k.entry.parent_id; rows = branch_rows t.pool k.entry })
      (ap (node_of t.pool) k.live) k.names

-- On a valid tree, `prune` succeeds exactly on a live branch that no live branch has for its parent.
pub prune_iff : (t : TreeState) (i : ℕ) → IsValid t → ((prune i t).0 ≡ ok tt) ↔ IsLeaf (view t) i
prune_iff t i v = elim (Option-cases (lookup i t.branches)) [
  | inl gone ↦ (
    λ e. absurd (unpruned (sym (unknown t i gone) ∙ e)),
    λ ((n, seen), alone). let nothing : none ≡ some n = ap (node_of t.pool) (sym gone) ∙ seen in cc,
  )
  | inr (b, live) ↦ elim (List-cases b.child_ids) [
    | inl leaf ↦
        (λ e. childless-IsLeaf t i b v live leaf, λ h. ap (λ m. m.0) (prune-eq t i b v live leaf))
    | inr (c, cs, more) ↦ (
      λ e. absurd (unpruned (sym (ap (λ m. m.0) (prune_refused t i c cs b live more)) ∙ e)),
      λ h. absurd (parent-IsLeaf t i c cs b v live more h),
    )
  ]
]

-- the pages in use are those that some block table holds
pub used_pages-eq-held :
    (t : TreeState)
    → IsValid t
    → used_pages t.pool ≡ tally (λ r. not (references r t.branches == 0)) 0 t.pool.config.capacity
used_pages-eq-held t v =
    used_pages-eq-tally t.pool v.sound
    ∙ tally-ext _ _ 0 t.pool.config.capacity (λ r _ _. ground (arith, v.refs r))

-- with no branch left, all pages are available
pub all_pruned-reclaims :
    (t : TreeState)
    → IsValid t
    → t.branches ≡ []
    → (available_pages t.pool ≡ t.pool.config.capacity) × (t.pool.logical_tokens ≡ 0)
all_pruned-reclaims t v none_ = (
  all_free t.pool v.sound (λ r. v.refs r ∙ ap (references r) none_),
  v.tokens ∙ ap (total (λ b. b.num_tokens)) none_,
)
