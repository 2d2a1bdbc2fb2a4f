-- ===== src/Kv/Tree/View.antt =====
-- The abstract view of a `TreeState`: each live branch with its tokens and its parent, and nothing
-- of pages, reference counts or the free list.
use autotree.Base.{ℕ, Option, none, some, List, ◌++◌, ◌==◌, if◌then◌else◌}
use autotree.Kv.Pool.{Row, Pool}
use autotree.Kv.Branches.{Branch, lookup}
use autotree.Kv.Cover.{rows_in}
use autotree.Kv.Tree.{TreeState}

pub record Node : Type 0 where
  pub parent : Option ℕ
  pub rows : List Row

abbrev pub branch_rows : Pool → Branch → List Row
branch_rows p b = rows_in p.config.page_size p.cache b.block_table b.num_tokens

abbrev pub node_of : Pool → Option Branch → Option Node
node_of p none = none
node_of p (some b) = some (record { parent = b.parent_id; rows = branch_rows p b })

abbrev pub view : TreeState → ℕ → Option Node
view t i = node_of t.pool (lookup i t.branches)

-- what the operations promise
abbrev pub view_fork : (ℕ → Option Node) → ℕ → ℕ → ℕ → Option Node
view_fork v source child j =
    if child == j
    then elim (v source) [
      | none ↦ none
      | some n ↦ some (record { parent = some source; rows = n.rows })
    ]
    else v j

abbrev pub view_append : (ℕ → Option Node) → ℕ → List Row → ℕ → Option Node
view_append v i rows j =
    if i == j
    then elim (v i) [
      | none ↦ none
      | some n ↦ some (record { parent = n.parent; rows = n.rows ++ rows })
    ]
    else v j

abbrev pub view_prune : (ℕ → Option Node) → ℕ → ℕ → Option Node
view_prune v i j = if i == j then none else v j
