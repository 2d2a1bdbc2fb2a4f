-- ===== src/Kv/Gather.antt =====
-- kv/gather.py: one branch's tokens, read back from its pages.
pub mod Reads
use autotree.Base.{
  ℕ, suc, ◌-◌, ◌*◌, min, not, List, [], ◌∷◌, ◌++◌, map, leb, ◌==◌, if◌then◌else◌, length, take,
  ceil_div,
}
use autotree.Kv.Errors.{
  value_error, invariant_error, table_not_covering, page_length_mismatch, Result, ok,
}
use autotree.Kv.Exec.{Exec, raise_if, gets, ◌>>=◌, ◌>>◌}
use autotree.Kv.Pool.{Row, LayerKv, Page, Pool, require_allocated, page_length}

-- `index_select` along the page axis, flattened to slots
abbrev pub select_pages : (ℕ → Page) → List ℕ → List Row
select_pages cache [] = []
select_pages cache (pid ∷ rest) = cache pid ++ select_pages cache rest

-- the entry of a layer; a row has one entry for each layer of the pool
abbrev at_layer : ℕ → Row → LayerKv
at_layer layer [] = record { k = []; v = [] }
at_layer ℕ.zero (x ∷ xs) = x
at_layer (suc n) (x ∷ xs) = at_layer n xs

pub record LayerTokens : Type 0 where
  pub keys : List (List ℕ)
  pub values : List (List ℕ)

abbrev pub layer_tokens : ℕ → List Row → LayerTokens
layer_tokens layer rows = record {
  keys = map (λ r. (at_layer layer r).k) rows;
  values = map (λ r. (at_layer layer r).v) rows;
}

-- `for page_index, page_id in enumerate(block_table)`
unfoldable pub check_pages : ℕ → ℕ → List ℕ → Exec Pool (Unit {0})
check_pages n index [] = gets (λ _. tt)
check_pages n index (pid ∷ rest) = do
  require_allocated pid
  size ← gets (λ p. p.config.page_size)
  valid ← page_length pid
  raise_if (not (valid == min size (n - index * size))) (invariant_error page_length_mismatch)
  check_pages n (suc index) rest

unfoldable pub gather_branch_kv : List ℕ → ℕ → ℕ → Exec Pool LayerTokens
gather_branch_kv table n layer = do
  layers ← gets (λ p. p.config.num_layers)
  raise_if (leb layers layer) value_error
  size ← gets (λ p. p.config.page_size)
  raise_if (not (length table == ceil_div n size)) (invariant_error table_not_covering)
  check_pages n 0 table
  gets (λ p.
      if n == 0
      then record { keys = []; values = [] }
      else layer_tokens layer (take n (select_pages p.cache table)))
