-- ===== src/Kv/Dedup.antt =====
-- kv/dedup.py and `TreeState.dedup_scan`. The digest of a page is a parameter: hashlib's SHA-256 of
-- its bytes, of which only that it is a function of them is used.
mod Flow
mod Found
mod Checks
mod Canonical
mod Distinct
mod Merge
mod Merged
mod Origin
mod Reclaim
pub mod Outcome
pub mod Scan
use autotree.Base.{
  ℕ, zero, suc, ◌≡◌, Bool, true, false, not, ◌&&◌, Option, none, some, List, [], ◌∷◌, ◌++◌, map,
  leb, ◌==◌, if◌then◌else◌, length, replicate, contains, push_sorted, list_equal,
}
use autotree.Kv.Errors.{invariant_error, refcount_mismatch, unbound, Result, ok, err}
use autotree.Kv.Exec.{Exec, pure, raise_if, gets, modify, for_each, ◌>>=◌, ◌>>◌}
use autotree.Kv.Pool.{Pool, Page, Row, LayerKv, free, refcount, retain, page_length}
use autotree.Kv.Branches.{Branch, references}
use autotree.Kv.Tree.{TreeState, on_pool, validate_coverage}

abbrev bytes_equal : List ℕ → List ℕ → Bool
bytes_equal = list_equal ◌==◌

abbrev pub layer_equal : LayerKv → LayerKv → Bool
layer_equal a b = bytes_equal a.k b.k && bytes_equal a.v b.v

-- `_pages_equal`: every byte of both pages, in every layer
unfoldable pub page_equal : Page → Page → Bool
page_equal = list_equal (list_equal layer_equal)

-- the keys of the `Counter`, sorted: each page of the tables once
unfoldable pub add_key : ℕ → List ℕ → List ℕ
add_key pid keys = if contains pid keys then keys else push_sorted pid keys

unfoldable pub add_keys : List ℕ → List ℕ → List ℕ
add_keys [] keys = keys
add_keys (pid ∷ table) keys = add_key pid (add_keys table keys)

unfoldable pub occurring_pages : List Branch → List ℕ
unfolding add_key add_keys
occurring_pages [] = []
occurring_pages (b ∷ bs) = add_keys b.block_table (occurring_pages bs)

unfoldable pub insert_record : Branch → List Branch → List Branch
insert_record b [] = b ∷ []
insert_record b (c ∷ cs) =
    if leb b.branch_id c.branch_id then b ∷ (c ∷ cs) else c ∷ insert_record b cs

-- `sorted(self._branches.values(), key=branch_id)`
unfoldable pub sorted_records : List Branch → List Branch
unfolding insert_record
sorted_records [] = []
sorted_records (b ∷ bs) = insert_record b (sorted_records bs)

-- a digest with the canonical pages that have it, oldest first
abbrev pub Buckets : Type 0
Buckets = List (ℕ × List ℕ)

abbrev pub bucket : ℕ → Buckets → List ℕ
bucket d [] = []
bucket d ((e, ids) ∷ rest) = if e == d then ids else bucket d rest

abbrev pub add_to_bucket : ℕ → ℕ → Buckets → Buckets
add_to_bucket d pid [] = (d, pid ∷ []) ∷ []
add_to_bucket d pid ((e, ids) ∷ rest) =
    if e == d then (e, ids ++ pid ∷ []) ∷ rest else (e, ids) ∷ add_to_bucket d pid rest

abbrev pub find_canonical : Pool → ℕ → List ℕ → Option ℕ
find_canonical p pid [] = none
find_canonical p pid (c ∷ cs) =
    if page_equal (p.cache pid) (p.cache c) then some c else find_canonical p pid cs

-- duplicate and canonical page, the duplicates ascending
abbrev pub Redirects : Type 0
Redirects = List (ℕ × ℕ)

-- `redirects.get(page_id, page_id)`
abbrev pub redirect : Redirects → ℕ → ℕ
redirect [] x = x
redirect ((d, c) ∷ rest) x = if d == x then c else redirect rest x

-- the candidates of `_discover_page_redirects`: the keys whose page is full
unfoldable pub full_pages : List ℕ → Exec Pool (List ℕ)
full_pages [] = pure []
full_pages (pid ∷ rest) = do
  len ← page_length pid
  size ← gets (λ p. p.config.page_size)
  others ← full_pages rest
  pure (if len == size then pid ∷ others else others)

unfoldable pub check_refcount : (ℕ → ℕ) → ℕ → Exec Pool (Unit {0})
check_refcount expected pid = do
  actual ← refcount pid
  raise_if (not (actual == expected pid)) (invariant_error refcount_mismatch)

abbrev pub redirect_branch : Redirects → Branch → Branch
redirect_branch r b = record b { block_table = map (redirect r) b.block_table }

-- `for _ in range(occurrences[duplicate]): retain(canonical)`, then the same with `free(duplicate)`
unfoldable pub retain_canonical : (ℕ → ℕ) → ℕ × ℕ → Exec Pool (Unit {0})
retain_canonical occurrences (d, c) = for_each (replicate (occurrences d) c) retain

unfoldable pub free_duplicate : (ℕ → ℕ) → ℕ × ℕ → Exec Pool (Unit {0})
free_duplicate occurrences (d, c) = for_each (replicate (occurrences d) d) free

unfoldable pub merge_pages : Redirects → Exec TreeState ℕ
unfolding retain_canonical free_duplicate
merge_pages [] = pure 0
merge_pages (x ∷ xs) = do
  bs ← gets (λ t. t.branches)
  let occurrences = λ (r : ℕ). references r bs
  on_pool (for_each (x ∷ xs) (retain_canonical occurrences))
  modify (λ t. record t { branches = map (redirect_branch (x ∷ xs)) t.branches })
  on_pool (for_each (x ∷ xs) (free_duplicate occurrences))
  pure (length (x ∷ xs))

module _ (digest : Page → ℕ) where
  unfoldable pub discover : Pool → List ℕ → Buckets → Redirects
  discover p [] known = []
  discover p (pid ∷ rest) known =
      elim (find_canonical p pid (bucket (digest (p.cache pid)) known)) [
        | none ↦ discover p rest (add_to_bucket (digest (p.cache pid)) pid known)
        | some c ↦ (pid, c) ∷ discover p rest known
      ]

  -- `_discover_page_redirects`
  unfoldable pub discover_page_redirects : List ℕ → Exec Pool Redirects
  discover_page_redirects keys = do
    candidates ← full_pages keys
    gets (λ p. discover p candidates [])

  unfoldable pub dedup_scan : Exec TreeState ℕ
  unfolding check_refcount merge_pages
  dedup_scan = do
    bs ← gets (λ t. t.branches)
    for_each (sorted_records bs) (λ b. on_pool (validate_coverage b))
    let keys = occurring_pages bs
    on_pool (for_each keys (check_refcount (λ r. references r bs)))
    redirects ← on_pool (discover_page_redirects keys)
    merge_pages redirects

  -- `PagedKVPool.dedup_scan`, on the tree that the pool is bound to
  pool_dedup_scan : Exec (Option TreeState) ℕ
  unfolding dedup_scan
  pool_dedup_scan none = (err (invariant_error unbound), none)
  pool_dedup_scan (some t) = let (r, t') = dedup_scan t in (r, some t')
