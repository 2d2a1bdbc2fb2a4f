-- ===== src/Kv/Append/Cursors.antt =====
-- What an append keeps of the record at hand and its pool, while `others r` counts the references
-- to page r from the other branches.
use autotree.Base.{
  ℕ, ◌+◌, ◌<◌, ◌≡◌, ◌≢◌, ap, ◌∙◌, List, ◌++◌, arith, length, length-append, count, some, get_last?,
  append_assoc,
}
use autotree.Kv.Pool.{Row}
use autotree.Kv.Pool.Sound.{IsSound}
use autotree.Kv.Cover.{Covers, rows_in}
use autotree.Kv.Append.{Cursor, page_offset}

abbrev pub content : Cursor → List Row
content c = rows_in c.pool.config.page_size c.pool.cache c.record_.block_table c.record_.num_tokens

-- the record's pages are counted and cover its tokens
pub record IsAnchored (others : ℕ → ℕ) (c : Cursor) : Type 0 where
  pub sound : IsSound c.pool
  pub refs : (r : ℕ) → c.pool.refcounts r ≡ count r c.record_.block_table + others r
  pub covers :
      Covers c.pool.config.page_size c.pool.valid_lengths c.record_.block_table c.record_.num_tokens

-- and a partly filled last page is its own
abbrev pub OwnsTail : Cursor → Type 0
OwnsTail c =
    (pid : ℕ)
    → page_offset c ≢ 0
    → get_last? c.record_.block_table ≡ some pid
    → c.pool.refcounts pid ≡ 1

-- `d` is `c` with rows added, as the other branches and the caller see it
pub record Wrote (others : ℕ → ℕ) (rows : List Row) (c d : Cursor) : Type 0 where
  pub anchored : IsAnchored others d
  pub added : d.record_.num_tokens ≡ c.record_.num_tokens + length rows
  pub content : content d ≡ content c ++ rows
  pub cache : (r : ℕ) → 0 < others r → d.pool.cache r ≡ c.pool.cache r
  pub lengths : (r : ℕ) → 0 < others r → d.pool.valid_lengths r ≡ c.pool.valid_lengths r
  pub config : d.pool.config ≡ c.pool.config
  pub logical : d.pool.logical_tokens ≡ c.pool.logical_tokens
  pub branch_id : d.record_.branch_id ≡ c.record_.branch_id
  pub parent_id : d.record_.parent_id ≡ c.record_.parent_id
  pub child_ids : d.record_.child_ids ≡ c.record_.child_ids

pub Wrote-trans :
    {others : ℕ → ℕ} {xs ys : List Row} {c d e : Cursor}
    → Wrote others xs c d
    → Wrote others ys d e
    → Wrote others (xs ++ ys) c e
Wrote-trans {xs = xs} {ys = ys} {c = c} f g = record {
  anchored = g.anchored;
  added = omega (arith, f.added, g.added, length-append xs ys);
  content = g.content ∙ ap (λ (zs : List Row). zs ++ ys) f.content ∙ append_assoc (content c) xs ys;
  cache = λ r h. g.cache r h ∙ f.cache r h;
  lengths = λ r h. g.lengths r h ∙ f.lengths r h;
  config = g.config ∙ f.config;
  logical = g.logical ∙ f.logical;
  branch_id = g.branch_id ∙ f.branch_id;
  parent_id = g.parent_id ∙ f.parent_id;
  child_ids = g.child_ids ∙ f.child_ids;
}
