-- ===== src/Kv/Append/Chunk.antt =====
-- One round of the append loop, onto a new page or onto the branch's own last page.
use autotree.Base.{
  ℕ, ◌+◌, ◌-◌, ◌≤◌, min, ◌≡◌, ◌≢◌, List, [], ◌∷◌, ◌++◌, arith, length, take, some, get_last?,
  length-take, ◌==◌, true, false,
}
use native.Mathlib.Nat.{mod-lt}
use autotree.Kv.Errors.{ok}
use autotree.Kv.Pool.{Row, claim, update}
use autotree.Kv.Pool.Sound.{IsSound, set_page_length-eq}
use autotree.Kv.Pool.Alloc.{alloc_page-eq, claim-IsSound, write-IsSound}
use autotree.Kv.Append.{Cursor, page_offset, set_table, store, advance, write_chunk}
use autotree.Kv.Append.Cursors.{IsAnchored}

-- how many of the rows the page has room for
abbrev pub chunk_size : Cursor → List Row → ℕ
chunk_size c rows = min (c.pool.config.page_size - page_offset c) (length rows)

abbrev resize : ℕ → ℕ → Cursor → Cursor
resize pid n c = record c {
  pool = record c.pool { valid_lengths = update c.pool.valid_lengths pid n };
}

-- the state after writing `w` rows at `off` of a page that the table holds
abbrev pub written : ℕ → ℕ → ℕ → List Row → Cursor → Cursor
written pid off w rows c = advance w (resize pid (off + w) (store pid off (take w rows) c))

abbrev pub opened : ℕ → List ℕ → Cursor → Cursor
opened pid rest c =
    set_table (c.record_.block_table ++ pid ∷ []) (record c { pool = claim pid rest c.pool })

module _ (others : ℕ → ℕ) (c : Cursor) (rows : List Row) (a : IsAnchored others c) where
  pub fits : page_offset c + chunk_size c rows ≤ c.pool.config.page_size
  fits = omega (arith, mod-lt c.record_.num_tokens a.sound.slots)

  pub length-chunk : length (take (chunk_size c rows) rows) ≡ chunk_size c rows
  length-chunk = omega (arith, length-take (chunk_size c rows) rows)

  pub write_new :
      (pid : ℕ) (rest : List ℕ)
      → page_offset c ≡ 0
      → c.pool.free_pages ≡ pid ∷ rest
      → write_chunk rows c ≡ (
        ok (chunk_size c rows),
        written pid (page_offset c) (chunk_size c rows) rows (opened pid rest c),
      )
  unfolding write_chunk
  write_new pid rest full top =
      let s : IsSound (claim pid rest c.pool) = claim-IsSound c.pool pid rest a.sound top in
      let room : page_offset c + length (take (chunk_size c rows) rows) ≤ c.pool.config.page_size =
        omega (arith, fits, length-chunk) in
      let set : _ =
        set_page_length-eq
          (store pid (page_offset c) (take (chunk_size c rows) rows) (opened pid rest c)).pool pid
          (write-IsSound (claim pid rest c.pool) pid (page_offset c) (take (chunk_size c rows) rows)
            s room)
          (ground arith) (page_offset c + chunk_size c rows) fits in
      let test : (page_offset c == 0) ≡ true = ground (arith, full) in
      rw test (rw (alloc_page-eq c.pool pid rest a.sound top) (rw set))

  pub write_tail :
      (pid : ℕ)
      → page_offset c ≢ 0
      → get_last? c.record_.block_table ≡ some pid
      → c.pool.refcounts pid ≡ 1
      → write_chunk rows c
        ≡ (ok (chunk_size c rows), written pid (page_offset c) (chunk_size c rows) rows c)
  unfolding write_chunk
  write_tail pid part last own =
      let room : page_offset c + length (take (chunk_size c rows) rows) ≤ c.pool.config.page_size =
        omega (arith, fits, length-chunk) in
      let set : _ =
        set_page_length-eq (store pid (page_offset c) (take (chunk_size c rows) rows) c).pool pid
          (write-IsSound c.pool pid (page_offset c) (take (chunk_size c rows) rows) a.sound room)
          (omega (arith, own)) (page_offset c + chunk_size c rows) fits in
      let test : (page_offset c == 0) ≡ false = ground (arith, part) in rw test (rw last (rw set))
