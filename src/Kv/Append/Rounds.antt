-- ===== src/Kv/Append/Rounds.antt =====
-- What a round of the append loop adds, in both of its cases.
use autotree.Base.{
  ℕ, ◌+◌, ◌≤◌, ◌<◌, ◌≡◌, ◌≢◌, refl, ap, sym, ◌∙◌, List, [], ◌∷◌, ◌++◌, arith, length, take, count,
  count-append, some, get_last?, splice, length-append, take-splice,
}
use native.Mathlib.Nat.{mod-lt}
use autotree.Kv.Pool.{Row, claim, update, Page, blank_page, update_self}
use autotree.Kv.Pool.Sound.{IsSound}
use autotree.Kv.Pool.Alloc.{claim-IsSound, write-IsSound, resize-IsSound}
use autotree.Kv.Cover.{Covers, rows_in, rows_in-agree, Covers-agree}
use autotree.Kv.Cover.Extend.{rows_in-snoc, Covers-snoc, count-last}
use autotree.Kv.Cover.Tail.{rows_in-fill, Covers-fill}
use autotree.Kv.Append.{Cursor, page_offset}
use autotree.Kv.Append.Cursors.{IsAnchored, OwnsTail, Wrote, content}
use autotree.Kv.Append.Chunk.{chunk_size, written, opened, fits, length-chunk}

last-snoc : (xs : List ℕ) (a : ℕ) → get_last? (xs ++ a ∷ []) ≡ some a
last-snoc [] a = refl
last-snoc (x ∷ []) a = refl
last-snoc (x ∷ (y ∷ ys)) a = last-snoc (y ∷ ys) a

module _ (others : ℕ → ℕ) (c : Cursor) (rows : List Row) (a : IsAnchored others c)
    (some_rows : 0 < length rows) where
  abbrev pub size : ℕ
  size = c.pool.config.page_size

  abbrev pub w : ℕ
  w = chunk_size c rows

  abbrev pub chunk : List Row
  chunk = take w rows

  pub some_chunk : 0 < w
  some_chunk = omega (arith, some_rows, mod-lt c.record_.num_tokens a.sound.slots)

  room : page_offset c + length chunk ≤ size
  room = omega (arith, fits others c rows a, length-chunk others c rows a)

  module _ (pid : ℕ) (rest : List ℕ) (full : page_offset c ≡ 0)
      (top : c.pool.free_pages ≡ pid ∷ rest) where
    abbrev pub new_page : Cursor
    new_page = written pid (page_offset c) w rows (opened pid rest c)

    unused : (c.pool.refcounts pid ≡ 0) × (count pid c.record_.block_table ≡ 0) × (others pid ≡ 0)
    unused = ground (arith, a.sound.free_iff pid, a.refs pid)

    other_page :
        (r : ℕ) → 0 < count r c.record_.block_table → c.pool.cache r ≡ new_page.pool.cache r
    other_page r h = ground (arith, unused)

    new_cell : take w (new_page.pool.cache pid) ≡ chunk
    new_cell =
        let before : Page = update c.pool.cache pid (blank_page c.pool.config) pid in
        let len : w ≡ page_offset c + length chunk = omega (arith, length-chunk others c rows a) in
        ap (take w)
          (update_self (claim pid rest c.pool).cache pid (splice (page_offset c) chunk before))
        ∙ ap (λ (k : ℕ). take k (splice (page_offset c) chunk before)) len
        ∙ take-splice (page_offset c) chunk before (omega (arith, full))
        ∙ ap (λ (k : ℕ). take k before ++ chunk) full

    new-Covers :
        Covers size new_page.pool.valid_lengths new_page.record_.block_table
          (c.record_.num_tokens + w)
    new-Covers =
        Covers-snoc size new_page.pool.valid_lengths c.record_.block_table c.record_.num_tokens pid
          w a.sound.slots some_chunk (omega (arith, fits others c rows a)) (ground (arith, full))
          (Covers-agree size c.pool.valid_lengths new_page.pool.valid_lengths c.record_.block_table
            c.record_.num_tokens (λ r h. ground (arith, unused)) a.covers)
          full

    new-IsSound : IsSound new_page.pool
    new-IsSound =
        resize-IsSound _ pid (page_offset c + w)
          (write-IsSound _ pid (page_offset c) chunk (claim-IsSound c.pool pid rest a.sound top)
            room)
          (ground arith) (fits others c rows a)

    new_content : content new_page ≡ content c ++ chunk
    new_content =
        rows_in-snoc size new_page.pool.cache new-IsSound.width c.pool.valid_lengths a.sound.slots
          c.record_.block_table c.record_.num_tokens pid w a.covers full
        ∙ ap (◌++◌ (rows_in size new_page.pool.cache c.record_.block_table c.record_.num_tokens))
            new_cell
        ∙ ap (λ (xs : List Row). xs ++ chunk)
            (rows_in-agree size new_page.pool.cache c.pool.cache c.record_.block_table
              c.record_.num_tokens (λ r h. sym (other_page r h)))

    pub new-Wrote : Wrote others chunk c new_page
    new-Wrote = record {
      anchored = record {
        sound = new-IsSound;
        refs =
            λ r. ground (arith, a.refs r, unused, count-append r c.record_.block_table (pid ∷ []));
        covers = new-Covers;
      };
      added = omega (arith, length-chunk others c rows a);
      content = new_content;
      cache = λ r h. ground (arith, unused);
      lengths = λ r h. ground (arith, unused);
      config = refl;
      logical = refl;
      branch_id = refl;
      parent_id = refl;
      child_ids = refl;
    }

    pub new-OwnsTail : OwnsTail new_page
    new-OwnsTail p _ last =
        let same : some pid ≡ some p = sym (last-snoc c.record_.block_table pid) ∙ last in
        ground arith

    pub new_room :
        length new_page.record_.block_table + length new_page.pool.free_pages
        ≡ length c.record_.block_table + length c.pool.free_pages
    new_room = omega (arith, length-append c.record_.block_table (pid ∷ []), ap length top)

  module _ (pid : ℕ) (part : page_offset c ≢ 0) (last : get_last? c.record_.block_table ≡ some pid)
      (own : c.pool.refcounts pid ≡ 1) where
    abbrev pub more : Cursor
    more = written pid (page_offset c) w rows c

    once : (count pid c.record_.block_table ≡ 1) × (others pid ≡ 0)
    once = omega (arith, a.refs pid, own, count-last c.record_.block_table pid last)

    more-IsSound : IsSound more.pool
    more-IsSound =
        resize-IsSound _ pid (page_offset c + w)
          (write-IsSound c.pool pid (page_offset c) chunk a.sound room) (omega (arith, own))
          (fits others c rows a)

    more_content : content more ≡ content c ++ chunk
    more_content =
        let len : c.record_.num_tokens + w ≡ c.record_.num_tokens + length chunk =
          omega (arith, length-chunk others c rows a) in
        ap (λ (k : ℕ). rows_in size more.pool.cache c.record_.block_table k) len
        ∙ rows_in-fill size c.pool.cache a.sound.width a.sound.slots pid (page_offset c) chunk
            c.pool.valid_lengths c.record_.block_table c.record_.num_tokens a.covers last once.0
            refl part

    pub tail-Wrote : Wrote others chunk c more
    tail-Wrote = record {
      anchored = record {
        sound = more-IsSound;
        refs = a.refs;
        covers =
            Covers-fill size c.pool.valid_lengths pid w c.record_.block_table c.record_.num_tokens
              a.sound.slots a.covers last once.0 part (fits others c rows a);
      };
      added = omega (arith, length-chunk others c rows a);
      content = more_content;
      cache = λ r h. ground (arith, once);
      lengths = λ r h. ground (arith, once);
      config = refl;
      logical = refl;
      branch_id = refl;
      parent_id = refl;
      child_ids = refl;
    }
