-- ===== src/Kv/Append/Loop.antt =====
-- The append loop from its first round to its last, on the pages reserved for it.
use autotree.Base.{
  ℕ, zero, suc, ◌+◌, ◌≤◌, ◌<◌, ◌≡◌, ◌≢◌, refl, ap, sym, subst, List, [], ◌∷◌, arith, length, take,
  drop, ceil_div, ceil_div-full, length-drop, length-take, take-append-drop, append-nil, ◌==◌, inl,
  inr, Bool-cases, List-cases, ==_iff,
}
use autotree.Kv.Errors.{ok}
use autotree.Kv.Pool.{Row}
use autotree.Kv.Cover.{length-Covers}
use autotree.Kv.Cover.Extend.{tail_of}
use autotree.Kv.Append.{Cursor, page_offset, write_chunk, write_rows}
use autotree.Kv.Append.Cursors.{IsAnchored, OwnsTail, Wrote, Wrote-trans, content}
use autotree.Kv.Append.Chunk.{chunk_size, write_new, write_tail}
use autotree.Kv.Append.Rounds.{
  new_page, more, new-Wrote, new-OwnsTail, new_room, tail-Wrote, some_chunk,
}

pub Wrote-nil : (others : ℕ → ℕ) (c : Cursor) → IsAnchored others c → Wrote others [] c c
Wrote-nil others c a = record {
  anchored = a;
  added = omega arith;
  content = sym (append-nil (content c));
  cache = λ r h. refl;
  lengths = λ r h. refl;
  config = refl;
  logical = refl;
  branch_id = refl;
  parent_id = refl;
  child_ids = refl;
}

-- the pages that n more tokens need are in the table or free
abbrev pub HasRoom : ℕ → Cursor → Type 0
HasRoom n c =
    ceil_div (c.record_.num_tokens + n) c.pool.config.page_size
    ≤ length c.record_.block_table + length c.pool.free_pages

-- one round of the loop from `c`
pub record Round (others : ℕ → ℕ) (rows : List Row) (c : Cursor) : Type 0 where
  pub next : Cursor
  pub step : write_chunk rows c ≡ (ok (chunk_size c rows), next)
  pub wrote : Wrote others (take (chunk_size c rows) rows) c next
  pub owns : OwnsTail next
  pub room :
      length next.record_.block_table + length next.pool.free_pages
      ≡ length c.record_.block_table + length c.pool.free_pages

-- the run of the loop from `c`
pub record Ends (others : ℕ → ℕ) (fuel : ℕ) (rows : List Row) (c : Cursor) : Type 0 where
  pub end : Cursor
  pub runs : write_rows fuel rows c ≡ (ok tt, end)
  pub wrote : Wrote others rows c end

module _ (others : ℕ → ℕ) (rows : List Row) (c : Cursor) (a : IsAnchored others c)
    (own : OwnsTail c) (some_rows : 0 < length rows) (room : HasRoom (length rows) c) where
  full-Round : page_offset c ≡ 0 → Round others rows c
  full-Round full = elim (List-cases c.pool.free_pages) [
    | inl empty ↦ absurd (
        omega (
          arith,
          room,
          ap length empty,
          ceil_div-full c.record_.num_tokens (length rows) c.pool.config.page_size a.sound.slots
              full some_rows,
          length-Covers c.pool.config.page_size c.pool.valid_lengths c.record_.block_table
              c.record_.num_tokens a.sound.slots a.covers,
        ))
    | inr (pid, rest, top) ↦ record {
      next = new_page others c rows a some_rows pid rest full top;
      step = write_new others c rows a pid rest full top;
      wrote = new-Wrote others c rows a some_rows pid rest full top;
      owns = new-OwnsTail others c rows a some_rows pid rest full top;
      room = new_room others c rows a some_rows pid rest full top;
    }
  ]

  partial-Round : page_offset c ≢ 0 → Round others rows c
  partial-Round part =
      let (pid, last, _) =
        tail_of c.pool.config.page_size c.pool.valid_lengths c.record_.block_table
          c.record_.num_tokens a.sound.slots a.covers part in
      let alone : c.pool.refcounts pid ≡ 1 = own pid part last in
      record {
        next = more others c rows a some_rows pid part last alone;
        step = write_tail others c rows a pid part last alone;
        wrote = tail-Wrote others c rows a some_rows pid part last alone;
        owns = λ q _ last'. own q part last';
        room = refl;
      }

  round : Round others rows c
  round = elim (Bool-cases (page_offset c == 0)) [
    | inl full ↦ full-Round ((==_iff (page_offset c) 0).0 full)
    | inr part ↦ partial-Round (λ full. ground (arith, part))
  ]

module _ (others : ℕ → ℕ) where
  -- one round and then the rest
  continue :
      (fuel : ℕ) (x : Row) (xs : List Row) (c : Cursor) (r : Round others (x ∷ xs) c)
      → Ends others fuel (drop (chunk_size c (x ∷ xs)) (x ∷ xs)) r.next
      → Ends others (suc fuel) (x ∷ xs) c
  unfolding write_rows
  continue fuel x xs c r rest = record {
    end = rest.end;
    runs = rw r.step rest.runs;
    wrote =
        subst (λ (rows : List Row). Wrote others rows c rest.end)
          (take-append-drop (chunk_size c (x ∷ xs)) (x ∷ xs)) (Wrote-trans r.wrote rest.wrote);
  }

  -- what a round leaves to write still has room
  keeps_room :
      (rows : List Row) (c : Cursor) (r : Round others rows c)
      → chunk_size c rows ≤ length rows
      → HasRoom (length rows) c
      → HasRoom (length (drop (chunk_size c rows) rows)) r.next
  keeps_room rows c r part room =
      let sum : r.next.record_.num_tokens + length (drop (chunk_size c rows) rows)
          ≡ c.record_.num_tokens + length rows =
        omega (
          arith,
          r.wrote.added,
          length-take (chunk_size c rows) rows,
          length-drop (chunk_size c rows) rows,
        ) in
      let same : ceil_div (r.next.record_.num_tokens + length (drop (chunk_size c rows) rows))
            r.next.pool.config.page_size
          ≡ ceil_div (c.record_.num_tokens + length rows) c.pool.config.page_size =
        rw r.wrote.config (ap (λ (n : ℕ). ceil_div n c.pool.config.page_size) sum) in
      omega (arith, same, r.room)

  pub write_rows-Ends :
      (fuel : ℕ) (rows : List Row) (c : Cursor)
      → IsAnchored others c
      → OwnsTail c
      → length rows ≤ fuel
      → HasRoom (length rows) c
      → Ends others fuel rows c
  unfolding write_rows
  write_rows-Ends zero [] c a own enough room = record {
    end = c;
    runs = refl;
    wrote = Wrote-nil others c a;
  }
  write_rows-Ends zero (x ∷ xs) c a own enough room = absurd (omega arith)
  write_rows-Ends (suc fuel) [] c a own enough room = record {
    end = c;
    runs = refl;
    wrote = Wrote-nil others c a;
  }
  write_rows-Ends (suc fuel) (x ∷ xs) c a own enough room =
      let r : Round others (x ∷ xs) c = round others (x ∷ xs) c a own (omega arith) room in
      let some_written : 0 < chunk_size c (x ∷ xs) = some_chunk others c (x ∷ xs) a (omega arith) in
      continue fuel x xs c r (
        write_rows-Ends fuel (drop (chunk_size c (x ∷ xs)) (x ∷ xs)) r.next r.wrote.anchored r.owns
          (omega (arith, length-drop (chunk_size c (x ∷ xs)) (x ∷ xs)))
          (keeps_room (x ∷ xs) c r (omega arith) room))
