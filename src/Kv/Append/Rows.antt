-- ===== src/Kv/Append/Rows.antt =====
-- `_append_validated` on the record at hand, with enough pages and without.
use autotree.Base.{
  ℕ, ◌+◌, ◌-◌, ◌≤◌, ◌<◌, ◌≡◌, ap, List, [], ◌∷◌, arith, length, some, get_last?, count, ceil_div,
  ceil_div_mono, ltb, le→ltb, lt→ltb, true, false, inl, inr, Bool-cases, Option-cases, List-cases,
}
use autotree.Kv.Errors.{ok, err, capacity_error}
use autotree.Kv.Config.{PoolConfig}
use autotree.Kv.Pool.{Row, require_capacity, grow_logical}
use autotree.Kv.Cover.{length-Covers}
use autotree.Kv.Tree.Loops.{validate_coverage-eq}
use autotree.Kv.Append.{Cursor, flag, copy_if, reserve, append_rows}
use autotree.Kv.Append.Cursors.{IsAnchored, OwnsTail, Wrote, Wrote-trans}
use autotree.Kv.Append.Loop.{HasRoom, Wrote-nil, Ends, write_rows-Ends}
use autotree.Kv.Append.Copy.{
  shares_tail, tail_is_shared-eq, unshared-OwnsTail, copied, copy_tail-eq, copied-Wrote,
  copied-OwnsTail, copied_room,
}

-- the pages of the table after n more tokens, with the one that a copy takes meanwhile
abbrev pub pages_needed : ℕ → Cursor → ℕ
pages_needed n c =
    ceil_div (c.record_.num_tokens + n) c.pool.config.page_size + flag (shares_tail c)

abbrev pub pages_at_hand : Cursor → ℕ
pages_at_hand c = length c.record_.block_table + length c.pool.free_pages

-- the state before the loop
pub record Ready (others : ℕ → ℕ) (n : ℕ) (c : Cursor) : Type 0 where
  pub next : Cursor
  pub runs : copy_if (shares_tail c) c ≡ (ok tt, next)
  pub wrote : Wrote others [] c next
  pub owns : OwnsTail next
  pub room : HasRoom n next

module _ (others : ℕ → ℕ) (c : Cursor) (a : IsAnchored others c) (n : ℕ)
    (enough : pages_needed n c ≤ pages_at_hand c) where
  held : length c.record_.block_table ≤ ceil_div (c.record_.num_tokens + n) c.pool.config.page_size
  held = omega (
    arith,
    length-Covers c.pool.config.page_size c.pool.valid_lengths c.record_.block_table
        c.record_.num_tokens a.sound.slots a.covers,
    ceil_div_mono c.record_.num_tokens (c.record_.num_tokens + n) c.pool.config.page_size
        a.sound.slots (omega arith),
  )

  no_copy : shares_tail c ≡ false → Ready others n c
  unfolding copy_if
  no_copy h = record {
    next = c;
    runs = rw h;
    wrote = Wrote-nil others c a;
    owns = unshared-OwnsTail others c a h;
    room = ground (arith, enough);
  }

  after_copy :
      (from to : ℕ) (rest : List ℕ)
      → get_last? c.record_.block_table ≡ some from
      → 1 < c.pool.refcounts from
      → c.pool.free_pages ≡ to ∷ rest
      → shares_tail c ≡ true
      → Ready others n c
  unfolding copy_if
  after_copy from to rest last shared top h =
      let wrote = copied-Wrote others c a from to rest last shared top in
      let same : ceil_div (c.record_.num_tokens + n)
            (copied others c a from to rest last shared top).pool.config.page_size
          ≡ ceil_div (c.record_.num_tokens + n) c.pool.config.page_size =
        ap (λ (cfg : PoolConfig). ceil_div (c.record_.num_tokens + n) cfg.page_size) wrote.config in
      record {
        next = copied others c a from to rest last shared top;
        runs = rw h (copy_tail-eq others c a from to rest last shared top);
        wrote = wrote;
        owns = copied-OwnsTail others c a from to rest last shared top;
        room =
            omega
              (arith, same, enough, ap flag h, copied_room others c a from to rest last shared top);
      }

  with_copy : shares_tail c ≡ true → Ready others n c
  with_copy h = elim (Option-cases (get_last? c.record_.block_table)) [
    | inl gone ↦ absurd (ground (arith, h, gone))
    | inr (from, last) ↦ elim (List-cases c.pool.free_pages) [
      | inl empty ↦ absurd (omega (arith, held, enough, ap flag h, ap length empty))
      | inr (to, rest, top) ↦ after_copy from to rest last (ground (arith, h, last)) top h
    ]
  ]

  ready : Ready others n c
  ready = elim (Bool-cases (shares_tail c)) [ inl yes_ ↦ with_copy yes_ | inr no_ ↦ no_copy no_ ]

  reserve-eq : reserve n (shares_tail c) c ≡ (ok tt, c)
  unfolding reserve require_capacity
  reserve-eq =
      let low : ltb (pages_needed n c) (length c.record_.block_table) ≡ false =
        le→ltb _ _ (omega (arith, held)) in
      let fit : ltb (length c.pool.free_pages) (pages_needed n c - length c.record_.block_table)
          ≡ false =
        le→ltb _ _ (omega (arith, enough)) in
      rw low (rw fit)

-- the cursor before `_adjust_logical_tokens`, and the run of `_append_validated`
pub record Appended (others : ℕ → ℕ) (rows : List Row) (c : Cursor) : Type 0 where
  pub end : Cursor
  pub runs : append_rows rows c ≡ (
    ok tt,
    record end {
      pool = record end.pool { logical_tokens = end.pool.logical_tokens + length rows };
    },
  )
  pub wrote : Wrote others rows c end

module _ (others : ℕ → ℕ) (c : Cursor) (a : IsAnchored others c) (rows : List Row) where
  in_use : (r : ℕ) → 0 < count r c.record_.block_table → 0 < c.pool.refcounts r
  in_use r h = omega (arith, a.refs r)

  pub append_rows-ends : pages_needed (length rows) c ≤ pages_at_hand c → Appended others rows c
  unfolding append_rows grow_logical
  append_rows-ends enough =
      let r : Ready others (length rows) c = ready others c a (length rows) enough in
      let e : Ends others (length rows) rows r.next =
        write_rows-Ends others (length rows) rows r.next r.wrote.anchored r.owns (omega arith)
          r.room in
      record {
        end = e.end;
        runs = rw (validate_coverage-eq c.pool c.record_ a.sound in_use a.covers) (
            rw (tail_is_shared-eq others c a)
              (rw (reserve-eq others c a (length rows) enough) (rw r.runs (rw e.runs))));
        wrote = Wrote-trans r.wrote e.wrote;
      }

  -- with too few free pages it raises before it writes
  pub append_rows-fails :
      pages_at_hand c < pages_needed (length rows) c
      → append_rows rows c ≡ (
        err (
            capacity_error
              (pages_needed (length rows) c - length c.record_.block_table)
              (length c.pool.free_pages)),
        c,
      )
  unfolding append_rows reserve require_capacity
  append_rows-fails short =
      let low : ltb (pages_needed (length rows) c) (length c.record_.block_table) ≡ false =
        le→ltb _ _ (omega arith) in
      let lack : ltb (length c.pool.free_pages)
            (pages_needed (length rows) c - length c.record_.block_table)
          ≡ true =
        lt→ltb _ _ (omega arith) in
      rw (validate_coverage-eq c.pool c.record_ a.sound in_use a.covers)
        (rw (tail_is_shared-eq others c a) (rw low (rw lack)))
