-- ===== src/Kv/Append/Copy.antt =====
-- Copy-on-write: `copy_tail` where another branch shares the last page.
use autotree.Base.{
  ℕ, ◌+◌, ◌<◌, ◌≡◌, refl, ap, sym, ◌∙◌, subst, List, [], ◌∷◌, ◌++◌, arith, length, some, none,
  get_last?, set_last, length-set_last, count, append-nil, ltb, ◌==◌, false, Bool, if◌then◌else◌,
  inl, inr, Bool-cases,
}
use autotree.Kv.Errors.{ok}
use autotree.Kv.Config.{PoolConfig}
use autotree.Kv.Pool.{release}
use autotree.Kv.Pool.Sound.{IsSound, release-IsSound, free-eq, refcount-eq}
use autotree.Kv.Pool.Alloc.{duplicate, copy_page-eq, duplicate-IsSound}
use autotree.Kv.Cover.{Covers, Covers-agree, rows_in-agree, rows_in}
use autotree.Kv.Cover.Extend.{tail_of, count-last}
use autotree.Kv.Cover.Tail.{rows_in-set_last, Covers-set_last, count-set_last, last-set_last}
use autotree.Kv.Append.{Cursor, page_offset, set_table, copy_tail, tail_is_shared}
use autotree.Kv.Append.Cursors.{IsAnchored, OwnsTail, Wrote, content}

-- the specification of `needs_cow`
abbrev pub shares_tail : Cursor → Bool
shares_tail c = if page_offset c == 0 then false else elim (get_last? c.record_.block_table) [
  | none ↦ false
  | some pid ↦ ltb 1 (c.pool.refcounts pid)
]

module _ (others : ℕ → ℕ) (c : Cursor) (a : IsAnchored others c) where
  last_used : (pid : ℕ) → get_last? c.record_.block_table ≡ some pid → 0 < c.pool.refcounts pid
  last_used pid last = omega (arith, a.refs pid, count-last c.record_.block_table pid last)

  pub tail_is_shared-eq : tail_is_shared c ≡ (ok (shares_tail c), c)
  unfolding tail_is_shared
  tail_is_shared-eq = elim (Bool-cases (page_offset c == 0)) [
    | inl full ↦ rw full
    | inr part ↦
        let (pid, last, _) =
          tail_of c.pool.config.page_size c.pool.valid_lengths c.record_.block_table
            c.record_.num_tokens a.sound.slots a.covers (λ z. ground (arith, part)) in
        rw part (rw last (rw (refcount-eq c.pool pid a.sound (last_used pid last))))
  ]

  -- a tail that is not shared is the branch's own
  pub unshared-OwnsTail : shares_tail c ≡ false → OwnsTail c
  unshared-OwnsTail h pid part last = ground (arith, last_used pid last, h, part, last)

  module _ (from to : ℕ) (rest : List ℕ) (last : get_last? c.record_.block_table ≡ some from)
      (shared : 1 < c.pool.refcounts from) (top : c.pool.free_pages ≡ to ∷ rest) where
    abbrev pub copied : Cursor
    copied =
        set_table (set_last to c.record_.block_table)
          (record c { pool = release from (duplicate from to rest c.pool) })

    fresh : (c.pool.refcounts to ≡ 0) × (count to c.record_.block_table ≡ 0) × (others to ≡ 0)
    fresh = ground (arith, a.sound.free_iff to, a.refs to)

    double-IsSound : IsSound (duplicate from to rest c.pool)
    double-IsSound = duplicate-IsSound c.pool from to rest a.sound (omega (arith, shared)) top

    still_used : 0 < (duplicate from to rest c.pool).refcounts from
    still_used = ground (arith, fresh)

    pub copy_tail-eq : copy_tail c ≡ (ok tt, copied)
    unfolding copy_tail
    copy_tail-eq = rw last (
        rw (copy_page-eq c.pool from to rest a.sound (omega (arith, shared)) top)
          (rw (free-eq (duplicate from to rest c.pool) from double-IsSound still_used)))

    same_length :
        (r : ℕ)
        → 0 < count r c.record_.block_table
        → c.pool.valid_lengths r ≡ copied.pool.valid_lengths r
    same_length r h = ground (arith, fresh)

    same_cell : (r : ℕ) → 0 < count r c.record_.block_table → copied.pool.cache r ≡ c.pool.cache r
    same_cell r h = ground (arith, fresh)

    same_config : copied.pool.config ≡ c.pool.config
    same_config = ground arith

    copied-Covers :
        Covers c.pool.config.page_size copied.pool.valid_lengths copied.record_.block_table
          c.record_.num_tokens
    copied-Covers =
        Covers-set_last c.pool.config.page_size copied.pool.valid_lengths from to
          c.record_.block_table c.record_.num_tokens last (ground (arith, fresh))
          (Covers-agree c.pool.config.page_size c.pool.valid_lengths copied.pool.valid_lengths
            c.record_.block_table c.record_.num_tokens same_length a.covers)

    copied_content :
        rows_in c.pool.config.page_size copied.pool.cache copied.record_.block_table
          c.record_.num_tokens
        ≡ content c ++ []
    copied_content =
        rows_in-set_last c.pool.config.page_size copied.pool.cache from to c.record_.block_table
          c.record_.num_tokens last (ground (arith, fresh))
        ∙ rows_in-agree c.pool.config.page_size copied.pool.cache c.pool.cache c.record_.block_table
            c.record_.num_tokens same_cell
        ∙ sym (append-nil (content c))

    pub copied-OwnsTail : OwnsTail copied
    copied-OwnsTail pid _ last' =
        let same : some to ≡ some pid =
          sym (last-set_last from to c.record_.block_table last) ∙ last' in
        ground (arith, fresh)

    pub copied_room :
        length copied.record_.block_table + length copied.pool.free_pages + 1
        ≡ length c.record_.block_table + length c.pool.free_pages
    copied_room = ground (arith, fresh, length-set_last to c.record_.block_table, ap length top)

    pub copied-Wrote : Wrote others [] c copied
    copied-Wrote = record {
      anchored = record {
        sound = release-IsSound (duplicate from to rest c.pool) from double-IsSound still_used;
        refs = λ r.
            ground (arith, a.refs r, fresh, count-set_last from to r c.record_.block_table last);
        covers =
            subst
              (λ (cfg : PoolConfig).
                Covers cfg.page_size copied.pool.valid_lengths copied.record_.block_table
                  c.record_.num_tokens)
              (sym same_config) copied-Covers;
      };
      added = omega arith;
      content =
          ap
            (λ (cfg : PoolConfig).
              rows_in cfg.page_size copied.pool.cache copied.record_.block_table
                c.record_.num_tokens)
            same_config
          ∙ copied_content;
      cache = λ r h. ground (arith, fresh);
      lengths = λ r h. ground (arith, fresh);
      config = ground arith;
      logical = ground arith;
      branch_id = refl;
      parent_id = refl;
      child_ids = refl;
    }
