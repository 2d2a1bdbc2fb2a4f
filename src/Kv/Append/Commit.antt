-- ===== src/Kv/Append/Commit.antt =====
-- The append seen from the tree: the branch at hand and the others.
use autotree.Base.{
  ℕ, ◌+◌, ◌<◌, ◌≡◌, ◌≢◌, ap, sym, ◌∙◌, List, arith, length, some, count, ◌==◌, true, contains,
  if◌then◌else◌, inl, inr, ◌⊎◌, Bool-cases, Option-cases,
}
use autotree.Kv.Pool.{Row}
use autotree.Kv.Pool.Sound.{logical-IsSound}
use autotree.Kv.Branches.{
  Branch, lookup, put, erase, total, references, lookup-put, lookup-erase_ne, branch_id-lookup,
  put-Unique, total-erase, total-put_old, le-total,
}
use autotree.Kv.Cover.{Covers, Covers-agree, rows_in-agree}
use autotree.Kv.Tree.{TreeState}
use autotree.Kv.Tree.Valid.{IsValid, IsParent, IsChild}
use autotree.Kv.Tree.View.{view, view_append, branch_rows}
use autotree.Kv.Append.{Cursor}
use autotree.Kv.Append.Cursors.{IsAnchored, Wrote}

-- the record of a branch with the pool of its tree
abbrev pub cursor : TreeState → Branch → Cursor
cursor t b = record { pool = t.pool; record_ = b }

module _ (t : TreeState) (i : ℕ) (b : Branch) (v : IsValid t)
    (live : lookup i t.branches ≡ some b) where
  abbrev pub others : ℕ → ℕ
  others r = references r (erase i t.branches)

  same_id : b.branch_id ≡ i
  same_id = branch_id-lookup i t.branches b live

  pub anchored : IsAnchored others (cursor t b)
  anchored = record {
    sound = v.sound;
    refs =
        λ r. omega (arith, v.refs r, total-erase (λ c. count r c.block_table) i b t.branches live);
    covers = v.covers i b live;
  }

  -- the pages of another branch are referred to by others
  other_pages :
      (j : ℕ) (c : Branch) (r : ℕ)
      → j ≢ i
      → lookup j t.branches ≡ some c
      → 0 < count r c.block_table
      → 0 < others r
  other_pages j c r ne h k = omega (
    arith,
    le-total (λ (d : Branch). count r d.block_table) j c (erase i t.branches)
        (lookup-erase_ne j i t.branches ne ∙ h),
  )

  module _ (rows : List Row) (d : Cursor) (w : Wrote others rows (cursor t b) d) where
    abbrev pub appended : TreeState
    appended = record t {
      pool = record d.pool { logical_tokens = d.pool.logical_tokens + length rows };
      branches = put d.record_ t.branches;
    }

    new_id : d.record_.branch_id ≡ i
    new_id = w.branch_id ∙ same_id

    lookup-appended :
        (j : ℕ)
        → lookup j appended.branches ≡ (if i == j then some d.record_ else lookup j t.branches)
    lookup-appended j = ground (arith, lookup-put j d.record_ t.branches, new_id)

    total-appended :
        (f : Branch → ℕ) → total f appended.branches + f b ≡ total f t.branches + f d.record_
    total-appended f =
        total-put_old f d.record_ b t.branches (ap (λ (k : ℕ). lookup k t.branches) new_id ∙ live)

    appended-refs : (r : ℕ) → appended.pool.refcounts r ≡ references r appended.branches
    appended-refs r = omega (
      arith,
      w.anchored.refs r,
      total-appended (λ c. count r c.block_table),
      total-erase (λ c. count r c.block_table) i b t.branches live,
    )

    other-Covers :
        (j : ℕ) (c : Branch)
        → j ≢ i
        → lookup j t.branches ≡ some c
        → Covers d.pool.config.page_size d.pool.valid_lengths c.block_table c.num_tokens
    other-Covers j c ne h = rw w.config (
        Covers-agree t.pool.config.page_size t.pool.valid_lengths d.pool.valid_lengths c.block_table
          c.num_tokens (λ r k. sym (w.lengths r (other_pages j c r ne h k))) (v.covers j c h))

    -- a branch after the append is the grown one or an old one
    appended-cases :
        (j : ℕ) (c : Branch)
        → lookup j appended.branches ≡ some c
        → ((j ≡ i) × (c ≡ d.record_)) ⊎ ((j ≢ i) × (lookup j t.branches ≡ some c))
    appended-cases j c h = elim (Bool-cases (i == j)) [
      | inl here ↦ inl (ground arith, ground (arith, lookup-appended j))
      | inr there ↦ inr (λ e. ground arith, ground (arith, lookup-appended j))
    ]

    appended-Covers :
        (j : ℕ) (c : Branch)
        → lookup j appended.branches ≡ some c
        → Covers d.pool.config.page_size d.pool.valid_lengths c.block_table c.num_tokens
    appended-Covers j c h = elim (appended-cases j c h) [
      | inl (_, e) ↦ rw e w.anchored.covers
      | inr (ne, old) ↦ other-Covers j c ne old
    ]

    grown_entry : lookup i appended.branches ≡ some d.record_
    grown_entry = ground (arith, lookup-appended i)

    IsParent-kept : (j k : ℕ) → IsParent t.branches j k → IsParent appended.branches j k
    IsParent-kept j k p = elim (Bool-cases (i == k)) [
      | inl here ↦
          let same : p.entry ≡ b = ground (arith, p.live, live) in
          record {
            older = p.older;
            entry = d.record_;
            live = ground (arith, grown_entry);
            listed =
                ap (contains j) w.child_ids
                ∙ ap (λ (c : Branch). contains j c.child_ids) (sym same)
                ∙ p.listed;
          }
      | inr there ↦ record {
        older = p.older;
        entry = p.entry;
        live = ground (arith, lookup-appended k, p.live);
        listed = p.listed;
      }
    ]

    IsChild-kept : (j k : ℕ) → IsChild t.branches j k → IsChild appended.branches j k
    IsChild-kept j k q = elim (Bool-cases (i == k)) [
      | inl here ↦
          let same : b ≡ q.entry = ground (arith, q.live, live) in
          record {
            entry = d.record_;
            live = ground (arith, grown_entry);
            names = w.parent_id ∙ ap (λ (c : Branch). c.parent_id) same ∙ q.names;
          }
      | inr there ↦ record {
        entry = q.entry;
        live = ground (arith, lookup-appended k, q.live);
        names = q.names;
      }
    ]

    appended-parents :
        (j k : ℕ) (c : Branch)
        → lookup j appended.branches ≡ some c
        → c.parent_id ≡ some k
        → IsParent appended.branches j k
    appended-parents j k c h p = elim (appended-cases j c h) [
      | inl (at, e) ↦
          let named : b.parent_id ≡ some k =
            sym w.parent_id ∙ ap (λ (x : Branch). x.parent_id) (sym e) ∙ p in
          IsParent-kept j k (v.parents j k b (ap (λ (n : ℕ). lookup n t.branches) at ∙ live) named)
      | inr (_, old) ↦ IsParent-kept j k (v.parents j k c old p)
    ]

    appended-children :
        (j k : ℕ) (c : Branch)
        → lookup j appended.branches ≡ some c
        → contains k c.child_ids ≡ true
        → IsChild appended.branches j k
    appended-children j k c h p = elim (appended-cases j c h) [
      | inl (at, e) ↦
          let listed : contains k b.child_ids ≡ true =
            ap (contains k) (sym w.child_ids)
            ∙ ap (λ (x : Branch). contains k x.child_ids) (sym e)
            ∙ p in
          IsChild-kept j k (v.children j k b (ap (λ (n : ℕ). lookup n t.branches) at ∙ live) listed)
      | inr (_, old) ↦ IsChild-kept j k (v.children j k c old p)
    ]

    pub appended-IsValid : IsValid appended
    appended-IsValid = record {
      sound = logical-IsSound d.pool _ w.anchored.sound;
      unique = put-Unique d.record_ t.branches v.unique;
      refs = appended-refs;
      covers = appended-Covers;
      tokens = omega (arith, v.tokens, w.logical, w.added, total-appended (λ c. c.num_tokens));
      fresh = λ j h. ground (arith, lookup-appended j, v.fresh j, live);
      parents = appended-parents;
      children = appended-children;
    }

    other_rows :
        (j : ℕ) (c : Branch)
        → j ≢ i
        → lookup j t.branches ≡ some c
        → branch_rows appended.pool c ≡ branch_rows t.pool c
    other_rows j c ne h = rw w.config (
        rows_in-agree t.pool.config.page_size d.pool.cache t.pool.cache c.block_table c.num_tokens
          (λ r k. w.cache r (other_pages j c r ne h k)))

    pub view-appended : (j : ℕ) → view appended j ≡ view_append (view t) i rows j
    view-appended j = elim (Bool-cases (i == j)) [
      | inl here ↦
          let mine : lookup j appended.branches ≡ some d.record_ = lookup-appended j ∙ rw here in
          rw (mine, here, live) (λ k. some (record { parent = w.parent_id k; rows = w.content k }))
      | inr there ↦
          let ne : j ≢ i = λ e. ground arith in
          let kept : lookup j appended.branches ≡ lookup j t.branches =
            lookup-appended j ∙ rw there in
          elim (Option-cases (lookup j t.branches)) [
            | inl gone ↦ rw (kept, there, gone)
            | inr (c, h) ↦
                rw (kept, there, h)
                  (λ k. some (record { parent = c.parent_id; rows = other_rows j c ne h k }))
          ]
    ]
