-- ===== src/Kv/Dedup/Merged.antt =====
-- The tree after a merge: its branches, its counts and what its tables spell.
use autotree.Base.{
  ℕ, ◌-◌, ◌<◌, ◌≡◌, refl, ap, sym, ◌∙◌, true, none, some, List, [], ◌∷◌, map, arith, count,
  contains, All, inl, inr, Option-cases,
}
use autotree.Kv.Pool.{Pool, Page, Row}
use autotree.Kv.Branches.{Branch, lookup, Unique, total, references, le-total}
use autotree.Kv.Cover.{Covers, Covers-agree, rows_in}
use autotree.Kv.Tree.{TreeState}
use autotree.Kv.Tree.Valid.{IsValid, IsParent, IsChild}
use autotree.Kv.Tree.View.{view, branch_rows}
use autotree.Kv.Dedup.{Redirects, redirect, redirect_branch}
use autotree.Kv.Dedup.Flow.{Rising, count-targets, count-sources, references-redirected}
use autotree.Kv.Dedup.Found.{IsMerge}
use autotree.Kv.Dedup.Merge.{merged, merged-Released, occ}

-- a redirected page has the same bytes and the same length
redirect-cache :
    (p : Pool) (r : Redirects) (x : ℕ)
    → All (λ (y : ℕ × ℕ). IsMerge p (y.0) (y.1)) r
    → p.cache (redirect r x) ≡ p.cache x
redirect-cache p [] x a = refl
redirect-cache p ((d, c) ∷ rest) x a = ground (arith, a.0.same, redirect-cache p rest x a.1)

redirect-lengths :
    (p : Pool) (r : Redirects) (x : ℕ)
    → All (λ (y : ℕ × ℕ). IsMerge p (y.0) (y.1)) r
    → p.valid_lengths (redirect r x) ≡ p.valid_lengths x
redirect-lengths p [] x a = refl
redirect-lengths p ((d, c) ∷ rest) x a =
    ground (arith, a.0.from.full, a.0.to.full, redirect-lengths p rest x a.1)

Covers-map :
    (size : ℕ) (lens : ℕ → ℕ) (f : ℕ → ℕ) (table : List ℕ) (n : ℕ)
    → ((x : ℕ) → lens (f x) ≡ lens x)
    → Covers size lens table n
    → Covers size lens (map f table) n
Covers-map size lens f [] n h c = c
Covers-map size lens f (x ∷ table) n h c =
    (c.0, h x ∙ c.1, Covers-map size lens f table (n - size) h c.2)

rows_in-map :
    (size : ℕ) (cache : ℕ → Page) (f : ℕ → ℕ) (table : List ℕ) (n : ℕ)
    → ((x : ℕ) → cache (f x) ≡ cache x)
    → rows_in size cache (map f table) n ≡ rows_in size cache table n
rows_in-map size cache f [] n h = refl
rows_in-map size cache f (x ∷ table) n h =
    ground (arith, h x, rows_in-map size cache f table (n - size) h)

total-map :
    (f : Branch → ℕ) (g : Branch → Branch) (bs : List Branch)
    → ((b : Branch) → f (g b) ≡ f b)
    → total f (map g bs) ≡ total f bs
total-map f g [] h = refl
total-map f g (b ∷ bs) h = omega (arith, h b, total-map f g bs h)

module _ (r : Redirects) where
  lookup-live :
      (i : ℕ) (b : Branch) (bs : List Branch)
      → lookup i bs ≡ some b
      → lookup i (map (redirect_branch r) bs) ≡ some (redirect_branch r b)
  lookup-live i b [] h = cc
  lookup-live i b (c ∷ bs) h = ground (arith, h, lookup-live i b bs)

  lookup-gone :
      (i : ℕ) (bs : List Branch) → lookup i bs ≡ none → lookup i (map (redirect_branch r) bs) ≡ none
  lookup-gone i [] h = refl
  lookup-gone i (c ∷ bs) h = ground (arith, h, lookup-gone i bs)

  -- a redirected branch comes from a branch
  lookup-origin :
      (i : ℕ) (b : Branch) (bs : List Branch)
      → lookup i (map (redirect_branch r) bs) ≡ some b
      → (a : Branch) × (lookup i bs ≡ some a) × (b ≡ redirect_branch r a)
  lookup-origin i b bs h = elim (Option-cases (lookup i bs)) [
    | inl gone ↦ ground (arith, h, lookup-gone i bs gone)
    | inr (a, live) ↦ (a, live, ground (arith, h, lookup-live i a bs live))
  ]

  Unique-map : (bs : List Branch) → Unique bs → Unique (map (redirect_branch r) bs)
  Unique-map [] u = tt
  Unique-map (b ∷ bs) u = (lookup-gone b.branch_id bs u.0, Unique-map bs u.1)

module _ (t : TreeState) (r : Redirects) (v : IsValid t)
    (found : All (λ (x : ℕ × ℕ). IsMerge t.pool (x.0) (x.1)) r) (rising : Rising 0 r) where
  abbrev after : TreeState
  after = merged t r v found rising

  refs-kept : (q : ℕ) → after.pool.refcounts q ≡ references q after.branches
  refs-kept q = omega (
    arith,
    (merged-Released t r v found rising).dropped q,
    v.refs q,
    references-redirected q 0 r t.branches rising,
    count-targets (occ t r v found rising) q r,
    count-sources (occ t r v found rising) q r,
  )

  Covers-kept :
      (i : ℕ) (b : Branch)
      → lookup i after.branches ≡ some b
      → Covers after.pool.config.page_size after.pool.valid_lengths b.block_table b.num_tokens
  Covers-kept i b h =
      let (a, live, same) = lookup-origin r i b t.branches h in
      let moved : Covers t.pool.config.page_size t.pool.valid_lengths
          (map (redirect r) a.block_table) a.num_tokens =
        Covers-map t.pool.config.page_size t.pool.valid_lengths (redirect r) a.block_table
          a.num_tokens (λ x. redirect-lengths t.pool r x found) (v.covers i a live) in
      let e = merged-Released t r v found rising in
      let held : (q : ℕ)
          → 0 < count q b.block_table
          → t.pool.valid_lengths q ≡ after.pool.valid_lengths q =
        λ q k. sym (
          e.kept q (
            omega (
              arith,
              k,
              refs-kept q,
              le-total (λ b. count q b.block_table) i b after.branches h,
            ))) in
      rw (e.config, same)
        (Covers-agree t.pool.config.page_size t.pool.valid_lengths after.pool.valid_lengths
          (map (redirect r) a.block_table) a.num_tokens (λ q k. held q (rw same k)) moved)

  parents-kept :
      (i j : ℕ) (b : Branch)
      → lookup i after.branches ≡ some b
      → b.parent_id ≡ some j
      → IsParent after.branches i j
  parents-kept i j b h names =
      let (a, live, same) = lookup-origin r i b t.branches h in
      let up = v.parents i j a live (sym (ap (λ (b : Branch). b.parent_id) same) ∙ names) in
      record {
        older = up.older;
        entry = redirect_branch r up.entry;
        live = lookup-live r j up.entry t.branches up.live;
        listed = up.listed;
      }

  children-kept :
      (i c : ℕ) (b : Branch)
      → lookup i after.branches ≡ some b
      → contains c b.child_ids ≡ true
      → IsChild after.branches i c
  children-kept i c b h listed =
      let (a, live, same) = lookup-origin r i b t.branches h in
      let down =
        v.children i c a live (ap (λ (b : Branch). contains c b.child_ids) (sym same) ∙ listed) in
      record {
        entry = redirect_branch r down.entry;
        live = lookup-live r c down.entry t.branches down.live;
        names = down.names;
      }

  pub merged-IsValid : IsValid (merged t r v found rising)
  merged-IsValid =
      let e = merged-Released t r v found rising in
      record {
        sound = e.sound;
        unique = Unique-map r t.branches v.unique;
        refs = refs-kept;
        covers = Covers-kept;
        tokens =
            e.logical
            ∙ v.tokens
            ∙ sym (total-map (λ b. b.num_tokens) (redirect_branch r) t.branches (λ _. refl));
        fresh = λ i h. lookup-gone r i t.branches (v.fresh i h);
        parents = parents-kept;
        children = children-kept;
      }

  same_rows : (b : Branch) → branch_rows after.pool (redirect_branch r b) ≡ branch_rows t.pool b
  same_rows b =
      let e = merged-Released t r v found rising in
      rw (e.cache, e.config)
        (rows_in-map t.pool.config.page_size t.pool.cache (redirect r) b.block_table b.num_tokens
          (λ x. redirect-cache t.pool r x found))

  -- no branch gains or loses a token
  pub view-merged : (j : ℕ) → view (merged t r v found rising) j ≡ view t j
  view-merged j = elim (Option-cases (lookup j t.branches)) [
    | inl gone ↦ rw (gone, lookup-gone r j t.branches gone) refl
    | inr (b, live) ↦
        rw (live, lookup-live r j b t.branches live)
          (ap (λ (xs : List Row). some (record { parent = b.parent_id; rows = xs })) (same_rows b))
  ]
