-- ===== src/Kv/Dedup/Outcome.antt =====
-- What a merge leaves, and the outcome of a scan.
use autotree.Base.{◌+◌, ℕ, ◌<◌, ◌≡◌, refl, ap, subst, sym, ◌∙◌, false, [], ◌∷◌, arith, length, All}
use autotree.Kv.Errors.{Result, ok}
use autotree.Kv.Config.{PoolConfig}
use autotree.Kv.Pool.{used_pages, Page}
use autotree.Kv.Branches.{references}
use autotree.Kv.Tree.{TreeState}
use autotree.Kv.Tree.Valid.{IsValid}
use autotree.Kv.Tree.View.{view}
use autotree.Kv.Dedup.{Redirects, merge_pages}
use autotree.Kv.Dedup.Flow.{Rising}
use autotree.Kv.Dedup.Found.{IsFull, IsMerge}
use autotree.Kv.Dedup.Canonical.{has_key, NoChain}
use autotree.Kv.Dedup.Reclaim.{merged-reclaims}
use autotree.Kv.Dedup.Origin.{references-origin, redirect-no_key, redirect-used}
use autotree.Kv.Dedup.Merge.{merged, merge_pages-eq, merged-Released}
use autotree.Kv.Dedup.Merged.{merged-IsValid, view-merged}

-- no two full pages of the tables have the same bytes
abbrev pub AllDistinct : TreeState → Type 0
AllDistinct t =
    (q r : ℕ)
    → 0 < references q t.branches
    → 0 < references r t.branches
    → t.pool.valid_lengths q ≡ t.pool.config.page_size
    → t.pool.valid_lengths r ≡ t.pool.config.page_size
    → t.pool.cache q ≡ t.pool.cache r
    → q ≡ r

-- the outcome of a scan
pub record Scanned (t : TreeState) (m : Result ℕ × TreeState) : Type 0 where
  pub merges : ℕ
  pub after : TreeState
  pub runs : m ≡ (ok merges, after)
  pub valid : IsValid after
  pub views : (j : ℕ) → view after j ≡ view t j
  pub distinct : AllDistinct after
  pub reclaimed : used_pages after.pool + merges ≡ used_pages t.pool

-- of the pages that are no duplicates, two with the same bytes are one
abbrev StayDistinct : TreeState → Redirects → Type 0
StayDistinct t rs =
    (q r : ℕ)
    → IsFull t.pool q
    → IsFull t.pool r
    → has_key q rs ≡ false
    → has_key r rs ≡ false
    → t.pool.cache q ≡ t.pool.cache r
    → q ≡ r

module _ (t : TreeState) (rs : Redirects) (v : IsValid t)
    (found : All (λ (x : ℕ × ℕ). IsMerge t.pool (x.0) (x.1)) rs) (rising : Rising 0 rs)
    (chain : NoChain rs) (stay : StayDistinct t rs) where
  abbrev after_merge : TreeState
  after_merge = merged t rs v found rising

  -- a page in use after the merge was full and in use before, and is no duplicate
  survivor :
      (q : ℕ)
      → 0 < references q after_merge.branches
      → after_merge.pool.valid_lengths q ≡ after_merge.pool.config.page_size
      → IsFull t.pool q × (has_key q rs ≡ false)
  survivor q used full =
      let (x, old, at) = references-origin rs q t.branches used in
      let e = merged-Released t rs v found rising in
      let now : 0 < after_merge.pool.refcounts q =
        omega (arith, used, (merged-IsValid t rs v found rising).refs q) in
      (
        record {
          full = sym (e.kept q now) ∙ full ∙ ap (λ (c : PoolConfig). c.page_size) e.config;
          used =
              subst (λ z. 0 < t.pool.refcounts z) at
                (redirect-used t.pool rs x found (omega (arith, old, v.refs x)));
        },
        subst (λ z. has_key z rs ≡ false) at (redirect-no_key rs rs x refl chain),
      )

  merged-AllDistinct : AllDistinct after_merge
  merged-AllDistinct q r uq ur fq fr e =
      let a = survivor q uq fq in
      let b = survivor r ur fr in
      let bytes = (merged-Released t rs v found rising).cache in
      stay q r a.0 b.0 a.1 b.1
        (sym (ap (λ (f : ℕ → Page). f q) bytes) ∙ e ∙ ap (λ (f : ℕ → Page). f r) bytes)

pub merge_pages-Scanned :
    (t : TreeState) (rs : Redirects) (v : IsValid t)
    → All (λ (x : ℕ × ℕ). IsMerge t.pool (x.0) (x.1)) rs
    → Rising 0 rs
    → NoChain rs
    → StayDistinct t rs
    → Scanned t (merge_pages rs t)
unfolding merge_pages
merge_pages-Scanned t [] v found rising chain stay = record {
  merges = 0;
  after = t;
  runs = refl;
  valid = v;
  views = λ j. refl;
  distinct = λ q r uq ur fq fr e.
      stay q r (record { full = fq; used = omega (arith, uq, v.refs q) })
        (record { full = fr; used = omega (arith, ur, v.refs r) }) refl refl e;
  reclaimed = omega arith;
}
merge_pages-Scanned t (x ∷ xs) v found rising chain stay = record {
  merges = length (x ∷ xs);
  after = merged t (x ∷ xs) v found rising;
  runs = merge_pages-eq t x xs v found rising;
  valid = merged-IsValid t (x ∷ xs) v found rising;
  views = view-merged t (x ∷ xs) v found rising;
  distinct = merged-AllDistinct t (x ∷ xs) v found rising chain stay;
  reclaimed = merged-reclaims t (x ∷ xs) v found rising chain;
}
