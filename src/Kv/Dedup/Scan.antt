-- ===== src/Kv/Dedup/Scan.antt =====
-- `TreeState.dedup_scan` as a whole: what it returns, and the tree that it leaves.
use autotree.Base.{
  ℕ, ◌<◌, ◌≡◌, refl, ap, subst, sym, ◌∙◌, true, false, List, [], ◌∷◌, arith, contains, Ascending,
  All, All-contains,
}
use autotree.Kv.Errors.{ok}
use autotree.Kv.Pool.{Page}
use autotree.Kv.Tree.{TreeState}
use autotree.Kv.Tree.Valid.{IsValid}
use autotree.Kv.Dedup.{
  Redirects, discover, discover_page_redirects, occurring_pages, merge_pages, dedup_scan,
}
use autotree.Kv.Dedup.Flow.{Rising}
use autotree.Kv.Dedup.Found.{IsFull, IsMerge, discover-merges, discover-Rising}
use autotree.Kv.Dedup.Checks.{
  all_covered, all_counted, contains-occurring_pages, occurring_pages-Ascending, full_among,
  full_pages-eq, contains-full_among, full_among-Ascending,
}
use autotree.Kv.Dedup.Canonical.{has_key, NoChain, discover-NoChain}
use autotree.Kv.Dedup.Distinct.{later_duplicate}
use autotree.Kv.Dedup.Outcome.{Scanned, AllDistinct, merge_pages-Scanned}

module _ (digest : Page → ℕ) (t : TreeState) (v : IsValid t) where
  abbrev keys : List ℕ
  keys = occurring_pages t.branches

  abbrev candidates : List ℕ
  candidates = full_among t.pool keys

  abbrev redirects : Redirects
  redirects = discover digest t.pool candidates []

  keys-used : All (λ r. 0 < t.pool.refcounts r) keys
  keys-used =
      All-contains _ keys λ r k. ground (arith, k, contains-occurring_pages r t.branches, v.refs r)

  candidates-IsFull : All (IsFull t.pool) candidates
  candidates-IsFull = All-contains (IsFull t.pool) candidates λ r k. record {
    full = ground (arith, k, contains-full_among t.pool r keys);
    used = ground (
      arith,
      k,
      contains-full_among t.pool r keys,
      contains-occurring_pages r t.branches,
      v.refs r,
    );
  }

  candidate : (r : ℕ) → IsFull t.pool r → contains r candidates ≡ true
  candidate r h = ground (
    arith,
    h.full,
    h.used,
    contains-full_among t.pool r keys,
    contains-occurring_pages r t.branches,
    v.refs r,
  )

  candidates-Ascending : Ascending 0 candidates
  candidates-Ascending = full_among-Ascending t.pool 0 keys (occurring_pages-Ascending t.branches)

  found : All (λ (x : ℕ × ℕ). IsMerge t.pool (x.0) (x.1)) redirects
  found = discover-merges t.pool digest candidates [] candidates-IsFull tt

  rising : Rising 0 redirects
  rising = discover-Rising t.pool digest 0 candidates [] candidates-Ascending

  scan-merges : dedup_scan digest t ≡ merge_pages redirects t
  unfolding dedup_scan discover_page_redirects
  scan-merges =
      rw (all_covered t v)
        (rw (all_counted t v) (rw (full_pages-eq t.pool keys v.sound keys-used) refl))

  -- two pages that stay are different
  stay-distinct :
      (q r : ℕ)
      → IsFull t.pool q
      → IsFull t.pool r
      → has_key q redirects ≡ false
      → has_key r redirects ≡ false
      → t.pool.cache q ≡ t.pool.cache r
      → q ≡ r
  stay-distinct q r fq fr kq kr e = ground (
    arith,
    kq,
    kr,
    (λ (l : q < r).
        later_duplicate digest t.pool 0 q r candidates [] candidates-Ascending (candidate q fq)
          (candidate r fr) l e kq),
    (λ (l : r < q).
        later_duplicate digest t.pool 0 r q candidates [] candidates-Ascending (candidate r fr)
          (candidate q fq) l (sym e) kr),
  )

  pub dedup_scan-Scanned : Scanned t (dedup_scan digest t)
  dedup_scan-Scanned = subst (Scanned t) (sym scan-merges) (
      merge_pages-Scanned t redirects v found rising
        (discover-NoChain digest t.pool 0 candidates [] candidates-Ascending tt) stay-distinct)

  -- a redirect joins two different pages, so there is none where full pages differ
  no_redirects :
      AllDistinct t
      → (rs : Redirects) → All (λ (x : ℕ × ℕ). IsMerge t.pool (x.0) (x.1)) rs
      → NoChain rs
      → rs ≡ []
  no_redirects distinct [] merges chain = refl
  no_redirects distinct ((d, c) ∷ rest) merges chain =
      let one : d ≡ c =
        distinct d c (omega (arith, merges.0.from.used, v.refs d))
          (omega (arith, merges.0.to.used, v.refs c)) merges.0.from.full merges.0.to.full
          merges.0.same in
      ground (arith, one, chain.0)

  pub dedup_scan-idle : AllDistinct t → dedup_scan digest t ≡ (ok 0, t)
  unfolding merge_pages
  dedup_scan-idle distinct =
      scan-merges
      ∙ ap (λ (rs : Redirects). merge_pages rs t)
          (no_redirects distinct redirects found
            (discover-NoChain digest t.pool 0 candidates [] candidates-Ascending tt))
