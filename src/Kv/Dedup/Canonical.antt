-- ===== src/Kv/Dedup/Canonical.antt =====
-- `_discover_page_redirects`: the pages that stay, and the targets.
use autotree.Base.{
  ℕ, suc, ◌≤◌, ◌<◌, ◌≡◌, ◌≢◌, refl, subst, sym, inl, inr, Bool, true, false, ◌||◌, none, some, List,
  [], ◌∷◌, arith, ◌==◌, ==_iff, list_equal_refl, Ascending, Bool-cases, Option-cases, All,
  All-append,
}
use autotree.Kv.Pool.{Pool, Page, LayerKv}
use autotree.Kv.Dedup.{
  layer_equal, page_equal, Buckets, bucket, add_to_bucket, find_canonical, Redirects, redirect,
  discover,
}
use autotree.Kv.Dedup.Flow.{Rising}
use autotree.Kv.Dedup.Found.{discover-Rising}

layer_equal_refl : (a : LayerKv) → layer_equal a a ≡ true
layer_equal_refl a = ground (
  arith,
  list_equal_refl ◌==◌ (λ x. (==_iff x x).1 refl) a.k,
  list_equal_refl ◌==◌ (λ x. (==_iff x x).1 refl) a.v,
)

pub page_equal_refl : (a : Page) → page_equal a a ≡ true
unfolding page_equal
page_equal_refl = list_equal_refl _ (list_equal_refl layer_equal layer_equal_refl)

-- whether a page is a duplicate
abbrev pub has_key : ℕ → Redirects → Bool
has_key x [] = false
has_key x ((d, c) ∷ rest) = d == x || has_key x rest

redirect_self : (r : Redirects) (x : ℕ) → has_key x r ≡ false → redirect r x ≡ x
redirect_self [] x h = refl
redirect_self ((d, c) ∷ rest) x h = ground (arith, h, redirect_self rest x)

-- no target is a duplicate
abbrev pub NoChain : Redirects → Type 0
NoChain r = All (λ (x : ℕ × ℕ). has_key (x.1) r ≡ false) r

pub low_key : (x lo : ℕ) (r : Redirects) → x < lo → Rising lo r → has_key x r ≡ false
low_key x lo [] l h = refl
low_key x lo ((d, c) ∷ rest) l h =
    ground (arith, l, h.0, low_key x (suc d) rest (omega (arith, l, h.0)) h.1)

abbrev AllKnown : (ℕ → Type 0) → Buckets → Type 0
AllKnown Q known = All (λ (e : ℕ × List ℕ). All Q (e.1)) known

module _ (Q : ℕ → Type 0) where
  bucket-All : (d : ℕ) (known : Buckets) → AllKnown Q known → All Q (bucket d known)
  bucket-All d [] a = tt
  bucket-All d ((e, ids) ∷ rest) a = ground (arith, a, bucket-All d rest a.1)

  add_to_bucket-All :
      (d pid : ℕ) (known : Buckets)
      → Q pid
      → AllKnown Q known
      → AllKnown Q (add_to_bucket d pid known)
  add_to_bucket-All d pid [] f a = ((f, tt), tt)
  add_to_bucket-All d pid ((e, ids) ∷ rest) f a =
      ground (arith, a, All-append Q ids (pid ∷ []) a.0 (f, tt), add_to_bucket-All d pid rest f a.1)

  find_canonical-All :
      (p : Pool) (pid c : ℕ) (ids : List ℕ) → find_canonical p pid ids ≡ some c → All Q ids → Q c
  find_canonical-All p pid c [] h a = cc
  find_canonical-All p pid c (x ∷ ids) h a =
      elim (Bool-cases (page_equal (p.cache pid) (p.cache x))) [
        | inl same ↦ let at : x ≡ c = ground (arith, h, same) in subst Q at (a.0)
        | inr differ ↦ find_canonical-All p pid c ids (ground (arith, h, differ)) a.1
      ]

All-zip :
    {A : Type 0} (P Q R : A → Type 0) (xs : List A)
    → ((x : A) → P x → Q x → R x)
    → All P xs
    → All Q xs
    → All R xs
All-zip P Q R [] h a b = tt
All-zip P Q R (x ∷ xs) h a b = (h x a.0 b.0, All-zip P Q R xs h a.1 b.1)

All-Ascending : (lo : ℕ) (xs : List ℕ) → Ascending lo xs → All (λ x. lo ≤ x) xs
All-Ascending lo [] a = tt
All-Ascending lo (x ∷ xs) a = (
  a.0,
  All-zip _ _ _ xs (λ y h _. omega (arith, h, a.0)) (All-Ascending (suc x) xs a.1)
      (All-Ascending (suc x) xs a.1),
)

All-known :
    (P R : ℕ → Type 0) (known : Buckets)
    → ((x : ℕ) → P x → R x)
    → AllKnown P known
    → AllKnown R known
All-known P R [] h a = tt
All-known P R ((e, ids) ∷ rest) h a =
    (All-zip P P R ids (λ x k _. h x k) a.0 a.0, All-known P R rest h a.1)

module _ (digest : Page → ℕ) (p : Pool) where
  pub discover-new :
      (pid : ℕ) (rest : List ℕ) (known : Buckets)
      → find_canonical p pid (bucket (digest (p.cache pid)) known) ≡ none
      → discover digest p (pid ∷ rest) known
        ≡ discover digest p rest (add_to_bucket (digest (p.cache pid)) pid known)
  unfolding discover
  discover-new pid rest known new = rw (new, discover) refl

  pub discover-old :
      (pid c : ℕ) (rest : List ℕ) (known : Buckets)
      → find_canonical p pid (bucket (digest (p.cache pid)) known) ≡ some c
      → discover digest p (pid ∷ rest) known ≡ (pid, c) ∷ discover digest p rest known
  unfolding discover
  discover-old pid c rest known old = rw (old, discover) refl

  -- the targets are candidates, or known
  discover-targets :
      (Q : ℕ → Type 0) (candidates : List ℕ) (known : Buckets)
      → All Q candidates
      → AllKnown Q known
      → All (λ (x : ℕ × ℕ). Q (x.1)) (discover digest p candidates known)
  unfolding discover
  discover-targets Q [] known f a = tt
  discover-targets Q (pid ∷ rest) known f a =
      elim (Option-cases (find_canonical p pid (bucket (digest (p.cache pid)) known))) [
        | inl new ↦
            rw (new, All)
              (discover-targets Q rest (add_to_bucket (digest (p.cache pid)) pid known) f.1
                (add_to_bucket-All Q (digest (p.cache pid)) pid known f.0 a))
        | inr (c, old) ↦
            rw (old, All)
              (
                find_canonical-All Q p pid c (bucket (digest (p.cache pid)) known) old
                    (bucket-All Q (digest (p.cache pid)) known a),
                discover-targets Q rest known f.1 a,
              )
      ]

  pub discover-NoChain :
      (lo : ℕ) (candidates : List ℕ) (known : Buckets)
      → Ascending lo candidates
      → AllKnown (λ x. x < lo) known
      → NoChain (discover digest p candidates known)
  unfolding discover
  discover-NoChain lo [] known asc low = tt
  discover-NoChain lo (pid ∷ rest) known asc low =
      elim (Option-cases (find_canonical p pid (bucket (digest (p.cache pid)) known))) [
        | inl new ↦ subst NoChain (sym (discover-new pid rest known new)) (
            discover-NoChain (suc pid) rest (add_to_bucket (digest (p.cache pid)) pid known) asc.1 (
              add_to_bucket-All (λ x. x < suc pid) (digest (p.cache pid)) pid known (omega arith)
                (All-known (λ x. x < lo) (λ x. x < suc pid) known (λ x h. omega (arith, asc.0, h))
                  low)))
        | inr (c, old) ↦
            let below : c < lo =
              find_canonical-All (λ x. x < lo) p pid c (bucket (digest (p.cache pid)) known) old
                (bucket-All (λ x. x < lo) (digest (p.cache pid)) known low) in
            let others = discover digest p rest known in
            let rises : Rising (suc pid) others =
              discover-Rising p digest (suc pid) rest known asc.1 in
            let apart : All (λ (x : ℕ × ℕ). x.1 ≢ pid) others =
              discover-targets (λ x. x ≢ pid) rest known
                (All-zip _ _ _ rest (λ x h _ e. omega (arith, h, e))
                  (All-Ascending (suc pid) rest asc.1) (All-Ascending (suc pid) rest asc.1))
                (All-known (λ x. x < lo) (λ x. x ≢ pid) known (λ x h e. omega (arith, asc.0, h, e))
                  low) in
            let inner : All (λ (x : ℕ × ℕ). has_key (x.1) others ≡ false) others =
              discover-NoChain (suc pid) rest known asc.1 (
                All-known (λ x. x < lo) (λ x. x < suc pid) known (λ x h. omega (arith, asc.0, h))
                  low) in
            subst NoChain (sym (discover-old pid c rest known old)) (
              ground (
                arith,
                below,
                asc.0,
                low_key c (suc pid) others (omega (arith, below, asc.0)) rises,
              ),
              All-zip (λ (x : ℕ × ℕ). has_key (x.1) others ≡ false) (λ (x : ℕ × ℕ). x.1 ≢ pid) _
                  others (λ x h e. ground (arith, h, e)) inner apart,
            )
      ]
