-- ===== src/Kv/Dedup/Found.antt =====
-- `_discover_page_redirects`: what is true of every redirect that it finds.
use autotree.Base.{
  ℕ, suc, ◌≤◌, ◌<◌, ◌≡◌, subst, inl, inr, true, some, List, [], ◌∷◌, arith, ◌==◌, ==_iff,
  list_equal, list_equal_sound, Ascending, Bool-cases, Option-cases, All, All-append,
}
use autotree.Kv.Pool.{Pool, Page, LayerKv}
use autotree.Kv.Dedup.{
  layer_equal, page_equal, Buckets, bucket, add_to_bucket, find_canonical, Redirects, discover,
}
use autotree.Kv.Dedup.Flow.{Rising}

layer_equal_sound : (a b : LayerKv) → layer_equal a b ≡ true → a ≡ b
unfolding list_equal
layer_equal_sound a b h = ground (
  arith,
  list_equal_sound ◌==◌ (λ x y. (==_iff x y).0) a.k b.k,
  list_equal_sound ◌==◌ (λ x y. (==_iff x y).0) a.v b.v,
  h,
)

page_equal_sound : (a b : Page) → page_equal a b ≡ true → a ≡ b
unfolding page_equal
page_equal_sound = list_equal_sound _ (list_equal_sound layer_equal layer_equal_sound)

Rising-weaken : (lo hi : ℕ) (r : Redirects) → lo ≤ hi → Rising hi r → Rising lo r
Rising-weaken lo hi [] h a = tt
Rising-weaken lo hi (x ∷ rest) h a = (omega arith, a.1)

-- a page in use that has no room left
pub record IsFull (p : Pool) (r : ℕ) : Type 0 where
  pub full : p.valid_lengths r ≡ p.config.page_size
  pub used : 0 < p.refcounts r

-- two full pages in use with the same bytes
pub record IsMerge (p : Pool) (d c : ℕ) : Type 0 where
  pub same : p.cache d ≡ p.cache c
  pub from : IsFull p d
  pub to : IsFull p c

abbrev AllFull : Pool → Buckets → Type 0
AllFull p known = All (λ (e : ℕ × List ℕ). All (IsFull p) (e.1)) known

module _ (p : Pool) where
  find_canonical-merges :
      (pid c : ℕ) (ids : List ℕ)
      → find_canonical p pid ids ≡ some c
      → IsFull p pid
      → All (IsFull p) ids
      → IsMerge p pid c
  find_canonical-merges pid c [] h f a = cc
  find_canonical-merges pid c (x ∷ ids) h f a =
      elim (Bool-cases (page_equal (p.cache pid) (p.cache x))) [
        | inl same ↦
            let at : x ≡ c = ground (arith, h, same) in
            subst (IsMerge p pid) at (record {
              same = page_equal_sound (p.cache pid) (p.cache x) same;
              from = f;
              to = a.0;
            })
        | inr differ ↦ find_canonical-merges pid c ids (ground (arith, h, differ)) f a.1
      ]

  bucket-All : (d : ℕ) (known : Buckets) → AllFull p known → All (IsFull p) (bucket d known)
  bucket-All d [] a = tt
  bucket-All d ((e, ids) ∷ rest) a = ground (arith, a, bucket-All d rest a.1)

  add_to_bucket-All :
      (d pid : ℕ) (known : Buckets)
      → IsFull p pid
      → AllFull p known
      → AllFull p (add_to_bucket d pid known)
  add_to_bucket-All d pid [] f a = ((f, tt), tt)
  add_to_bucket-All d pid ((e, ids) ∷ rest) f a = ground (
    arith,
    a,
    All-append (IsFull p) ids (pid ∷ []) a.0 (f, tt),
    add_to_bucket-All d pid rest f a.1,
  )

  pub discover-merges :
      (digest : Page → ℕ) (candidates : List ℕ) (known : Buckets)
      → All (IsFull p) candidates
      → AllFull p known
      → All (λ (x : ℕ × ℕ). IsMerge p (x.0) (x.1)) (discover digest p candidates known)
  unfolding discover
  discover-merges digest [] known f a = tt
  discover-merges digest (pid ∷ rest) known f a =
      elim (Option-cases (find_canonical p pid (bucket (digest (p.cache pid)) known))) [
        | inl new ↦
            rw (new, All)
              (discover-merges digest rest (add_to_bucket (digest (p.cache pid)) pid known) f.1
                (add_to_bucket-All (digest (p.cache pid)) pid known f.0 a))
        | inr (c, old) ↦
            rw (old, All)
              (
                find_canonical-merges pid c (bucket (digest (p.cache pid)) known) old f.0
                    (bucket-All (digest (p.cache pid)) known a),
                discover-merges digest rest known f.1 a,
              )
      ]

  pub discover-Rising :
      (digest : Page → ℕ) (lo : ℕ) (candidates : List ℕ) (known : Buckets)
      → Ascending lo candidates
      → Rising lo (discover digest p candidates known)
  unfolding discover
  discover-Rising digest lo [] known a = tt
  discover-Rising digest lo (pid ∷ rest) known a =
      elim (Option-cases (find_canonical p pid (bucket (digest (p.cache pid)) known))) [
        | inl new ↦
            rw (new, Rising)
              (Rising-weaken lo (suc pid)
                (discover digest p rest (add_to_bucket (digest (p.cache pid)) pid known))
                (omega (arith, a.0))
                (discover-Rising digest (suc pid) rest
                  (add_to_bucket (digest (p.cache pid)) pid known) a.1))
        | inr (c, old) ↦ rw (old, Rising) (a.0, discover-Rising digest (suc pid) rest known a.1)
      ]
