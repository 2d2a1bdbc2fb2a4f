-- ===== src/Kv/Dedup/Distinct.antt =====
-- `_discover_page_redirects`: candidates with the same bytes.
use autotree.Base.{
  ℕ, suc, ◌<◌, ◌≡◌, refl, ap, subst, sym, ◌∙◌, inl, inr, true, false, ◌&&◌, ◌||◌, some, List, [],
  ◌∷◌, arith, ◌==◌, ==_iff, Ascending, Ascending-below, contains, contains-append, Bool-cases,
  Option-cases,
}
use autotree.Kv.Pool.{Pool, Page}
use autotree.Kv.Dedup.{page_equal, Buckets, bucket, add_to_bucket, find_canonical, discover}
use autotree.Kv.Dedup.Canonical.{has_key, page_equal_refl, discover-new, discover-old}

bucket-added :
    (e d pid : ℕ) (known : Buckets) (x : ℕ)
    → contains x (bucket e (add_to_bucket d pid known))
      ≡ (contains x (bucket e known) || (d == e && pid == x))
bucket-added e d pid [] x = ground arith
bucket-added e d pid ((k, ids) ∷ rest) x =
    ground (arith, bucket-added e d pid rest x, contains-append x ids (pid ∷ []))

module _ (p : Pool) where
  -- a page with the same bytes in the bucket is found
  find_canonical-hit :
      (pid x : ℕ) (ids : List ℕ)
      → contains x ids ≡ true
      → p.cache x ≡ p.cache pid
      → (c : ℕ) × (find_canonical p pid ids ≡ some c)
  find_canonical-hit pid x [] h e = cc
  find_canonical-hit pid x (y ∷ ids) h e =
      elim (Bool-cases (page_equal (p.cache pid) (p.cache y))) [
        | inl same ↦ (y, rw same refl)
        | inr differ ↦
            let other : (y == x) ≡ false = elim (Bool-cases (y == x)) [
              | inl here ↦
                  let at : y ≡ x = (==_iff y x).0 here in
                  let bytes : p.cache y ≡ p.cache pid = ap p.cache at ∙ e in
                  let yes_ : page_equal (p.cache pid) (p.cache y) ≡ true =
                    rw bytes (page_equal_refl (p.cache pid)) in
                  ground (arith, yes_, differ)
              | inr there ↦ there
            ] in
            let (c, found) = find_canonical-hit pid x ids (ground (arith, h, other)) e in
            (c, rw differ found)
      ]

module _ (digest : Page → ℕ) (p : Pool) where
  abbrev IsKnown : ℕ → Buckets → Type 0
  IsKnown x known = contains x (bucket (digest (p.cache x)) known) ≡ true

  IsKnown-stays :
      (x pid : ℕ) (known : Buckets)
      → IsKnown x known
      → IsKnown x (add_to_bucket (digest (p.cache pid)) pid known)
  IsKnown-stays x pid known h =
      ground (arith, h, bucket-added (digest (p.cache x)) (digest (p.cache pid)) pid known x)

  IsKnown-added :
      (pid : ℕ) (known : Buckets) → IsKnown pid (add_to_bucket (digest (p.cache pid)) pid known)
  IsKnown-added pid known =
      ground (arith, bucket-added (digest (p.cache pid)) (digest (p.cache pid)) pid known pid)

  -- a candidate with the bytes of a known page is a duplicate
  like_known :
      (x y : ℕ) (candidates : List ℕ) (known : Buckets)
      → IsKnown x known
      → contains y candidates ≡ true
      → p.cache x ≡ p.cache y
      → has_key y (discover digest p candidates known) ≡ true
  like_known x y [] known k c e = cc
  like_known x y (pid ∷ rest) known k c e =
      elim (Option-cases (find_canonical p pid (bucket (digest (p.cache pid)) known))) [
        | inl new ↦
            let other : (pid == y) ≡ false = elim (Bool-cases (pid == y)) [
              | inl here ↦
                  let at : pid ≡ y = (==_iff pid y).0 here in
                  let bytes : p.cache x ≡ p.cache pid = e ∙ ap p.cache (sym at) in
                  let (c, hit) =
                    find_canonical-hit p pid x (bucket (digest (p.cache pid)) known)
                      (ap (λ (b : Page). contains x (bucket (digest b) known)) (sym bytes) ∙ k)
                      bytes in
                  ground (arith, new, hit)
              | inr there ↦ there
            ] in
            rw (discover-new digest p pid rest known new) (
              like_known x y rest (add_to_bucket (digest (p.cache pid)) pid known)
                (IsKnown-stays x pid known k) (ground (arith, c, other)) e)
        | inr (d, old) ↦
            rw (discover-old digest p pid d rest known old) (elim (Bool-cases (pid == y)) [
              | inl here ↦ rw here refl
              | inr there ↦ rw there (like_known x y rest known k (ground (arith, c, there)) e)
            ])
      ]

  -- of two candidates with the same bytes, the later one is a duplicate if the first is not
  pub later_duplicate :
      (lo x y : ℕ) (candidates : List ℕ) (known : Buckets)
      → Ascending lo candidates
      → contains x candidates ≡ true
      → contains y candidates ≡ true
      → x < y
      → p.cache x ≡ p.cache y
      → has_key x (discover digest p candidates known) ≡ false
      → has_key y (discover digest p candidates known) ≡ true
  later_duplicate lo x y [] known asc cx cy l e stays = cc
  later_duplicate lo x y (pid ∷ rest) known asc cx cy l e stays =
      let after : contains y rest ≡ true =
        ground (arith, cx, cy, l, Ascending-below (suc pid) x rest, asc.1) in
      elim (Option-cases (find_canonical p pid (bucket (digest (p.cache pid)) known))) [
        | inl new ↦
            let next = add_to_bucket (digest (p.cache pid)) pid known in
            rw (discover-new digest p pid rest known new) (elim (Bool-cases (pid == x)) [
              | inl here ↦
                  like_known x y rest next
                    (subst (λ z. IsKnown z next) ((==_iff pid x).0 here) (IsKnown-added pid known))
                    after e
              | inr there ↦
                  later_duplicate (suc pid) x y rest next asc.1 (ground (arith, cx, there)) after l
                    e (ap (has_key x) (sym (discover-new digest p pid rest known new)) ∙ stays)
            ])
        | inr (d, old) ↦
            let here : has_key x ((pid, d) ∷ discover digest p rest known) ≡ false =
              ap (has_key x) (sym (discover-old digest p pid d rest known old)) ∙ stays in
            rw (discover-old digest p pid d rest known old) (
              ground (
                arith,
                here,
                cx,
                Ascending-below (suc pid) x rest,
                asc.1,
                later_duplicate (suc pid) x y rest known asc.1 (ground (arith, cx, here)) after l e
                    (ground (arith, here)),
              ))
      ]
