-- ===== src/Kv/Cover/Tail.antt =====
-- The last page of a covered table: filling it further, and putting a copy in its place.
use autotree.Base.{
  ℕ, ◌+◌, ◌-◌, ◌%◌, ◌≤◌, ◌<◌, ◌≡◌, ◌≢◌, refl, ap, sym, ◌∙◌, List, [], ◌∷◌, ◌++◌, arith, length,
  take, take_all, count, mod-sub, get_last?, set_last, some, subst, splice, take-splice,
  append_assoc, append-nil,
}
use native.Mathlib.Nat.{mod-eq_of_lt, mod_self}
use autotree.Kv.Pool.{Row, Page, update}
use autotree.Kv.Cover.{Covers, rows_in}
use autotree.Kv.Cover.Extend.{count-last}

-- filling touches no other page than the last, which stands once in the table
not_earlier :
    (x y pid : ℕ) (ys : List ℕ)
    → get_last? (y ∷ ys) ≡ some pid
    → count pid (x ∷ (y ∷ ys)) ≡ 1
    → (x ≢ pid) × (count pid (y ∷ ys) ≡ 1)
not_earlier x y pid ys last once = ground (arith, count-last (y ∷ ys) pid)

module _ (size : ℕ) (cache : ℕ → Page) (wide : (r : ℕ) → length (cache r) ≡ size) (pos : 0 < size)
    (pid off : ℕ) (chunk : List Row) where
  abbrev filled : ℕ → Page
  filled = update cache pid (splice off chunk (cache pid))

  pub rows_in-fill :
      (lens : ℕ → ℕ) (table : List ℕ) (n : ℕ)
      → Covers size lens table n
      → get_last? table ≡ some pid
      → count pid table ≡ 1
      → n % size ≡ off
      → n % size ≢ 0
      → rows_in size (update cache pid (splice off chunk (cache pid))) table (n + length chunk)
        ≡ rows_in size cache table n ++ chunk
  rows_in-fill lens [] n c last once e part = cc
  rows_in-fill lens (x ∷ []) n c last once e part =
      let here : x ≡ pid = ground arith in
      let small : n < size = ground (arith, mod_self size) in
      let at : n ≡ off = omega (arith, mod-eq_of_lt small) in
      let cell : filled x ≡ splice n chunk (cache x) = ground arith in
      append-nil _
      ∙ ap (take (n + length chunk)) cell
      ∙ take-splice n chunk (cache x) (omega (arith, wide x))
      ∙ ap (λ (xs : List Row). xs ++ chunk) (sym (append-nil (take n (cache x))))
  rows_in-fill lens (x ∷ (y ∷ ys)) n c last once e part =
      let (other, once') = not_earlier x y pid ys last once in
      let big : size < n = omega (arith, c.2.0) in
      let same : (n - size) % size ≡ n % size = mod-sub n size pos (omega arith) in
      let cell : filled x ≡ cache x = ground arith in
      let shift : n + length chunk - size ≡ n - size + length chunk = omega arith in
      let whole : take (n + length chunk) (filled x) ≡ take n (cache x) =
        ap (take (n + length chunk)) cell
        ∙ take_all (n + length chunk) (cache x) (omega (arith, wide x))
        ∙ sym (take_all n (cache x) (omega (arith, wide x))) in
      ap (λ (k : ℕ). take (n + length chunk) (filled x) ++ rows_in size filled (y ∷ ys) k) shift
      ∙ ap (λ (xs : List Row). xs ++ rows_in size filled (y ∷ ys) (n - size + length chunk)) whole
      ∙ ap (◌++◌ (take n (cache x))) (
          rows_in-fill lens (y ∷ ys) (n - size) c.2 last once' (same ∙ e)
            (λ z. part (sym same ∙ z)))
      ∙ sym (append_assoc (take n (cache x)) (rows_in size cache (y ∷ ys) (n - size)) chunk)

pub Covers-fill :
    (size : ℕ) (lens : ℕ → ℕ) (pid w : ℕ) (table : List ℕ) (n : ℕ)
    → 0 < size
    → Covers size lens table n
    → get_last? table ≡ some pid
    → count pid table ≡ 1
    → n % size ≢ 0
    → n % size + w ≤ size
    → Covers size (update lens pid (n % size + w)) table (n + w)
Covers-fill size lens pid w [] n pos c last once part fit = cc
Covers-fill size lens pid w (x ∷ []) n pos c last once part fit =
    let small : n < size = ground (arith, mod_self size) in ground (arith, mod-eq_of_lt small)
Covers-fill size lens pid w (x ∷ (y ∷ ys)) n pos c last once part fit =
    let (other, once') = not_earlier x y pid ys last once in
    let big : size < n = omega (arith, c.2.0) in
    let same : (n - size) % size ≡ n % size = mod-sub n size pos (omega arith) in
    let shift : n - size + w ≡ n + w - size = omega arith in
    let rest : Covers size (update lens pid ((n - size) % size + w)) (y ∷ ys) (n - size + w) =
      Covers-fill size lens pid w (y ∷ ys) (n - size) pos c.2 last once' (λ z. part (sym same ∙ z))
        (omega (arith, same)) in
    (
      omega arith,
      ground (arith, c.1),
      subst (λ (k : ℕ). Covers size (update lens pid (n % size + w)) (y ∷ ys) k) shift
          (subst (λ (k : ℕ). Covers size (update lens pid (k + w)) (y ∷ ys) (n - size + w)) same
            rest),
    )

pub rows_in-set_last :
    (size : ℕ) (cache : ℕ → Page) (from to : ℕ) (table : List ℕ) (n : ℕ)
    → get_last? table ≡ some from
    → cache to ≡ cache from
    → rows_in size cache (set_last to table) n ≡ rows_in size cache table n
rows_in-set_last size cache from to [] n last e = cc
rows_in-set_last size cache from to (x ∷ []) n last e = ground arith
rows_in-set_last size cache from to (x ∷ (y ∷ ys)) n last e =
    ap (◌++◌ (take n (cache x))) (rows_in-set_last size cache from to (y ∷ ys) (n - size) last e)

pub Covers-set_last :
    (size : ℕ) (lens : ℕ → ℕ) (from to : ℕ) (table : List ℕ) (n : ℕ)
    → get_last? table ≡ some from
    → lens to ≡ lens from
    → Covers size lens table n
    → Covers size lens (set_last to table) n
Covers-set_last size lens from to [] n last e c = c
Covers-set_last size lens from to (x ∷ []) n last e c = ground arith
Covers-set_last size lens from to (x ∷ (y ∷ ys)) n last e c =
    (c.0, c.1, Covers-set_last size lens from to (y ∷ ys) (n - size) last e c.2)

pub count-set_last :
    (from to r : ℕ) (table : List ℕ)
    → get_last? table ≡ some from
    → count r (set_last to table) + count r (from ∷ []) ≡ count r table + count r (to ∷ [])
count-set_last from to r [] last = cc
count-set_last from to r (x ∷ []) last = ground arith
count-set_last from to r (x ∷ (y ∷ ys)) last = omega (arith, count-set_last from to r (y ∷ ys) last)

pub last-set_last :
    (from to : ℕ) (table : List ℕ)
    → get_last? table ≡ some from
    → get_last? (set_last to table) ≡ some to
last-set_last from to [] last = cc
last-set_last from to (x ∷ []) last = refl
last-set_last from to (x ∷ (y ∷ [])) last = refl
last-set_last from to (x ∷ (y ∷ (z ∷ zs))) last = last-set_last from to (y ∷ (z ∷ zs)) last
