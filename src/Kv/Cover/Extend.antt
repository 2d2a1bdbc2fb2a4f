-- ===== src/Kv/Cover/Extend.antt =====
-- Writing at the end of a covered table: a new page, the rest of the last page, a copied last page.
use autotree.Base.{
  ℕ, ◌+◌, ◌-◌, ◌%◌, ◌≤◌, ◌<◌, ◌≡◌, ◌≢◌, refl, ap, sym, ◌∙◌, List, [], ◌∷◌, ◌++◌, arith, length,
  take, take_all, count, mod-sub, get_last?, some, subst, append_assoc, append-nil,
}
use native.Mathlib.Nat.{mod-eq_of_lt, mod_self, zero-mod}
use autotree.Kv.Pool.{Row, Page}
use autotree.Kv.Cover.{Covers, rows_in}

-- a full last page: what is left of the table starts over at a page boundary
full_step : (n size : ℕ) → 0 < size → 0 < n → n % size ≡ 0 → (size ≤ n) × ((n - size) % size ≡ 0)
full_step n size h pos full =
    let big : size ≤ n = ground (arith, mod-eq_of_lt {n = n} {m = size}) in
    (big, mod-sub n size h big ∙ full)

module _ (size : ℕ) (cache : ℕ → Page) (wide : (r : ℕ) → length (cache r) ≡ size) (lens : ℕ → ℕ)
    (pos : 0 < size) where
  pub rows_in-snoc :
      (table : List ℕ) (n pid w : ℕ)
      → Covers size lens table n
      → n % size ≡ 0
      → rows_in size cache (table ++ pid ∷ []) (n + w)
        ≡ rows_in size cache table n ++ take w (cache pid)
  rows_in-snoc [] n pid w c full =
      let e : n + w ≡ w = omega arith in append-nil _ ∙ ap (λ (k : ℕ). take k (cache pid)) e
  rows_in-snoc (q ∷ rest) n pid w c full =
      let (big, full') = full_step n size pos c.0 full in
      let shift : n + w - size ≡ n - size + w = omega arith in
      let whole : take (n + w) (cache q) ≡ take n (cache q) =
        take_all (n + w) (cache q) (omega (arith, wide q))
        ∙ sym (take_all n (cache q) (omega (arith, wide q))) in
      ap (λ (k : ℕ). take (n + w) (cache q) ++ rows_in size cache (rest ++ pid ∷ []) k) shift
      ∙ ap (λ (xs : List Row). xs ++ rows_in size cache (rest ++ pid ∷ []) (n - size + w)) whole
      ∙ ap (◌++◌ (take n (cache q))) (rows_in-snoc rest (n - size) pid w c.2 full')
      ∙ sym (
          append_assoc (take n (cache q)) (rows_in size cache rest (n - size)) (take w (cache pid)))

pub Covers-snoc :
    (size : ℕ) (lens : ℕ → ℕ) (table : List ℕ) (n pid w : ℕ)
    → 0 < size
    → 0 < w
    → w ≤ size
    → lens pid ≡ w
    → Covers size lens table n
    → n % size ≡ 0
    → Covers size lens (table ++ pid ∷ []) (n + w)
Covers-snoc size lens [] n pid w pos some_w fit e c full = (omega arith, omega arith, omega arith)
Covers-snoc size lens (q ∷ rest) n pid w pos some_w fit e c full =
    let (big, full') = full_step n size pos c.0 full in
    let shift : n - size + w ≡ n + w - size = omega arith in
    (
      omega (arith, c.0),
      omega (arith, c.1),
      subst (Covers size lens (rest ++ pid ∷ [])) shift
          (Covers-snoc size lens rest (n - size) pid w pos some_w fit e c.2 full'),
    )

pub count-last : (table : List ℕ) (pid : ℕ) → get_last? table ≡ some pid → 0 < count pid table
count-last [] pid h = cc
count-last (x ∷ []) pid h = ground arith
count-last (x ∷ (y ∷ ys)) pid h = omega (arith, count-last (y ∷ ys) pid h)

-- a partly filled last page is there, and its length is the offset
pub tail_of :
    (size : ℕ) (lens : ℕ → ℕ) (table : List ℕ) (n : ℕ)
    → 0 < size
    → Covers size lens table n
    → n % size ≢ 0
    → (pid : ℕ) × (get_last? table ≡ some pid) × (lens pid ≡ n % size)
tail_of size lens [] n pos c part = absurd (part (rw c (zero-mod size)))
tail_of size lens (x ∷ []) n pos c part =
    let small : n < size = ground (arith, mod_self size) in
    (x, refl, omega (arith, c.1, mod-eq_of_lt small))
tail_of size lens (x ∷ (y ∷ ys)) n pos c part =
    let same : (n - size) % size ≡ n % size = mod-sub n size pos (omega (arith, c.2.0)) in
    let (pid, last, len) =
      tail_of size lens (y ∷ ys) (n - size) pos c.2 (λ z. part (sym same ∙ z)) in
    (pid, last, len ∙ same)
