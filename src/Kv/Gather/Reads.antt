-- ===== src/Kv/Gather/Reads.antt =====
-- `gather_branch_kv` on a covered table.
use autotree.Base.{
  ℕ, suc, ◌-◌, ◌*◌, ◌<◌, ◌≤◌, min, ◌≡◌, refl, ap, sym, ◌∙◌, true, false, List, [], ◌∷◌, arith,
  length, take, count, ceil_div, ◌==◌, leb, inl, inr, Bool-cases, ==_iff,
}
use autotree.Kv.Errors.{Result, ok, err, value_error}
use autotree.Kv.Pool.{Row, Pool}
use autotree.Kv.Pool.Sound.{IsSound, page_length-eq}
use autotree.Kv.Cover.{Covers, rows_in, length-Covers, take-select_pages}
use autotree.Kv.Gather.{check_pages, gather_branch_kv, layer_tokens, LayerTokens, select_pages}

check_pages-eq :
    (p : Pool) (n : ℕ) (table : List ℕ) (index m : ℕ)
    → IsSound p
    → ((r : ℕ) → 0 < count r table → 0 < p.refcounts r)
    → n - index * p.config.page_size ≡ m
    → Covers p.config.page_size p.valid_lengths table m
    → check_pages n index table p ≡ (ok tt, p)
unfolding check_pages
check_pages-eq p n [] index m s used e c = refl
check_pages-eq p n (pid ∷ rest) index m s used e c =
    let next : n - suc index * p.config.page_size ≡ m - p.config.page_size = omega (arith, e) in
    let tail : check_pages n (suc index) rest p ≡ (ok tt, p) =
      check_pages-eq p n rest (suc index) (m - p.config.page_size) s (λ r k. used r (ground arith))
        next c.2 in
    let here : 0 < p.refcounts pid = used pid (ground arith) in
    let in_range : leb p.config.capacity pid ≡ false = ground (arith, s.in_range pid) in
    let in_use : (p.refcounts pid == 0) ≡ false = ground arith in
    let test : (p.valid_lengths pid == min p.config.page_size (n - index * p.config.page_size))
        ≡ true =
      ground (arith, e, c.1) in
    rw in_range (rw in_use (rw (page_length-eq p pid s here) (rw test tail)))

-- on a covered table of pages in use it returns the rows that the table spells, at one layer
pub gather_branch_kv-eq :
    (p : Pool) (table : List ℕ) (n layer : ℕ)
    → IsSound p
    → ((r : ℕ) → 0 < count r table → 0 < p.refcounts r)
    → Covers p.config.page_size p.valid_lengths table n
    → layer < p.config.num_layers
    → gather_branch_kv table n layer p
      ≡ (ok (layer_tokens layer (rows_in p.config.page_size p.cache table n)), p)
unfolding gather_branch_kv
gather_branch_kv-eq p table n layer s used c known =
    let start : n - 0 * p.config.page_size ≡ n = omega arith in
    let good_layer : leb p.config.num_layers layer ≡ false = ground arith in
    let good_length : (length table == ceil_div n p.config.page_size) ≡ true =
      (==_iff _ _).1 (length-Covers p.config.page_size p.valid_lengths table n s.slots c) in
    let rows = take-select_pages p.config.page_size p.cache s.width table n in
    let answer : List Row → Result LayerTokens × Pool = λ xs. (ok (layer_tokens layer xs), p) in
    rw good_layer (
      rw good_length (
        rw (check_pages-eq p n table 0 n s used start c) (elim (Bool-cases (n == 0)) [
          | inl zero_ ↦
              let empty : [] ≡ rows_in p.config.page_size p.cache table n =
                sym (ap (λ (k : ℕ). take k (select_pages p.cache table)) ((==_iff n 0).0 zero_))
                ∙ rows in
              rw zero_ (ap answer empty)
          | inr some_ ↦ rw some_ (ap answer rows)
        ])))

-- a layer that the pool does not have
pub gather_branch_kv-range :
    (p : Pool) (table : List ℕ) (n layer : ℕ)
    → p.config.num_layers ≤ layer
    → gather_branch_kv table n layer p ≡ (err value_error, p)
unfolding gather_branch_kv
gather_branch_kv-range p table n layer h =
    let test : leb p.config.num_layers layer ≡ true = ground (arith, h) in rw test refl
