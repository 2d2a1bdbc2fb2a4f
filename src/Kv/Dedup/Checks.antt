-- ===== src/Kv/Dedup/Checks.antt =====
-- The first half of `TreeState.dedup_scan`: the checks of every branch and of every page of a
-- table, and the candidates among the pages.
use autotree.Base.{
  ℕ, suc, ◌<◌, ◌≡◌, refl, ap, true, false, not, ◌||◌, some, List, [], ◌∷◌, arith, ◌==◌,
  if◌then◌else◌, count, contains, Ascending, contains-push_sorted, Ascending-push_sorted,
  Ascending-weaken, All, All-contains,
}
use autotree.Kv.Errors.{Result, ok}
use autotree.Kv.Exec.{Exec, for_each}
use autotree.Kv.Pool.{Pool}
use autotree.Kv.Pool.Sound.{IsSound, refcount-eq, page_length-eq}
use autotree.Kv.Branches.{Branch, lookup, Unique, references}
use autotree.Kv.Tree.{TreeState, on_pool, validate_coverage}
use autotree.Kv.Tree.Valid.{IsValid, count-le-refcount}
use autotree.Kv.Tree.Loops.{validate_coverage-eq}
use autotree.Kv.Dedup.{
  add_key, add_keys, occurring_pages, insert_record, sorted_records, full_pages, check_refcount,
}

for_each-keeps :
    {S A : Type 0} (body : A → Exec S (Unit {0})) (s : S) (xs : List A)
    → All (λ x. body x s ≡ (ok tt, s)) xs
    → for_each xs body s ≡ (ok tt, s)
unfolding for_each
for_each-keeps body s [] h = refl
for_each-keeps body s (x ∷ xs) h = rw (h.0) (for_each-keeps body s xs h.1)

insert_record-All :
    (P : Branch → Type 0) (b : Branch) (bs : List Branch)
    → P b
    → All P bs
    → All P (insert_record b bs)
unfolding insert_record
insert_record-All P b [] h a = (h, tt)
insert_record-All P b (c ∷ cs) h a = ground (arith, a, h, insert_record-All P b cs h a.1)

sorted_records-All : (P : Branch → Type 0) (bs : List Branch) → All P bs → All P (sorted_records bs)
unfolding sorted_records
sorted_records-All P [] a = tt
sorted_records-All P (b ∷ bs) a =
    insert_record-All P b (sorted_records bs) a.0 (sorted_records-All P bs a.1)

live-All :
    (P : Branch → Type 0) (bs : List Branch)
    → Unique bs
    → ((i : ℕ) (b : Branch) → lookup i bs ≡ some b → P b)
    → All P bs
live-All P [] u h = tt
live-All P (b ∷ bs) u h =
    (h b.branch_id b (ground arith), live-All P bs u.1 (λ i c l. h i c (ground (arith, u.0, l))))

-- every branch of a valid tree passes its check
pub all_covered :
    (t : TreeState)
    → IsValid t
    → for_each (sorted_records t.branches) (λ b. on_pool (validate_coverage b)) t ≡ (ok tt, t)
all_covered t v =
    for_each-keeps (λ b. on_pool (validate_coverage b)) t (sorted_records t.branches)
      (sorted_records-All _ t.branches (
        live-All _ t.branches v.unique λ i b live.
          ap (λ (m : Result (Unit {0}) × Pool). (m.0, record t { pool = m.1 }))
            (validate_coverage-eq t.pool b v.sound
              (λ r used. omega (arith, count-le-refcount t i b r v live)) (v.covers i b live))))

contains-add_key :
    (r pid : ℕ) (keys : List ℕ) → contains r (add_key pid keys) ≡ (pid == r || contains r keys)
unfolding add_key
contains-add_key r pid keys = ground (arith, contains-push_sorted r pid keys)

contains-add_keys :
    (r : ℕ) (table keys : List ℕ)
    → contains r (add_keys table keys) ≡ (not (count r table == 0) || contains r keys)
unfolding add_keys
contains-add_keys r [] keys = refl
contains-add_keys r (pid ∷ table) keys =
    ground (arith, contains-add_key r pid (add_keys table keys), contains-add_keys r table keys)

-- the keys are the pages that some table holds
pub contains-occurring_pages :
    (r : ℕ) (bs : List Branch) → contains r (occurring_pages bs) ≡ not (references r bs == 0)
unfolding occurring_pages
contains-occurring_pages r [] = refl
contains-occurring_pages r (b ∷ bs) =
    ground
      (arith, contains-add_keys r b.block_table (occurring_pages bs), contains-occurring_pages r bs)

add_keys-Ascending : (table keys : List ℕ) → Ascending 0 keys → Ascending 0 (add_keys table keys)
unfolding add_keys add_key
add_keys-Ascending [] keys a = a
add_keys-Ascending (pid ∷ table) keys a =
    ground
      (arith, add_keys-Ascending table keys a, Ascending-push_sorted 0 pid (add_keys table keys))

pub occurring_pages-Ascending : (bs : List Branch) → Ascending 0 (occurring_pages bs)
unfolding occurring_pages
occurring_pages-Ascending [] = tt
occurring_pages-Ascending (b ∷ bs) =
    add_keys-Ascending b.block_table (occurring_pages bs) (occurring_pages-Ascending bs)

-- the reference counts of a valid tree are the occurrences
pub all_counted :
    (t : TreeState)
    → IsValid t
    → for_each (occurring_pages t.branches) (check_refcount (λ r. references r t.branches)) t.pool
      ≡ (ok tt, t.pool)
unfolding check_refcount
all_counted t v =
    for_each-keeps (check_refcount (λ r. references r t.branches)) t.pool
      (occurring_pages t.branches)
      (All-contains _ (occurring_pages t.branches) λ r k.
        let used : 0 < t.pool.refcounts r =
          ground (arith, k, contains-occurring_pages r t.branches, v.refs r) in
        let same : (t.pool.refcounts r == references r t.branches) ≡ true =
          ground (arith, v.refs r) in
        rw (refcount-eq t.pool r v.sound used) (rw same refl))

-- the keys with a full page
abbrev pub full_among : Pool → List ℕ → List ℕ
full_among p [] = []
full_among p (r ∷ rest) =
    if p.valid_lengths r == p.config.page_size then r ∷ full_among p rest else full_among p rest

pub full_pages-eq :
    (p : Pool) (keys : List ℕ)
    → IsSound p
    → All (λ r. 0 < p.refcounts r) keys
    → full_pages keys p ≡ (ok (full_among p keys), p)
unfolding full_pages
full_pages-eq p [] s used = refl
full_pages-eq p (r ∷ rest) s used =
    rw (page_length-eq p r s used.0) (rw (full_pages-eq p rest s used.1) refl)

pub contains-full_among :
    (p : Pool) (r : ℕ) (keys : List ℕ)
    → contains r (full_among p keys)
      ≡ (if p.valid_lengths r == p.config.page_size then contains r keys else false)
contains-full_among p r [] = ground arith
contains-full_among p r (k ∷ keys) = ground (arith, contains-full_among p r keys)

pub full_among-Ascending :
    (p : Pool) (lo : ℕ) (keys : List ℕ) → Ascending lo keys → Ascending lo (full_among p keys)
full_among-Ascending p lo [] a = tt
full_among-Ascending p lo (k ∷ keys) a = ground (
  arith,
  full_among-Ascending p (suc k) keys a.1,
  Ascending-weaken {m = lo} {n = suc k} (full_among p keys),
)
