-- ===== src/Base/Counting.antt =====
-- Occurrences, membership and ascending lists of page ids.
use Prim.Native.Nat.{ℕ, zero, suc, ◌+◌, ◌≤◌, ◌<◌}
use mathlib.Core.Path.{◌≡◌, refl, ap, ◌∙◌}
use mathlib.Core.Bool.{Bool, false, ◌||◌}
use mathlib.Core.List.{List, [], ◌∷◌, ◌++◌}
use native.Mathlib.Omega.{arith}
use autotree.Base.Tests.{ltb, ◌==◌, if◌then◌else◌}
use autotree.Base.Lists.{length}

abbrev pub count : ℕ → List ℕ → ℕ
count pid [] = 0
count pid (first ∷ table) = (if first == pid then 1 else 0) + count pid table

abbrev pub contains : ℕ → List ℕ → Bool
contains a [] = false
contains a (x ∷ xs) = x == a || contains a xs

pub count-append :
    (pid : ℕ) (table more : List ℕ) → count pid (table ++ more) ≡ count pid table + count pid more
count-append pid [] more = omega arith
count-append pid (first ∷ table) more = omega (arith, count-append pid table more)

pub contains-append :
    (a : ℕ) (xs ys : List ℕ) → contains a (xs ++ ys) ≡ (contains a xs || contains a ys)
contains-append a [] ys = refl
contains-append a (x ∷ xs) ys = ground (arith, contains-append a xs ys)

-- every entry is at least the bound, and the entries rise
abbrev pub Ascending : ℕ → List ℕ → Type 0
Ascending lo [] = Unit {0}
Ascending lo (x ∷ xs) = (lo ≤ x) × Ascending (suc x) xs

-- `heapq.heappush` on the ascending view of a heap
unfoldable pub push_sorted : ℕ → List ℕ → List ℕ
push_sorted a [] = a ∷ []
push_sorted a (x ∷ xs) = if ltb a x then a ∷ (x ∷ xs) else x ∷ push_sorted a xs

-- `sorted(xs)`
unfoldable pub sorted : List ℕ → List ℕ
sorted [] = []
sorted (x ∷ xs) = push_sorted x (sorted xs)

pub contains-push_sorted :
    (b a : ℕ) (xs : List ℕ) → contains b (push_sorted a xs) ≡ (a == b || contains b xs)
unfolding push_sorted
contains-push_sorted b a [] = refl
contains-push_sorted b a (x ∷ xs) = ground (arith, contains-push_sorted b a xs)

pub contains-sorted : (j : ℕ) (xs : List ℕ) → contains j (sorted xs) ≡ contains j xs
unfolding sorted
contains-sorted j [] = refl
contains-sorted j (x ∷ xs) =
    contains-push_sorted j x (sorted xs) ∙ ap (λ b. (x == j) || b) (contains-sorted j xs)

count-push_sorted :
    (i a : ℕ) (xs : List ℕ) → count i (push_sorted a xs) ≡ (if a == i then 1 else 0) + count i xs
unfolding push_sorted
count-push_sorted i a [] = refl
count-push_sorted i a (x ∷ xs) = ground (arith, count-push_sorted i a xs)

pub count-sorted : (i : ℕ) (xs : List ℕ) → count i (sorted xs) ≡ count i xs
unfolding sorted
count-sorted i [] = refl
count-sorted i (x ∷ xs) = omega (arith, count-push_sorted i x (sorted xs), count-sorted i xs)

length-push_sorted : (a : ℕ) (xs : List ℕ) → length (push_sorted a xs) ≡ suc (length xs)
unfolding push_sorted
length-push_sorted a [] = refl
length-push_sorted a (x ∷ xs) = ground (arith, length-push_sorted a xs)

pub Ascending-weaken : {m n : ℕ} (xs : List ℕ) → m ≤ n → Ascending n xs → Ascending m xs
Ascending-weaken [] h a = tt
Ascending-weaken (x ∷ xs) h a = (omega arith, a.1)

pub Ascending-push_sorted :
    (lo a : ℕ) (xs : List ℕ)
    → lo ≤ a
    → contains a xs ≡ false
    → Ascending lo xs
    → Ascending lo (push_sorted a xs)
unfolding push_sorted
Ascending-push_sorted lo a [] h c s = (h, tt)
Ascending-push_sorted lo a (x ∷ xs) h c s =
    ground (arith, Ascending-push_sorted (suc x) a xs, Ascending-weaken {m = suc a} {n = x} xs)

-- nothing below the bound stands in an ascending list
pub Ascending-below : (lo a : ℕ) (xs : List ℕ) → a < lo → Ascending lo xs → contains a xs ≡ false
Ascending-below lo a [] h s = refl
Ascending-below lo a (x ∷ xs) h s = ground (arith, Ascending-below (suc x) a xs)

-- the number of k with lo ≤ k < lo + n that pass the test
abbrev pub tally : (ℕ → Bool) → ℕ → ℕ → ℕ
tally p lo zero = 0
tally p lo (suc n) = (if p lo then 1 else 0) + tally p (suc lo) n

pub tally-ext :
    (p q : ℕ → Bool) (lo n : ℕ)
    → ((k : ℕ) → lo ≤ k → k < lo + n → p k ≡ q k)
    → tally p lo n ≡ tally q lo n
tally-ext p q lo zero h = refl
tally-ext p q lo (suc n) h =
    ground
      (arith, h lo, tally-ext p q (suc lo) n (λ k lower upper. h k (omega arith) (omega arith)))
