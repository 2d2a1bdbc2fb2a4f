-- ===== src/Engine/Events.antt =====
-- Counts of the events of a run, and the dicts that they are compared with.
use autotree.Base.{
  ℕ, suc, ◌+◌, ◌<◌, ◌≡◌, refl, sym, ap, ◌∙◌, inl, inr, none, some, List, [], ◌∷◌, ◌++◌, ◌==◌,
  if◌then◌else◌, length, arith, Dict, get, set, some-injective, none≢some, Bool-cases,
}
use autotree.Engine.{Event, branch_started, token_generated, branch_pruned, branch_merged}
use autotree.Engine.Rounds.{max_key}

module _ {S : Type 0} where
  abbrev pub started_events : List (Event S) → ℕ
  started_events [] = 0
  started_events (branch_started i p ∷ es) = suc (started_events es)
  started_events (_ ∷ es) = started_events es

  abbrev pub token_events : List (Event S) → ℕ
  token_events [] = 0
  token_events (token_generated i t n p id ∷ es) = suc (token_events es)
  token_events (_ ∷ es) = token_events es

  abbrev pub pruned_events : List (Event S) → ℕ
  pruned_events [] = 0
  pruned_events (branch_pruned i r ∷ es) = suc (pruned_events es)
  pruned_events (_ ∷ es) = pruned_events es

  abbrev pub merged_events : List (Event S) → ℕ
  merged_events [] = 0
  merged_events (branch_merged i j ∷ es) = suc (merged_events es)
  merged_events (_ ∷ es) = merged_events es

  pub counts-append :
      (es fs : List (Event S))
      → (started_events (es ++ fs) ≡ started_events es + started_events fs)
        × (token_events (es ++ fs) ≡ token_events es + token_events fs)
        × (pruned_events (es ++ fs) ≡ pruned_events es + pruned_events fs)
        × (merged_events (es ++ fs) ≡ merged_events es + merged_events fs)
  counts-append [] fs = (omega arith, omega arith, omega arith, omega arith)
  counts-append (branch_started i p ∷ es) fs =
      let (a, b, c, d) = counts-append es fs in
      (omega (arith, a), omega (arith, b), omega (arith, c), omega (arith, d))
  counts-append (token_generated i t n p id ∷ es) fs =
      let (a, b, c, d) = counts-append es fs in
      (omega (arith, a), omega (arith, b), omega (arith, c), omega (arith, d))
  counts-append (branch_pruned i r ∷ es) fs =
      let (a, b, c, d) = counts-append es fs in
      (omega (arith, a), omega (arith, b), omega (arith, c), omega (arith, d))
  counts-append (branch_merged i j ∷ es) fs =
      let (a, b, c, d) = counts-append es fs in
      (omega (arith, a), omega (arith, b), omega (arith, c), omega (arith, d))

-- `sum(counts.values())`
abbrev pub total : Dict ℕ → ℕ
total [] = 0
total ((i, n) ∷ rest) = n + total rest

pub total-set : (i n m : ℕ) (d : Dict ℕ) → get i d ≡ some n → total (set i m d) + n ≡ total d + m
total-set i n m [] h = absurd (none≢some h)
total-set i n m ((k, a) ∷ rest) h = elim (Bool-cases (k == i)) [
  | inl here ↦
      let same : a ≡ n =
        some-injective (ap (λ b. if b then some a else get i rest) (sym here) ∙ h) in
      rw here (omega (arith, same))
  | inr later ↦
      let deeper : get i rest ≡ some n =
        ap (λ b. if b then some a else get i rest) (sym later) ∙ h in
      rw later (omega (arith, total-set i n m rest deeper))
]

pub total-set_new : (i m : ℕ) (d : Dict ℕ) → get i d ≡ none → total (set i m d) ≡ total d + m
total-set_new i m [] h = omega arith
total-set_new i m ((k, a) ∷ rest) h = ground (arith, total-set_new i m rest)

pub length-set_new :
    {A : Type 0} (i : ℕ) (a : A) (d : Dict A) → get i d ≡ none → length (set i a d) ≡ suc (length d)
length-set_new i a [] h = refl
length-set_new i a ((k, b) ∷ rest) h = ground (arith, length-set_new i a rest)

-- no key is greater than the greatest
pub get-above : {A : Type 0} (i : ℕ) (d : Dict A) → max_key d < i → get i d ≡ none
get-above i [] h = refl
get-above i ((k, a) ∷ rest) h = ground (arith, get-above i rest)
