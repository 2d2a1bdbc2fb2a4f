-- ===== src/Base/Dicts.antt =====
-- A `dict` keyed by numbers, in insertion order.
use Prim.Native.Nat.{ℕ}
use mathlib.Core.Path.{◌≡◌, refl}
use mathlib.Core.Option.{Option, none, some}
use mathlib.Core.List.{List, [], ◌∷◌}
use native.Mathlib.Omega.{arith}
use autotree.Base.Tests.{◌==◌, if◌then◌else◌}

abbrev pub Dict : Type 0 → Type 0
Dict A = List (ℕ × A)

module _ {A : Type 0} where
  abbrev pub get : ℕ → Dict A → Option A
  get i [] = none
  get i ((k, a) ∷ rest) = if k == i then some a else get i rest

  abbrev pub set : ℕ → A → Dict A → Dict A
  set i a [] = (i, a) ∷ []
  set i a ((k, b) ∷ rest) = if k == i then (k, a) ∷ rest else (k, b) ∷ set i a rest

  -- every entry of the key goes, of which there is one at most
  abbrev pub delete : ℕ → Dict A → Dict A
  delete i [] = []
  delete i ((k, a) ∷ rest) =
      let others = delete i rest in if k == i then others else (k, a) ∷ others

  pub get-set :
      (j i : ℕ) (a : A) (d : Dict A) → get j (set i a d) ≡ (if i == j then some a else get j d)
  get-set j i a [] = refl
  get-set j i a ((k, b) ∷ rest) = ground (arith, get-set j i a rest)

  pub get-delete : (j i : ℕ) (d : Dict A) → get j (delete i d) ≡ (if i == j then none else get j d)
  get-delete j i [] = ground arith
  get-delete j i ((k, b) ∷ rest) = ground (arith, get-delete j i rest)
