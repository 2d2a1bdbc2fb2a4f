-- ===== src/Base/Texts.antt =====
-- Strings as lists of characters, and a `dict` keyed by strings, in insertion order.
use Prim.Native.Nat.{ℕ}
use mathlib.Core.Path.{◌≡◌, refl, sym, ◌∙◌, ap}
use mathlib.Core.Bool.{Bool, true, false}
use mathlib.Core.Option.{Option, none, some}
use mathlib.Core.List.{List, [], ◌∷◌}
use native.Mathlib.Omega.{arith}
use mathlib.Core.Logic.{inl, inr}
use autotree.Base.Tests.{◌==◌, if◌then◌else◌, Bool-cases}
use autotree.Base.Equality.{list_equal, list_equal_sound, list_equal_refl}

abbrev pub Text : Type 0
Text = List ℕ

abbrev pub same_text : Text → Text → Bool
same_text = list_equal ◌==◌

pub same_text_sound : (x y : Text) → same_text x y ≡ true → x ≡ y
same_text_sound x y h = list_equal_sound ◌==◌ (λ a b e. ground (arith, e)) x y h

pub same_text_refl : (x : Text) → same_text x x ≡ true
same_text_refl x = list_equal_refl ◌==◌ (λ a. ground arith) x

apart : (k i j : Text) → same_text k i ≡ true → same_text k j ≡ same_text i j
apart k i j h = ap (λ t. same_text t j) (same_text_sound k i h)

meet : (k i j : Text) → same_text k j ≡ true → same_text i j ≡ true → same_text k i ≡ true
meet k i j p q =
    ap (same_text k) (same_text_sound i j q ∙ sym (same_text_sound k j p)) ∙ same_text_refl k

abbrev pub Table : Type 0 → Type 0
Table A = List (Text × A)

module _ {A : Type 0} where
  abbrev pub find : Text → Table A → Option A
  find i [] = none
  find i ((k, a) ∷ rest) = if same_text k i then some a else find i rest

  abbrev pub store : Text → A → Table A → Table A
  store i a [] = (i, a) ∷ []
  store i a ((k, b) ∷ rest) = if same_text k i then (k, a) ∷ rest else (k, b) ∷ store i a rest

  -- `dict.update`
  abbrev pub update : Table A → Table A → Table A
  update d [] = d
  update d ((k, a) ∷ rest) = update (store k a d) rest

  pub find-store :
      (j i : Text) (a : A) (d : Table A)
      → find j (store i a d) ≡ (if same_text i j then some a else find j d)
  find-store j i a [] = refl
  find-store j i a ((k, b) ∷ rest) = ground (arith, find-store j i a rest, apart k i j, meet k i j)

-- what holds of the entry of a key after a store, by whether the keys are the same
pub store-cases :
    {A : Type 0} (P : Option A → Type 0) (j i : Text) (a : A) (d : Table A)
    → (i ≡ j → P (some a))
    → (same_text i j ≡ false → P (find j d))
    → P (find j (store i a d))
store-cases P j i a d own others = elim (Bool-cases (same_text i j)) [
  | inl same ↦ rw (find-store j i a d) (rw same (own (same_text_sound i j same)))
  | inr other ↦ rw (find-store j i a d) (rw other (others other))
]
