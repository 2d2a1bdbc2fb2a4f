-- ===== src/Base/Equality.antt =====
-- Boolean equality of lists from that of their entries.
use mathlib.Core.Path.{◌≡◌, refl, ap₂}
use mathlib.Core.Bool.{Bool, true, false, ◌&&◌}
use mathlib.Core.List.{List, [], ◌∷◌}
use native.Mathlib.Omega.{arith}

module _ {ℓ} {A : Type ℓ} (eq : A → A → Bool) where
  unfoldable pub list_equal : List A → List A → Bool
  list_equal [] [] = true
  list_equal [] (y ∷ ys) = false
  list_equal (x ∷ xs) [] = false
  list_equal (x ∷ xs) (y ∷ ys) = eq x y && list_equal xs ys

  pub list_equal_sound :
      ((x y : A) → eq x y ≡ true → x ≡ y) → (xs ys : List A) → list_equal xs ys ≡ true → xs ≡ ys
  unfolding list_equal
  list_equal_sound s [] [] h = refl
  list_equal_sound s [] (y ∷ ys) h = cc
  list_equal_sound s (x ∷ xs) [] h = cc
  list_equal_sound s (x ∷ xs) (y ∷ ys) h =
      ap₂ ◌∷◌ (s x y (ground arith)) (list_equal_sound s xs ys (ground arith))

  pub list_equal_refl : ((x : A) → eq x x ≡ true) → (xs : List A) → list_equal xs xs ≡ true
  unfolding list_equal
  list_equal_refl r [] = refl
  list_equal_refl r (x ∷ xs) = ground (arith, r x, list_equal_refl r xs)
