-- ===== src/Base/Division.antt =====
-- Pages needed for a number of tokens: division rounded up.
use Prim.Native.Nat.{ℕ, suc, ◌+◌, ◌-◌, ◌*◌, ◌/◌, ◌%◌, ◌≤◌, ◌<◌}
use mathlib.Core.Path.{◌≡◌, ap, sym}
use native.Mathlib.Omega.{arith}
use native.Mathlib.Nat.{
  div-eq-sub-div, div-eq_of_lt, mod-eq-sub-mod, le-div_iff_mul-le, div-mul-le_self, le_trans,
  div-add-mod', div-eq_of_lt-le, mod-lt,
}
use native.Mathlib.Decide.{dec_lt}

-- `(n + size - 1) // size`
abbrev pub ceil_div : ℕ → ℕ → ℕ
ceil_div n size = (n + size - 1) / size

pub ceil_div-zero : (s : ℕ) → 0 < s → ceil_div 0 s ≡ 0
ceil_div-zero s h = grind arith

pub ceil_div-step : (n s : ℕ) → 0 < s → 0 < n → ceil_div n s ≡ suc (ceil_div (n - s) s)
ceil_div-step n s h k =
    let lead : (n + s - 1) / s ≡ (n + s - 1 - s) / s + 1 = div-eq-sub-div h (omega arith) in
    elim (dec_lt n s) [
      | yes small ↦
          let a : n + s - 1 - s < s = omega arith in
          let b : n - s + s - 1 < s = omega arith in
          omega (arith, lead, div-eq_of_lt a, div-eq_of_lt b)
      | no large ↦
          let same : n + s - 1 - s ≡ n - s + s - 1 = omega arith in
          omega (arith, lead, ap (λ (t : ℕ). t / s) same)
    ]

pub mod-sub : (n s : ℕ) → 0 < s → s ≤ n → (n - s) % s ≡ n % s
mod-sub n s h k = sym (mod-eq-sub-mod k)

div_mono : (m n s : ℕ) → 0 < s → m ≤ n → m / s ≤ n / s
div_mono m n s h k = (le-div_iff_mul-le h).1 (le_trans (div-mul-le_self m s) k)

pub ceil_div_mono : (m n s : ℕ) → 0 < s → m ≤ n → ceil_div m s ≤ ceil_div n s
ceil_div_mono m n s h k = div_mono (m + s - 1) (n + s - 1) s h (omega arith)

-- a full last page leaves no room: one more token needs one more page
pub ceil_div-full : (n k s : ℕ) → 0 < s → n % s ≡ 0 → 0 < k → ceil_div n s < ceil_div (n + k) s
ceil_div-full n k s h full pos =
    let exact : n / s * s ≡ n = omega (arith, div-add-mod' n s) in
    let low : (n + s - 1) / s ≡ n / s =
      div-eq_of_lt-le s (omega (arith, exact)) (omega (arith, exact)) in
    let high : n / s + 1 ≤ (n + k + s - 1) / s = (le-div_iff_mul-le h).1 (omega (arith, exact)) in
    omega (arith, low, high)

-- that many pages hold the tokens
pub ceil_div_covers : (n s : ℕ) → 0 < s → n ≤ ceil_div n s * s
ceil_div_covers n s h = omega (arith, div-add-mod' (n + s - 1) s, mod-lt (n + s - 1) h)

pub ceil_div-mul : (k s : ℕ) → 0 < s → ceil_div (k * s) s ≡ k
ceil_div-mul k s h = div-eq_of_lt-le s (omega arith) (omega arith)
