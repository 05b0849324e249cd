-- ===== src/Base/Number.antt =====
-- All that the code does with a floating-point `number`. The type of numbers and its operations are
-- a parameter of the model: an instance argument of every definition that computes with prices.
use mathlib.Core.Path.{◌≡◌}
use mathlib.Core.Bool.{Bool, true, false, not}
use Prim.Native.Nat.{ℕ}

pub record Number (F : Type 0) : Type 0 where
  -- `dec n k` is the literal n / 10 ^ k: `0.38` is `dec 38 2`, and `dec n 0` is an integer.
  pub dec : ℕ → ℕ → F
  pub add : F → F → F
  pub sub : F → F → F
  pub mul : F → F → F
  pub div : F → F → F
  pub neg : F → F
  -- `a < b`, `a <= b` and `a === b`
  pub lt : F → F → Bool
  pub le : F → F → Bool
  pub eq : F → F → Bool
  -- `Math.max(a, b)`, `Math.min(a, b)`, `Math.abs`, `Math.sign`, `Math.sqrt`
  pub largest : F → F → F
  pub smallest : F → F → F
  pub abs : F → F
  pub sign : F → F
  pub sqrt : F → F
  pub is_finite : F → Bool
  -- `Number.isInteger`
  pub is_integer : F → Bool
  -- `Number(x.toFixed(k))`
  pub to_fixed : ℕ → F → F
  -- `Math.floor(x)` of a finite number that is not negative; any number of other values
  pub floor : F → ℕ

-- `NaN` is the value that is not `<=` itself.
abbrev pub IsNumber : {F : Type 0} ⦃N : Number F⦄ → F → Type 0
IsNumber ⦃N⦄ x = N.le x x ≡ true

-- The facts of IEEE 754 comparisons, `Math.max`, `Math.min` and decimal rounding on which the
-- theorems rest. The order is total only away from `NaN`.
pub record IsOrdered (F : Type 0) ⦃N : Number F⦄ : Type 0 where
  pub lt_le : (x y : F) → N.lt x y ≡ true → N.le x y ≡ true
  pub lt_asymm : (x y : F) → N.lt x y ≡ true → N.lt y x ≡ false
  pub lt_trans : (x y z : F) → N.lt x y ≡ true → N.lt y z ≡ true → N.lt x z ≡ true
  pub le_trans : (x y z : F) → N.le x y ≡ true → N.le y z ≡ true → N.le x z ≡ true
  pub lt-not-le : (x y : F) → IsNumber x → IsNumber y → N.lt x y ≡ not (N.le y x)
  pub le_number : (x y : F) → N.le x y ≡ true → (N.le x x ≡ true) × (N.le y y ≡ true)
  pub finite_number : (x : F) → N.is_finite x ≡ true → N.le x x ≡ true
  pub dec_le : (m n k : ℕ) → Prim.Native.Nat.◌≤◌ m n → N.le (N.dec m k) (N.dec n k) ≡ true
  pub largest_ge :
      (x y : F)
      → IsNumber x
      → IsNumber y
      → (N.le x (N.largest x y) ≡ true) × (N.le y (N.largest x y) ≡ true)
  pub largest_le : (x y z : F) → N.le x z ≡ true → N.le y z ≡ true → N.le (N.largest x y) z ≡ true
  pub smallest_le :
      (x y : F)
      → IsNumber x
      → IsNumber y
      → (N.le (N.smallest x y) x ≡ true) × (N.le (N.smallest x y) y ≡ true)
  pub le_smallest : (x y z : F) → N.le z x ≡ true → N.le z y ≡ true → N.le z (N.smallest x y) ≡ true
  -- `toFixed` takes at most 100 digits.
  pub to_fixed_mono :
      (k : ℕ)
      → Prim.Native.Nat.◌≤◌ k 100
      → (x y : F) → N.le x y ≡ true
      → N.le (N.to_fixed k x) (N.to_fixed k y) ≡ true
  pub to_fixed_integer :
      (k : ℕ) → Prim.Native.Nat.◌≤◌ k 100 → (n : ℕ) → N.to_fixed k (N.dec n 0) ≡ N.dec n 0
  -- Whole numbers up to 2 ^ 53 are doubles.
  pub floor_ge :
      (n : ℕ) (x : F)
      → Prim.Native.Nat.◌≤◌ n 9_007_199_254_740_992
      → N.is_finite x ≡ true
      → N.le (N.dec n 0) x ≡ true
      → Prim.Native.Nat.◌≤◌ n (N.floor x)
  pub to_fixed_cents : (n : ℕ) → N.to_fixed 4 (N.dec n 2) ≡ N.dec n 2
  pub dec_zero : N.dec 0 0 ≡ N.dec 0 2
  pub dec_one : N.dec 1 0 ≡ N.dec 100 2
