-- ===== src/Base/Fixed.antt =====
-- A concrete arithmetic, with which definitions run and the assumptions about numbers are met:
-- fixed-point numbers, whole hundred-millionths with a sign.

use Prim.Native.Nat.{ℕ, zero, suc, ◌≤◌, ◌+◌, ◌-◌, ◌*◌, ◌/◌, ◌%◌, ◌^◌}
use native.Mathlib.Omega.{arith}
use native.Mathlib.Nat.{mul-le-mul, le_refl}
use mathlib.Core.Path.{◌≡◌, refl, ap}
use mathlib.Core.Bool.{true}
use event_probability_termin.Base.Tests.{leb, ◌==◌, if◌then◌else◌}
use event_probability_termin.Base.Int.{
  ℤ, pos, negsuc, pos_part, neg_part, neg_ℤ, add_ℤ, sub_ℤ, mul_ℤ, div_ℤ, lt_ℤ, le_ℤ, eq_ℤ,
}
use event_probability_termin.Base.Number.{Number, IsOrdered}

abbrev scale : ℕ
scale = 10 ^ 8

-- A magnitude rounded half up to a multiple of `d`.
abbrev round_to : ℕ → ℕ → ℕ
round_to d m = (m + d / 2) / d * d

abbrev round_ℤ : ℕ → ℤ → ℤ
round_ℤ d (pos m) = pos (round_to d m)
round_ℤ d (negsuc m) = neg_ℤ (pos (round_to d (suc m)))

-- The whole square root of `n`, from below: `k` binary digits still to add to `r`.
abbrev root : ℕ → ℕ → ℕ → ℕ
root zero n r = r
root (suc k) n r = root k n (if leb ((r + 2 ^ k) * (r + 2 ^ k)) n then r + 2 ^ k else r)

-- `n / 10 ^ k` in units, from below.
abbrev units : ℕ → ℕ → ℕ
units n k = if leb k 8 then n * 10 ^ (8 - k) else n / 10 ^ (k - 8)

abbrev pub Fixed : Type 0
Fixed = ℤ

instance abbrev pub fixed_number : Number Fixed
fixed_number = record {
  dec = λ n k. pos (units n k);
  add = add_ℤ;
  sub = sub_ℤ;
  mul = mul_ℤ scale;
  div = div_ℤ scale;
  neg = neg_ℤ;
  lt = lt_ℤ;
  le = le_ℤ;
  eq = eq_ℤ;
  largest = λ a b. if lt_ℤ a b then b else a;
  smallest = λ a b. if lt_ℤ b a then b else a;
  abs = λ a. pos (pos_part a + neg_part a);
  sign = λ a.
      if lt_ℤ (pos 0) a then pos scale else if lt_ℤ a (pos 0) then neg_ℤ (pos scale) else pos 0;
  sqrt = λ a. pos (root 64 (pos_part a * scale) 0);
  is_finite = λ a. true;
  is_integer = λ a. (pos_part a + neg_part a) % scale == 0;
  to_fixed = λ k a. round_ℤ (10 ^ (8 - k)) a;
  floor = λ a. pos_part a / scale;
}

units_mono : (m n k : ℕ) → m ≤ n → units m k ≤ units n k
units_mono m n k h =
    let shrunk : m / 10 ^ (k - 8) ≤ n / 10 ^ (k - 8) = grind arith in
    ground (arith, mul-le-mul h (le_refl (10 ^ (8 - k))), shrunk)

round_to_mono : (d m n : ℕ) → m ≤ n → round_to d m ≤ round_to d n
round_to_mono d m n h = grind arith

round_to-one : (n : ℕ) → round_to 1 n ≡ n
round_to-one n = omega arith

-- Whole numbers are multiples of every power of ten that rounding uses.
round_to-integer : (k n : ℕ) → round_to (10 ^ (8 - k)) (n * 10 ^ 8) ≡ n * 10 ^ 8
round_to-integer zero n = omega arith
round_to-integer (suc zero) n = omega arith
round_to-integer (suc (suc zero)) n = omega arith
round_to-integer (suc (suc (suc zero))) n = omega arith
round_to-integer (suc (suc (suc (suc zero)))) n = omega arith
round_to-integer (suc (suc (suc (suc (suc zero))))) n = omega arith
round_to-integer (suc (suc (suc (suc (suc (suc zero)))))) n = omega arith
round_to-integer (suc (suc (suc (suc (suc (suc (suc zero))))))) n = omega arith
round_to-integer (suc (suc (suc (suc (suc (suc (suc (suc zero)))))))) n = omega arith
round_to-integer (suc (suc (suc (suc (suc (suc (suc (suc (suc k))))))))) n =
    let e : 8 - suc (suc (suc (suc (suc (suc (suc (suc (suc k)))))))) ≡ 0 = omega arith in
    rw e (round_to-one _)

round_ℤ_mono : (d : ℕ) (x y : ℤ) → le_ℤ x y ≡ true → le_ℤ (round_ℤ d x) (round_ℤ d y) ≡ true
round_ℤ_mono d (pos m) (pos n) h = ground (arith, round_to_mono d m n)
round_ℤ_mono d (negsuc m) (negsuc n) h = ground (arith, round_to_mono d (suc n) (suc m))
round_ℤ_mono d (negsuc m) (pos n) h = ground arith
round_ℤ_mono d (pos m) (negsuc n) h = ground arith

floor_ge_fixed : (n : ℕ) (x : Fixed) → le_ℤ (pos (n * 10 ^ 8)) x ≡ true → n ≤ pos_part x / scale
floor_ge_fixed n (pos m) h = let e : n * 10 ^ 8 ≤ m = ground arith in omega arith
floor_ge_fixed n (negsuc m) h = ground arith

pub Fixed-IsOrdered : IsOrdered Fixed
Fixed-IsOrdered = record {
  lt_le = λ x y h. ground arith;
  lt_asymm = λ x y h. ground arith;
  lt_trans = λ x y z h k. ground arith;
  le_trans = λ x y z h k. ground arith;
  lt-not-le = λ x y h k. ground arith;
  le_number = λ x y h. ground arith;
  finite_number = λ x h. ground arith;
  dec_le = λ m n k h. ground (arith, units_mono m n k h);
  largest_ge = λ x y h k. ground arith;
  largest_le = λ x y z h k. ground arith;
  smallest_le = λ x y h k. ground arith;
  le_smallest = λ x y z h k. ground arith;
  to_fixed_mono = λ k few. round_ℤ_mono (10 ^ (8 - k));
  to_fixed_integer = λ k few n. ap pos (round_to-integer k n);
  floor_ge = λ n x small finite. floor_ge_fixed n x;
  to_fixed_cents = λ n. ground arith;
  dec_zero = refl;
  dec_one = refl;
}
