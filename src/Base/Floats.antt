-- ===== src/Base/Floats.antt =====
-- Python's floats as an interface: the operations that the source uses, and of their behaviour
-- only that the comparison of floats that are not NaN is a total order, and that a product of a
-- float that is not negative with a factor below or above one, rounded, does not pass it.
use Prim.Native.Nat.{ℕ, ◌+◌, ◌-◌, ◌*◌, ◌/◌, ◌^◌}
use mathlib.Core.Bool.{Bool, true, false}
use mathlib.Core.Path.{◌≡◌}
use native.Mathlib.Omega.{arith}
use inter_gate.Base.Tests.{leb, le→leb, if◌then◌else◌}
use inter_gate.Base.Int.{ℤ, pos_part}

pub record Floats : Type 1 where
  pub F : Type 0
  pub le : F → F → Bool
  pub add : F → F → F
  pub sub : F → F → F
  pub mul : F → F → F
  pub div : F → F → F
  pub of_ℕ : ℕ → F
  pub of_ℤ : ℤ → F
  -- the literal n / 10 ^ d
  pub decimal : ℕ → ℕ → F
  -- `int(x // n)` of a float that is not negative
  pub floor_div : F → ℕ → ℕ
  pub total : (a b : F) → le a b ≡ false → le b a ≡ true
  pub trans : (a b c : F) → le a b ≡ true → le b c ≡ true → le a c ≡ true
  pub mul_below : (a : F) → le (of_ℕ 0) a ≡ true → le (mul a (decimal 85 2)) a ≡ true
  pub mul_above : (a : F) → le (of_ℕ 0) a ≡ true → le a (mul a (add (of_ℕ 1) (decimal 2 2))) ≡ true

module _ (fl : Floats) where
  open fl use {F, le, total}

  -- `max(a, b)`: the first argument unless the second is greater.
  abbrev pub fmax : F → F → F
  fmax a b = if le b a then a else b

  -- `min(a, b)`: the first argument unless the second is less.
  abbrev pub fmin : F → F → F
  fmin a b = if le a b then a else b

  pub le_refl : (a : F) → le a a ≡ true
  le_refl a = ground (arith, total a a)

  -- To raise a value to a lower bound, and to cut one at an upper bound, keeps it in between.
  pub fmax_between :
      (lo hi x : F)
      → le lo hi ≡ true
      → le x hi ≡ true
      → (le lo (fmax lo x) ≡ true) × (le (fmax lo x) hi ≡ true)
  fmax_between lo hi x h k = ground (arith, total x lo, le_refl lo)

  pub fmin_between :
      (lo hi x : F)
      → le lo hi ≡ true
      → le lo x ≡ true
      → (le lo (fmin hi x) ≡ true) × (le (fmin hi x) hi ≡ true)
  fmin_between lo hi x h k = ground (arith, total hi x, le_refl hi)

-- Numbers with six decimals, which meet the interface.
pub fixed_total : (a b : ℕ) → leb a b ≡ false → leb b a ≡ true
fixed_total a b h = ground arith

pub fixed_trans : (a b c : ℕ) → leb a b ≡ true → leb b c ≡ true → leb a c ≡ true
fixed_trans a b c h k = ground arith

pub fixed_below :
    (a : ℕ) → leb 0 a ≡ true → leb (a * (85 * 1_000_000 / 10 ^ 2) / 1_000_000) a ≡ true
fixed_below a h = le→leb _ a (omega arith)

pub fixed_above :
    (a : ℕ)
    → leb 0 a ≡ true
    → leb a (a * (1 * 1_000_000 + 2 * 1_000_000 / 10 ^ 2) / 1_000_000) ≡ true
fixed_above a h = le→leb a _ (omega arith)

abbrev pub fixed_point : Floats
fixed_point = record {
  F = ℕ;
  le = leb;
  add = λ a b. a + b;
  sub = λ a b. a - b;
  mul = λ a b. a * b / 1_000_000;
  div = λ a b. a * 1_000_000 / b;
  of_ℕ = λ n. n * 1_000_000;
  of_ℤ = λ n. pos_part n * 1_000_000;
  decimal = λ n d. n * 1_000_000 / 10 ^ d;
  floor_div = λ x n. x / 1_000_000 / n;
  total = fixed_total;
  trans = fixed_trans;
  mul_below = fixed_below;
  mul_above = fixed_above;
}
