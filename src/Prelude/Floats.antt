-- ===== src/Prelude/Floats.antt =====
-- Floating-point arithmetic as an interface: the operations that the code calls, and the laws of
-- IEEE 754 that the theorems rely on. NaN satisfies no comparison, so a law is about tests that fail
-- as well as about tests that succeed.
use Prim.Native.Nat.{ℕ, suc}
use distributed_tracing_plat.Prelude.Tests.{if◌then◌else◌}
use distributed_tracing_plat.Prelude.Int.{ℤ}
use mathlib.Core.Path.{◌≡◌}
use mathlib.Core.Bool.{Bool, true, false}
use mathlib.Core.Option.{Option, none, some}

pub record Floats (F : Type 0) : Type 0 where
  pub add : F → F → F
  pub sub : F → F → F
  pub mul : F → F → F
  -- division by a number that is not zero
  pub div : F → F → F
  pub neg : F → F
  pub abs_of : F → F
  -- the root of a number that is not negative
  pub sqrt : F → F
  pub of_ℤ : ℤ → F
  pub of_ℕ : ℕ → F
  -- the constant with these digits after the point: `decimal n d` is n / 10 ^ d
  pub decimal : ℕ → ℕ → F
  pub lt : F → F → Bool
  pub le : F → F → Bool
  pub is_zero : F → Bool

module _ {F : Type 0} ⦃f : Floats F⦄ where
  abbrev pub zero_F : F
  zero_F = f.of_ℕ 0

  abbrev pub one_F : F
  one_F = f.of_ℕ 1

  -- `a / b`, which raises ZeroDivisionError.
  abbrev pub divide : F → F → Option F
  divide a b = if f.is_zero b then none else some (f.div a b)

  -- `math.sqrt(a)`, which raises ValueError.
  abbrev pub root : F → Option F
  root a = if f.lt a zero_F then none else some (f.sqrt a)

-- The laws. A number that is not negative is one for which `< 0` fails.
pub record Lawful {F : Type 0} (f : Floats F) : Type 0 where
  pub of_ℕ_suc : (n : ℕ) → f.is_zero (f.of_ℕ (suc n)) ≡ false
  pub of_ℕ_nonneg : (n : ℕ) → f.lt (f.of_ℕ n) (f.of_ℕ 0) ≡ false
  pub not_le_nonzero : (a : F) → f.le a (f.of_ℕ 0) ≡ false → f.is_zero a ≡ false
  pub lt_nonzero : (a : F) → f.lt (f.of_ℕ 0) a ≡ true → f.is_zero a ≡ false
  pub lt_nonneg : (a : F) → f.lt (f.of_ℕ 0) a ≡ true → f.lt a (f.of_ℕ 0) ≡ false
  -- subtracting a number below one from one
  pub one_sub : (a : F) → f.lt a (f.of_ℕ 1) ≡ true → f.lt (f.sub (f.of_ℕ 1) a) (f.of_ℕ 0) ≡ false
  pub add_nonneg :
      (a b : F)
      → f.lt a (f.of_ℕ 0) ≡ false
      → f.lt b (f.of_ℕ 0) ≡ false
      → f.lt (f.add a b) (f.of_ℕ 0) ≡ false
  pub mul_nonneg :
      (a b : F)
      → f.lt a (f.of_ℕ 0) ≡ false
      → f.lt b (f.of_ℕ 0) ≡ false
      → f.lt (f.mul a b) (f.of_ℕ 0) ≡ false
  pub div_nonneg :
      (a b : F)
      → f.is_zero b ≡ false
      → f.lt a (f.of_ℕ 0) ≡ false
      → f.lt b (f.of_ℕ 0) ≡ false
      → f.lt (f.div a b) (f.of_ℕ 0) ≡ false
  -- `1.4826 * a` of a number above zero
  pub mul_scale :
      (a : F) → f.le a (f.of_ℕ 0) ≡ false → f.is_zero (f.mul (f.decimal 14826 4) a) ≡ false
