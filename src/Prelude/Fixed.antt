-- ===== src/Prelude/Fixed.antt =====
-- A concrete arithmetic for the interface of `Prelude.Floats`: fixed-point numbers, in thousandths.
use Prim.Native.Nat.{ℕ, zero, suc, ◌+◌, ◌*◌, ◌/◌}
use mathlib.Core.Path.{◌≡◌}
use mathlib.Core.Bool.{Bool, false}
use native.Mathlib.Omega.{arith}
use distributed_tracing_plat.Prelude.Tests.{leb, eqb, if◌then◌else◌}
use distributed_tracing_plat.Prelude.Int.{ℤ, pos, negsuc, ◌+ℤ◌, ◌-ℤ◌, ◌*ℤ◌, ltb_ℤ, leb_ℤ, abs}
use distributed_tracing_plat.Prelude.Floats.{Floats, Lawful}

abbrev pub opposite : ℕ → ℤ
opposite zero = pos 0
opposite (suc n) = negsuc n

abbrev pub mul_fixed : ℤ → ℤ → ℤ
mul_fixed (pos a) (pos b) = pos (a * b / 1000)
mul_fixed (pos a) (negsuc b) = opposite (a * suc b / 1000)
mul_fixed (negsuc a) (pos b) = opposite (suc a * b / 1000)
mul_fixed (negsuc a) (negsuc b) = pos (suc a * suc b / 1000)

abbrev pub div_fixed : ℤ → ℤ → ℤ
div_fixed (pos a) (pos b) = pos (a * 1000 / b)
div_fixed (pos a) (negsuc b) = opposite (a * 1000 / suc b)
div_fixed (negsuc a) (pos b) = opposite (suc a * 1000 / b)
div_fixed (negsuc a) (negsuc b) = pos (suc a * 1000 / suc b)

-- The whole root, two binary digits for each unit of fuel.
abbrev pub whole_root : ℕ → ℕ → ℕ
whole_root zero n = 0
whole_root (suc fuel) n =
    let r = 2 * whole_root fuel (n / 4) in if leb ((r + 1) * (r + 1)) n then r + 1 else r

abbrev pub sqrt_fixed : ℤ → ℤ
sqrt_fixed (pos a) = pos (whole_root 30 (a * 1000))
sqrt_fixed (negsuc a) = pos 0

abbrev pub power_of_ten : ℕ → ℕ
power_of_ten zero = 1
power_of_ten (suc d) = 10 * power_of_ten d

abbrev pub is_zero_fixed : ℤ → Bool
is_zero_fixed (pos a) = eqb a 0
is_zero_fixed (negsuc a) = false

instance abbrev pub fixed : Floats ℤ
fixed = record {
  add = ◌+ℤ◌;
  sub = ◌-ℤ◌;
  mul = mul_fixed;
  div = div_fixed;
  neg = λ a. pos 0 -ℤ a;
  abs_of = abs;
  sqrt = sqrt_fixed;
  of_ℤ = λ a. 1000 *ℤ a;
  of_ℕ = λ n. pos (n * 1000);
  decimal = λ n d. pos (n * 1000 / power_of_ten d);
  lt = ltb_ℤ;
  le = leb_ℤ;
  is_zero = is_zero_fixed;
}

scaled_pos : (a : ℕ) → eqb (1482 * suc a / 1000) 0 ≡ false
scaled_pos a = ground arith

mul_scale_fixed : (a : ℤ) → leb_ℤ a (pos 0) ≡ false → is_zero_fixed (mul_fixed (pos 1482) a) ≡ false
mul_scale_fixed (pos zero) h = absurd (ground arith)
mul_scale_fixed (pos (suc a)) h = scaled_pos a
mul_scale_fixed (negsuc a) h = absurd (ground arith)

mul_fixed_nonneg :
    (a b : ℤ)
    → ltb_ℤ a (pos 0) ≡ false
    → ltb_ℤ b (pos 0) ≡ false
    → ltb_ℤ (mul_fixed a b) (pos 0) ≡ false
mul_fixed_nonneg (pos a) (pos b) h k = ground arith
mul_fixed_nonneg (pos a) (negsuc b) h k = absurd (ground arith)
mul_fixed_nonneg (negsuc a) b h k = absurd (ground arith)

div_fixed_nonneg :
    (a b : ℤ)
    → ltb_ℤ a (pos 0) ≡ false
    → ltb_ℤ b (pos 0) ≡ false
    → ltb_ℤ (div_fixed a b) (pos 0) ≡ false
div_fixed_nonneg (pos a) (pos b) h k = ground arith
div_fixed_nonneg (pos a) (negsuc b) h k = absurd (ground arith)
div_fixed_nonneg (negsuc a) b h k = absurd (ground arith)

pub fixed-Lawful : Lawful fixed
unfolding ◌+ℤ◌ ◌-ℤ◌
fixed-Lawful = record {
  of_ℕ_suc = λ n. ground arith;
  of_ℕ_nonneg = λ n. ground arith;
  not_le_nonzero = λ a h. ground arith;
  lt_nonzero = λ a h. ground arith;
  lt_nonneg = λ a h. ground arith;
  one_sub = λ a h. ground arith;
  add_nonneg = λ a b h k. ground arith;
  mul_nonneg = mul_fixed_nonneg;
  div_nonneg = λ a b z h k. div_fixed_nonneg a b h k;
  mul_scale = mul_scale_fixed;
}
