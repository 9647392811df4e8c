-- ===== src/Decimal/Cents.antt =====
-- The laws can be met: decimals in hundredths, rounded towards zero.
use tesser.Prelude.{ℕ, suc, ◌+◌, ◌*◌, ◌/◌, ◌^◌, ◌≤◌, ◌≡◌, refl, arith}
use tesser.Prelude.Int.{ℤ, pos, negsuc, sub_ℕ, ◌+ℤ◌, ◌-ℤ◌, neg_ℤ, ◌≤ℤ◌, ◌<ℤ◌, abs_ℤ}
use native.Mathlib.Nat.{mul-le-mul, le_refl, mul-div-mul_right, div-le_self, div-le_of_le-mul}
use tesser.Decimal.{Decimal}
use tesser.Decimal.Laws.{IsExact}

-- A quotient rounded towards zero; by zero it is zero.
abbrev pub quot : ℤ → ℤ → ℤ
quot (pos a) (pos b) = pos (a / b)
quot (pos a) (negsuc b) = sub_ℕ 0 (a / suc b)
quot (negsuc a) (pos b) = sub_ℕ 0 (suc a / b)
quot (negsuc a) (negsuc b) = pos (suc a / suc b)

abbrev pub mul_cents : ℤ → ℤ → ℤ
mul_cents (pos a) (pos b) = pos (a * b / 100)
mul_cents (pos a) (negsuc b) = sub_ℕ 0 (a * suc b / 100)
mul_cents (negsuc a) (pos b) = sub_ℕ 0 (suc a * b / 100)
mul_cents (negsuc a) (negsuc b) = pos (suc a * suc b / 100)

abbrev pub div_cents : ℤ → ℤ → ℤ
div_cents (pos a) b = quot (pos (a * 100)) b
div_cents (negsuc a) b = quot (negsuc (a * 100 + 99)) b

instance abbrev pub cents : Decimal ℤ
cents = record {
  units = λ a. a;
  nought = pos 0;
  one = pos 100;
  of_ℕ = λ n. pos (n * 100);
  scaled = λ n k. pos (n * 100 / 10 ^ k);
  add = ◌+ℤ◌;
  sub = ◌-ℤ◌;
  mul = mul_cents;
  div = div_cents;
  neg = neg_ℤ;
  abs = abs_ℤ;
}

mul_cents_nonneg : (a b : ℤ) → pos 0 ≤ℤ a → pos 0 ≤ℤ b → pos 0 ≤ℤ mul_cents a b
mul_cents_nonneg (pos a) (pos b) p q = ground arith
mul_cents_nonneg (pos a) (negsuc b) p q = absurd (omega arith)
mul_cents_nonneg (negsuc a) b p q = absurd (omega arith)

mul_cents-le : (a b : ℤ) → pos 0 ≤ℤ a → b ≤ℤ pos 100 → mul_cents a b ≤ℤ a
mul_cents-le (pos a) (pos b) p q =
    let bound : a * b ≤ a * 100 = mul-le-mul (le_refl a) (omega arith) in omega arith
mul_cents-le (pos a) (negsuc b) p q = ground arith
mul_cents-le (negsuc a) b p q = absurd (omega arith)

mul_cents-one : (a : ℤ) → mul_cents a (pos 100) ≡ a
mul_cents-one (pos a) = ground arith
mul_cents-one (negsuc a) = ground arith

mul_cents_neg_one : (a : ℤ) → mul_cents a (neg_ℤ (pos (1 * 100))) ≡ neg_ℤ a
unfolding neg_ℤ
mul_cents_neg_one (pos a) = ground arith
mul_cents_neg_one (negsuc a) = ground arith

div_cents_nonneg : (a b : ℤ) → pos 0 ≤ℤ a → pos 0 <ℤ b → pos 0 ≤ℤ div_cents a b
div_cents_nonneg (pos a) (pos b) p q = ground arith
div_cents_nonneg (pos a) (negsuc b) p q = absurd (omega arith)
div_cents_nonneg (negsuc a) b p q = absurd (omega arith)

div_cents-le : (a : ℤ) (n : ℕ) → pos 0 ≤ℤ a → div_cents a (pos (suc n * 100)) ≤ℤ a
div_cents-le (pos a) n p =
    omega (arith, mul-div-mul_right {m = 100} a (suc n) (omega arith), div-le_self a (suc n))
div_cents-le (negsuc a) n p = absurd (omega arith)

div_cents_one : (a : ℤ) → div_cents a (pos (1 * 100)) ≡ a
div_cents_one (pos a) = ground arith
div_cents_one (negsuc a) = ground arith

div_cents_by-le : (a b : ℤ) → pos 0 ≤ℤ a → pos 100 ≤ℤ b → div_cents a b ≤ℤ a
div_cents_by-le (pos a) (pos b) p q =
    let least : 100 ≤ b = omega (arith, q) in
    let bound : 100 * a ≤ b * a = mul-le-mul least (le_refl a) in
    omega (arith, div-le_of_le-mul b {m = a * 100} {n = a} (omega (arith, bound)))
div_cents_by-le (pos a) (negsuc b) p q = absurd (omega arith)
div_cents_by-le (negsuc a) b p q = absurd (omega arith)

pub cents-IsExact : IsExact ℤ
cents-IsExact = record {
  units-nought = refl;
  one_pos = omega arith;
  of_ℕ_pos = λ n. omega arith;
  units-add = λ a b. refl;
  units-sub = λ a b. refl;
  units-neg = λ a. refl;
  units-abs = λ a. refl;
  mul_nonneg = mul_cents_nonneg;
  mul-le = mul_cents-le;
  mul-one = mul_cents-one;
  mul_of_one = mul_cents-one;
  mul_neg_one = mul_cents_neg_one;
  div_nonneg = div_cents_nonneg;
  div_of_ℕ-le = div_cents-le;
  div_of_one = div_cents_one;
  units-of_ℕ_zero = refl;
  div-le = div_cents_by-le;
}
