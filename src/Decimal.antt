-- ===== src/Decimal.antt =====
-- `rust_decimal::Decimal`, which the program imports: a parameter of the development. A decimal is
-- a whole number of the smallest steps, and comparisons are those of that number.
pub mod Laws
pub mod Parts
pub mod Cents
use tesser.Prelude.{ℕ, Bool, if◌then◌else◌}
use tesser.Prelude.Int.{ℤ, ltb_ℤ, leb_ℤ, ◌==ℤ◌}

-- The operations that the program calls, with the value of a decimal in smallest steps.
pub record Decimal {ℓ} (D : Type ℓ) : Type ℓ where
  pub units : D → ℤ
  -- `Decimal::ZERO` and `Decimal::ONE`
  pub nought : D
  pub one : D
  -- `Decimal::from(n)`, and `Decimal::new(n, scale)`
  pub of_ℕ : ℕ → D
  pub scaled : ℕ → ℕ → D
  pub add : D → D → D
  pub sub : D → D → D
  pub mul : D → D → D
  pub div : D → D → D
  pub neg : D → D
  pub abs : D → D

module _ {ℓ} {D : Type ℓ} ⦃d : Decimal D⦄ where
  infixl 65 ◌⊕◌ ◌⊖◌
  infixl 70 ◌⊗◌ ◌⊘◌
  infix 50 ◌<?◌ ◌≤?◌ ◌=?◌
  abbrev pub units : D → ℤ
  units = d.units

  abbrev pub nought : D
  nought = d.nought

  abbrev pub one : D
  one = d.one

  abbrev pub of_ℕ : ℕ → D
  of_ℕ = d.of_ℕ

  abbrev pub scaled : ℕ → ℕ → D
  scaled = d.scaled

  abbrev pub ◌⊕◌ : D → D → D
  a ⊕ b = d.add a b

  abbrev pub ◌⊖◌ : D → D → D
  a ⊖ b = d.sub a b

  abbrev pub ◌⊗◌ : D → D → D
  a ⊗ b = d.mul a b

  abbrev pub ◌⊘◌ : D → D → D
  a ⊘ b = d.div a b

  abbrev pub neg : D → D
  neg = d.neg

  abbrev pub abs : D → D
  abs = d.abs

  abbrev pub ◌<?◌ : D → D → Bool
  a <? b = ltb_ℤ (d.units a) (d.units b)

  abbrev pub ◌≤?◌ : D → D → Bool
  a ≤? b = leb_ℤ (d.units a) (d.units b)

  abbrev pub ◌=?◌ : D → D → Bool
  a =? b = d.units a ==ℤ d.units b

  abbrev pub is_zero : D → Bool
  is_zero a = a =? nought

  -- `Ord::max` and `Ord::min`: on equal values `max` is the second and `min` the first.
  abbrev pub max : D → D → D
  max a b = if b <? a then a else b

  abbrev pub min : D → D → D
  min a b = if b <? a then b else a
