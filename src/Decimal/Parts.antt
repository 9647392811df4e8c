-- ===== src/Decimal/Parts.antt =====
-- The laws of decimals as equations between numbers, which `omega` and `ground` read.
use tesser.Prelude.{ℕ, ◌+◌, ◌≡◌, arith, ◌⊎◌}
use tesser.Prelude.Int.{pos, pos_part, neg_part, ◌≤ℤ◌, ◌<ℤ◌, +ℤ_parts, -ℤ_parts, neg_ℤ_parts}
use tesser.Decimal.{Decimal, units, ◌⊕◌, ◌⊖◌, neg, abs}
use tesser.Decimal.Laws.{IsExact}

module _ {D : Type 0} ⦃d : Decimal D⦄ where
  abbrev pub up : D → ℕ
  up a = pos_part (units a)

  abbrev pub down : D → ℕ
  down a = neg_part (units a)

  -- A decimal above zero, and one not below.
  abbrev pub IsPos : D → Type 0
  IsPos a = pos 0 <ℤ units a

  abbrev pub IsNonneg : D → Type 0
  IsNonneg a = pos 0 ≤ℤ units a

  infix 50 ◌≼◌ ◌≺◌
  abbrev pub ◌≼◌ : D → D → Type 0
  a ≼ b = units a ≤ℤ units b

  abbrev pub ◌≺◌ : D → D → Type 0
  a ≺ b = units a <ℤ units b

module _ {D : Type 0} ⦃d : Decimal D⦄ (laws : IsExact D) where
  pub nought_parts : up d.nought ≡ down d.nought
  nought_parts = ground (arith, laws.units-nought)

  pub add_parts : (a b : D) → up (a ⊕ b) + down a + down b ≡ down (a ⊕ b) + up a + up b
  add_parts a b = ground (arith, laws.units-add a b, +ℤ_parts (d.units a) (d.units b))

  pub sub_parts : (a b : D) → up (a ⊖ b) + down a + up b ≡ down (a ⊖ b) + up a + down b
  sub_parts a b = ground (arith, laws.units-sub a b, -ℤ_parts (d.units a) (d.units b))

  pub neg_parts : (a : D) → up (neg a) + up a ≡ down (neg a) + down a
  neg_parts a = ground (arith, laws.units-neg a, neg_ℤ_parts (d.units a))

  pub abs_parts : (a : D) → (up (abs a) ≡ up a + down a) × (down (abs a) ≡ 0)
  abs_parts a = ground (arith, laws.units-abs a)

  -- Of the two parts of a decimal one is zero.
  pub one_sided : (a : D) → (up a ≡ 0) ⊎ (down a ≡ 0)
  one_sided a = ground arith
