-- ===== src/Decimal/Laws.antt =====
-- What the program relies on: `rust_decimal` computes sums and differences "with no round-off
-- errors", and rounds products and quotients, which keeps signs and orders. The laws speak of values
-- inside its range, where no operation panics.
use tesser.Prelude.{ℕ, suc, ◌≡◌}
use tesser.Prelude.Int.{pos, ◌+ℤ◌, ◌-ℤ◌, neg_ℤ, ◌≤ℤ◌, ◌<ℤ◌, abs_ℤ}
use tesser.Decimal.{Decimal, units, nought, one, of_ℕ, ◌⊕◌, ◌⊖◌, ◌⊗◌, ◌⊘◌, neg, abs}

pub record IsExact {ℓ} (D : Type ℓ) ⦃d : Decimal D⦄ : Type ℓ where
  pub units-nought : units {D = D} nought ≡ pos 0
  pub one_pos : pos 0 <ℤ units {D = D} one
  pub of_ℕ_pos : (n : ℕ) → pos 0 <ℤ units {D = D} (of_ℕ (suc n))
  pub units-add : (a b : D) → units (a ⊕ b) ≡ units a +ℤ units b
  pub units-sub : (a b : D) → units (a ⊖ b) ≡ units a -ℤ units b
  pub units-neg : (a : D) → units (neg a) ≡ neg_ℤ (units a)
  pub units-abs : (a : D) → units (abs a) ≡ abs_ℤ (units a)
  pub mul_nonneg : (a b : D) → pos 0 ≤ℤ units a → pos 0 ≤ℤ units b → pos 0 ≤ℤ units (a ⊗ b)
  -- a factor of at most one does not raise a value that is not negative
  pub mul-le :
      (a b : D) → pos 0 ≤ℤ units a → units b ≤ℤ units {D = D} one → units (a ⊗ b) ≤ℤ units a
  pub mul-one : (a : D) → units (a ⊗ one) ≡ units a
  pub mul_of_one : (a : D) → units (a ⊗ of_ℕ 1) ≡ units a
  pub mul_neg_one : (a : D) → units (a ⊗ neg (of_ℕ 1)) ≡ neg_ℤ (units a)
  pub div_nonneg : (a b : D) → pos 0 ≤ℤ units a → pos 0 <ℤ units b → pos 0 ≤ℤ units (a ⊘ b)
  -- a divisor of at least one does not raise a value that is not negative
  pub div_of_ℕ-le : (a : D) (n : ℕ) → pos 0 ≤ℤ units a → units (a ⊘ of_ℕ (suc n)) ≤ℤ units a
  pub div_of_one : (a : D) → units (a ⊘ of_ℕ 1) ≡ units a
  pub units-of_ℕ_zero : units {D = D} (of_ℕ 0) ≡ pos 0
  -- any divisor of at least one
  pub div-le :
      (a b : D) → pos 0 ≤ℤ units a → units {D = D} one ≤ℤ units b → units (a ⊘ b) ≤ℤ units a
