-- ===== src/Portfolio/Holding/Signed.antt =====
-- What fills do to the signed quantity of a position, and to its profit.
use tesser.Prelude.{◌≡◌, ◌≢◌, ◌⊎◌, none, some, arith}
use tesser.Prelude.Int.{◌+ℤ◌, +ℤ_parts, eq_of_parts}
use tesser.Decimal.{one, ◌⊘◌, Decimal, units, nought, ◌⊕◌, ◌⊖◌, abs, neg}
use tesser.Decimal.Laws.{IsExact}
use tesser.Decimal.Parts.{IsNonneg, ◌≼◌, nought_parts, add_parts, sub_parts, neg_parts, abs_parts}
use tesser.Core.Types.{inverse_perpetual, InstrumentKind, buy, sell, inverse, Fill, Position}
use tesser.Portfolio.Holding.{
  fill_position, grow, shrink, signed, realized_delta, unrealized_of, calculate_realized_pnl,
}

module _ {D : Type 0} ⦃d : Decimal D⦄ where
  -- A position's quantity is not below zero, and a position without a side has none.
  pub record IsPosition (q : Position D) : Type 0 where
    pub nonneg : IsNonneg q.quantity
    pub flat : (q.side ≢ none) ⊎ (units q.quantity ≡ units {D = D} nought)

  abbrev pub signed_fill : Fill D → D
  signed_fill f = elim f.side [ buy ↦ f.fill_quantity | sell ↦ neg f.fill_quantity ]

  -- A fill of the other side that takes the whole quantity realizes, for each kind of instrument, the
  -- value that marking the position to the price of the fill would show as unrealized.
  pub close_realizes_mark :
      (kind : InstrumentKind) (f : Fill D) (q : Position D)
      → q.side ≡ some (inverse f.side)
      → units f.fill_quantity ≡ units q.quantity
      → realized_delta kind f q ≡ unrealized_of kind f.fill_price q
  unfolding realized_delta unrealized_of calculate_realized_pnl
  close_realizes_mark kind f q s e = ground arith

module _ {D : Type 0} ⦃d : Decimal D⦄ (laws : IsExact D) where
  -- A fill moves the signed quantity of a position by its own signed quantity, whether it grows, reduces,
  -- closes or turns around the position, and leaves a position.
  pub fill_position-signed :
      (f : Fill D) (q : Position D)
      → IsPosition q
      → IsNonneg f.fill_quantity
      → IsPosition (fill_position f q)
        × (units (signed (fill_position f q)) ≡ units (signed q) +ℤ units (signed_fill f))
  unfolding fill_position grow shrink signed
  fill_position-signed f q i n = ground (
    arith,
    nought_parts laws,
    add_parts laws q.quantity f.fill_quantity,
    sub_parts laws q.quantity f.fill_quantity,
    neg_parts laws q.quantity,
    neg_parts laws f.fill_quantity,
    neg_parts laws (q.quantity ⊕ f.fill_quantity),
    abs_parts laws (q.quantity ⊖ f.fill_quantity),
    neg_parts laws (q.quantity ⊖ f.fill_quantity),
    neg_parts laws (abs (q.quantity ⊖ f.fill_quantity)),
    +ℤ_parts (units (signed q)) (units (signed_fill f)),
    eq_of_parts (units (signed (fill_position f q))) (units (signed q) +ℤ units (signed_fill f)),
  )

  pub close-fill_position :
      (f : Fill D) (q : Position D)
      → q.side ≡ some (inverse f.side)
      → units f.fill_quantity ≡ units q.quantity
      → fill_position f q
        ≡ record q { quantity = nought; side = none; entry_price = none; updated_at = f.timestamp }
  unfolding fill_position shrink
  close-fill_position f q s e =
      ground (arith, nought_parts laws, sub_parts laws q.quantity f.fill_quantity)

  -- A short position of an inverse perpetual, of a quantity not below zero, never shows a loss at a price whose reciprocal is at most
  -- that of the entry price.
  pub inverse_short_gains :
      (q : Position D) (entry price : D)
      → q.side ≡ some sell
      → q.entry_price ≡ some entry
      → IsNonneg q.quantity
      → (one ⊘ price) ≼ (one ⊘ entry)
      → IsNonneg (unrealized_of inverse_perpetual price q)
  unfolding unrealized_of
  inverse_short_gains q entry price s e n le = ground (
    arith,
    nought_parts laws,
    laws.units-nought,
    sub_parts laws (one ⊘ entry) (one ⊘ price),
    laws.mul_nonneg ((one ⊘ entry) ⊖ (one ⊘ price)) q.quantity,
  )
