-- ===== src/Execution/Risk/Exposure.antt =====
-- What an order that passed `BasicRiskChecker` can do to the position.
use tesser.Prelude.{◌≡◌, ◌⊎◌, true, arith}
use tesser.Prelude.Result.{ok}
use tesser.Decimal.{Decimal, nought, abs}
use tesser.Decimal.Laws.{IsExact}
use tesser.Decimal.Parts.{◌≼◌, ◌≺◌, nought_parts, abs_parts, add_parts, sub_parts}
use tesser.Core.Types.{Side, buy, sell, OrderRequest}
use tesser.Execution.Risk.{RiskContext, RiskLimits, projected_position, check}
use tesser.Execution.Risk.Accepts.{Reduces, check_iff}

module _ {D : Type 0} ⦃d : Decimal D⦄ (laws : IsExact D) where
  -- The position has not grown, nor turned to the other side.
  abbrev pub Shrinks : D → D → Type 0
  Shrinks before after =
      ((nought ≺ before) × (nought ≼ after) × (after ≼ before))
      ⊎ ((before ≺ nought) × (after ≼ nought) × (before ≼ after))

  Reduces-Shrinks :
      (side : Side) (position qty : D)
      → Reduces side position (abs qty)
      → Shrinks position (projected_position side position (abs qty))
  unfolding projected_position
  Reduces-Shrinks buy position qty h = ground (
    arith,
    add_parts laws position (abs qty),
    abs_parts laws position,
    abs_parts laws qty,
    nought_parts laws,
    laws.units-nought,
  )
  Reduces-Shrinks sell position qty h = ground (
    arith,
    sub_parts laws position (abs qty),
    abs_parts laws position,
    abs_parts laws qty,
    nought_parts laws,
    laws.units-nought,
  )

  -- In liquidate-only mode an order that passes the checker, filled in full, brings the position nearer
  -- to zero or to zero, and never past it.
  pub check_liquidates :
      (l : RiskLimits D) (r : OrderRequest D) (ctx : RiskContext D)
      → ctx.liquidate_only ≡ true
      → check l r ctx ≡ ok tt
      → Shrinks ctx.signed_position_qty
          (projected_position r.side ctx.signed_position_qty (abs r.quantity))
  check_liquidates l r ctx on h =
      Reduces-Shrinks r.side ctx.signed_position_qty r.quantity
        (rw on at ((check_iff l r ctx).0 h).liquidation)
