-- ===== src/Execution/Sizing.antt =====
-- tesser-execution/src/lib.rs: the implementations of `OrderSizer`, as one data type.
use tesser.Prelude.{none, some, if◌then◌else◌}
use tesser.Prelude.Result.{Result, ok, fail_if, ◌>>◌}
use tesser.Prelude.Bytes.{codes}
use tesser.Decimal.{Decimal, nought, scaled, ◌⊗◌, ◌⊘◌, ◌≤?◌, max}
use tesser.Core.Types.{Signal, Text}
use tesser.Execution.Risk.{RiskContext}

pub data Sizer (D : Type 0) : Type 0 where
  fixed : D → Sizer D
  portfolio_percent : D → Sizer D
  risk_adjusted : D → Sizer D

module _ {D : Type 0} ⦃d : Decimal D⦄ where
  -- `OrderSizer::size`
  unfoldable pub size : Sizer D → D → D → Result Text D
  size (fixed q) equity last_price = ok q
  size (portfolio_percent percent) equity last_price =
      fail_if (last_price ≤? nought) (codes "cannot size order with zero or negative price")
      >> ok (if percent ≤? nought then nought else (equity ⊗ percent) ⊘ last_price)
  size (risk_adjusted fraction) equity last_price =
      let denom = last_price ⊗ scaled 2 2 in
      fail_if (last_price ≤? nought) (codes "cannot size order with zero or negative price")
      >> (if fraction ≤? nought
          then ok nought
          else (fail_if (denom ≤? nought)
                (codes "volatility multiplier produced an invalid denominator")
              >> ok ((equity ⊗ fraction) ⊘ denom)))

  -- `ExecutionEngine::determine_quantity`
  unfoldable pub determine_quantity : Sizer D → Signal D → RiskContext D → Result Text D
  unfolding size
  determine_quantity sizer s ctx = elim s.quantity [
    | some q ↦ ok (max q nought)
    | none ↦ size sizer ctx.exchange_equity ctx.last_price
  ]
