-- ===== src/Execution/Risk.antt =====
-- tesser-execution/src/lib.rs: `RiskLimits` and `BasicRiskChecker`.
pub mod Accepts
pub mod Exposure
use tesser.Prelude.{Bool, true, false, Option, none, some, ◌&&◌, ◌||◌, not, if◌then◌else◌, or_else}
use tesser.Prelude.Result.{Result, ok, fail_if, ◌>>◌}
use tesser.Decimal.{Decimal, nought, ◌⊕◌, ◌⊖◌, ◌⊗◌, ◌⊘◌, ◌<?◌, ◌≤?◌, abs, max, is_zero}
use tesser.Core.Ids.{ExchangeId, AssetId, Symbol}
use tesser.Core.Types.{
  InstrumentKind, spot, linear_perpetual, inverse_perpetual, Side, buy, sell, same_side, limit,
  market, stop_market, OrderRequest,
}

module _ (D : Type 0) where
  pub record RiskContext : Type 0 where
    pub symbol : Symbol
    pub exchange : ExchangeId
    pub signed_position_qty : D
    pub portfolio_equity : D
    pub exchange_equity : D
    pub last_price : D
    pub liquidate_only : Bool
    pub instrument_kind : Option InstrumentKind
    pub base_asset : AssetId
    pub quote_asset : AssetId
    pub settlement_asset : AssetId
    pub base_available : D
    pub quote_available : D
    pub settlement_available : D

  pub record RiskLimits : Type 0 where
    pub max_order_quantity : D
    pub max_position_quantity : D
    pub max_order_notional : Option D

  pub data RiskError : Type 0 where
    max_order_size : D → D → RiskError
    max_order_notional : D → D → RiskError
    max_position_exposure : D → D → RiskError
    liquidate_only : RiskError
    insufficient_balance : AssetId → D → D → RiskError

abbrev pub Checked : Type 0 → Type 0
Checked D = Result (RiskError D) (Unit {0})

module _ {D : Type 0} ⦃d : Decimal D⦄ where
  -- `filter(|x| *x > ZERO)`
  abbrev pub positive : Option D → Option D
  positive none = none
  positive (some x) = if nought <? x then some x else none

  unfoldable pub sanitized : RiskLimits D → RiskLimits D
  sanitized l = record {
    max_order_quantity = max l.max_order_quantity nought;
    max_position_quantity = max l.max_position_quantity nought;
    max_order_notional = positive l.max_order_notional;
  }

  unfoldable pub reference_price : OrderRequest D → RiskContext D → Option D
  reference_price r ctx = elim r.order_type [
    | limit ↦ or_else (positive r.price) (positive (some ctx.last_price))
    | market ↦ positive (some ctx.last_price)
    | stop_market ↦ positive (some ctx.last_price)
  ]

  unfoldable pub projected_position : Side → D → D → D
  projected_position buy position qty = position ⊕ qty
  projected_position sell position qty = position ⊖ qty

  unfoldable pub check_size : D → D → Checked D
  check_size max_order qty =
      fail_if ((nought <? max_order) && (max_order <? qty)) (max_order_size qty max_order)

  unfoldable pub check_notional : Option D → Option D → D → Checked D
  check_notional (some limit_n) (some price) qty =
      fail_if (limit_n <? (qty ⊗ price)) (max_order_notional (qty ⊗ price) limit_n)
  check_notional _ _ qty = ok tt

  unfoldable pub check_exposure : D → D → Checked D
  check_exposure max_position projected =
      fail_if ((nought <? max_position) && (max_position <? abs projected))
        (max_position_exposure projected max_position)

  unfoldable pub check_liquidation : Bool → Side → D → D → Checked D
  check_liquidation false side position qty = ok tt
  check_liquidation true side position qty =
      fail_if (is_zero position) liquidate_only
      >> fail_if
          (not (
            ((nought <? position) && same_side side sell)
            || ((position <? nought) && same_side side buy)))
          liquidate_only
      >> fail_if (abs position <? qty) liquidate_only

  unfoldable pub reduces_only : Side → D → D → Bool
  reduces_only buy position qty = (position <? nought) && (qty ≤? abs position)
  reduces_only sell position qty = (nought <? position) && (qty ≤? abs position)

  -- `if available < needed { return Err(…) }`
  abbrev check_funds : AssetId → D → D → Checked D
  check_funds asset needed available =
      fail_if (available <? needed) (insufficient_balance asset needed available)

  unfoldable pub check_balance : OrderRequest D → RiskContext D → D → Bool → Option D → Checked D
  check_balance r ctx qty reduce_only price = elim ctx.instrument_kind [
    | none ↦ ok tt
    | some spot ↦ elim r.side [
      | buy ↦ elim price [
        | none ↦ ok tt
        | some p ↦ check_funds ctx.quote_asset (qty ⊗ p) ctx.quote_available
      ]
      | sell ↦ check_funds ctx.base_asset qty ctx.base_available
    ]
    | some linear_perpetual ↦ if reduce_only then ok tt else elim price [
      | none ↦ ok tt
      | some p ↦ check_funds ctx.settlement_asset (qty ⊗ p) ctx.settlement_available
    ]
    | some inverse_perpetual ↦ if reduce_only then ok tt else elim price [
      | none ↦ ok tt
      | some p ↦
          if nought <? p
          then check_funds ctx.settlement_asset (qty ⊘ p) ctx.settlement_available
          else ok tt
    ]
  ]

  -- `BasicRiskChecker::check`, with the limits that `new` has sanitized
  unfoldable pub check : RiskLimits D → OrderRequest D → RiskContext D → Checked D
  check limits r ctx =
      let qty = abs r.quantity in
      let position = ctx.signed_position_qty in
      let price = reference_price r ctx in
      check_size limits.max_order_quantity qty
      >> check_notional limits.max_order_notional price qty
      >> check_exposure limits.max_position_quantity (projected_position r.side position qty)
      >> check_liquidation ctx.liquidate_only r.side position qty
      >> check_balance r ctx qty (reduces_only r.side position qty) price
