-- ===== src/Execution/Risk/Accepts.antt =====
-- The orders that `BasicRiskChecker` lets through, described without its control flow.
use tesser.Prelude.{◌≡◌, ◌↔◌, ◌⊎◌, Bool, true, false, Option, none, some, arith}
use tesser.Prelude.Result.{ok, seq_iff}
use tesser.Decimal.{Decimal, nought, ◌⊗◌, ◌⊘◌, abs}
use tesser.Decimal.Parts.{◌≼◌, ◌≺◌}
use tesser.Core.Types.{spot, linear_perpetual, inverse_perpetual, Side, buy, sell, OrderRequest}
use tesser.Execution.Risk.{
  RiskContext, RiskLimits, reference_price, projected_position, check_size, check_notional,
  check_exposure, check_liquidation, reduces_only, check_balance, check,
}

module _ {D : Type 0} ⦃d : Decimal D⦄ where
  -- A limit that is zero or less is off.
  abbrev pub Within : D → D → Type 0
  Within bound x = (bound ≼ nought) ⊎ (x ≼ bound)

  abbrev pub NotionalWithin : Option D → Option D → D → Type 0
  NotionalWithin (some bound) (some price) qty = (qty ⊗ price) ≼ bound
  NotionalWithin _ _ qty = Unit

  -- The order closes part of the position or all of it.
  abbrev pub Reduces : Side → D → D → Type 0
  Reduces buy position qty = (position ≺ nought) × (qty ≼ abs position)
  Reduces sell position qty = (nought ≺ position) × (qty ≼ abs position)

  abbrev pub ReducesIf : Bool → Side → D → D → Type 0
  ReducesIf true side position qty = Reduces side position qty
  ReducesIf false side position qty = Unit

  abbrev Covers : D → Option D → Type 0
  Covers available none = Unit
  Covers available (some needed) = needed ≼ available

  abbrev pub needs : (D → D) → Option D → Option D
  needs f none = none
  needs f (some p) = some (f p)

  -- The account can pay: a spot order in full, a derivative its margin unless it only reduces.
  abbrev pub Funded : OrderRequest D → RiskContext D → D → Option D → Type 0
  Funded r ctx qty price = elim ctx.instrument_kind [
    | none ↦ Unit
    | some spot ↦ elim r.side [
      | buy ↦ Covers ctx.quote_available (needs (λ p. qty ⊗ p) price)
      | sell ↦ qty ≼ ctx.base_available
    ]
    | some linear_perpetual ↦
        Reduces r.side ctx.signed_position_qty qty
        ⊎ Covers ctx.settlement_available (needs (λ p. qty ⊗ p) price)
    | some inverse_perpetual ↦
        Reduces r.side ctx.signed_position_qty qty
        ⊎ Covers ctx.settlement_available (needs (λ p. qty ⊘ p) price)
  ]

  pub record Accepts (l : RiskLimits D) (r : OrderRequest D) (ctx : RiskContext D) : Type 0 where
    pub size : Within l.max_order_quantity (abs r.quantity)
    pub notional : NotionalWithin l.max_order_notional (reference_price r ctx) (abs r.quantity)
    pub exposure :
        Within l.max_position_quantity
          (abs (projected_position r.side ctx.signed_position_qty (abs r.quantity)))
    pub liquidation : ReducesIf ctx.liquidate_only r.side ctx.signed_position_qty (abs r.quantity)
    pub funded : Funded r ctx (abs r.quantity) (reference_price r ctx)

  check_size_iff : (bound qty : D) → (check_size bound qty ≡ ok tt) ↔ Within bound qty
  unfolding check_size
  check_size_iff bound qty = ground arith

  check_exposure_iff : (bound x : D) → (check_exposure bound x ≡ ok tt) ↔ Within bound (abs x)
  unfolding check_exposure
  check_exposure_iff bound x = ground arith

  check_notional_iff :
      (bound price : Option D) (qty : D)
      → (check_notional bound price qty ≡ ok tt) ↔ NotionalWithin bound price qty
  unfolding check_notional
  check_notional_iff none price qty = ground arith
  check_notional_iff (some b) none qty = ground arith
  check_notional_iff (some b) (some p) qty = ground arith

  reduces_only_iff :
      (side : Side) (position qty : D)
      → (reduces_only side position qty ≡ true) ↔ Reduces side position qty
  unfolding reduces_only
  reduces_only_iff buy position qty = ground arith
  reduces_only_iff sell position qty = ground arith

  check_liquidation_iff :
      (on : Bool) (side : Side) (position qty : D)
      → (check_liquidation on side position qty ≡ ok tt) ↔ ReducesIf on side position qty
  unfolding check_liquidation
  check_liquidation_iff false side position qty = ground arith
  check_liquidation_iff true buy position qty = ground arith
  check_liquidation_iff true sell position qty = ground arith

  abbrev PriceAbove : Option D → Type 0
  PriceAbove none = Unit
  PriceAbove (some p) = nought ≺ p

  reference_price_above :
      (r : OrderRequest D) (ctx : RiskContext D) → PriceAbove (reference_price r ctx)
  unfolding reference_price
  reference_price_above r ctx = ground arith

  check_balance_iff :
      (r : OrderRequest D) (ctx : RiskContext D) (qty : D) (price : Option D)
      → PriceAbove price
      → (check_balance r ctx qty (reduces_only r.side ctx.signed_position_qty qty) price ≡ ok tt)
        ↔ Funded r ctx qty price
  unfolding check_balance
  check_balance_iff r ctx qty none a =
      ground (arith, reduces_only_iff r.side ctx.signed_position_qty qty)
  check_balance_iff r ctx qty (some p) a =
      ground (arith, reduces_only_iff r.side ctx.signed_position_qty qty)

  -- The checker passes an order exactly when `Accepts` describes it: its size, its notional value at the
  -- reference price and the position that it leads to are within the limits that are on; in
  -- liquidate-only mode it only reduces the position; and the account can pay for it.
  pub check_iff :
      (l : RiskLimits D) (r : OrderRequest D) (ctx : RiskContext D)
      → (check l r ctx ≡ ok tt) ↔ Accepts l r ctx
  unfolding check
  check_iff l r ctx =
      let qty = abs r.quantity in
      let position = ctx.signed_position_qty in
      let price = reference_price r ctx in
      let after = projected_position r.side position qty in
      let size = check_size_iff l.max_order_quantity qty in
      let notional = check_notional_iff l.max_order_notional price qty in
      let exposure = check_exposure_iff l.max_position_quantity after in
      let liquidation = check_liquidation_iff ctx.liquidate_only r.side position qty in
      let funded = check_balance_iff r ctx qty price (reference_price_above r ctx) in
      (
        λ h.
            let (h₃, f) = (seq_iff _ _ tt).0 h in
            let (h₂, o) = (seq_iff _ _ tt).0 h₃ in
            let (h₁, x) = (seq_iff _ _ tt).0 h₂ in
            let (s, n) = (seq_iff _ _ tt).0 h₁ in
            record {
              size = size.0 s;
              notional = notional.0 n;
              exposure = exposure.0 x;
              liquidation = liquidation.0 o;
              funded = funded.0 f;
            },
        λ a.
            let s = (seq_iff _ _ tt).1 (size.1 a.size, notional.1 a.notional) in
            let x = (seq_iff _ _ tt).1 (s, exposure.1 a.exposure) in
            let o = (seq_iff _ _ tt).1 (x, liquidation.1 a.liquidation) in
            (seq_iff _ _ tt).1 (o, funded.1 a.funded),
      )
