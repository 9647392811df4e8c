-- ===== src/Paper/Fees.antt =====
-- connectors/tesser-paper/src/fees.rs: what the simulated exchange charges for a fill.
use tesser.Prelude.{Bool, true, false, ◌||◌, none, some, [], ◌∷◌, arith, if◌then◌else◌}
use tesser.Prelude.HashMap.{HashMap, lookup}
use tesser.Prelude.Bytes.{text_key}
use tesser.Decimal.{Decimal, nought, of_ℕ, ◌⊗◌, ◌⊘◌, max, abs, is_zero}
use tesser.Decimal.Laws.{IsExact}
use tesser.Decimal.Parts.{IsNonneg, abs_parts}
use tesser.Core.Types.{Text, Side}

pub data LiquidityRole : Type 0 where
  maker taker : LiquidityRole

pub record FeeContext : Type 0 where
  pub symbol : Text
  pub side : Side
  pub role : LiquidityRole

module _ (D : Type 0) where
  pub record FeePair : Type 0 where
    pub maker_bps : D
    pub taker_bps : D

  pub record ScheduleFeeModel : Type 0 where
    pub «default» : FeePair
    pub overrides : HashMap Text FeePair

  pub record MarketFeeConfig : Type 0 where
    pub maker_bps : D
    pub taker_bps : D

  pub record FeeScheduleConfig : Type 0 where
    pub default_maker_bps : D
    pub default_taker_bps : D
    pub markets : HashMap Text MarketFeeConfig

module _ {D : Type 0} where
  abbrev pub rate : LiquidityRole → FeePair D → D
  rate maker p = p.maker_bps
  rate taker p = p.taker_bps

  abbrev pub new : FeePair D → HashMap Text (FeePair D) → ScheduleFeeModel D
  new pair overrides = record { «default» = pair; overrides = overrides }

  abbrev pub pair_for : Text → ScheduleFeeModel D → FeePair D
  pair_for symbol model = elim (lookup symbol model.overrides) [
    | none ↦ model.«default»
    | some pair ↦ pair
  ]

  abbrev pub with_defaults : D → D → FeeScheduleConfig D
  with_defaults maker_bps taker_bps = record {
    default_maker_bps = maker_bps;
    default_taker_bps = taker_bps;
    markets = [];
  }

  abbrev pub flat : D → FeeScheduleConfig D
  flat bps = record { default_maker_bps = bps; default_taker_bps = bps; markets = [] }

  abbrev pairs_of : HashMap Text (MarketFeeConfig D) → HashMap Text (FeePair D)
  pairs_of [] = []
  pairs_of ((symbol, cfg) ∷ markets) =
      (symbol, record { maker_bps = cfg.maker_bps; taker_bps = cfg.taker_bps }) ∷ pairs_of markets

  unfoldable pub build_model : FeeScheduleConfig D → ScheduleFeeModel D
  build_model cfg =
      new (record { maker_bps = cfg.default_maker_bps; taker_bps = cfg.default_taker_bps })
        (pairs_of cfg.markets)

module _ {D : Type 0} ⦃d : Decimal D⦄ where
  abbrev pub default_config : FeeScheduleConfig D
  default_config = record { default_maker_bps = nought; default_taker_bps = nought; markets = [] }

  unfoldable pub fee : FeeContext → D → D → ScheduleFeeModel D → D
  fee ctx price quantity model =
      let bps = max (rate ctx.role (pair_for ctx.symbol model)) nought in
      if is_zero bps || is_zero quantity || is_zero price
      then nought
      else (bps ⊘ of_ℕ 10000) ⊗ (price ⊗ abs quantity)

module _ {D : Type 0} ⦃d : Decimal D⦄ (laws : IsExact D) where
  or_nought-IsNonneg : (b : Bool) (x : D) → IsNonneg x → IsNonneg (if b then nought else x)
  or_nought-IsNonneg true x h = ground (arith, laws.units-nought)
  or_nought-IsNonneg false x h = h

  max-IsNonneg : (r : D) → IsNonneg (max r nought)
  max-IsNonneg r = ground (arith, laws.units-nought)

  abs-IsNonneg : (q : D) → IsNonneg (abs q)
  abs-IsNonneg q = ground (arith, abs_parts laws q)

  -- A fill at a price that is not below zero is never paid for, whatever rates are configured.
  fee-IsNonneg :
      (ctx : FeeContext) (price quantity : D) (cfg : FeeScheduleConfig D)
      → IsNonneg price
      → IsNonneg (fee ctx price quantity (build_model cfg))
  unfolding fee
  fee-IsNonneg ctx price quantity cfg h =
      nonneg (rate ctx.role (pair_for ctx.symbol (build_model cfg)))
    where
      nonneg :
          (r : D)
          → IsNonneg (
              if is_zero (max r nought) || is_zero quantity || is_zero price
              then nought
              else (max r nought ⊘ of_ℕ 10000) ⊗ (price ⊗ abs quantity))
      nonneg r = or_nought-IsNonneg _ _ (
          laws.mul_nonneg _ _ (laws.div_nonneg _ _ (max-IsNonneg r) (laws.of_ℕ_pos 9999))
            (laws.mul_nonneg price (abs quantity) h (abs-IsNonneg quantity)))
