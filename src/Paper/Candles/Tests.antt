-- ===== src/Paper/Candles/Tests.antt =====
-- Two candles of three trades, and the theorem at them.
use tesser.Prelude.{◌≡◌, refl, List, [], ◌∷◌, All}
use tesser.Prelude.Int.{ℤ, pos, ◌+ℤ◌, ◌-ℤ◌}
use tesser.Decimal.{units}
use tesser.Decimal.Cents.{cents, cents-IsExact}
use tesser.Core.Ids.{Symbol}
use tesser.Paper.Candles.{new, reset, update}
use tesser.Paper.Candles.Volume.{
  Trade, gather, traded, closing, volume_of, IsCandle, candles_count_twice,
}

abbrev pair : Symbol
pair = record { exchange = 1; market_id = 7 }

-- 1.00, 2.00 and 3.00, the last of which ends a candle of 60
abbrev trades : List (Trade ℤ)
trades =
    (pos 10000, pos 0, pos 100) ∷ (pos 10100, pos 30, pos 200) ∷ (pos 9900, pos 60, pos 300) ∷ []

-- 6.00 in the candle, and 3.00 under way
counted_twice :
    volume_of (gather (pos 60) trades (new pair)).0
      +ℤ units (gather (pos 60) trades (new pair)).1.volume
    ≡ pos 900
unfolding new update reset ◌+ℤ◌ ◌-ℤ◌
counted_twice = refl

candles_count_twice_example :
    All (λ c. IsCandle c) (gather (pos 60) trades (new pair)).0
    × (volume_of (gather (pos 60) trades (new pair)).0
          +ℤ units (gather (pos 60) trades (new pair)).1.volume
        ≡ traded trades +ℤ closing (pos 60) trades (new pair))
candles_count_twice_example = candles_count_twice cents-IsExact pair (pos 60) trades
