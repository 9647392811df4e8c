-- ===== src/Indicators/Tests.antt =====
-- Indicators over a few prices, and the theorems at them.
use tesser.Prelude.{suc, ◌+◌, ◌≡◌, refl, Option, some, List, [], ◌∷◌, ◌++◌, arith, leb, length, map}
use tesser.Prelude.Int.{ℤ, pos, ◌+ℤ◌, ◌-ℤ◌}
use tesser.Prelude.Result.{ok}
use tesser.Decimal.Cents.{cents, cents-IsExact}
use tesser.Decimal.Parts.{IsNonneg}
use tesser.Core.Types.{Candle, one_minute}
use tesser.Indicators.{decimal_input, decimal_from_usize, candle_input, fed, pipe}
use tesser.Indicators.Sma
use tesser.Indicators.Ema
use tesser.Indicators.Ema.Warmup.{is_some}
use tesser.Indicators.Rsi
use tesser.Indicators.Rsi.Range.{InRange, next-InRange}
use tesser.Indicators.Bollinger
use tesser.Indicators.Bollinger.Bands.{AreBandsOf, next_bands}
use tesser.Indicators.Macd
use tesser.Indicators.Macd.Warmup.{later, emits_from}
use tesser.Indicators.Renewal
use tesser.Indicators.Renewal.{Built, reset_renews}

abbrev prices : List ℤ
prices = pos 100 ∷ pos 300 ∷ pos 200 ∷ []

abbrev two : Sma.Sma ℤ
two = record { period = 2; divisor = pos 200; sum = pos 0; window = [] }

two_made : Sma.new 2 ≡ ok two
unfolding Sma.new decimal_from_usize
two_made = refl

-- the mean of the last two prices
mean_run :
    (Sma.next decimal_input (pos 400) (fed (Sma.sma decimal_input) two prices)).0 ≡ some (pos 300)
unfolding Sma.next ◌-ℤ◌ ◌+ℤ◌
mean_run = refl

index_made : Rsi.new 2 ≡ ok (Rsi.start {D = ℤ} 2)
unfolding Rsi.new
index_made = refl

next-InRange_example :
    InRange (Rsi.next decimal_input (pos 150) (fed (Rsi.rsi decimal_input) (Rsi.start 2) prices)).0
next-InRange_example =
    next-InRange cents-IsExact decimal_input 2 (Rsi.start 2) index_made prices (pos 150)

lines_made : Macd.new 2 3 2 ≡ ok (Macd.made {D = ℤ} 2 3 2)
unfolding Macd.new Ema.new
lines_made = refl

emits_from_example :
    is_some (Macd.next (pos 150) (fed Macd.macd (Macd.made 2 3 2) prices)).0
    ≡ leb (later 2 3 + 2) (suc (suc (length prices)))
emits_from_example = emits_from 2 3 2 (Macd.made 2 3 2) lines_made prices (pos 150)

abbrev candle : ℤ → Candle ℤ
candle x = record {
  symbol = record { exchange = 1; market_id = 7 };
  interval = one_minute;
  «open» = x;
  high = x;
  low = x;
  close = x;
  volume = pos 100;
  timestamp = pos 5;
}

-- a root that is good enough for a test
abbrev no_root : ℤ → Option ℤ
no_root v = some (pos 50)

abbrev bands : Bollinger.BollingerBands ℤ
bands = record {
  period = 2;
  divisor = pos 200;
  std_multiplier = pos 200;
  sum = pos 0;
  sum_of_squares = pos 0;
  window = [];
}

bands_made : Bollinger.new 2 (pos 200) ≡ ok bands
unfolding Bollinger.new decimal_from_usize
bands_made = refl

half-IsNonneg : (v r : ℤ) → IsNonneg v → no_root v ≡ some r → IsNonneg r
half-IsNonneg v r n h = ground (arith, h)

next_bands_example :
    AreBandsOf 2
      (map (λ x. x) prices ++ (pos 400 ∷ []))
      (Bollinger.next no_root decimal_input
        (pos 400)
        (fed (Bollinger.bollinger no_root decimal_input) bands prices)).0
next_bands_example =
    next_bands cents-IsExact no_root half-IsNonneg decimal_input 2 (pos 200) bands bands_made prices
      (pos 400)

-- a mean of the closes, and the index of that
reset_renews_example :
    (pipe (Sma.sma candle_input) (Rsi.rsi decimal_input)).reset (
      fed
        (pipe (Sma.sma candle_input) (Rsi.rsi decimal_input))
        (two, Rsi.start 2)
        (map candle prices))
    ≡ (two, Rsi.start 2)
reset_renews_example =
    reset_renews (pipe (Sma.sma candle_input) (Rsi.rsi decimal_input)) (two, Rsi.start 2)
      (Renewal.chain (Sma.sma candle_input) (Rsi.rsi decimal_input) two (Rsi.start 2)
        (Renewal.sma candle_input 2 two two_made)
        (Renewal.rsi decimal_input 2 (Rsi.start 2) index_made))
      (map candle prices)
