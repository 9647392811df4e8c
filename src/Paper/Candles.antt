-- ===== src/Paper/Candles.antt =====
-- connectors/tesser-paper/src/lib.rs: `CandleBuilder`, which gathers trades into candles.
pub mod Volume
mod Tests
use tesser.Prelude.{Bool, Option, none, some, if◌then◌else◌, unwrap_or}
use tesser.Prelude.Int.{leb_ℤ, ◌-ℤ◌}
use tesser.Decimal.{Decimal, nought, ◌⊕◌, max, min}
use tesser.Core.Ids.{Symbol}
use tesser.Core.Types.{Time, Duration, Candle, one_minute}

module _ (D : Type 0) where
  pub record CandleBuilder : Type 0 where
    pub symbol : Symbol
    pub «open» : Option D
    pub high : D
    pub low : D
    pub close : D
    pub volume : D
    pub start : Option Time

module _ {D : Type 0} ⦃d : Decimal D⦄ where
  unfoldable pub new : Symbol → CandleBuilder D
  new symbol = record {
    symbol = symbol;
    «open» = none;
    high = nought;
    low = nought;
    close = nought;
    volume = nought;
    start = none;
  }

  unfoldable pub reset : D → Time → D → CandleBuilder D → CandleBuilder D
  reset price timestamp volume b = record b {
    «open» = some price;
    high = price;
    low = price;
    close = price;
    volume = volume;
    start = some timestamp;
  }

  unfoldable pub update :
      D → Time → D → Duration → CandleBuilder D → Option (Candle D) × CandleBuilder D
  update price timestamp qty interval b = elim b.«open» [
    | none ↦ (none, reset price timestamp qty b)
    | some first ↦
        let b' = record b {
          high = max b.high price;
          low = min b.low price;
          close = price;
          volume = b.volume ⊕ qty;
        } in
        let start = unwrap_or b.start timestamp in
        if leb_ℤ interval (timestamp -ℤ start)
        then (
          some (record {
            symbol = b'.symbol;
            interval = one_minute;
            «open» = first;
            high = b'.high;
            low = b'.low;
            close = b'.close;
            volume = b'.volume;
            timestamp = start;
          }),
          reset price timestamp qty b',
        )
        else (none, b')
  ]
