-- ===== src/Indicators/Atr.antt =====
-- tesser-indicators/src/indicators/atr.rs: the average true range.
pub mod Range
use tesser.Prelude.{ℕ, ◌+◌, ◌-◌, Bool, Option, none, some, if◌then◌else◌, ◌==◌, unwrap_or}
use tesser.Prelude.Result.{Result, ok, err}
use tesser.Prelude.Bytes.{codes}
use tesser.Decimal.{Decimal, nought, of_ℕ, ◌⊕◌, ◌⊖◌, ◌⊗◌, ◌⊘◌, max, abs}
use tesser.Core.Types.{Candle}
use tesser.Indicators.{Indicator, IndicatorError, invalid_period}

pub record Atr (D : Type 0) : Type 0 where
  pub period : ℕ
  pub prev_close : Option D
  pub atr : Option D
  pub warmup_sum : D
  pub warmup_count : ℕ

module _ {D : Type 0} ⦃d : Decimal D⦄ where
  abbrev pub start : ℕ → Atr D
  start period = record {
    period = period;
    prev_close = none;
    atr = none;
    warmup_sum = nought;
    warmup_count = 0;
  }

  unfoldable pub new : ℕ → Result (IndicatorError D) (Atr D)
  new period = if period == 0 then err (invalid_period (codes "ATR") period) else ok (start period)

  unfoldable pub true_range : Candle D → D → D
  true_range candle prev_close =
      max (max (candle.high ⊖ candle.low) (abs (candle.high ⊖ prev_close)))
        (abs (candle.low ⊖ prev_close))

  unfoldable pub next : Candle D → Atr D → Option D × Atr D
  next input s =
      let tr = true_range input (unwrap_or s.prev_close input.close) in
      elim s.atr [
        | some current ↦
            let average = ((current ⊗ of_ℕ (s.period - 1)) ⊕ tr) ⊘ of_ℕ s.period in
            (some average, record s { prev_close = some input.close; atr = some average })
        | none ↦
            let sum = s.warmup_sum ⊕ tr in
            let count = s.warmup_count + 1 in
            if count == s.period
            then (let init = sum ⊘ of_ℕ s.period in
                (
                  some init,
                  record s {
                    prev_close = some input.close;
                    atr = some init;
                    warmup_sum = nought;
                    warmup_count = count;
                  },
                ))
            else (
              none,
              record s { prev_close = some input.close; warmup_sum = sum; warmup_count = count },
            )
      ]

  unfoldable pub reset : Atr D → Atr D
  reset s = record s { prev_close = none; atr = none; warmup_sum = nought; warmup_count = 0 }

  abbrev pub atr : Indicator (Atr D) (Candle D) D
  atr = record { next = next; reset = reset }
