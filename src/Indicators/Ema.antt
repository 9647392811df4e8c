-- ===== src/Indicators/Ema.antt =====
-- tesser-indicators/src/indicators/ema.rs: the exponentially weighted mean.
pub mod Warmup
use tesser.Prelude.{ℕ, ◌+◌, Bool, Option, none, some, if◌then◌else◌, ◌==◌}
use tesser.Prelude.Result.{Result, ok, err}
use tesser.Prelude.Bytes.{codes}
use tesser.Decimal.{Decimal, nought, of_ℕ, ◌⊕◌, ◌⊖◌, ◌⊗◌, ◌⊘◌}
use tesser.Indicators.{Input, Indicator, IndicatorError, invalid_period, decimal_from_usize}

pub record Ema (D : Type 0) : Type 0 where
  pub period : ℕ
  pub alpha : D
  pub divisor : D
  pub state : Option D
  pub warmup_sum : D
  pub warmup_count : ℕ

module _ {D : Type 0} ⦃d : Decimal D⦄ where
  -- an average that a period above zero begins
  abbrev pub start : ℕ → Ema D
  start period = record {
    period = period;
    alpha = of_ℕ 2 ⊘ decimal_from_usize (period + 1);
    divisor = decimal_from_usize period;
    state = none;
    warmup_sum = nought;
    warmup_count = 0;
  }

  unfoldable pub new : ℕ → Result (IndicatorError D) (Ema D)
  new period = if period == 0 then err (invalid_period (codes "EMA") period) else ok (start period)

  unfoldable pub next : {V : Type 0} → Input V D → V → Ema D → Option D × Ema D
  next i input s =
      let value = i.value input in
      elim s.state [
        | none ↦
            let sum = s.warmup_sum ⊕ value in
            if s.warmup_count + 1 == s.period
            then (let average = sum ⊘ s.divisor in
                (
                  some average,
                  record s { state = some average; warmup_sum = nought; warmup_count = 0 },
                ))
            else (none, record s { warmup_sum = sum; warmup_count = s.warmup_count + 1 })
        | some current ↦
            let average = ((value ⊖ current) ⊗ s.alpha) ⊕ current in
            (some average, record s { state = some average })
      ]

  unfoldable pub reset : Ema D → Ema D
  reset s = record s { state = none; warmup_sum = nought; warmup_count = 0 }

  abbrev pub ema : {V : Type 0} → Input V D → Indicator (Ema D) V D
  ema i = record { next = next i; reset = reset }
