-- ===== src/Indicators/Rsi.antt =====
-- tesser-indicators/src/indicators/rsi.rs: the relative strength index. A sign is that of the value, zero
-- counting as positive.
pub mod Range
use tesser.Prelude.{ℕ, ◌+◌, ◌-◌, Bool, Option, none, some, if◌then◌else◌, ◌==◌, ltb, unwrap_or}
use tesser.Prelude.Result.{Result, ok, err}
use tesser.Prelude.Bytes.{codes}
use tesser.Decimal.{Decimal, nought, one, of_ℕ, ◌⊕◌, ◌⊖◌, ◌⊗◌, ◌⊘◌, ◌<?◌, ◌≤?◌, neg, is_zero}
use tesser.Indicators.{Input, Indicator, IndicatorError, invalid_period, decimal_from_usize}

pub record Rsi (D : Type 0) : Type 0 where
  pub period : ℕ
  pub divisor : D
  pub decay : D
  pub prev_value : Option D
  pub avg_gain : Option D
  pub avg_loss : Option D
  pub warmup_count : ℕ
  pub gain_sum : D
  pub loss_sum : D

module _ {D : Type 0} ⦃d : Decimal D⦄ where
  abbrev pub start : ℕ → Rsi D
  start period = record {
    period = period;
    divisor = decimal_from_usize period;
    decay = decimal_from_usize (period - 1);
    prev_value = none;
    avg_gain = none;
    avg_loss = none;
    warmup_count = 0;
    gain_sum = nought;
    loss_sum = nought;
  }

  unfoldable pub new : ℕ → Result (IndicatorError D) (Rsi D)
  new period = if period == 0 then err (invalid_period (codes "RSI") period) else ok (start period)

  unfoldable pub compute_rsi : D → D → D
  compute_rsi avg_gain avg_loss =
      if is_zero avg_loss
      then of_ℕ 100
      else if is_zero avg_gain
      then nought
      else of_ℕ 100 ⊖ (of_ℕ 100 ⊘ ((avg_gain ⊘ avg_loss) ⊕ one))

  abbrev pub gain_of : D → D
  gain_of change = if nought ≤? change then change else nought

  abbrev pub loss_of : D → D
  loss_of change = if change <? nought then neg change else nought

  -- Wilder's smoothing; `unwrap` is of an average that is there
  abbrev pub smoothed : Rsi D → Option D → D → D
  smoothed s average x =
      if s.period == 1 then x else ((unwrap_or average nought ⊗ s.decay) ⊕ x) ⊘ s.divisor

  unfoldable pub next : {V : Type 0} → Input V D → V → Rsi D → Option D × Rsi D
  next i input s =
      let value = i.value input in
      elim s.prev_value [
        | none ↦ (none, record s { prev_value = some value })
        | some prev ↦
            let gain = gain_of (value ⊖ prev) in
            let loss = loss_of (value ⊖ prev) in
            elim s.avg_gain [
              | none ↦
                  let count = s.warmup_count + 1 in
                  let gains = s.gain_sum ⊕ gain in
                  let losses = s.loss_sum ⊕ loss in
                  let warmed = record s {
                    prev_value = some value;
                    warmup_count = count;
                    gain_sum = gains;
                    loss_sum = losses;
                  } in
                  if ltb count s.period
                  then (none, warmed)
                  else (let avg_gain = gains ⊘ s.divisor in
                      let avg_loss = losses ⊘ s.divisor in
                      (
                        some (compute_rsi avg_gain avg_loss),
                        record warmed { avg_gain = some avg_gain; avg_loss = some avg_loss },
                      ))
              | some average ↦
                  let avg_gain = smoothed s (some average) gain in
                  let avg_loss = smoothed s s.avg_loss loss in
                  (
                    some (compute_rsi avg_gain avg_loss),
                    record s {
                      prev_value = some value;
                      avg_gain = some avg_gain;
                      avg_loss = some avg_loss;
                    },
                  )
            ]
      ]

  unfoldable pub reset : Rsi D → Rsi D
  reset s = record s {
    prev_value = none;
    avg_gain = none;
    avg_loss = none;
    warmup_count = 0;
    gain_sum = nought;
    loss_sum = nought;
  }

  abbrev pub rsi : {V : Type 0} → Input V D → Indicator (Rsi D) V D
  rsi i = record { next = next i; reset = reset }
