-- ===== src/Indicators/Bollinger.antt =====
-- tesser-indicators/src/indicators/bollinger.rs: bands around the mean of a rolling window. `sqrt` is
-- `MathematicalOps::sqrt` of `rust_decimal`, and a sign is that of the value.
pub mod Bands
use tesser.Prelude.{
  ℕ, Bool, Option, none, some, List, [], ◌∷◌, ◌++◌, if◌then◌else◌, ltb, ◌==◌, length, unwrap_or,
}
use tesser.Prelude.Result.{Result, ok, err}
use tesser.Prelude.Bytes.{codes}
use tesser.Decimal.{Decimal, nought, ◌⊕◌, ◌⊖◌, ◌⊗◌, ◌⊘◌, ◌<?◌}
use tesser.Indicators.{
  Input, Indicator, IndicatorError, invalid_period, invalid_parameter, decimal_from_usize,
}

pub record BollingerBandsOutput (D : Type 0) : Type 0 where
  pub upper : D
  pub middle : D
  pub lower : D

pub record BollingerBands (D : Type 0) : Type 0 where
  pub period : ℕ
  pub divisor : D
  pub std_multiplier : D
  pub sum : D
  pub sum_of_squares : D
  pub window : List D

module _ {D : Type 0} ⦃d : Decimal D⦄ where
  unfoldable pub new : ℕ → D → Result (IndicatorError D) (BollingerBands D)
  new period std_multiplier =
      if period == 0
      then err (invalid_period (codes "BollingerBands") period)
      else if std_multiplier <? nought
      then err (invalid_parameter (codes "BollingerBands") (codes "std_multiplier") std_multiplier)
      else ok (record {
        period = period;
        divisor = decimal_from_usize period;
        std_multiplier = std_multiplier;
        sum = nought;
        sum_of_squares = nought;
        window = [];
      })

  -- what leaves the window
  abbrev pub evict : BollingerBands D → BollingerBands D
  evict s =
      if ltb s.period (length s.window)
      then elim s.window [
        | [] ↦ s
        | oldest ∷ rest ↦ record s {
          window = rest;
          sum = s.sum ⊖ oldest;
          sum_of_squares = s.sum_of_squares ⊖ (oldest ⊗ oldest);
        }
      ]
      else s

  unfoldable pub compute_bands : (D → Option D) → BollingerBands D → BollingerBandsOutput D
  compute_bands sqrt s =
      let mean = s.sum ⊘ s.divisor in
      let raw = (s.sum_of_squares ⊘ s.divisor) ⊖ (mean ⊗ mean) in
      let variance = if raw <? nought then nought else raw in
      let offset = s.std_multiplier ⊗ unwrap_or (sqrt variance) nought in
      record { upper = mean ⊕ offset; middle = mean; lower = mean ⊖ offset }

  unfoldable pub next :
      {V : Type 0}
      → (D → Option D)
      → Input V D
      → V
      → BollingerBands D
      → Option (BollingerBandsOutput D) × BollingerBands D
  next sqrt i input s =
      let value = i.value input in
      let s' = evict (record s {
        window = s.window ++ (value ∷ []);
        sum = s.sum ⊕ value;
        sum_of_squares = s.sum_of_squares ⊕ (value ⊗ value);
      }) in
      ((if length s'.window == s'.period then some (compute_bands sqrt s') else none), s')

  unfoldable pub reset : BollingerBands D → BollingerBands D
  reset s = record s { sum = nought; sum_of_squares = nought; window = [] }

  abbrev pub bollinger :
      {V : Type 0}
      → (D → Option D)
      → Input V D
      → Indicator (BollingerBands D) V (BollingerBandsOutput D)
  bollinger sqrt i = record { next = next sqrt i; reset = reset }
