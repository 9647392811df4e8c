-- ===== src/Indicators/Ichimoku.antt =====
-- tesser-indicators/src/indicators/ichimoku.rs: the midpoints of three rolling windows.
pub mod Cloud
use tesser.Prelude.{ℕ, Bool, Option, none, some, List, [], ◌∷◌, if◌then◌else◌, ltb, ◌==◌, length}
use tesser.Prelude.Result.{Result, ok, err}
use tesser.Prelude.Bytes.{codes}
use tesser.Decimal.{Decimal, of_ℕ, ◌⊕◌, ◌⊘◌, max, min}
use tesser.Core.Types.{Candle}
use tesser.Indicators.{Indicator, IndicatorError, invalid_period}
use tesser.Indicators.Window.{push_queue}

pub record IchimokuOutput (D : Type 0) : Type 0 where
  pub conversion_line : D
  pub base_line : D
  pub span_a : D
  pub span_b : D

pub record Ichimoku (D : Type 0) : Type 0 where
  pub conversion_period : ℕ
  pub base_period : ℕ
  pub span_b_period : ℕ
  pub highs_conv : List D
  pub lows_conv : List D
  pub highs_base : List D
  pub lows_base : List D
  pub highs_span_b : List D
  pub lows_span_b : List D

module _ {D : Type 0} ⦃d : Decimal D⦄ where
  abbrev pub start : ℕ → ℕ → ℕ → Ichimoku D
  start conversion_period base_period span_b_period = record {
    conversion_period = conversion_period;
    base_period = base_period;
    span_b_period = span_b_period;
    highs_conv = [];
    lows_conv = [];
    highs_base = [];
    lows_base = [];
    highs_span_b = [];
    lows_span_b = [];
  }

  unfoldable pub new : ℕ → ℕ → ℕ → Result (IndicatorError D) (Ichimoku D)
  new conversion_period base_period span_b_period =
      if conversion_period == 0
      then err (invalid_period (codes "Ichimoku") conversion_period)
      else if base_period == 0
      then err (invalid_period (codes "Ichimoku") base_period)
      else if span_b_period == 0
      then err (invalid_period (codes "Ichimoku") span_b_period)
      else ok (start conversion_period base_period span_b_period)

  -- `reduce`
  abbrev pub reduce_from : (D → D → D) → D → List D → D
  reduce_from f acc [] = acc
  reduce_from f acc (x ∷ xs) = reduce_from f (f acc x) xs

  abbrev pub reduce : (D → D → D) → List D → Option D
  reduce f [] = none
  reduce f (x ∷ xs) = some (reduce_from f x xs)

  unfoldable pub midpoint : List D → List D → Option D
  midpoint highs lows = elim (reduce max highs) [
    | none ↦ none
    | some max_high ↦ elim (reduce min lows) [
      | none ↦ none
      | some min_low ↦ some ((max_high ⊕ min_low) ⊘ of_ℕ 2)
    ]
  ]

  abbrev pub pushed : Candle D → Ichimoku D → Ichimoku D
  pushed input s = record s {
    highs_conv = push_queue s.conversion_period input.high s.highs_conv;
    lows_conv = push_queue s.conversion_period input.low s.lows_conv;
    highs_base = push_queue s.base_period input.high s.highs_base;
    lows_base = push_queue s.base_period input.low s.lows_base;
    highs_span_b = push_queue s.span_b_period input.high s.highs_span_b;
    lows_span_b = push_queue s.span_b_period input.low s.lows_span_b;
  }

  -- the value of a state, once the three midpoints are there
  abbrev pub output : Ichimoku D → Option (IchimokuOutput D)
  output s = elim (midpoint s.highs_conv s.lows_conv) [
    | none ↦ none
    | some conversion ↦ elim (midpoint s.highs_base s.lows_base) [
      | none ↦ none
      | some base ↦ elim (midpoint s.highs_span_b s.lows_span_b) [
        | none ↦ none
        | some span_b ↦ some (record {
          conversion_line = conversion;
          base_line = base;
          span_a = (conversion ⊕ base) ⊘ of_ℕ 2;
          span_b = span_b;
        })
      ]
    ]
  ]

  unfoldable pub next : Candle D → Ichimoku D → Option (IchimokuOutput D) × Ichimoku D
  next input s =
      let s' = pushed input s in
      ((if ltb (length s'.highs_span_b) s'.span_b_period then none else output s'), s')

  unfoldable pub reset : Ichimoku D → Ichimoku D
  reset s = record s {
    highs_conv = [];
    lows_conv = [];
    highs_base = [];
    lows_base = [];
    highs_span_b = [];
    lows_span_b = [];
  }

  abbrev pub ichimoku : Indicator (Ichimoku D) (Candle D) (IchimokuOutput D)
  ichimoku = record { next = next; reset = reset }
