-- ===== src/Indicators/Sma.antt =====
-- tesser-indicators/src/indicators/sma.rs: the mean of a rolling window.
pub mod Mean
use tesser.Prelude.{
  ℕ, Bool, Option, none, some, List, [], ◌∷◌, ◌++◌, if◌then◌else◌, ltb, ◌==◌, length,
}
use tesser.Prelude.Result.{Result, ok, err}
use tesser.Prelude.Bytes.{codes}
use tesser.Decimal.{Decimal, nought, ◌⊕◌, ◌⊖◌, ◌⊘◌}
use tesser.Indicators.{Input, Indicator, IndicatorError, invalid_period, decimal_from_usize}

pub record Sma (D : Type 0) : Type 0 where
  pub period : ℕ
  pub divisor : D
  pub sum : D
  pub window : List D

module _ {D : Type 0} ⦃d : Decimal D⦄ where
  unfoldable pub new : ℕ → Result (IndicatorError D) (Sma D)
  new period =
      if period == 0
      then err (invalid_period (codes "SMA") period)
      else ok (record {
        period = period;
        divisor = decimal_from_usize period;
        sum = nought;
        window = [];
      })

  -- what leaves the window
  abbrev pub evict : Sma D → Sma D
  evict s =
      if ltb s.period (length s.window)
      then elim s.window [
        | [] ↦ s
        | oldest ∷ rest ↦ record s { window = rest; sum = s.sum ⊖ oldest }
      ]
      else s

  unfoldable pub next : {V : Type 0} → Input V D → V → Sma D → Option D × Sma D
  next i input s =
      let value = i.value input in
      let s' = evict (record s { window = s.window ++ (value ∷ []); sum = s.sum ⊕ value }) in
      ((if length s'.window == s'.period then some (s'.sum ⊘ s'.divisor) else none), s')

  unfoldable pub reset : Sma D → Sma D
  reset s = record s { sum = nought; window = [] }

  abbrev pub sma : {V : Type 0} → Input V D → Indicator (Sma D) V D
  sma i = record { next = next i; reset = reset }
