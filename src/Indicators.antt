-- ===== src/Indicators.antt =====
-- tesser-indicators/src/core.rs and combinators.rs: the trait of an indicator as a record of its two
-- operations on a state, its errors, and the chain of two indicators.
pub mod Window
pub mod Sma
pub mod Ema
pub mod Rsi
pub mod Bollinger
pub mod Atr
pub mod Macd
pub mod Ichimoku
pub mod Renewal
mod Tests
use tesser.Prelude.{ℕ, Bool, Option, none, some, List, [], ◌∷◌}
use tesser.Decimal.{Decimal, of_ℕ}
use tesser.Core.Types.{Text, Candle}

-- `Input`, and its instances for decimals and candles
pub record Input (V D : Type 0) : Type 0 where
  pub value : V → D

abbrev pub decimal_input : {D : Type 0} → Input D D
decimal_input = record { value = λ x. x }

abbrev pub candle_input : {D : Type 0} → Input (Candle D) D
candle_input = record { value = λ c. c.close }

pub data IndicatorError (D : Type 0) : Type 0 where
  invalid_period : (name : Text) (period : ℕ) → IndicatorError D
  invalid_parameter : (name parameter : Text) (value : D) → IndicatorError D

-- `Indicator`: the state is what `self` holds
pub record Indicator (S V O : Type 0) : Type 0 where
  pub next : V → S → Option O × S
  pub reset : S → S

unfoldable pub decimal_from_usize : {D : Type 0} → ⦃d : Decimal D⦄ → ℕ → D
decimal_from_usize n = of_ℕ n

-- the state after a sequence of inputs
abbrev pub fed : {S V O : Type 0} → Indicator S V O → S → List V → S
fed i s [] = s
fed i s (x ∷ xs) = fed i (i.next x s).1 xs

module _ {S T V M O : Type 0} (first : Indicator S V M) (second : Indicator T M O) where
  -- `PipedIndicator`: without a value of the first, the second is not called
  unfoldable pub piped_next : V → S × T → Option O × (S × T)
  piped_next input (s, t) =
      let (intermediate, s') = first.next input s in
      elim intermediate [
        | none ↦ (none, (s', t))
        | some m ↦ let (o, t') = second.next m t in (o, (s', t'))
      ]

  abbrev pub pipe : Indicator (S × T) V O
  unfolding piped_next
  pipe = record { next = piped_next; reset = λ p. (first.reset p.0, second.reset p.1) }
