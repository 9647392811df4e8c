-- ===== src/Indicators/Macd.antt =====
-- tesser-indicators/src/indicators/macd.rs: the convergence of two means, and the mean of that.
pub mod Warmup
use tesser.Prelude.{ℕ, Bool, Option, none, some, if◌then◌else◌, ◌==◌}
use tesser.Prelude.Result.{Result, ok, err, ◌>>=◌}
use tesser.Prelude.Bytes.{codes}
use tesser.Decimal.{Decimal, ◌⊖◌}
use tesser.Indicators.{Indicator, IndicatorError, invalid_period, decimal_input}
use tesser.Indicators.Ema
use tesser.Indicators.Ema.{Ema}

pub record MacdOutput (D : Type 0) : Type 0 where
  pub macd : D
  pub signal : D
  pub histogram : D

pub record Macd (D : Type 0) : Type 0 where
  pub fast : Ema D
  pub slow : Ema D
  pub signal : Ema D
  pub last_histogram : Option D

module _ {D : Type 0} ⦃d : Decimal D⦄ where
  -- what `new` makes
  abbrev pub made : ℕ → ℕ → ℕ → Macd D
  made fast_period slow_period signal_period = record {
    fast = Ema.start fast_period;
    slow = Ema.start slow_period;
    signal = Ema.start signal_period;
    last_histogram = none;
  }

  unfoldable pub new : ℕ → ℕ → ℕ → Result (IndicatorError D) (Macd D)
  new fast_period slow_period signal_period =
      if fast_period == 0
      then err (invalid_period (codes "MACD") fast_period)
      else if slow_period == 0
      then err (invalid_period (codes "MACD") slow_period)
      else if signal_period == 0
      then err (invalid_period (codes "MACD") signal_period)
      else do
        fast ← Ema.new fast_period
        slow ← Ema.new slow_period
        signal ← Ema.new signal_period
        ok (record { fast = fast; slow = slow; signal = signal; last_histogram = none })

  unfoldable pub next : D → Macd D → Option (MacdOutput D) × Macd D
  next input s =
      let (fast, fast') = Ema.next decimal_input input s.fast in
      let (slow, slow') = Ema.next decimal_input input s.slow in
      let s' = record s { fast = fast'; slow = slow' } in
      elim fast [
        | none ↦ (none, s')
        | some fast_val ↦ elim slow [
          | none ↦ (none, s')
          | some slow_val ↦
              let line = fast_val ⊖ slow_val in
              let (signal, signal') = Ema.next decimal_input line s'.signal in
              let s'' = record s' { signal = signal' } in
              elim signal [
                | none ↦ (none, s'')
                | some signal_line ↦
                    let histogram = line ⊖ signal_line in
                    (
                      some (record { macd = line; signal = signal_line; histogram = histogram }),
                      record s'' { last_histogram = some histogram },
                    )
              ]
        ]
      ]

  unfoldable pub reset : Macd D → Macd D
  reset s = record {
    fast = Ema.reset s.fast;
    slow = Ema.reset s.slow;
    signal = Ema.reset s.signal;
    last_histogram = none;
  }

  abbrev pub macd : Indicator (Macd D) D (MacdOutput D)
  macd = record { next = next; reset = reset }
