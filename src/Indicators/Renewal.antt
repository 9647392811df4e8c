-- ===== src/Indicators/Renewal.antt =====
-- Resetting any indicator of the library, whatever it has read.
mod Steady
use tesser.Prelude.{ℕ, ◌≡◌, ◌∙◌, Option, List}
use tesser.Prelude.Result.{ok}
use tesser.Decimal.{Decimal}
use tesser.Core.Types.{Candle}
use tesser.Indicators.{Input, Indicator, fed, pipe}
use tesser.Indicators.Sma
use tesser.Indicators.Ema
use tesser.Indicators.Rsi
use tesser.Indicators.Bollinger
use tesser.Indicators.Atr
use tesser.Indicators.Macd
use tesser.Indicators.Ichimoku
use Steady.{
  IsSteady, fed-undone, pipe-IsSteady, sma-IsSteady, ema-IsSteady, rsi-IsSteady, atr-IsSteady,
  ichimoku-IsSteady, bollinger-IsSteady, macd_undone, macd_fresh,
}

-- An indicator as the constructors of the library make it, with its first state; decimals are of one type.
pub data Built (D : Type 0) ⦃d : Decimal D⦄ : (S V O : Type 0) → Indicator S V O → S → Type 1 where
  sma :
      {V : Type 0} (i : Input V D) (period : ℕ) (s : Sma.Sma D)
      → Sma.new period ≡ ok s
      → Built D (Sma.Sma D) V D (Sma.sma i) s
  ema :
      {V : Type 0} (i : Input V D) (period : ℕ) (s : Ema.Ema D)
      → Ema.new period ≡ ok s
      → Built D (Ema.Ema D) V D (Ema.ema i) s
  rsi :
      {V : Type 0} (i : Input V D) (period : ℕ) (s : Rsi.Rsi D)
      → Rsi.new period ≡ ok s
      → Built D (Rsi.Rsi D) V D (Rsi.rsi i) s
  bollinger :
      {V : Type 0} (sqrt : D → Option D) (i : Input V D) (period : ℕ) (multiplier : D)
      (s : Bollinger.BollingerBands D)
      → Bollinger.new period multiplier ≡ ok s
      → Built D
          (Bollinger.BollingerBands D)
          V
          (Bollinger.BollingerBandsOutput D)
          (Bollinger.bollinger sqrt i)
          s
  atr :
      (period : ℕ) (s : Atr.Atr D)
      → Atr.new period ≡ ok s
      → Built D (Atr.Atr D) (Candle D) D Atr.atr s
  macd :
      (fast slow signal : ℕ) (s : Macd.Macd D)
      → Macd.new fast slow signal ≡ ok s
      → Built D (Macd.Macd D) D (Macd.MacdOutput D) Macd.macd s
  ichimoku :
      (conversion base span_b : ℕ) (s : Ichimoku.Ichimoku D)
      → Ichimoku.new conversion base span_b ≡ ok s
      → Built D (Ichimoku.Ichimoku D) (Candle D) (Ichimoku.IchimokuOutput D) Ichimoku.ichimoku s
  chain :
      {S T V M O : Type 0} (first : Indicator S V M) (second : Indicator T M O) (s : S) (t : T)
      → Built D S V M first s
      → Built D T M O second t
      → Built D (S × T) V O (pipe first second) (s, t)

module _ {D : Type 0} ⦃d : Decimal D⦄ where
  Built-IsSteady : {S V O : Type 0} (i : Indicator S V O) (s : S) → Built D S V O i s → IsSteady i s
  Built-IsSteady _ _ (sma i period s h) = sma-IsSteady i period s h
  Built-IsSteady _ _ (ema i period s h) = ema-IsSteady i period s h
  Built-IsSteady _ _ (rsi i period s h) = rsi-IsSteady i period s h
  Built-IsSteady _ _ (bollinger sqrt i period multiplier s h) =
      bollinger-IsSteady sqrt i period multiplier s h
  Built-IsSteady _ _ (atr period s h) = atr-IsSteady period s h
  Built-IsSteady _ _ (macd fast slow signal s h) = record {
    fresh = macd_fresh fast slow signal s h;
    undone = macd_undone;
  }
  Built-IsSteady _ _ (ichimoku conversion base span_b s h) =
      ichimoku-IsSteady conversion base span_b s h
  Built-IsSteady _ _ (chain first second s t a b) =
      pipe-IsSteady first second s t (Built-IsSteady first s a) (Built-IsSteady second t b)

  -- Any indicator that the constructors of the library make, chains of them by `pipe` to any depth
  -- included, is after any sequence of inputs and `reset` in the state in which it was made.
  pub reset_renews :
      {S V O : Type 0} (i : Indicator S V O) (s : S)
      → Built D S V O i s
      → (xs : List V) → i.reset (fed i s xs) ≡ s
  reset_renews i s b xs =
      let steady = Built-IsSteady i s b in fed-undone i s steady xs s ∙ steady.fresh
