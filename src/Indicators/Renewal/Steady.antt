-- ===== src/Indicators/Renewal/Steady.antt =====
-- Resetting each indicator gives its first state back and undoes a step.
use Prim.Derive.{subst}
use tesser.Prelude.{
  ℕ, ◌+◌, ◌≡◌, refl, sym, ◌∙◌, Bool, true, false, Option, none, List, [], ◌∷◌, ◌++◌, if◌then◌else◌,
  inl, inr, Bool-cases, Option-cases, ◌==◌, ltb, length,
}
use tesser.Prelude.Result.{ok, err, ok_if}
use tesser.Decimal.{Decimal, ◌⊕◌, ◌⊖◌, ◌⊗◌, ◌<?◌, nought}
use tesser.Indicators.{Input, Indicator, fed, pipe, piped_next, decimal_input}
use tesser.Indicators.Sma
use tesser.Indicators.Ema
use tesser.Indicators.Rsi
use tesser.Indicators.Bollinger
use tesser.Indicators.Atr
use tesser.Indicators.Macd
use tesser.Indicators.Macd.Warmup.{new-made}
use tesser.Indicators.Ichimoku

-- Resetting gives the first state back, and undoes a step from any state.
pub record IsSteady {S V O : Type 0} (i : Indicator S V O) (start : S) : Type 0 where
  pub fresh : i.reset start ≡ start
  pub undone : (x : V) (s : S) → i.reset (i.next x s).1 ≡ i.reset s

pub fed-undone :
    {S V O : Type 0} (i : Indicator S V O) (start : S)
    → IsSteady i start
    → (xs : List V) (s : S) → i.reset (fed i s xs) ≡ i.reset s
fed-undone i start steady [] s = refl
fed-undone i start steady (x ∷ xs) s =
    fed-undone i start steady xs (i.next x s).1 ∙ steady.undone x s

pub pipe-IsSteady :
    {S T V M O : Type 0} (first : Indicator S V M) (second : Indicator T M O) (s : S) (t : T)
    → IsSteady first s
    → IsSteady second t
    → IsSteady (pipe first second) (s, t)
unfolding piped_next
pipe-IsSteady first second s t a b = record {
  fresh = λ i. (a.fresh i, b.fresh i);
  undone = λ x p. elim (Option-cases (first.next x p.0).0) [
    | inl h ↦ rw (h, piped_next) (λ i. (a.undone x p.0 i, second.reset p.1))
    | inr (m, h) ↦ rw (h, piped_next) (λ i. (a.undone x p.0 i, b.undone m p.1 i))
  ];
}

fresh_of : {A : Type 0} (f : A → A) (s a : A) → s ≡ a → f a ≡ a → f s ≡ s
fresh_of f s a p h = subst (λ z. f z ≡ z) (sym p) h

module _ {D : Type 0} ⦃d : Decimal D⦄ where
  sma_evicted : (t : Sma.Sma D) → Sma.reset (Sma.evict t) ≡ Sma.reset t
  unfolding Sma.reset
  sma_evicted t = evicted (ltb t.period (length t.window)) t.window
    where
      evicted :
          (c : Bool) (w : List D)
          → Sma.reset (
              if c
              then elim w [
                | [] ↦ t
                | oldest ∷ rest ↦ record t { window = rest; sum = t.sum ⊖ oldest }
              ]
              else t)
            ≡ Sma.reset t
      evicted true [] = refl
      evicted true (x ∷ w) = refl
      evicted false w = refl

  pub sma-IsSteady :
      {V : Type 0} (i : Input V D) (period : ℕ) (s : Sma.Sma D)
      → Sma.new period ≡ ok s
      → IsSteady (Sma.sma i) s
  unfolding Sma.new Sma.next Sma.reset
  sma-IsSteady i period s h = record {
    fresh = fresh_of Sma.reset s _ (ok_if (period == 0) _ _ s h).1 refl;
    undone = λ x t.
        sma_evicted (record t { sum = t.sum ⊕ i.value x; window = t.window ++ (i.value x ∷ []) });
  }

  ema_undone :
      {V : Type 0} (i : Input V D) (x : V) (t : Ema.Ema D)
      → Ema.reset (Ema.next i x t).1 ≡ Ema.reset t
  unfolding Ema.next Ema.reset
  ema_undone i x t = elim (Option-cases t.state) [
    | inr (current, e) ↦ rw e refl
    | inl e ↦ elim (Bool-cases (t.warmup_count + 1 == t.period)) [
      | inl b ↦ rw (e, b) refl
      | inr b ↦ rw (e, b) refl
    ]
  ]

  ema_fresh : (period : ℕ) (s : Ema.Ema D) → Ema.new period ≡ ok s → Ema.reset s ≡ s
  unfolding Ema.new Ema.reset
  ema_fresh period s h = fresh_of Ema.reset s _ (ok_if (period == 0) _ _ s h).1 refl

  pub ema-IsSteady :
      {V : Type 0} (i : Input V D) (period : ℕ) (s : Ema.Ema D)
      → Ema.new period ≡ ok s
      → IsSteady (Ema.ema i) s
  ema-IsSteady i period s h = record { fresh = ema_fresh period s h; undone = ema_undone i }

  pub rsi-IsSteady :
      {V : Type 0} (i : Input V D) (period : ℕ) (s : Rsi.Rsi D)
      → Rsi.new period ≡ ok s
      → IsSteady (Rsi.rsi i) s
  unfolding Rsi.new Rsi.next Rsi.reset
  rsi-IsSteady i period s h = record {
    fresh = fresh_of Rsi.reset s _ (ok_if (period == 0) _ _ s h).1 refl;
    undone = λ x t. elim (Option-cases t.prev_value) [
      | inl e ↦ rw e refl
      | inr (prev, e) ↦ elim (Option-cases t.avg_gain) [
        | inr (average, g) ↦ rw (e, g) refl
        | inl g ↦ elim (Bool-cases (ltb (t.warmup_count + 1) t.period)) [
          | inl b ↦ rw (e, g, b) refl
          | inr b ↦ rw (e, g, b) refl
        ]
      ]
    ];
  }

  pub atr-IsSteady :
      (period : ℕ) (s : Atr.Atr D) → Atr.new period ≡ ok s → IsSteady (Atr.atr {D = D}) s
  unfolding Atr.new Atr.next Atr.reset
  atr-IsSteady period s h = record {
    fresh = fresh_of Atr.reset s _ (ok_if (period == 0) _ _ s h).1 refl;
    undone = λ x t. elim (Option-cases t.atr) [
      | inr (current, e) ↦ rw e refl
      | inl e ↦ elim (Bool-cases (t.warmup_count + 1 == t.period)) [
        | inl b ↦ rw (e, b) refl
        | inr b ↦ rw (e, b) refl
      ]
    ];
  }

  pub ichimoku-IsSteady :
      (conversion base span_b : ℕ) (s : Ichimoku.Ichimoku D)
      → Ichimoku.new conversion base span_b ≡ ok s
      → IsSteady (Ichimoku.ichimoku {D = D}) s
  unfolding Ichimoku.new Ichimoku.next Ichimoku.reset
  ichimoku-IsSteady conversion base span_b s h = record {
    fresh =
        fresh_of Ichimoku.reset s (Ichimoku.start conversion base span_b)
          (thrice (conversion == 0) (base == 0) (span_b == 0) _ _ _ _ s h) refl;
    undone = λ x t. refl;
  }
    where
      thrice :
          {E A : Type 0} (b c e : Bool) (x y z : E) (a s : A)
          → (if b then err x else if c then err y else if e then err z else ok a) ≡ ok s
          → s ≡ a
      thrice true c e x y z a s h = absurd cc
      thrice false true e x y z a s h = absurd cc
      thrice false false e x y z a s h = (ok_if e z a s h).1

  bollinger_evicted :
      (t : Bollinger.BollingerBands D) → Bollinger.reset (Bollinger.evict t) ≡ Bollinger.reset t
  unfolding Bollinger.reset
  bollinger_evicted t = evicted (ltb t.period (length t.window)) t.window
    where
      evicted :
          (c : Bool) (w : List D)
          → Bollinger.reset (
              if c
              then elim w [
                | [] ↦ t
                | oldest ∷ rest ↦ record t {
                  window = rest;
                  sum = t.sum ⊖ oldest;
                  sum_of_squares = t.sum_of_squares ⊖ (oldest ⊗ oldest);
                }
              ]
              else t)
            ≡ Bollinger.reset t
      evicted true [] = refl
      evicted true (x ∷ w) = refl
      evicted false w = refl

  pub bollinger-IsSteady :
      {V : Type 0} (sqrt : D → Option D) (i : Input V D) (period : ℕ) (multiplier : D)
      (s : Bollinger.BollingerBands D)
      → Bollinger.new period multiplier ≡ ok s
      → IsSteady (Bollinger.bollinger sqrt i) s
  unfolding Bollinger.new Bollinger.next Bollinger.reset
  bollinger-IsSteady sqrt i period multiplier s h = record {
    fresh =
        fresh_of Bollinger.reset s _ (twice (period == 0) (multiplier <? nought) _ _ _ s h) refl;
    undone = λ x t. bollinger_evicted (record t {
      sum = t.sum ⊕ i.value x;
      sum_of_squares = t.sum_of_squares ⊕ (i.value x ⊗ i.value x);
      window = t.window ++ (i.value x ∷ []);
    });
  }
    where
      twice :
          {E A : Type 0} (b c : Bool) (x y : E) (a s : A)
          → (if b then err x else if c then err y else ok a) ≡ ok s
          → s ≡ a
      twice true c x y a s h = absurd cc
      twice false c x y a s h = (ok_if c y a s h).1

  pub macd_undone : (x : D) (t : Macd.Macd D) → Macd.reset (Macd.next x t).1 ≡ Macd.reset t
  unfolding Macd.next Macd.reset
  macd_undone x t =
      let fast = ema_undone decimal_input x t.fast in
      let slow = ema_undone decimal_input x t.slow in
      elim (Option-cases (Ema.next decimal_input x t.fast).0) [
        | inl e ↦
            rw (e, Macd.next)
              (λ i. record {
                fast = fast i;
                slow = slow i;
                signal = Ema.reset t.signal;
                last_histogram = none;
              })
        | inr (f, e) ↦ elim (Option-cases (Ema.next decimal_input x t.slow).0) [
          | inl g ↦
              rw (e, g, Macd.next)
                (λ i. record {
                  fast = fast i;
                  slow = slow i;
                  signal = Ema.reset t.signal;
                  last_histogram = none;
                })
          | inr (v, g) ↦ elim (Option-cases (Ema.next decimal_input (f ⊖ v) t.signal).0) [
            | inl h ↦
                rw (e, g, h, Macd.next)
                  (λ i. record {
                    fast = fast i;
                    slow = slow i;
                    signal = ema_undone decimal_input (f ⊖ v) t.signal i;
                    last_histogram = none;
                  })
            | inr (l, h) ↦
                rw (e, g, h, Macd.next)
                  (λ i. record {
                    fast = fast i;
                    slow = slow i;
                    signal = ema_undone decimal_input (f ⊖ v) t.signal i;
                    last_histogram = none;
                  })
          ]
        ]
      ]

  pub macd_fresh :
      (fast slow signal : ℕ) (s : Macd.Macd D) → Macd.new fast slow signal ≡ ok s → Macd.reset s ≡ s
  unfolding Macd.reset Ema.reset
  macd_fresh fast slow signal s h =
      let (_, _, _, made) = new-made fast slow signal s h in
      fresh_of Macd.reset s (Macd.made fast slow signal) made refl
