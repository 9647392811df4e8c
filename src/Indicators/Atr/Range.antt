-- ===== src/Indicators/Atr/Range.antt =====
-- The average true range is never negative.
use Prim.Derive.{subst}
use tesser.Prelude.{
  ℕ, ◌+◌, ◌-◌, ◌<◌, ◌≡◌, refl, sym, List, [], ◌∷◌, arith, inl, inr, Bool-cases, Option-cases, ◌==◌,
  unwrap_or,
}
use tesser.Prelude.Result.{ok, ok_if}
use tesser.Decimal.{Decimal, of_ℕ, ◌⊕◌, ◌⊖◌, ◌⊗◌}
use tesser.Decimal.Laws.{IsExact}
use tesser.Decimal.Parts.{IsPos, IsNonneg, add_parts, abs_parts}
use tesser.Core.Types.{Candle}
use tesser.Indicators.{fed}
use tesser.Indicators.Rsi.Range.{IfNonneg, of_ℕ-IsNonneg, of_ℕ-IsPos}
use tesser.Indicators.Atr.{Atr, start, new, true_range, next, atr}

module _ {D : Type 0} ⦃d : Decimal D⦄ where
  record IsSound (s : Atr D) (period : ℕ) : Type 0 where
    same_period : s.period ≡ period
    sum_nonneg : IsNonneg s.warmup_sum
    atr_nonneg : IfNonneg s.atr

module _ {D : Type 0} ⦃d : Decimal D⦄ (laws : IsExact D) where
  true_range-IsNonneg : (c : Candle D) (prev_close : D) → IsNonneg (true_range c prev_close)
  unfolding true_range
  true_range-IsNonneg c prev_close = ground (arith, abs_parts laws (c.low ⊖ prev_close))

  next-IsSound :
      (c : Candle D) (s : Atr D) (period : ℕ)
      → 0 < period
      → IsSound s period
      → IsSound (next c s).1 period × IfNonneg (next c s).0
  unfolding next
  next-IsSound c s period p w =
      let tr = true_range c (unwrap_or s.prev_close c.close) in
      let nonneg = true_range-IsNonneg c (unwrap_or s.prev_close c.close) in
      let divisor : IsPos (of_ℕ {D = D} s.period) =
        of_ℕ-IsPos laws s.period (ground (arith, w.same_period, p)) in
      elim (Option-cases s.atr) [
        | inr (current, e) ↦
            let old : IsNonneg current = subst IfNonneg e w.atr_nonneg in
            let grown =
              laws.mul_nonneg current (of_ℕ (s.period - 1)) old
                (of_ℕ-IsNonneg laws (s.period - 1)) in
            let average =
              laws.div_nonneg ((current ⊗ of_ℕ (s.period - 1)) ⊕ tr) (of_ℕ s.period)
                (omega (arith, grown, nonneg, add_parts laws (current ⊗ of_ℕ (s.period - 1)) tr))
                divisor in
            rw (e, next)
              (
                record {
                  same_period = w.same_period;
                  sum_nonneg = w.sum_nonneg;
                  atr_nonneg = average;
                },
                average,
              )
        | inl e ↦
            let sum : IsNonneg (s.warmup_sum ⊕ tr) =
              omega (arith, w.sum_nonneg, nonneg, add_parts laws s.warmup_sum tr) in
            let init = laws.div_nonneg (s.warmup_sum ⊕ tr) (of_ℕ s.period) sum divisor in
            elim (Bool-cases (s.warmup_count + 1 == s.period)) [
              | inl b ↦
                  rw (e, b, next)
                    (
                      record {
                        same_period = w.same_period;
                        sum_nonneg = ground (arith, laws.units-nought);
                        atr_nonneg = init;
                      },
                      init,
                    )
              | inr b ↦
                  rw (e, b, next)
                    (
                      record {
                        same_period = w.same_period;
                        sum_nonneg = sum;
                        atr_nonneg = w.atr_nonneg;
                      },
                      tt,
                    )
            ]
      ]

  fed-IsSound :
      (xs : List (Candle D)) (s : Atr D) (period : ℕ)
      → 0 < period
      → IsSound s period
      → IsSound (fed atr s xs) period
  fed-IsSound [] s period p w = w
  fed-IsSound (c ∷ xs) s period p w =
      fed-IsSound xs (next c s).1 period p (next-IsSound c s period p w).0

  -- With exact decimals, an average true range that `new` makes is for no candles below zero, whatever
  -- their prices.
  pub next-IfNonneg :
      (period : ℕ) (s : Atr D)
      → new period ≡ ok s
      → (xs : List (Candle D)) (c : Candle D) → IfNonneg (next c (fed atr s xs)).0
  unfolding new
  next-IfNonneg period s h xs c =
      let (positive, whole) = ok_if (period == 0) _ (start period) s h in
      let p : 0 < period = ground (arith, positive) in
      let fresh : IsSound (start period) period = record {
        same_period = refl;
        sum_nonneg = ground (arith, laws.units-nought);
        atr_nonneg = tt;
      } in
      (next-IsSound c _ period p
        (fed-IsSound xs s period p (subst (λ z. IsSound z period) (sym whole) fresh))).1
