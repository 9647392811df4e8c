-- ===== src/Indicators/Rsi/Range.antt =====
-- The relative strength index stays in its range.
use Prim.Derive.{subst}
use tesser.Prelude.{
  zero, ℕ, suc, ◌+◌, ◌-◌, ◌<◌, ◌≡◌, refl, sym, Option, none, some, List, [], ◌∷◌, arith, inl, inr,
  Bool-cases, Option-cases, ◌==◌, ltb, unwrap_or,
}
use tesser.Prelude.Int.{◌≤ℤ◌}
use tesser.Prelude.Result.{ok, ok_if}
use tesser.Decimal.{Decimal, units, nought, one, of_ℕ, ◌⊕◌, ◌⊖◌, ◌⊗◌, ◌⊘◌, is_zero}
use tesser.Decimal.Laws.{IsExact}
use tesser.Decimal.Parts.{IsPos, IsNonneg, ◌≼◌, add_parts, sub_parts, neg_parts}
use tesser.Indicators.{Input, fed, decimal_from_usize}
use tesser.Indicators.Rsi.{Rsi, start, new, compute_rsi, gain_of, loss_of, smoothed, next, rsi}

module _ {D : Type 0} ⦃d : Decimal D⦄ where
  abbrev pub IfNonneg : Option D → Type 0
  IfNonneg none = Unit {0}
  IfNonneg (some x) = IsNonneg x

  -- no average, and no sum of the warm-up, is below zero
  record IsSound (s : Rsi D) (period : ℕ) : Type 0 where
    made_for : (s.period ≡ period) × (s.divisor ≡ of_ℕ period) × (s.decay ≡ of_ℕ (period - 1))
    gains : IsNonneg s.gain_sum
    losses : IsNonneg s.loss_sum
    gain_nonneg : IfNonneg s.avg_gain
    loss_nonneg : IfNonneg s.avg_loss

  -- no value, or one from 0 to 100
  abbrev pub InRange : Option D → Type 0
  InRange none = Unit {0}
  InRange (some x) = IsNonneg x × (x ≼ of_ℕ {D = D} 100)

module _ {D : Type 0} ⦃d : Decimal D⦄ (laws : IsExact D) where
  compute_rsi-InRange : (g l : D) → IsNonneg g → IsNonneg l → InRange (some (compute_rsi g l))
  unfolding compute_rsi
  compute_rsi-InRange g l n m = elim (Bool-cases (is_zero l)) [
    | inl b ↦ rw (b, compute_rsi) (ground (arith, laws.of_ℕ_pos 99), ground arith)
    | inr b ↦ elim (Bool-cases (is_zero g)) [
      | inl c ↦
          rw (b, c, compute_rsi)
            (ground (arith, laws.units-nought), ground (arith, laws.units-nought, laws.of_ℕ_pos 99))
      | inr c ↦
          let hundred : IsNonneg (of_ℕ {D = D} 100) = ground (arith, laws.of_ℕ_pos 99) in
          let rs : IsNonneg (g ⊘ l) =
            laws.div_nonneg g l n (ground (arith, m, b, laws.units-nought)) in
          let least : units {D = D} one ≤ℤ units ((g ⊘ l) ⊕ one) =
            omega (arith, add_parts laws (g ⊘ l) one, rs) in
          let part = laws.div-le (of_ℕ 100) ((g ⊘ l) ⊕ one) hundred least in
          let nonneg =
            laws.div_nonneg (of_ℕ 100) ((g ⊘ l) ⊕ one) hundred
              (omega (arith, least, laws.one_pos)) in
          let parts = sub_parts laws (of_ℕ 100) (of_ℕ 100 ⊘ ((g ⊘ l) ⊕ one)) in
          rw (b, c, compute_rsi) (omega (arith, part, parts), omega (arith, nonneg, parts))
    ]
  ]

  gain-IsNonneg : (x : D) → IsNonneg (gain_of x)
  gain-IsNonneg x = ground (arith, laws.units-nought)

  loss-IsNonneg : (x : D) → IsNonneg (loss_of x)
  loss-IsNonneg x = ground (arith, laws.units-nought, neg_parts laws x)

  pub of_ℕ-IsNonneg : (n : ℕ) → IsNonneg (of_ℕ {D = D} n)
  of_ℕ-IsNonneg zero = ground (arith, laws.units-of_ℕ_zero)
  of_ℕ-IsNonneg (suc n) = omega (arith, laws.of_ℕ_pos n)

  pub of_ℕ-IsPos : (n : ℕ) → 0 < n → IsPos (of_ℕ {D = D} n)
  of_ℕ-IsPos zero p = absurd (omega arith)
  of_ℕ-IsPos (suc n) p = laws.of_ℕ_pos n

  divided-IsNonneg :
      (s : Rsi D) (period : ℕ) (x : D)
      → 0 < period
      → IsSound s period
      → IsNonneg x
      → IsNonneg (x ⊘ s.divisor)
  divided-IsNonneg s period x p w n =
      laws.div_nonneg x s.divisor n (ground (arith, w.made_for.1, of_ℕ-IsPos period p))

  smoothed-IsNonneg :
      (s : Rsi D) (period : ℕ) (average : Option D) (x : D)
      → 0 < period
      → IsSound s period
      → IfNonneg average
      → IsNonneg x
      → IsNonneg (smoothed s average x)
  smoothed-IsNonneg s period average x p w n m =
      let known : IsNonneg (unwrap_or average nought) = average_nonneg average n in
      let decay : IsNonneg s.decay = ground (arith, w.made_for.2, of_ℕ-IsNonneg (period - 1)) in
      let sum : IsNonneg ((unwrap_or average nought ⊗ s.decay) ⊕ x) = omega (
        arith,
        add_parts laws (unwrap_or average nought ⊗ s.decay) x,
        laws.mul_nonneg (unwrap_or average nought) s.decay known decay,
        m,
      ) in
      elim (Bool-cases (s.period == 1)) [
        | inl b ↦ rw b m
        | inr b ↦ rw b (divided-IsNonneg s period _ p w sum)
      ]
    where
      average_nonneg : (o : Option D) → IfNonneg o → IsNonneg (unwrap_or o nought)
      average_nonneg none n = ground (arith, laws.units-nought)
      average_nonneg (some x) n = n

  module _ {V : Type 0} (i : Input V D) (period : ℕ) (p : 0 < period) where
    next-IsSound :
        (x : V) (s : Rsi D)
        → IsSound s period
        → IsSound (next i x s).1 period × InRange (next i x s).0
    unfolding next
    next-IsSound x s w = elim (Option-cases s.prev_value) [
      | inl e ↦
          rw (e, next)
            (
              record {
                made_for = w.made_for;
                gains = w.gains;
                losses = w.losses;
                gain_nonneg = w.gain_nonneg;
                loss_nonneg = w.loss_nonneg;
              },
              tt,
            )
      | inr (prev, e) ↦
          let change = i.value x ⊖ prev in
          let gain = gain-IsNonneg change in
          let loss = loss-IsNonneg change in
          let gains : IsNonneg (s.gain_sum ⊕ gain_of change) =
            omega (arith, add_parts laws s.gain_sum (gain_of change), w.gains, gain) in
          let losses : IsNonneg (s.loss_sum ⊕ loss_of change) =
            omega (arith, add_parts laws s.loss_sum (loss_of change), w.losses, loss) in
          elim (Option-cases s.avg_gain) [
            | inr (average, g) ↦
                let up =
                  smoothed-IsNonneg s period (some average) (gain_of change) p w
                    (subst IfNonneg g w.gain_nonneg) gain in
                let down =
                  smoothed-IsNonneg s period s.avg_loss (loss_of change) p w w.loss_nonneg loss in
                rw (e, g, next)
                  (
                    record {
                      made_for = w.made_for;
                      gains = w.gains;
                      losses = w.losses;
                      gain_nonneg = up;
                      loss_nonneg = down;
                    },
                    compute_rsi-InRange _ _ up down,
                  )
            | inl g ↦ elim (Bool-cases (ltb (s.warmup_count + 1) s.period)) [
              | inl b ↦
                  rw (e, g, b, next)
                    (
                      record {
                        made_for = w.made_for;
                        gains = gains;
                        losses = losses;
                        gain_nonneg = w.gain_nonneg;
                        loss_nonneg = w.loss_nonneg;
                      },
                      tt,
                    )
              | inr b ↦
                  let up = divided-IsNonneg s period (s.gain_sum ⊕ gain_of change) p w gains in
                  let down = divided-IsNonneg s period (s.loss_sum ⊕ loss_of change) p w losses in
                  rw (e, g, b, next)
                    (
                      record {
                        made_for = w.made_for;
                        gains = gains;
                        losses = losses;
                        gain_nonneg = up;
                        loss_nonneg = down;
                      },
                      compute_rsi-InRange _ _ up down,
                    )
            ]
          ]
    ]

    fed-IsSound : (xs : List V) (s : Rsi D) → IsSound s period → IsSound (fed (rsi i) s xs) period
    fed-IsSound [] s w = w
    fed-IsSound (x ∷ xs) s w = fed-IsSound xs (next i x s).1 (next-IsSound x s w).0

  -- With exact decimals, an index that `new` makes gives for an input, whatever it has read before, no
  -- value or one from 0 to 100.
  pub next-InRange :
      {V : Type 0} (i : Input V D) (period : ℕ) (s : Rsi D)
      → new period ≡ ok s
      → (xs : List V) (x : V) → InRange (next i x (fed (rsi i) s xs)).0
  unfolding new decimal_from_usize
  next-InRange i period s h xs x =
      let (positive, whole) = ok_if (period == 0) _ (start period) s h in
      let p : 0 < period = ground (arith, positive) in
      let fresh : IsSound (start period) period = record {
        made_for = (refl, refl, refl);
        gains = ground (arith, laws.units-nought);
        losses = ground (arith, laws.units-nought);
        gain_nonneg = tt;
        loss_nonneg = tt;
      } in
      (next-IsSound i period p x _
        (fed-IsSound i period p xs s (subst (λ z. IsSound z period) (sym whole) fresh))).1
