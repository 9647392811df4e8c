-- ===== src/Indicators/Ema/Warmup.antt =====
-- When an exponentially weighted mean has a value.
use tesser.Prelude.{
  ℕ, suc, ◌+◌, ◌≤◌, ◌<◌, ◌≡◌, refl, Bool, true, false, Option, none, some, arith, inl, inr,
  Bool-cases, Option-cases, ◌==◌, leb,
}
use tesser.Decimal.{Decimal}
use tesser.Indicators.{Input}
use tesser.Indicators.Ema.{Ema, start, next}

abbrev pub is_some : {A : Type 0} → Option A → Bool
is_some none = false
is_some (some x) = true

module _ {D : Type 0} where
  abbrev CountsTo : Option D → ℕ → ℕ → ℕ → Type 0
  CountsTo none count period n = (count ≡ n) × (n < period)
  CountsTo (some average) count period n = period ≤ n

  -- An average that has read so many inputs: it counts them until its period is reached, and has a value
  -- from then on.
  pub record HasRead (s : Ema D) (period n : ℕ) : Type 0 where
    pub same_period : s.period ≡ period
    pub counted : CountsTo s.state s.warmup_count period n

module _ {D : Type 0} ⦃d : Decimal D⦄ where
  pub start-HasRead : (period : ℕ) → 0 < period → HasRead {D = D} (start period) period 0
  start-HasRead period p = record { same_period = refl; counted = (refl, p) }

  pub next-HasRead :
      {V : Type 0} (i : Input V D) (x : V) (s : Ema D) (period n : ℕ)
      → HasRead s period n
      → HasRead (next i x s).1 period (suc n) × (is_some (next i x s).0 ≡ leb period (suc n))
  unfolding next
  next-HasRead i x s period n h = elim (Option-cases s.state) [
    | inr (current, e) ↦
        let over : period ≤ n = ground (arith, e, h.counted) in
        rw (e, next)
          (
            record { same_period = h.same_period; counted = omega (arith, over) },
            ground (arith, over),
          )
    | inl e ↦
        let count : (s.warmup_count ≡ n) × (n < period) = ground (arith, e, h.counted) in
        elim (Bool-cases (s.warmup_count + 1 == s.period)) [
          | inl b ↦
              rw (e, b, next)
                (
                  record {
                    same_period = h.same_period;
                    counted = ground (arith, b, count.0, h.same_period);
                  },
                  ground (arith, b, count.0, h.same_period),
                )
          | inr b ↦
              rw (e, b, next)
                (
                  record {
                    same_period = h.same_period;
                    counted = ground (arith, b, count.0, count.1, h.same_period);
                  },
                  ground (arith, b, count.0, count.1, h.same_period),
                )
        ]
  ]
