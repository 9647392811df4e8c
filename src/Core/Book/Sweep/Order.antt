-- ===== src/Core/Book/Sweep/Order.antt =====
-- The loop of `take_liquidity` keeps its side in order, and fills from the best price on.
use tesser.Prelude.{
  ℕ, zero, suc, ◌<◌, Option, none, some, List, [], ◌∷◌, inl, inr, arith, All, Bool-cases, length,
  if◌then◌else◌,
}
use tesser.Prelude.Int.{ℤ, ◌<ℤ◌}
use tesser.Decimal.{Decimal, nought, ◌⊖◌, ◌<?◌, ◌≤?◌}
use tesser.Decimal.Laws.{IsExact}
use tesser.Decimal.Parts.{nought_parts}
use tesser.Core.Book.{report}
use tesser.Core.Book.Levels.{PriceLevels}
use tesser.Core.Book.Levels.Order.{IsSorted}
use tesser.Core.Book.Valid.{IsGood}
use tesser.Core.Book.Sweep.{sweep, sweep_cases, sweep_zero}

module _ {D : Type 0} ⦃d : Decimal D⦄ where
  abbrev AllKeys : (D → Type 0) → PriceLevels D → Type 0
  AllKeys P = All λ e. P e.0

  -- What the loop reports and leaves: `P` at every price, and the fills in order.
  abbrev pub Ordered : (D → ℤ) → (D → Type 0) → Option (List (D × D) × PriceLevels D) → Type 0
  Ordered rank P none = Unit
  Ordered rank P (some (fills, r)) =
      AllKeys P fills × AllKeys P r × IsSorted rank fills × IsGood rank r

  rest_of : D → D → D → PriceLevels D → PriceLevels D
  rest_of p a q m = if (a ⊖ q) ≤? nought then m else (p, a ⊖ q) ∷ m

  module _ (laws : IsExact D) (rank : D → ℤ) where
    report-Ordered :
        (P : D → Type 0) (p a : D) (r : Option (List (D × D) × PriceLevels D))
        → P p
        → Ordered rank P r
        → Ordered rank (λ k. rank p <ℤ rank k) r
        → Ordered rank P (report (p, a) r)
    report-Ordered P p a none h o after = tt
    report-Ordered P p a (some (fills, r)) h (f, k, s, g) (f', k', s', g') = ((h, f), k, (f', s), g)

    last-Ordered :
        (P : D → Type 0) (q p a : D) (m : PriceLevels D)
        → P p
        → AllKeys P m
        → IsGood rank ((p, a) ∷ m)
        → Ordered rank P (some ((p, q) ∷ [], rest_of p a q m))
    unfolding rest_of
    last-Ordered P q p a m h k g = elim (Bool-cases ((a ⊖ q) ≤? nought)) [
      | inl e ↦ rw e ((h, tt), k, (tt, tt), record { sorted = g.sorted.1; positive = g.positive.1 })
      | inr e ↦ rw e (
        (h, tt),
        (h, k),
        (tt, tt),
        record { sorted = g.sorted; positive = (ground (arith, nought_parts laws), g.positive.1) },
      )
    ]

    pub sweep-Ordered :
        (P : D → Type 0) (fuel : ℕ) (q : D) (m : PriceLevels D)
        → length m < fuel
        → AllKeys P m
        → IsGood rank m
        → Ordered rank P (sweep rank fuel q m)
    unfolding rest_of
    sweep-Ordered P zero q m f k g = absurd (omega arith)
    sweep-Ordered P (suc fuel) q [] f k g = unfold sweep in ground arith
    sweep-Ordered P (suc fuel) q ((p, a) ∷ m) f (h, k) g = elim (Bool-cases (nought <? q)) [
      | inr done ↦
          rw (sweep_zero rank (suc fuel) q ((p, a) ∷ m) done (omega arith)) (tt, (h, k), tt, g)
      | inl more ↦ elim (sweep_cases rank fuel q p a m laws g.positive.0 more (omega arith)) [
        | inl (all, e) ↦
            let rest : IsGood rank m = record { sorted = g.sorted.1; positive = g.positive.1 } in
            rw e (
              report-Ordered P p a (sweep rank fuel (q ⊖ a) m) h
                (sweep-Ordered P fuel (q ⊖ a) m (omega arith) k rest)
                (sweep-Ordered (λ j. rank p <ℤ rank j) fuel (q ⊖ a) m (omega arith) g.sorted.0
                  rest))
        | inr (part, e) ↦ rw e (last-Ordered P q p a m h k g)
      ]
    ]
