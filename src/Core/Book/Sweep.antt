-- ===== src/Core/Book/Sweep.antt =====
-- The loop of `take_liquidity` on the one side of the book that it consumes.
pub mod Order
pub mod Liquidity
use tesser.Prelude.{
  ℕ, zero, suc, ◌<◌, ◌≡◌, true, false, Option, none, some, List, [], ◌∷◌, arith, All, length,
  Bool-cases, inl, inr, ◌⊎◌, if◌then◌else◌,
}
use tesser.Prelude.Int.{ℤ, pos, ◌+ℤ◌, min_ℤ, +ℤ_parts}
use tesser.Decimal.{Decimal, units, nought, ◌⊖◌, ◌<?◌, ◌≤?◌, min}
use tesser.Decimal.Laws.{IsExact}
use tesser.Decimal.Parts.{IsPos, IsNonneg, ◌≺◌, nought_parts, sub_parts}
use tesser.Core.Book.{reduce, first, report}
use tesser.Core.Book.Levels.{PriceLevels, get, insert, remove}
use tesser.Core.Book.Levels.Depth.{IsPositive, depth, depth_nonneg}

module _ {D : Type 0} ⦃d : Decimal D⦄ where
  pub traded : D → D → D
  traded q a = min q a

  -- `remove_order` on the side that the loop consumes
  pub trade : (D → ℤ) → D → D → PriceLevels D → PriceLevels D
  trade rank p t m = if t ≤? nought then m else reduce rank p t m

  -- The loop on the side that it consumes.
  pub sweep : (D → ℤ) → ℕ → D → PriceLevels D → Option (List (D × D) × PriceLevels D)
  sweep rank zero q m = none
  sweep rank (suc fuel) q m = elim (nought <? q) [
    | false ↦ some ([], m)
    | true ↦ elim (first m) [
      | none ↦ some ([], m)
      | some (price, available) ↦
          let t = traded q available in
          let rest = sweep rank fuel (q ⊖ t) (trade rank price t m) in report (price, t) rest
    ]
  ]

  pub sweep_zero :
      (rank : D → ℤ) (fuel : ℕ) (q : D) (m : PriceLevels D)
      → (nought <? q) ≡ false
      → 0 < fuel
      → sweep rank fuel q m ≡ some ([], m)
  unfolding sweep
  sweep_zero rank zero q m e h = elim h [ ]
  sweep_zero rank (suc fuel) q m e h = ground arith

  -- The first level after a trade with it.
  reduce_first :
      (rank : D → ℤ) (p a q : D) (m : PriceLevels D)
      → reduce rank p q ((p, a) ∷ m) ≡ (if (a ⊖ q) ≤? nought then m else (p, a ⊖ q) ∷ m)
  unfolding reduce get insert remove
  reduce_first rank p a q m = ground arith

  -- What a run of the loop for `q` leaves of a side and reports.
  abbrev pub Swept : (D → ℤ) → D → PriceLevels D → Option (List (D × D) × PriceLevels D) → Type 0
  Swept rank q m none = ⊥
  Swept rank q m (some (fills, r)) =
      All IsPositive fills
      × (depth r +ℤ depth fills ≡ depth m)
      × (depth fills ≡ min_ℤ (units q) (depth m))

  pub sweep_step :
      (rank : D → ℤ) (fuel : ℕ) (q p a t : D) (m m' : PriceLevels D)
      → (nought <? q) ≡ true
      → traded q a ≡ t
      → trade rank p t ((p, a) ∷ m) ≡ m'
      → sweep rank (suc fuel) q ((p, a) ∷ m) ≡ report (p, t) (sweep rank fuel (q ⊖ t) m')
  unfolding sweep
  sweep_step rank fuel q p a t m m' e f g = rw (e, sweep) (rw f (rw g))

  pub trade_first :
      (rank : D → ℤ) (p a q : D) (m : PriceLevels D)
      → IsPos q
      → units {D = D} nought ≡ pos 0
      → trade rank p q ((p, a) ∷ m) ≡ (if (a ⊖ q) ≤? nought then m else (p, a ⊖ q) ∷ m)
  unfolding trade
  trade_first rank p a q m h z = ground (arith, reduce_first rank p a q m)

  -- The first level is taken whole, or the order ends at it.
  pub sweep_cases :
      (rank : D → ℤ) (fuel : ℕ) (q p a : D) (m : PriceLevels D)
      → IsExact D
      → IsPos a
      → (nought <? q) ≡ true
      → 0 < fuel
      → ((a <? q) ≡ true
          × sweep rank (suc fuel) q ((p, a) ∷ m) ≡ report (p, a) (sweep rank fuel (q ⊖ a) m))
        ⊎ ((a <? q) ≡ false
            × sweep rank (suc fuel) q ((p, a) ∷ m)
              ≡ some ((p, q) ∷ [], (if (a ⊖ q) ≤? nought then m else (p, a ⊖ q) ∷ m)))
  sweep_cases rank fuel q p a m laws pa more f = elim (Bool-cases (a <? q)) [
    | inl all ↦ inl (
      all,
      sweep_step rank fuel q p a a m m more (unfold traded in ground arith) (
          ground (
            arith,
            trade_first rank p a a m pa laws.units-nought,
            sub_parts laws a a,
            nought_parts laws,
          )),
    )
    | inr part ↦
        let m' = if (a ⊖ q) ≤? nought then m else (p, a ⊖ q) ∷ m in
        let step =
          sweep_step rank fuel q p a q m m' more (unfold traded in ground arith)
            (trade_first rank p a q m (ground (arith, nought_parts laws)) laws.units-nought) in
        inr (
          part,
          rw (
            step,
            sweep_zero rank fuel (q ⊖ q) m' (ground (arith, sub_parts laws q q, nought_parts laws))
                f,
          ),
        )
  ]

  module _ (laws : IsExact D) where
    report-Swept :
        (rank : D → ℤ) (q p a : D) (m : PriceLevels D) (r : Option (List (D × D) × PriceLevels D))
        → IsPos a
        → a ≺ q
        → Swept rank (q ⊖ a) m r
        → Swept rank q ((p, a) ∷ m) (report (p, a) r)
    report-Swept rank q p a m none h l s = s
    report-Swept rank q p a m (some (fills, r)) h l (good, kept, total) = ground (
      arith,
      sub_parts laws q a,
      +ℤ_parts (depth r) (depth fills),
      +ℤ_parts (units a) (depth m),
      +ℤ_parts (units a) (depth fills),
      +ℤ_parts (depth r) (units a +ℤ depth fills),
    )

    stop-Swept :
        (rank : D → ℤ) (q : D) (m : PriceLevels D)
        → All IsPositive m
        → IsNonneg q
        → (nought <? q) ≡ false
        → Swept rank q m (some ([], m))
    stop-Swept rank q m g h e =
        ground (arith, +ℤ_parts (depth m) (pos 0), depth_nonneg m g, nought_parts laws)

    last-Swept :
        (rank : D → ℤ) (q p a : D) (m : PriceLevels D)
        → All IsPositive m
        → IsPos q
        → (a <? q) ≡ false
        → Swept rank q
            ((p, a) ∷ m)
            (some ((p, q) ∷ [], (if (a ⊖ q) ≤? nought then m else (p, a ⊖ q) ∷ m)))
    last-Swept rank q p a m g h e = ground (
      arith,
      nought_parts laws,
      sub_parts laws a q,
      depth_nonneg m g,
      +ℤ_parts (units q) (pos 0),
      +ℤ_parts (units a) (depth m),
      +ℤ_parts (units (a ⊖ q)) (depth m),
      +ℤ_parts (depth m) (units q +ℤ pos 0),
      +ℤ_parts (units (a ⊖ q) +ℤ depth m) (units q +ℤ pos 0),
    )

    pub sweep-Swept :
        (rank : D → ℤ) (fuel : ℕ) (q : D) (m : PriceLevels D)
        → All IsPositive m
        → IsNonneg q
        → length m < fuel
        → Swept rank q m (sweep rank fuel q m)
    sweep-Swept rank zero q m g h f = elim f [ ]
    sweep-Swept rank (suc fuel) q [] g h f =
        unfold sweep in ground (arith, nought_parts laws, +ℤ_parts (pos 0) (pos 0))
    sweep-Swept rank (suc fuel) q ((p, a) ∷ m) (pa, g) h f = elim (Bool-cases (nought <? q)) [
      | inr done ↦
          rw (sweep_zero rank (suc fuel) q ((p, a) ∷ m) done (omega arith))
            (stop-Swept rank q ((p, a) ∷ m) (pa, g) h done)
      | inl more ↦ elim (sweep_cases rank fuel q p a m laws pa more (omega arith)) [
        | inl (all, e) ↦ rw e (
            report-Swept rank q p a m (sweep rank fuel (q ⊖ a) m) pa (ground arith) (
              sweep-Swept rank fuel (q ⊖ a) m g (ground (arith, sub_parts laws q a)) (omega arith)))
        | inr (part, e) ↦ rw e (last-Swept rank q p a m g (ground (arith, nought_parts laws)) part)
      ]
    ]
