-- ===== src/Core/Book/Reach.antt =====
-- A `LocalOrderBook` that any calls of its operations lead to.
use tesser.Prelude.{
  ℕ, zero, suc, ◌≡◌, Option, none, some, List, arith, Bool-cases, Option-cases, inl, inr,
}
use tesser.Decimal.{Decimal, nought, ◌⊖◌, ◌<?◌, min}
use tesser.Decimal.Laws.{IsExact}
use tesser.Core.Types.{Side, inverse}
use tesser.Core.Book.{
  LocalOrderBook, empty_book, add_order, remove_order, apply_delta, apply_deltas, load_snapshot,
  clear_level, take_liquidity, best_contra, report,
}
use tesser.Core.Book.Levels.{PriceLevels}
use tesser.Core.Book.Valid.{
  IsValid, empty_book-IsValid, add_order-IsValid, remove_order-IsValid, apply_delta-IsValid,
  apply_deltas-IsValid, load_snapshot-IsValid, clear_level-IsValid,
}

module _ {D : Type 0} ⦃d : Decimal D⦄ where
  -- The books that start out empty and are changed by the operations, one after another.
  pub data IsReached : LocalOrderBook D → Type 0 where
    start : IsReached empty_book
    add :
        {b : LocalOrderBook D} (side : Side) (p q : D)
        → IsReached b
        → IsReached (add_order side p q b)
    drop :
        {b : LocalOrderBook D} (side : Side) (p q : D)
        → IsReached b
        → IsReached (remove_order side p q b)
    clear :
        {b : LocalOrderBook D} (side : Side) (p : D)
        → IsReached b
        → IsReached (clear_level side p b)
    delta :
        {b : LocalOrderBook D} (side : Side) (p q : D)
        → IsReached b
        → IsReached (apply_delta side p q b)
    deltas :
        {b : LocalOrderBook D} (bids asks : PriceLevels D)
        → IsReached b
        → IsReached (apply_deltas bids asks b)
    snapshot :
        {b : LocalOrderBook D} (bids asks : PriceLevels D)
        → IsReached b
        → IsReached (load_snapshot bids asks b)
    sweep :
        {b b' : LocalOrderBook D} (fuel : ℕ) (side : Side) (q : D) (fills : List (D × D))
        → take_liquidity fuel side q b ≡ some (fills, b')
        → IsReached b
        → IsReached b'

  reported :
      (e : D × D) (o : Option (List (D × D) × LocalOrderBook D)) {fills : List (D × D)}
      {b' : LocalOrderBook D}
      → report e o ≡ some (fills, b')
      → (rest : List (D × D)) × (o ≡ some (rest, b'))
  reported e none h = absurd (cc h)
  reported e (some (rest, b)) h = (rest, cc h)

  module _ (laws : IsExact D) where
    take_liquidity-IsValid :
        (fuel : ℕ) (side : Side) (q : D) (b : LocalOrderBook D) {fills : List (D × D)}
        {b' : LocalOrderBook D}
        → take_liquidity fuel side q b ≡ some (fills, b')
        → IsValid b
        → IsValid b'
    take_liquidity-IsValid zero side q b e v = absurd (unfold take_liquidity in cc e)
    take_liquidity-IsValid (suc fuel) side q b {fills = fills} {b' = b'} e v =
        elim (Bool-cases (nought <? q)) [
          | inr done ↦
              let same : b ≡ b' = unfold take_liquidity in ground (arith, done, e) in rw (← same) v
          | inl more ↦ elim (Option-cases (best_contra side b)) [
            | inl empty ↦
                let same : b ≡ b' = unfold take_liquidity in ground (arith, more, empty, e) in
                rw (← same) v
            | inr ((price, available), best) ↦
                let traded = min q available in
                let b₁ = remove_order (inverse side) price traded b in
                let round : report (price, traded) (take_liquidity fuel side (q ⊖ traded) b₁)
                    ≡ some (fills, b') =
                  unfold take_liquidity in ground (arith, more, best, e) in
                let (rest, run) =
                  reported (price, traded) (take_liquidity fuel side (q ⊖ traded) b₁) round in
                take_liquidity-IsValid fuel side (q ⊖ traded) b₁ run
                  (remove_order-IsValid laws (inverse side) price traded b v)
          ]
        ]

    -- Whatever operations follow one another from an empty book, with any prices and quantities, both
    -- sides stay sorted, with distinct prices and positive quantities only.
    pub IsReached-IsValid : {b : LocalOrderBook D} → IsReached b → IsValid b
    IsReached-IsValid start = empty_book-IsValid laws
    IsReached-IsValid (add {b = b} side p q r) =
        add_order-IsValid laws side p q b (IsReached-IsValid r)
    IsReached-IsValid (drop {b = b} side p q r) =
        remove_order-IsValid laws side p q b (IsReached-IsValid r)
    IsReached-IsValid (clear {b = b} side p r) =
        clear_level-IsValid laws side p b (IsReached-IsValid r)
    IsReached-IsValid (delta {b = b} side p q r) =
        apply_delta-IsValid laws side p q b (IsReached-IsValid r)
    IsReached-IsValid (deltas {b = b} bids asks r) =
        apply_deltas-IsValid laws bids asks b (IsReached-IsValid r)
    IsReached-IsValid (snapshot {b = b} bids asks r) = load_snapshot-IsValid laws bids asks b
    IsReached-IsValid (sweep {b = b} fuel side q fills e r) =
        take_liquidity-IsValid fuel side q b e (IsReached-IsValid r)
