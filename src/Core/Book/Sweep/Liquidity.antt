-- ===== src/Core/Book/Sweep/Liquidity.antt =====
-- `LocalOrderBook::take_liquidity`: what an aggressive order takes from the book.
use tesser.Prelude.{
  ℕ, zero, suc, ◌<◌, ◌≡◌, refl, Option, none, some, List, [], ◌∷◌, arith, All, length,
}
use tesser.Prelude.Int.{ℤ, ◌+ℤ◌, min_ℤ}
use tesser.Decimal.{Decimal, units, ◌⊖◌, min}
use tesser.Decimal.Laws.{IsExact}
use tesser.Decimal.Parts.{IsNonneg}
use tesser.Core.Types.{Side, buy, sell, inverse}
use tesser.Core.Book.{LocalOrderBook, ask_rank, bid_rank, remove_order, take_liquidity}
use tesser.Core.Book.Levels.{PriceLevels}
use tesser.Core.Book.Levels.Order.{IsSorted}
use tesser.Core.Book.Levels.Depth.{IsPositive, depth}
use tesser.Core.Book.Valid.{IsGood, IsValid}
use tesser.Core.Book.Sweep.{sweep, trade, traded, Swept, sweep-Swept}
use tesser.Core.Book.Sweep.Order.{Ordered, sweep-Ordered}

module _ {D : Type 0} ⦃d : Decimal D⦄ where
  abbrev pub side_of_book : Side → LocalOrderBook D → PriceLevels D
  side_of_book buy b = b.bids
  side_of_book sell b = b.asks

  abbrev pub rank_of : Side → D → ℤ
  rank_of buy = bid_rank
  rank_of sell = ask_rank

  abbrev book : PriceLevels D → PriceLevels D → LocalOrderBook D
  book bids asks = record { bids = bids; asks = asks }

  abbrev with_asks :
      PriceLevels D
      → Option (List (D × D) × PriceLevels D)
      → Option (List (D × D) × LocalOrderBook D)
  with_asks bids none = none
  with_asks bids (some (fills, asks)) = some (fills, book bids asks)

  abbrev with_bids :
      PriceLevels D
      → Option (List (D × D) × PriceLevels D)
      → Option (List (D × D) × LocalOrderBook D)
  with_bids asks none = none
  with_bids asks (some (fills, bids)) = some (fills, book bids asks)

  take_liquidity-buy :
      (fuel : ℕ) (q : D) (bids asks : PriceLevels D)
      → take_liquidity fuel buy q (book bids asks) ≡ with_asks bids (sweep ask_rank fuel q asks)
  unfolding take_liquidity sweep remove_order trade traded
  take_liquidity-buy zero q bids asks = refl
  take_liquidity-buy (suc fuel) q bids [] = ground arith
  take_liquidity-buy (suc fuel) q bids ((p, a) ∷ m) =
      let t = min q a in
      ground (arith, take_liquidity-buy fuel (q ⊖ t) bids (trade ask_rank p t ((p, a) ∷ m)))

  take_liquidity-sell :
      (fuel : ℕ) (q : D) (bids asks : PriceLevels D)
      → take_liquidity fuel sell q (book bids asks) ≡ with_bids asks (sweep bid_rank fuel q bids)
  unfolding take_liquidity sweep remove_order trade traded
  take_liquidity-sell zero q bids asks = refl
  take_liquidity-sell (suc fuel) q [] asks = ground arith
  take_liquidity-sell (suc fuel) q ((p, a) ∷ m) asks =
      let t = min q a in
      ground (arith, take_liquidity-sell fuel (q ⊖ t) (trade bid_rank p t ((p, a) ∷ m)) asks)

  -- What an order of `side` for `q` takes from a book: the loop ends; the book stays valid; the fills
  -- are positive and in price priority; what was filled and what is left make up what was there; the
  -- order is filled as far as the depth allows; its own side is untouched.
  abbrev pub Taken : Side → D → LocalOrderBook D → Option (List (D × D) × LocalOrderBook D) → Type 0
  Taken side q b none = ⊥
  Taken side q b (some (fills, b')) =
      let contra = side_of_book (inverse side) in
      IsValid b'
      × All IsPositive fills
      × IsSorted (rank_of (inverse side)) fills
      × (depth (contra b') +ℤ depth fills ≡ depth (contra b))
      × (depth fills ≡ min_ℤ (units q) (depth (contra b)))
      × (side_of_book side b' ≡ side_of_book side b)

  with_asks-Taken :
      (q : D) (bids asks : PriceLevels D) (r : Option (List (D × D) × PriceLevels D))
      → IsGood bid_rank bids
      → Swept ask_rank q asks r
      → Ordered ask_rank (λ _. Unit {0}) r
      → Taken buy q (book bids asks) (with_asks bids r)
  with_asks-Taken q bids asks none g s o = s
  with_asks-Taken q bids asks (some (fills, r)) g (p, kept, total) (_, _, sorted, good) =
      (record { bids_good = g; asks_good = good }, p, sorted, kept, total, refl)

  with_bids-Taken :
      (q : D) (bids asks : PriceLevels D) (r : Option (List (D × D) × PriceLevels D))
      → IsGood ask_rank asks
      → Swept bid_rank q bids r
      → Ordered bid_rank (λ _. Unit {0}) r
      → Taken sell q (book bids asks) (with_bids asks r)
  with_bids-Taken q bids asks none g s o = s
  with_bids-Taken q bids asks (some (fills, r)) g (p, kept, total) (_, _, sorted, good) =
      (record { bids_good = good; asks_good = g }, p, sorted, kept, total, refl)

  all_keys : (m : PriceLevels D) → All (λ _. Unit {0}) m
  all_keys [] = tt
  all_keys (e ∷ m) = (tt, all_keys m)

  -- On a valid book, with more rounds of fuel than the other side has levels, `take_liquidity` for a
  -- quantity that is not negative ends, and takes what `Taken` says.
  pub take_liquidity-Taken :
      (laws : IsExact D) (side : Side) (fuel : ℕ) (q : D) (b : LocalOrderBook D)
      → IsValid b
      → IsNonneg q
      → length (side_of_book (inverse side) b) < fuel
      → Taken side q b (take_liquidity fuel side q b)
  take_liquidity-Taken laws buy fuel q b v h f = rw (take_liquidity-buy fuel q b.bids b.asks) (
      with_asks-Taken q b.bids b.asks (sweep ask_rank fuel q b.asks) v.bids_good
        (sweep-Swept laws ask_rank fuel q b.asks v.asks_good.positive h f)
        (sweep-Ordered laws ask_rank (λ _. Unit {0}) fuel q b.asks f (all_keys b.asks) v.asks_good))
  take_liquidity-Taken laws sell fuel q b v h f = rw (take_liquidity-sell fuel q b.bids b.asks) (
      with_bids-Taken q b.bids b.asks (sweep bid_rank fuel q b.bids) v.asks_good
        (sweep-Swept laws bid_rank fuel q b.bids v.bids_good.positive h f)
        (sweep-Ordered laws bid_rank (λ _. Unit {0}) fuel q b.bids f (all_keys b.bids) v.bids_good))
