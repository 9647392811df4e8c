-- ===== src/Core/Book/Tests.antt =====
-- A book in hundredths, and the theorems of `LocalOrderBook` on it.
use tesser.Prelude.{◌≡◌, refl, some, [], ◌∷◌, arith}
use tesser.Prelude.Int.{ℤ, pos, neg_ℤ, ◌-ℤ◌}
use tesser.Decimal.{nought}
use tesser.Decimal.Parts.{◌≺◌}
use tesser.Decimal.Cents.{cents, cents-IsExact}
use tesser.Core.Types.{buy, sell}
use tesser.Core.Book.{
  LocalOrderBook, bid_rank, ask_rank, load_snapshot, remove_order, take_liquidity, volume_at_level,
  best_bid, best_ask, empty_book, reduce,
}
use tesser.Core.Book.Levels.{get, insert, remove}
use tesser.Core.Book.Valid.{IsValid}
use tesser.Core.Book.Reach.{IsReached}
use tesser.Core.Book.Sweep.Liquidity.{Taken, take_liquidity-Taken}

-- bids of 1.00 at 99 and 2.00 at 98, asks of 3.00 at 101 and 4.00 at 102
abbrev quotes : LocalOrderBook ℤ
quotes = record {
  bids = (pos 9900, pos 100) ∷ (pos 9800, pos 200) ∷ [];
  asks = (pos 10100, pos 300) ∷ (pos 10200, pos 400) ∷ [];
}

quotes-IsValid : IsValid quotes
unfolding bid_rank ask_rank neg_ℤ
quotes-IsValid = ground arith

-- a buy of 5.00 takes all of the first ask and half of the second
sweep_run :
    take_liquidity 3 buy (pos 500) quotes
    ≡ some (
      (pos 10100, pos 300) ∷ (pos 10200, pos 200) ∷ [],
      record quotes { asks = (pos 10200, pos 200) ∷ [] },
    )
unfolding take_liquidity remove_order reduce get insert remove best_ask best_bid ask_rank ◌-ℤ◌
sweep_run = refl

take_liquidity-Taken_example : Taken buy (pos 500) quotes (take_liquidity 3 buy (pos 500) quotes)
take_liquidity-Taken_example =
    take_liquidity-Taken cents-IsExact buy 3 (pos 500) quotes quotes-IsValid (omega arith)
      (omega arith)

bid_of_98 : nought ≺ volume_at_level buy (pos 9800) quotes
unfolding volume_at_level get bid_rank neg_ℤ
bid_of_98 = omega arith

ask_of_102 : nought ≺ volume_at_level sell (pos 10200) quotes
unfolding volume_at_level get ask_rank
ask_of_102 = omega arith

-- the quotes, loaded from a snapshot
loaded : IsReached (load_snapshot quotes.bids quotes.asks empty_book)
loaded = IsReached.snapshot quotes.bids quotes.asks IsReached.start
