-- ===== src/Core/Book.antt =====
-- tesser-core/src/lib.rs: `OrderBookLevel`, `OrderBook` and `LocalOrderBook`. A bid is kept under
-- `Reverse(price)`, so the first entry of either side is the best one.
pub mod Levels
pub mod Volume
pub mod Valid
pub mod Sweep
pub mod Reach
pub mod Tests
use tesser.Prelude.{
  ℕ, zero, suc, Bool, true, false, Option, none, some, List, [], ◌∷◌, ◌&&◌, if◌then◌else◌,
  unwrap_or, take,
}
use tesser.Prelude.Int.{ℤ, neg_ℤ}
use tesser.Decimal.{Decimal, units, nought, ◌⊕◌, ◌⊖◌, ◌<?◌, ◌≤?◌, min}
use tesser.Core.Ids.{Symbol}
use tesser.Core.Types.{Time, Side, buy, sell, inverse}
use Levels.{PriceLevels}

pub record LocalOrderBook (D : Type 0) : Type 0 where
  pub bids : PriceLevels D
  pub asks : PriceLevels D

pub record OrderBookLevel (D : Type 0) : Type 0 where
  pub price : D
  pub size : D

pub record OrderBook (D : Type 0) : Type 0 where
  pub symbol : Symbol
  pub bids : List (OrderBookLevel D)
  pub asks : List (OrderBookLevel D)
  pub timestamp : Time
  pub exchange_checksum : Option ℕ
  pub local_checksum : Option ℕ

pub record DepthUpdate (D : Type 0) : Type 0 where
  pub symbol : Symbol
  pub bids : List (OrderBookLevel D)
  pub asks : List (OrderBookLevel D)
  pub timestamp : Time

module _ {D : Type 0} ⦃d : Decimal D⦄ where
  unfoldable pub ask_rank : D → ℤ
  ask_rank p = units p

  -- `Reverse`
  unfoldable pub bid_rank : D → ℤ
  bid_rank p = neg_ℤ (units p)

  abbrev pub empty_book : LocalOrderBook D
  empty_book = record { bids = []; asks = [] }

  -- `*entry(p).or_insert(ZERO) += q`
  unfoldable pub accumulate : (D → ℤ) → D → D → PriceLevels D → PriceLevels D
  accumulate rank p q m = Levels.insert rank p (unwrap_or (Levels.get rank p m) nought ⊕ q) m

  unfoldable pub add_order : Side → D → D → LocalOrderBook D → LocalOrderBook D
  add_order buy p q b =
      if q ≤? nought then b else record b { bids = accumulate bid_rank p q b.bids }
  add_order sell p q b =
      if q ≤? nought then b else record b { asks = accumulate ask_rank p q b.asks }

  unfoldable pub clear_level : Side → D → LocalOrderBook D → LocalOrderBook D
  clear_level buy p b = record b { bids = Levels.remove bid_rank p b.bids }
  clear_level sell p b = record b { asks = Levels.remove ask_rank p b.asks }

  unfoldable pub apply_delta : Side → D → D → LocalOrderBook D → LocalOrderBook D
  unfolding clear_level
  apply_delta buy p q b =
      if q ≤? nought
      then clear_level buy p b
      else record b { bids = Levels.insert bid_rank p q b.bids }
  apply_delta sell p q b =
      if q ≤? nought
      then clear_level sell p b
      else record b { asks = Levels.insert ask_rank p q b.asks }

  -- a `for` loop that hands each price and quantity to `f`
  abbrev each :
      (D → D → LocalOrderBook D → LocalOrderBook D)
      → PriceLevels D
      → LocalOrderBook D
      → LocalOrderBook D
  each f [] b = b
  each f ((p, q) ∷ m) b = each f m (f p q b)

  unfoldable pub apply_deltas : PriceLevels D → PriceLevels D → LocalOrderBook D → LocalOrderBook D
  apply_deltas bids asks b = each (apply_delta sell) asks (each (apply_delta buy) bids b)

  unfoldable pub load_snapshot : PriceLevels D → PriceLevels D → LocalOrderBook D → LocalOrderBook D
  load_snapshot bids asks b = each (add_order sell) asks (each (add_order buy) bids empty_book)

  -- the level less `q`, deleted when nothing is left
  unfoldable pub reduce : (D → ℤ) → D → D → PriceLevels D → PriceLevels D
  reduce rank p q m = elim (Levels.get rank p m) [
    | none ↦ m
    | some level ↦
        if (level ⊖ q) ≤? nought then Levels.remove rank p m else Levels.insert rank p (level ⊖ q) m
  ]

  unfoldable pub remove_order : Side → D → D → LocalOrderBook D → LocalOrderBook D
  remove_order buy p q b = if q ≤? nought then b else record b { bids = reduce bid_rank p q b.bids }
  remove_order sell p q b =
      if q ≤? nought then b else record b { asks = reduce ask_rank p q b.asks }

  abbrev pub first : PriceLevels D → Option (D × D)
  first [] = none
  first (e ∷ m) = some e

  unfoldable pub best_bid : LocalOrderBook D → Option (D × D)
  best_bid b = first b.bids

  unfoldable pub best_ask : LocalOrderBook D → Option (D × D)
  best_ask b = first b.asks

  abbrev pub best_contra : Side → LocalOrderBook D → Option (D × D)
  unfolding best_ask best_bid
  best_contra buy b = best_ask b
  best_contra sell b = best_bid b

  -- A fill in front of those that a run of the loop reports.
  abbrev pub report {ℓ} :
      {B : Type ℓ} → D × D → Option (List (D × D) × B) → Option (List (D × D) × B)
  report e none = none
  report e (some (fills, b)) = some (e ∷ fills, b)

  -- The loop of `take_liquidity`, with fuel; `none` means that the fuel ran out.
  unfoldable pub take_liquidity :
      ℕ → Side → D → LocalOrderBook D → Option (List (D × D) × LocalOrderBook D)
  unfolding best_ask best_bid
  take_liquidity zero side q b = none
  take_liquidity (suc fuel) side q b = elim (nought <? q) [
    | false ↦ some ([], b)
    | true ↦ elim (best_contra side b) [
      | none ↦ some ([], b)
      | some (price, available) ↦
          let traded = min q available in
          let rest =
            take_liquidity fuel side (q ⊖ traded) (remove_order (inverse side) price traded b) in
          report (price, traded) rest
    ]
  ]

  unfoldable pub volume_at_level : Side → D → LocalOrderBook D → D
  volume_at_level buy p b = unwrap_or (Levels.get bid_rank p b.bids) nought
  volume_at_level sell p b = unwrap_or (Levels.get ask_rank p b.asks) nought

  abbrev no_levels : PriceLevels D → Bool
  no_levels [] = true
  no_levels (e ∷ m) = false

  unfoldable pub is_empty : LocalOrderBook D → Bool
  is_empty b = no_levels b.bids && no_levels b.asks

  unfoldable pub bid_levels : ℕ → LocalOrderBook D → PriceLevels D
  bid_levels n b = take n b.bids

  unfoldable pub ask_levels : ℕ → LocalOrderBook D → PriceLevels D
  ask_levels n b = take n b.asks
