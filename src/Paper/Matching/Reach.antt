-- ===== src/Paper/Matching/Reach.antt =====
-- Any run of the matching engine keeps the books of its orders.
use Prim.Derive.{subst}
use tesser.Prelude.{◌≡◌, refl, sym, ◌∙◌, List, [], ◌∷◌}
use tesser.Prelude.HashMap.{Values}
use tesser.Prelude.Bytes.{text_key}
use tesser.Decimal.{Decimal}
use tesser.Decimal.Laws.{IsExact}
use tesser.Decimal.Parts.{IsNonneg}
use tesser.Core.Ids.{Symbol}
use tesser.Core.Types.{Text, Time, Side, buy, sell, OrderRequest, OrderUpdateRequest}
use tesser.Core.Book.{OrderBook, OrderBookLevel, DepthUpdate}
use tesser.Paper.Matching.{
  MatchingEngine, load_market_snapshot, upsert_market_level, upsert_all, force_resting_level,
  apply_depth_update, drain_fills,
}
use tesser.Paper.Matching.Orders.{Attached, Draws, place_order, cancel_order, amend_order}
use tesser.Paper.Matching.Trades.{advance_time, process_trade}
use tesser.Paper.Matching.Trades.Meet.{IsSettled}
use tesser.Paper.Matching.Orders.Settled.{
  place_order-AllSettled, cancel_order-AllSettled, amend_order-AllSettled,
}
use tesser.Paper.Matching.Trades.Fair.{
  AllSettled, advance_time-AllSettled, process_trade-AllSettled,
}

-- Everything that can be done with an engine, with any readings of clocks and drawn identifiers.
module _ {D : Type 0} ⦃d : Decimal D⦄ where
  pub data Step (code : Symbol → Text) (e : MatchingEngine D) : MatchingEngine D → Type 0 where
    place :
        (draws : Draws) (request : OrderRequest D)
        → IsNonneg request.quantity
        → Step code e (place_order code draws request e).1
    cancel :
        (wall : Time) (id : Text) (symbol : Symbol) → Step code e (cancel_order wall id symbol e).1
    amend :
        (now : Time) (request : OrderUpdateRequest D) → Step code e (amend_order now request e).1
    advance : (now : Time) → Step code e (advance_time now e)
    trade :
        (drawn : Text → Attached) (side : Side) (price quantity : D) (timestamp : Time)
        → Step code e (process_trade code drawn side price quantity timestamp e).1
    snapshot : (b : OrderBook D) → Step code e (load_market_snapshot b e)
    depth : (u : DepthUpdate D) → Step code e (apply_depth_update u e)
    level : (side : Side) (price q : D) → Step code e (upsert_market_level side price q e)
    forced : (side : Side) (price q : D) → Step code e (force_resting_level side price q e)
    drain : Step code e (drain_fills e).1

  pub data Reach (code : Symbol → Text) (e : MatchingEngine D) : MatchingEngine D → Type 0 where
    here : Reach code e e
    next : {t u : MatchingEngine D} → Reach code e t → Step code t u → Reach code e u

module _ {D : Type 0} ⦃d : Decimal D⦄ (laws : IsExact D) where
  module _ (code : Symbol → Text) where
    upsert_all_open :
        (side : Side) (levels : List (OrderBookLevel D)) (e : MatchingEngine D)
        → (upsert_all side levels e).open_orders ≡ e.open_orders
    unfolding upsert_market_level
    upsert_all_open side [] e = refl
    upsert_all_open side (l ∷ levels) e = upsert_all_open side levels _

    depth_open :
        (u : DepthUpdate D) (e : MatchingEngine D)
        → (apply_depth_update u e).open_orders ≡ e.open_orders
    unfolding apply_depth_update
    depth_open u e =
        upsert_all_open sell u.asks (upsert_all buy u.bids e) ∙ upsert_all_open buy u.bids e

    Step-AllSettled : {e t : MatchingEngine D} → Step code e t → AllSettled e → AllSettled t
    unfolding load_market_snapshot upsert_market_level force_resting_level drain_fills
    Step-AllSettled (place draws request n) s = place_order-AllSettled laws code draws request _ n s
    Step-AllSettled (cancel wall id symbol) s = cancel_order-AllSettled laws wall id symbol _ s
    Step-AllSettled (amend now request) s = amend_order-AllSettled laws now request _ s
    Step-AllSettled (advance now) s = advance_time-AllSettled laws code now _ s
    Step-AllSettled (trade drawn side price quantity timestamp) s =
        process_trade-AllSettled laws code drawn side price quantity timestamp _ s
    Step-AllSettled (snapshot b) s = s
    Step-AllSettled (depth u) s = subst (Values (IsSettled {D = D})) (sym (depth_open u _)) s
    Step-AllSettled (level side price q) s = s
    Step-AllSettled (forced side price q) s = s
    Step-AllSettled drain s = s

    -- From an engine the open orders of which are settled, any sequence of calls (placing orders of
    -- quantities that are not negative, cancelling, amending, trades, the clock, changes of the two books
    -- and taking the fills) reaches only engines where each open order is settled: what is filled and what
    -- remains are not negative and add up to the quantity of the order.
    pub Reach-AllSettled : {e t : MatchingEngine D} → Reach code e t → AllSettled e → AllSettled t
    Reach-AllSettled here s = s
    Reach-AllSettled (next r step) s = Step-AllSettled step (Reach-AllSettled r s)
