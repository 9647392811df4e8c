-- ===== src/Execution/Algorithm/TrailingStop.antt =====
-- tesser-execution/src/algorithm/trailing_stop.rs
pub mod Trail
use tesser.Prelude.{
  Bool, true, false, not, ◌&&◌, ◌||◌, none, some, List, [], ◌∷◌, ◌++◌, if◌then◌else◌,
}
use tesser.Prelude.Bytes.{codes}
use tesser.Prelude.Result.{Result, ok, fail_if, ◌>>◌}
use tesser.Decimal.{Decimal, nought, one, ◌⊕◌, ◌⊖◌, ◌⊗◌, ◌<?◌, ◌≤?◌, max}
use tesser.Core.Types.{
  Text, Uuid, sell, same_side, side_of, market, OrderRequest, Fill, Signal, Tick,
}
use tesser.Execution.Algorithm.{
  AlgoStatus, working, completed, cancelled, is_working, ChildOrderRequest, place,
}

pub record TrailingStopState (D : Type 0) : Type 0 where
  pub id : Uuid
  pub parent_signal : Signal D
  pub status : AlgoStatus
  pub total_quantity : D
  pub filled_quantity : D
  pub activation_price : D
  pub callback_rate : D
  pub highest_market_price : D
  pub activated : Bool
  pub triggered : Bool

module _ {D : Type 0} ⦃d : Decimal D⦄ where
  unfoldable pub new : Uuid → Signal D → D → D → D → Result Text (TrailingStopState D)
  new id signal total activation rate =
      fail_if (total ≤? nought) (codes "trailing stop quantity must be positive")
      >> fail_if (not (same_side (side_of signal.kind) sell))
          (codes "trailing stop currently supports sell-side signals only")
      >> fail_if (activation ≤? nought) (codes "activation price must be positive")
      >> fail_if ((rate ≤? nought) || (one ≤? rate)) (codes "callback rate must be between 0 and 1")
      >> ok (record {
        id = id;
        parent_signal = signal;
        status = working;
        total_quantity = total;
        filled_quantity = nought;
        activation_price = activation;
        callback_rate = rate;
        highest_market_price = activation;
        activated = false;
        triggered = false;
      })

  unfoldable pub remaining : TrailingStopState D → D
  remaining s = max (s.total_quantity ⊖ s.filled_quantity) nought

  unfoldable pub try_activate : D → TrailingStopState D → TrailingStopState D
  try_activate price s =
      if not s.activated && (s.activation_price ≤? price)
      then record s { activated = true; highest_market_price = price }
      else s

  unfoldable pub update_trail : D → TrailingStopState D → TrailingStopState D
  update_trail price s =
      if s.highest_market_price <? price then record s { highest_market_price = price } else s

  abbrev pub threshold : TrailingStopState D → D
  threshold s = s.highest_market_price ⊗ (one ⊖ s.callback_rate)

  unfoldable pub on_fill :
      Fill D → TrailingStopState D → TrailingStopState D × List (ChildOrderRequest D)
  unfolding remaining
  on_fill f s =
      let s' = record s { filled_quantity = s.filled_quantity ⊕ f.fill_quantity } in
      (if remaining s' ≤? nought then record s' { status = completed } else s', [])

  unfoldable pub cancel : TrailingStopState D → TrailingStopState D
  cancel s = record s { status = cancelled }

module _ {D : Type 0} ⦃d : Decimal D⦄ (show : Uuid → Text) where
  unfoldable pub build_child : D → TrailingStopState D → ChildOrderRequest D
  build_child qty s =
      let request : OrderRequest D = record {
        symbol = s.parent_signal.symbol;
        side = side_of s.parent_signal.kind;
        order_type = market;
        quantity = qty;
        price = none;
        trigger_price = none;
        time_in_force = none;
        client_order_id = some (codes "trailing-" ++ show s.id);
        take_profit = none;
        stop_loss = none;
        display_quantity = none;
      } in
      record { parent_algo_id = s.id; action = place request }

  -- the part of `on_tick` behind its early returns
  unfoldable pub trail : D → TrailingStopState D → TrailingStopState D × List (ChildOrderRequest D)
  unfolding build_child remaining update_trail
  trail price s =
      let s' = update_trail price s in
      let qty = remaining s' in
      if price ≤? threshold s'
      then (record s' { triggered = true }, (if nought <? qty then build_child qty s' ∷ [] else []))
      else (s', [])

  unfoldable pub on_tick :
      Tick D → TrailingStopState D → TrailingStopState D × List (ChildOrderRequest D)
  unfolding try_activate trail
  on_tick t s =
      if not (is_working s.status)
      then (s, [])
      else if not s.activated
      then (try_activate t.price s, [])
      else if s.triggered
      then (s, [])
      else trail t.price s
