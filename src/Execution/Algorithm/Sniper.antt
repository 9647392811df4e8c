-- ===== src/Execution/Algorithm/Sniper.antt =====
-- tesser-execution/src/algorithm/sniper.rs
pub mod Fires
use tesser.Prelude.{Bool, true, false, not, Option, none, some, List, [], ◌∷◌, ◌++◌, if◌then◌else◌}
use tesser.Prelude.Bytes.{codes}
use tesser.Prelude.Int.{◌-ℤ◌, leb_ℤ}
use tesser.Prelude.Result.{Result, ok, fail_if, ◌>>◌}
use tesser.Decimal.{Decimal, nought, ◌⊕◌, ◌⊖◌, ◌<?◌, ◌≤?◌, max}
use tesser.Core.Types.{
  Text, Uuid, Time, Duration, enter_long, exit_long, enter_short, exit_short, flatten, side_of,
  market, OrderRequest, Fill, Signal, Tick,
}
use tesser.Execution.Algorithm.{
  AlgoStatus, working, completed, cancelled, is_working, ChildOrderRequest, place,
}

pub record SniperState (D : Type 0) : Type 0 where
  pub id : Uuid
  pub parent_signal : Signal D
  pub status : AlgoStatus
  pub total_quantity : D
  pub filled_quantity : D
  pub trigger_price : D
  pub timeout : Option Duration
  pub triggered : Bool
  pub started_at : Time

module _ {D : Type 0} ⦃d : Decimal D⦄ where
  unfoldable pub new :
      Uuid → Time → Signal D → D → D → Option Duration → Result Text (SniperState D)
  new id now signal total trigger timeout =
      fail_if (total ≤? nought) (codes "sniper quantity must be positive")
      >> fail_if (trigger ≤? nought) (codes "trigger price must be positive")
      >> ok (record {
        id = id;
        parent_signal = signal;
        status = working;
        total_quantity = total;
        filled_quantity = nought;
        trigger_price = trigger;
        timeout = timeout;
        triggered = false;
        started_at = now;
      })

  unfoldable pub remaining : SniperState D → D
  remaining s = max (s.total_quantity ⊖ s.filled_quantity) nought

  unfoldable pub ready_to_fire : SniperState D → D → Bool
  ready_to_fire s price = elim s.parent_signal.kind [
    | enter_long ↦ price ≤? s.trigger_price
    | exit_short ↦ price ≤? s.trigger_price
    | enter_short ↦ s.trigger_price ≤? price
    | exit_long ↦ s.trigger_price ≤? price
    | flatten ↦ false
  ]

  unfoldable pub check_expired : Time → SniperState D → SniperState D
  check_expired now s = elim s.timeout [
    | none ↦ s
    | some timeout ↦
        if leb_ℤ timeout (now -ℤ s.started_at) then record s { status = cancelled } else s
  ]

  unfoldable pub on_fill : Fill D → SniperState D → SniperState D × List (ChildOrderRequest D)
  unfolding remaining
  on_fill f s =
      let s' = record s { filled_quantity = s.filled_quantity ⊕ f.fill_quantity } in
      (if remaining s' ≤? nought then record s' { status = completed } else s', [])

  unfoldable pub on_timer : Time → SniperState D → SniperState D × List (ChildOrderRequest D)
  unfolding check_expired
  on_timer now s = (check_expired now s, [])

  unfoldable pub cancel : SniperState D → SniperState D
  cancel s = record s { status = cancelled }

module _ {D : Type 0} ⦃d : Decimal D⦄ (show : Uuid → Text) where
  unfoldable pub build_child : D → SniperState D → ChildOrderRequest D
  build_child qty s =
      let request : OrderRequest D = record {
        symbol = s.parent_signal.symbol;
        side = side_of s.parent_signal.kind;
        order_type = market;
        quantity = qty;
        price = none;
        trigger_price = none;
        time_in_force = none;
        client_order_id = some (codes "sniper-" ++ show s.id);
        take_profit = none;
        stop_loss = none;
        display_quantity = none;
      } in
      record { parent_algo_id = s.id; action = place request }

  unfoldable pub on_tick : Tick D → SniperState D → SniperState D × List (ChildOrderRequest D)
  unfolding build_child ready_to_fire remaining
  on_tick t s =
      let fired = record s { triggered = true } in
      let qty = remaining s in
      if not (is_working s.status)
      then (s, [])
      else if s.triggered
      then (s, [])
      else if ready_to_fire s t.price
      then (fired, (if nought <? qty then build_child qty s ∷ [] else []))
      else (s, [])
