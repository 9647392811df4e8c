-- ===== src/Paper/Matching/Amends.antt =====
-- connectors/tesser-paper/src/lib.rs: what an amendment does to the queue of an order.
use tesser.Prelude.{◌≡◌, refl, ◌∙◌, ap, true, false, some, arith, if◌then◌else◌}
use tesser.Prelude.Result.{Result, ok, err}
use tesser.Prelude.HashMap.{HashMap, lookup, insert, lookup-insert}
use tesser.Prelude.Bytes.{text_key}
use tesser.Decimal.{Decimal, nought, ◌⊖◌, ◌≤?◌, ◌<?◌}
use tesser.Decimal.Laws.{IsExact}
use tesser.Decimal.Parts.{IsPos, ◌≺◌}
use tesser.Core.Ids.{same_symbol}
use tesser.Core.Types.{Text, Time, same_side, Order, OrderUpdateRequest}
use tesser.Core.Book.{volume_at_level, remove_order}
use tesser.Core.Book.Valid.{IsValid}
use tesser.Core.Book.Volume.{volume-remove_order}
use tesser.Broker.{BrokerError}
use tesser.Paper.Matching.{MatchingEngine, RestingOrder}
use tesser.Paper.Matching.Orders.{amend_order, repriced, unqueued}

abbrev pub IsRefused : {A : Type 0} → Result BrokerError A → Type 0
IsRefused (err x) = Unit {0}
IsRefused (ok x) = ⊥

found : {V : Type 0} → (k : Text) (v : V) (m : HashMap Text V) → lookup k (insert k v m) ≡ some v
found k v m = ground (arith, lookup-insert k k v m, text_key.same_iff k k)

module _ {D : Type 0} ⦃d : Decimal D⦄ where
  -- An amendment that is refused and has taken an order off its queue: the order is open with its old
  -- quantity and the new price, and the level of its old price holds that much less.
  abbrev pub IsUnqueued :
      OrderUpdateRequest D
      → RestingOrder D
      → MatchingEngine D
      → Result BrokerError (Order D) × MatchingEngine D
      → Type 0
  IsUnqueued request r e (result, e') =
      let side = r.order.request.side in
      let rest = volume_at_level side r.price e.resting_depth ⊖ r.remaining in
      IsRefused result
      × (lookup request.order_id e'.open_orders ≡ some (repriced request.new_price r))
      × (volume_at_level side r.price e'.resting_depth ≡ (if rest ≤? nought then nought else rest))

  unqueued_depth :
      (laws : IsExact D) (r : RestingOrder D) (e : MatchingEngine D)
      → r.active ≡ true
      → IsPos r.remaining
      → (unqueued r e).resting_depth
        ≡ remove_order r.order.request.side r.price r.remaining e.resting_depth
  unqueued_depth laws r e active remains =
      let some_left : (nought <? r.remaining) ≡ true = ground (arith, remains, laws.units-nought) in
      rw (active, some_left) refl

  pub refused_amend_unqueues :
      (laws : IsExact D) (now : Time) (request : OrderUpdateRequest D) (e : MatchingEngine D)
      (r : RestingOrder D) (quantity : D)
      → lookup request.order_id e.open_orders ≡ some r
      → same_symbol r.order.request.symbol request.symbol ≡ true
      → same_side r.order.request.side request.side ≡ true
      → request.new_quantity ≡ some quantity
      → quantity ≺ r.order.filled_quantity
      → r.active ≡ true
      → IsPos r.remaining
      → IsValid e.resting_depth
      → IsUnqueued request r e (amend_order now request e)
  unfolding amend_order
  refused_amend_unqueues laws now request e r quantity h a b q less active remains v =
      let side = r.order.request.side in
      let too_low : (quantity <? r.order.filled_quantity) ≡ true = ground (arith, less) in
      let some_left : (r.remaining ≤? nought) ≡ false =
        ground (arith, remains, laws.units-nought) in
      let removed =
        (volume-remove_order laws side r.price r.remaining r.price e.resting_depth v).0 in
      rw (h, a, b, q, too_low, amend_order)
        (
          tt,
          found request.order_id (repriced request.new_price r) e.open_orders,
          ap (λ b. volume_at_level side r.price b) (unqueued_depth laws r e active remains)
              ∙ removed
              ∙ ground (arith, remains, laws.units-nought),
        )
