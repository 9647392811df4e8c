-- ===== src/Execution/Algorithm/Pegged/Chase.antt =====
-- What a pegged order asks for on a tick.
use tesser.Prelude.{◌≡◌, Option, none, some, List, [], ◌∷◌, arith, Option-cases, inl, inr}
use tesser.Prelude.Int.{◌≤ℤ◌}
use tesser.Decimal.{Decimal, nought, ◌⊖◌, abs, max}
use tesser.Decimal.Parts.{◌≼◌, ◌≺◌}
use tesser.Core.Types.{Text, Uuid, Time, Tick}
use tesser.Execution.Algorithm.{working, ChildOrderRequest, ChildOrderAction, place, amend}
use tesser.Execution.Algorithm.Pegged.{
  PeggedState, ActiveChildOrder, on_tick, chase, quote, build_child, remaining, peg_price,
  should_chase, last_emit_elapsed, child_remaining,
}

module _ {D : Type 0} ⦃d : Decimal D⦄ where
  -- The peg has moved by the chase distance at least, if there was one.
  abbrev pub Moved : Option D → D → D → Type 0
  Moved none distance price = Unit
  Moved (some prev) distance price = distance ≼ abs (prev ⊖ price)

  -- An action that a tick may lead to, at a price: with no child an order, with a child its amendment.
  abbrev pub Pegs :
      Time → D → PeggedState D → Option (ActiveChildOrder D) → ChildOrderAction D → Type 0
  Pegs now price s none (place r) =
      (r.price ≡ some price)
      × (nought ≺ r.quantity)
      × (r.quantity ≼ remaining s)
      × (r.quantity ≼ s.clip_size)
  Pegs now price s (some c) (amend r) =
      (r.order_id ≡ c.order_id)
      × (r.new_price ≡ some price)
      × (r.new_quantity ≡ some c.total_quantity)
      × (s.refresh ≤ℤ last_emit_elapsed now s)
      × Moved s.last_peg_price s.min_chase_distance price
      × (nought ≺ child_remaining c)
  Pegs now price s none (amend r) = ⊥
  Pegs now price s (some c) (place r) = ⊥

  -- The requests of a tick: none, or one while the order is worked and not all filled.
  abbrev pub TickAsks : Time → D → PeggedState D → List (ChildOrderRequest D) → Type 0
  TickAsks now price s [] = Unit
  TickAsks now price s (c ∷ []) =
      (s.status ≡ working) × (nought ≺ remaining s) × Pegs now price s s.active_child c.action
  TickAsks now price s (c ∷ c' ∷ cs) = ⊥

module _ {D : Type 0} ⦃d : Decimal D⦄ (show : Uuid → Text) where
  quote-TickAsks :
      (price : D) (now : Time) (s : PeggedState D)
      → s.status ≡ working
      → nought ≺ remaining s
      → s.active_child ≡ none
      → TickAsks now price s (quote show price now s).1
  unfolding quote build_child
  quote-TickAsks price now s w r a = ground arith

  chase-TickAsks :
      (price : D) (now : Time) (s : PeggedState D) {c : ActiveChildOrder D}
      → s.status ≡ working
      → nought ≺ remaining s
      → s.active_child ≡ some c
      → TickAsks now price s (chase price now c s).1
  unfolding chase should_chase
  chase-TickAsks price now s w r a = ground arith

  pub on_tick_pegs :
      (now : Time) (t : Tick D) (s : PeggedState D)
      → TickAsks now (peg_price (max t.price nought) s) s (on_tick show now t s).1
  unfolding on_tick
  on_tick_pegs now t s =
      let price = peg_price (max t.price nought) s in
      elim (Option-cases s.active_child) [
        | inl none_open ↦ ground (arith, none_open, quote-TickAsks price now s)
        | inr (c, found) ↦ ground (arith, found, chase-TickAsks price now s {c = c})
      ]
