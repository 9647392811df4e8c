-- ===== src/Execution/Algorithm/Sniper/Fires.antt =====
-- A sniper fires once, at its price, for what is left.
use tesser.Prelude.{
  ◌+◌, ◌≤◌, ◌≡◌, ◌≢◌, ◌⊎◌, true, false, List, [], ◌∷◌, ◌++◌, arith, length, length-append,
  if◌then◌else◌,
}
use tesser.Decimal.{Decimal, nought, ◌<?◌}
use tesser.Decimal.Parts.{◌≼◌}
use tesser.Core.Types.{Text, Uuid, Time, Side, buy, sell, side_of, flatten, Fill, Tick}
use tesser.Execution.Algorithm.{working, ChildOrderRequest}
use tesser.Execution.Algorithm.Sniper.{
  SniperState, on_tick, on_fill, on_timer, cancel, build_child, remaining,
}

pub data Event (D : Type 0) : Type 0 where
  tick : Tick D → Event D
  fill : Fill D → Event D
  timer : Time → Event D
  stop : Event D

module _ {D : Type 0} ⦃d : Decimal D⦄ where
  -- The price has reached the trigger from the side that the order waits on.
  abbrev pub Reached : Side → D → D → Type 0
  Reached buy trigger price = price ≼ trigger
  Reached sell trigger price = trigger ≼ price

  -- A working sniper that has not fired, for a signal that is not to flatten, at its price.
  abbrev pub Ready : SniperState D → D → Type 0
  Ready s price =
      (s.status ≡ working)
      × (s.triggered ≡ false)
      × (s.parent_signal.kind ≢ flatten)
      × Reached (side_of s.parent_signal.kind) s.trigger_price price

module _ {D : Type 0} ⦃d : Decimal D⦄ (show : Uuid → Text) where
  -- A tick either finds the sniper ready, marks it as fired, and asks for what is left, if there is
  -- any; or it finds it not ready, and changes nothing.
  pub on_tick_fires :
      (t : Tick D) (s : SniperState D)
      → (Ready s t.price
          × (on_tick show t s ≡ (
            record s { triggered = true },
            (if nought <? remaining s then build_child show (remaining s) s ∷ [] else []),
          )))
        ⊎ ((¬ Ready s t.price) × (on_tick show t s ≡ (s, [])))
  unfolding on_tick
  on_tick_fires t s = ground arith

  pub handle : Event D → SniperState D → SniperState D × List (ChildOrderRequest D)
  handle (tick t) s = on_tick show t s
  handle (fill f) s = on_fill f s
  handle (timer now) s = on_timer now s
  handle stop s = (cancel s, [])

  -- the events in order, with all the requests that they lead to
  pub run : List (Event D) → SniperState D → SniperState D × List (ChildOrderRequest D)
  run [] s = (s, [])
  run (e ∷ es) s =
      let (s₁, asked) = handle e s in let (s₂, later) = run es s₁ in (s₂, asked ++ later)

  handle_shots :
      (e : Event D) (s : SniperState D)
      → length (handle e s).1 + (if (handle e s).0.triggered then 0 else 1)
        ≤ (if s.triggered then 0 else 1)
  unfolding handle on_tick on_fill on_timer cancel
  handle_shots (tick t) s = ground arith
  handle_shots (fill f) s = ground arith
  handle_shots (timer now) s = ground arith
  handle_shots stop s = ground arith

  -- Over any run of ticks, fills, timers and cancellations a sniper asks for one child at most, and for
  -- none once it has fired.
  pub sniper_once :
      (es : List (Event D)) (s : SniperState D)
      → length (run es s).1 ≤ (if s.triggered then 0 else 1)
  unfolding run
  sniper_once [] s = omega arith
  sniper_once (e ∷ es) s =
      let s₁ = (handle e s).0 in
      omega (arith, handle_shots e s, sniper_once es s₁, length-append (handle e s).1 (run es s₁).1)
