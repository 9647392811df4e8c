-- ===== src/Execution/Algorithm/TrailingStop/Trail.antt =====
-- The requests of a trailing stop over a run of ticks, against a description by the prices alone.
use Prim.Derive.{subst}
use tesser.Prelude.{◌≡◌, refl, ap, ◌⊎◌, inl, inr, Bool, true, false, List, [], ◌∷◌, ◌++◌, arith}
use tesser.Decimal.Laws.{IsExact}
use tesser.Decimal.{Decimal, units, nought, one, ◌⊖◌, ◌⊗◌, ◌<?◌, ◌≤?◌, max}
use tesser.Decimal.Parts.{◌≼◌, ◌≺◌, nought_parts, sub_parts}
use tesser.Prelude.Int.{eq_of_parts}
use tesser.Prelude.Result.{ok}
use tesser.Core.Types.{Text, Uuid, Signal, Tick}
use tesser.Execution.Algorithm.{working, ChildOrderRequest}
use tesser.Execution.Algorithm.TrailingStop.{
  TrailingStopState, new, on_tick, try_activate, update_trail, trail, build_child, remaining,
}

module _ {D : Type 0} ⦃d : Decimal D⦄ where
  -- Some tick is at the highest price up to it, less that price times the callback rate, or below; the
  -- first argument is the rate and the second the highest price so far.
  abbrev pub Falls : D → D → List (Tick D) → Type 0
  Falls rate high [] = ⊥
  Falls rate high (t ∷ ts) =
      (t.price ≼ (max t.price high ⊗ (one ⊖ rate))) ⊎ Falls rate (max t.price high) ts

  -- The first tick at the activation price or above is followed by one that falls.
  abbrev pub Stops : D → D → List (Tick D) → Type 0
  Stops rate activation [] = ⊥
  Stops rate activation (t ∷ ts) =
      ((activation ≼ t.price) × Falls rate t.price ts)
      ⊎ ((t.price ≺ activation) × Stops rate activation ts)

module _ {D : Type 0} ⦃d : Decimal D⦄ (show : Uuid → Text) where
  -- the ticks in order, with all the requests that they lead to
  pub run : List (Tick D) → TrailingStopState D → TrailingStopState D × List (ChildOrderRequest D)
  run [] s = (s, [])
  run (t ∷ ts) s =
      let (s₁, asked) = on_tick show t s in let (s₂, later) = run ts s₁ in (s₂, asked ++ later)

  -- a run that has fired and asked for one child of a quantity, or has done neither
  abbrev pub Outcome :
      Type 0 → D → TrailingStopState D → TrailingStopState D × List (ChildOrderRequest D) → Type 0
  Outcome P quantity s out =
      (P × (out.0.triggered ≡ true) × (out.1 ≡ build_child show quantity s ∷ []))
      ⊎ ((¬ P) × (out.0.triggered ≡ false) × (out.1 ≡ []))

  -- a working stop that has not fired: its price is armed or not, and something is left
  record Waits (armed : Bool) (s : TrailingStopState D) : Type 0 where
    status : s.status ≡ working
    activated : s.activated ≡ armed
    triggered : s.triggered ≡ false
    left : (nought <? remaining s) ≡ true

  on_tick-armed :
      (t : Tick D) (s : TrailingStopState D)
      → Waits true s
      → (let high = max t.price s.highest_market_price in
          ((t.price ≼ (high ⊗ (one ⊖ s.callback_rate)))
            × (on_tick show t s ≡ (
              record s { highest_market_price = high; triggered = true },
              build_child show (remaining s) s ∷ [],
            )))
          ⊎ (((high ⊗ (one ⊖ s.callback_rate)) ≺ t.price)
              × (on_tick show t s ≡ (record s { highest_market_price = high }, []))))
  unfolding on_tick trail update_trail remaining build_child
  on_tick-armed t s w = ground (arith, w)

  on_tick-waiting :
      (t : Tick D) (s : TrailingStopState D)
      → Waits false s
      → ((s.activation_price ≼ t.price)
          × (on_tick show t s
              ≡ (record s { activated = true; highest_market_price = t.price }, [])))
        ⊎ ((t.price ≺ s.activation_price) × (on_tick show t s ≡ (s, [])))
  unfolding on_tick try_activate
  on_tick-waiting t s w = ground (arith, w)

  run_spent :
      (ts : List (Tick D)) (s : TrailingStopState D)
      → s.status ≡ working
      → s.activated ≡ true
      → s.triggered ≡ true
      → ((run ts s).0 ≡ s) × ((run ts s).1 ≡ [])
  unfolding run on_tick
  run_spent [] s w a f = (refl, refl)
  run_spent (t ∷ ts) s w a f =
      let (same, nothing) = run_spent ts s w a f in
      let still : on_tick show t s ≡ (s, []) = ground arith in rw still (same, nothing)

  run_armed :
      (ts : List (Tick D)) (s : TrailingStopState D)
      → Waits true s
      → Outcome (Falls s.callback_rate s.highest_market_price ts) (remaining s) s (run ts s)
  unfolding run remaining build_child
  run_armed [] s w = inr (λ h. h, w.triggered, refl)
  run_armed (t ∷ ts) s w =
      let high = max t.price s.highest_market_price in
      elim (on_tick-armed t s w) [
        | inl (le, e) ↦
            let s₁ = record s { highest_market_price = high; triggered = true } in
            let (same, nothing) = run_spent ts s₁ w.status w.activated refl in
            rw e (
              inl (
                inl le,
                ap (λ (x : TrailingStopState D). x.triggered) same,
                ap (λ cs. build_child show (remaining s) s ∷ cs) nothing,
              ))
        | inr (gt, e) ↦
            let s₁ = record s { highest_market_price = high } in
            let w₁ : Waits true s₁ = record {
              status = w.status;
              activated = w.activated;
              triggered = w.triggered;
              left = w.left;
            } in
            rw e (elim (run_armed ts s₁ w₁) [
              | inl (falls, fired, asked) ↦ inl (inr falls, fired, asked)
              | inr (never, quiet, asked) ↦ inr (λ h. ground (arith, h, never), quiet, asked)
            ])
      ]

  run_waiting :
      (ts : List (Tick D)) (s : TrailingStopState D)
      → Waits false s
      → Outcome (Stops s.callback_rate s.activation_price ts) (remaining s) s (run ts s)
  unfolding run remaining build_child
  run_waiting [] s w = inr (λ h. h, w.triggered, refl)
  run_waiting (t ∷ ts) s w = elim (on_tick-waiting t s w) [
    | inl (le, e) ↦
        let s₁ = record s { activated = true; highest_market_price = t.price } in
        let w₁ : Waits true s₁ = record {
          status = w.status;
          activated = refl;
          triggered = w.triggered;
          left = w.left;
        } in
        rw e (elim (run_armed ts s₁ w₁) [
          | inl (falls, fired, asked) ↦ inl (inl (le, falls), fired, asked)
          | inr (never, quiet, asked) ↦ inr (λ h. ground (arith, h, never), quiet, asked)
        ])
    | inr (gt, e) ↦ rw e (elim (run_waiting ts s w) [
      | inl (stops, fired, asked) ↦ inl (inr (gt, stops), fired, asked)
      | inr (never, quiet, asked) ↦ inr (λ h. ground (arith, h, never), quiet, asked)
    ])
  ]

module _ {D : Type 0} ⦃d : Decimal D⦄ (laws : IsExact D) (show : Uuid → Text) where
  new-Waits :
      (id : Uuid) (signal : Signal D) (total activation rate : D) {s : TrailingStopState D}
      → new id signal total activation rate ≡ ok s
      → Waits show false s
        × (s.callback_rate ≡ rate)
        × (s.activation_price ≡ activation)
        × (units (remaining s) ≡ units total)
  unfolding new remaining
  new-Waits id signal total activation rate {s} made =
      let (positive, running, waiting, quiet, callback, price, whole, unfilled) : (((total
              ≤? nought)
            ≡ false)
          × (s.status ≡ working)
          × (s.activated ≡ false)
          × (s.triggered ≡ false)
          × (s.callback_rate ≡ rate)
          × (s.activation_price ≡ activation)
          × (s.total_quantity ≡ total)
          × (s.filled_quantity ≡ nought)) =
        ground (arith, made) in
      let rest = max (s.total_quantity ⊖ s.filled_quantity) nought in
      let left : units rest ≡ units total = ground (
        arith,
        whole,
        unfilled,
        positive,
        nought_parts laws,
        laws.units-nought,
        sub_parts laws s.total_quantity s.filled_quantity,
        eq_of_parts (units rest) (units total),
      ) in
      let more : (nought <? rest) ≡ true =
        ground (arith, left, positive, nought_parts laws, laws.units-nought) in
      (
        record { status = running; activated = waiting; triggered = quiet; left = more },
        callback,
        price,
        left,
      )

  pub run-Stops :
      (id : Uuid) (signal : Signal D) (total activation rate : D) (ts : List (Tick D))
      {s : TrailingStopState D}
      → new id signal total activation rate ≡ ok s
      → (quantity : D) × (units quantity ≡ units total)
        × Outcome show (Stops rate activation ts) quantity s (run show ts s)
  run-Stops id signal total activation rate ts {s} made =
      let (w, r, a, left) = new-Waits id signal total activation rate made in
      (
        remaining s,
        left,
        subst (λ x. Outcome show (Stops x activation ts) (remaining s) s (run show ts s)) r
            (subst (λ x. Outcome show (Stops s.callback_rate x ts) (remaining s) s (run show ts s))
              a (run_waiting show ts s w)),
      )
