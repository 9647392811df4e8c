-- ===== src/Execution/Engine/Sent.antt =====
-- What `handle_signal` sends to the broker.
use tesser.Prelude.{
  ℕ, ◌+◌, ◌≤◌, ◌≡◌, refl, ◌⊎◌, inl, inr, Option, none, some, [], ◌∷◌, ◌++◌, arith, All, All-append,
  length, length-append, Bool-cases, Option-cases, if◌then◌else◌,
}
use mathlib.Core.List.{append_assoc}
use tesser.Prelude.Result.{ok, err, Result-cases}
use tesser.Decimal.{Decimal, nought, ◌≤?◌}
use tesser.Decimal.Parts.{◌≺◌}
use tesser.Core.Types.{
  Text, Uuid, Side, buy, sell, SignalKind, enter_long, exit_long, enter_short, exit_short, flatten,
  market, stop_market, OrderRequest, Signal,
}
use tesser.Execution.Risk.{RiskContext, RiskError}
use tesser.Execution.Sizing.{Sizer, determine_quantity}
use tesser.Execution.Engine.{
  Client, RiskChecker, Requests, send_order, send_stop, send_stops, place, handle_signal,
  build_request, stop_request, entry_side, stop_side, client_order_id, invalid_request,
}

-- The side of the order that a signal stands for: to go long and to leave a short position are to
-- buy, all else is to sell.
abbrev pub Enters : SignalKind → Side → Type 0
Enters kind side =
    ((side ≡ buy) × ((kind ≡ enter_long) ⊎ (kind ≡ exit_short)))
    ⊎ ((side ≡ sell) × ((kind ≡ enter_short) ⊎ (kind ≡ exit_long) ⊎ (kind ≡ flatten)))

-- The side of a stop behind it: a stop sells behind what buys and buys behind what sells, and there is
-- none behind a signal to flatten.
abbrev pub Guards : SignalKind → Side → Type 0
Guards kind side =
    ((side ≡ sell) × ((kind ≡ enter_long) ⊎ (kind ≡ exit_short)))
    ⊎ ((side ≡ buy) × ((kind ≡ enter_short) ⊎ (kind ≡ exit_long)))

entry_side-Enters : (kind : SignalKind) → Enters kind (entry_side kind)
entry_side-Enters enter_long = inl (refl, inl refl)
entry_side-Enters exit_long = inr (refl, inr (inl refl))
entry_side-Enters enter_short = inr (refl, inl refl)
entry_side-Enters exit_short = inl (refl, inr refl)
entry_side-Enters flatten = inr (refl, inr (inr refl))

stop_side-Guards : (kind : SignalKind) (side : Side) → stop_side kind ≡ some side → Guards kind side
stop_side-Guards enter_long side e = ground arith
stop_side-Guards exit_long side e = ground arith
stop_side-Guards enter_short side e = ground arith
stop_side-Guards exit_short side e = ground arith
stop_side-Guards flatten side e = ground arith

module _ {D : Type 0} ⦃d : Decimal D⦄ (risk : RiskChecker D) where
  -- A request that a signal can lead to: for the signal's symbol, of a positive quantity, passed by the
  -- risk checker, and the market order of the entry or a stop order on the other side, triggered by the
  -- stop-loss or the take-profit of the signal.
  pub record IsFor (s : Signal D) (ctx : RiskContext D) (r : OrderRequest D) : Type 0 where
    pub symbol : r.symbol ≡ s.symbol
    pub quantity : nought ≺ r.quantity
    pub passed : risk r ctx ≡ ok tt
    pub kind :
        ((r.order_type ≡ market) × Enters s.kind r.side)
        ⊎ ((r.order_type ≡ stop_market)
            × Guards s.kind r.side
            × ((r.trigger_price ≡ s.stop_loss) ⊎ (r.trigger_price ≡ s.take_profit)))

  -- `k` requests at most were sent, and each is for the signal.
  pub record Sends (s : Signal D) (ctx : RiskContext D) (k : ℕ) (sent sent' : Requests D)
      : Type 0 where
    pub fresh : Requests D
    pub appended : sent' ≡ fresh ++ sent
    pub sound : All (IsFor s ctx) fresh
    pub few : length fresh ≤ k

  Sends-none :
      (s : Signal D) (ctx : RiskContext D) (k : ℕ) (sent : Requests D) → Sends s ctx k sent sent
  Sends-none s ctx k sent = record { fresh = []; appended = refl; sound = tt; few = omega arith }

  Sends-trans :
      (s : Signal D) (ctx : RiskContext D) (j k : ℕ) (a b c : Requests D)
      → Sends s ctx j a b
      → Sends s ctx k b c
      → Sends s ctx (j + k) a c
  Sends-trans s ctx j k a b c f g = record {
    fresh = g.fresh ++ f.fresh;
    appended = rw (g.appended, f.appended) (rw append_assoc);
    sound = All-append (IsFor s ctx) g.fresh f.fresh g.sound f.sound;
    few = omega (arith, length-append g.fresh f.fresh, f.few, g.few);
  }

module _ {D : Type 0} ⦃d : Decimal D⦄ (show : Uuid → Text) (render : RiskError D → Text)
    (client : Client D) (risk : RiskChecker D) where
  send_order-Sends :
      (s : Signal D) (ctx : RiskContext D) (r : OrderRequest D) (sent : Requests D)
      → (risk r ctx ≡ ok tt → IsFor risk s ctx r)
      → Sends risk s ctx 1 sent (send_order show render client risk r ctx sent).1
  unfolding send_order
  send_order-Sends s ctx r sent sound = elim (Result-cases (risk r ctx)) [
    | inl (_, e) ↦
        rw (e, send_order)
          (record { fresh = r ∷ []; appended = refl; sound = (sound e, tt); few = omega arith })
    | inr (x, e) ↦ rw (e, send_order) (Sends-none risk s ctx 1 sent)
  ]

  send_stop-Sends :
      (s : Signal D) (ctx : RiskContext D) (side : Side) (qty : D) (id : Text) (trigger : Option D)
      (sent : Requests D)
      → nought ≺ qty
      → stop_side s.kind ≡ some side
      → (trigger ≡ s.stop_loss) ⊎ (trigger ≡ s.take_profit)
      → Sends risk s ctx 1 sent
          (send_stop show render client risk trigger s.symbol side qty id ctx sent)
  unfolding send_stop
  send_stop-Sends s ctx side qty id none sent h e w = Sends-none risk s ctx 1 sent
  send_stop-Sends s ctx side qty id (some t) sent h e w =
      send_order-Sends s ctx (stop_request s.symbol side qty t id) sent λ p.
        unfold stop_request in
        record {
          symbol = refl;
          quantity = h;
          passed = p;
          kind = inr (refl, stop_side-Guards s.kind side e, w);
        }

  send_stops-Sends :
      (s : Signal D) (ctx : RiskContext D) (qty : D) (sent : Requests D)
      → nought ≺ qty
      → Sends risk s ctx 2 sent (send_stops show render client risk s qty ctx sent)
  unfolding send_stops
  send_stops-Sends s ctx qty sent h = elim (Option-cases (stop_side s.kind)) [
    | inl e ↦ rw (e, send_stops) (Sends-none risk s ctx 2 sent)
    | inr (side, e) ↦
        rw (e, send_stops)
          (Sends-trans risk s ctx 1 1 sent _ _
            (send_stop-Sends s ctx side qty _ s.stop_loss sent h e (inl refl))
            (send_stop-Sends s ctx side qty _ s.take_profit _ h e (inr refl)))
  ]

  place-Sends :
      (s : Signal D) (ctx : RiskContext D) (qty : D) (sent : Requests D)
      → nought ≺ qty
      → Sends risk s ctx 3 sent (place show render client risk s qty ctx sent).1
  unfolding place
  place-Sends s ctx qty sent h =
      let id = some (client_order_id show s) in
      let request = build_request s.symbol (entry_side s.kind) qty id in
      let out = send_order show render client risk request ctx sent in
      let first = send_order-Sends s ctx request sent λ p.
        unfold build_request in
        record {
          symbol = refl;
          quantity = h;
          passed = p;
          kind = inl (refl, entry_side-Enters s.kind);
        } in
      elim (Result-cases out.0) [
        | inl (order, e) ↦
            rw (e, place)
              (Sends-trans risk s ctx 1 2 sent out.1 _ first (send_stops-Sends s ctx qty out.1 h))
        | inr (x, e) ↦
            rw (e, place)
              (Sends-trans risk s ctx 1 2 sent out.1 _ first (Sends-none risk s ctx 2 out.1))
      ]

  pub handle_signal-Sends :
      (sizer : Sizer D) (s : Signal D) (ctx : RiskContext D) (sent : Requests D)
      → Sends risk s ctx 3 sent (handle_signal show render client risk sizer s ctx sent).1
  unfolding handle_signal
  handle_signal-Sends sizer s ctx sent = elim (Result-cases (determine_quantity sizer s ctx)) [
    | inr (x, e) ↦ rw (e, handle_signal) (Sends-none risk s ctx 3 sent)
    | inl (qty, e) ↦ elim (Bool-cases (qty ≤? nought)) [
      | inl z ↦ rw (e, handle_signal) (rw (z, if◌then◌else◌) (Sends-none risk s ctx 3 sent))
      | inr n ↦
          rw (e, handle_signal) (rw (n, if◌then◌else◌) (place-Sends s ctx qty sent (ground arith)))
    ]
  ]

  -- A signal whose market order the risk checker refuses sends nothing, and the refusal is returned.
  pub handle_signal_refused :
      (sizer : Sizer D) (s : Signal D) (ctx : RiskContext D) (sent : Requests D) {qty : D}
      {x : RiskError D}
      → determine_quantity sizer s ctx ≡ ok qty
      → nought ≺ qty
      → risk (build_request s.symbol (entry_side s.kind) qty (some (client_order_id show s))) ctx
        ≡ err x
      → handle_signal show render client risk sizer s ctx sent
        ≡ (err (invalid_request (render x)), sent)
  unfolding handle_signal place send_order
  handle_signal_refused sizer s ctx sent e h f = ground arith
