-- ===== src/Execution/Engine/Protection.antt =====
-- The stops behind a spot entry are checked against the balances from before the entry has filled.
use tesser.Prelude.{◌≡◌, refl, inl, inr, Option, none, some, ◌∷◌, arith, ◌++◌}
use tesser.Prelude.Result.{ok, err, Result-cases}
use tesser.Prelude.Bytes.{codes}
use tesser.Decimal.{Decimal, nought, abs}
use tesser.Decimal.Parts.{◌≺◌}
use tesser.Core.Ids.{Symbol}
use tesser.Core.Types.{Text, Uuid, buy, sell, enter_long, spot, OrderRequest, Order, Signal}
use tesser.Execution.Risk.{RiskContext, RiskError, RiskLimits, check}
use tesser.Execution.Risk.Accepts.{check_iff}
use tesser.Execution.Sizing.{Sizer, determine_quantity}
use tesser.Execution.Engine.{
  Client, Requests, send_order, send_stop, send_stops, place, handle_signal, build_request,
  stop_request, client_order_id,
}

module _ {D : Type 0} ⦃d : Decimal D⦄ (show : Uuid → Text) (render : RiskError D → Text)
    (client : Client D) (l : RiskLimits D) where
  sell_unfunded :
      (r : OrderRequest D) (ctx : RiskContext D)
      → r.side ≡ sell
      → ctx.instrument_kind ≡ some spot
      → ctx.base_available ≺ abs r.quantity
      → check l r ctx ≡ ok tt
      → ⊥
  sell_unfunded r ctx side kind short h = ground (arith, ((check_iff l r ctx).0 h).funded)

  send_order_err :
      (r : OrderRequest D) (ctx : RiskContext D) (sent : Requests D) {x : RiskError D}
      → check l r ctx ≡ err x
      → (send_order show render client (check l) r ctx sent).1 ≡ sent
  unfolding send_order
  send_order_err r ctx sent e = rw (e, send_order)

  send_stop_refused :
      (symbol : Symbol) (qty : D) (id : Text) (trigger : Option D) (ctx : RiskContext D)
      (sent : Requests D)
      → ctx.instrument_kind ≡ some spot
      → ctx.base_available ≺ abs qty
      → send_stop show render client (check l) trigger symbol sell qty id ctx sent ≡ sent
  unfolding send_stop
  send_stop_refused symbol qty id none ctx sent kind short = refl
  send_stop_refused symbol qty id (some t) ctx sent kind short =
      let r = stop_request symbol sell qty t id in
      elim (Result-cases (check l r ctx)) [
        | inl (_, e) ↦ absurd (
            sell_unfunded r ctx (unfold stop_request in refl) kind (unfold stop_request in short) e)
        | inr (x, e) ↦ send_order_err r ctx sent e
      ]

  -- A signal to go long on a spot market, whose entry is sent while the account holds less of the base
  -- asset than the order buys, has no stop-loss and no take-profit sent, whatever it asks for: the entry
  -- is the only new request, and the signal counts as handled.
  pub spot_entry_unprotected :
      (sizer : Sizer D) (s : Signal D) (ctx : RiskContext D) (sent : Requests D) {qty : D}
      {order : Order D}
      → s.kind ≡ enter_long
      → ctx.instrument_kind ≡ some spot
      → determine_quantity sizer s ctx ≡ ok qty
      → nought ≺ qty
      → ctx.base_available ≺ abs qty
      → (let entry = build_request s.symbol buy qty (some (client_order_id show s)) in
          check l entry ctx ≡ ok tt)
      → (let entry = build_request s.symbol buy qty (some (client_order_id show s)) in
          client sent entry ≡ ok order)
      → (let entry = build_request s.symbol buy qty (some (client_order_id show s)) in
          handle_signal show render client (check l) sizer s ctx sent
          ≡ (ok (some order), entry ∷ sent))
  unfolding handle_signal place send_order send_stops
  spot_entry_unprotected sizer s ctx sent {qty = qty} long kind sized above short passed taken =
      let entry = build_request s.symbol buy qty (some (client_order_id show s)) in
      let sl =
        send_stop_refused s.symbol qty (show s.id ++ codes "-sl") s.stop_loss ctx (entry ∷ sent)
          kind short in
      let tp =
        send_stop_refused s.symbol qty (show s.id ++ codes "-tp") s.take_profit ctx (entry ∷ sent)
          kind short in
      ground (arith, sl, tp)
