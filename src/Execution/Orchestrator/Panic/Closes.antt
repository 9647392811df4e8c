-- ===== src/Execution/Orchestrator/Panic/Closes.antt =====
-- The orders that unwind the legs of a group.
use tesser.Prelude.{
  ◌≡◌, refl, ◌∙◌, ap, ◌⊎◌, inl, inr, true, List, [], ◌∷◌, arith, Bool-cases, Option-cases,
}
use tesser.Prelude.HashMap.{HashMap, lookup}
use tesser.Prelude.Key.{nat_key}
use tesser.Prelude.Result.{Result-cases}
use tesser.Decimal.{Decimal, nought, ◌≤?◌}
use tesser.Decimal.Parts.{◌≺◌}
use tesser.Core.Ids.{Symbol, symbol_key}
use tesser.Core.Types.{Text, Uuid, Side, inverse, market, limit, OrderRequest}
use tesser.Execution.Risk.{RiskContext, RiskError}
use tesser.Execution.Engine.{Client, RiskChecker, Requests, send_order}
use tesser.Execution.Orchestrator.{PanicCloseConfig}
use tesser.Execution.Orchestrator.Panic.{
  PanicState, panic_request, at_any_price, send_panic, close_leg, execute_panic_actions,
  notify_panic, is_limit,
}

module _ {D : Type 0} ⦃d : Decimal D⦄ where
  -- The request sells what was bought, or buys what was sold, of all that was filled.
  pub record Closes (a : Symbol × Side × D) (r : OrderRequest D) : Type 0 where
    pub symbol : r.symbol ≡ a.0
    pub side : r.side ≡ inverse a.1
    pub quantity : r.quantity ≡ a.2
    pub some_quantity : nought ≺ r.quantity

  -- Each leg in order is skipped, or unwound by one request, or by a limit order and then a market
  -- order. Nothing else is sent.
  pub data Unwinds : List (Symbol × Side × D) → Requests D → Requests D → Type 0 where
    done : {sent : Requests D} → Unwinds [] sent sent
    skip :
        {a : Symbol × Side × D} {rest : List (Symbol × Side × D)} {sent sent' : Requests D}
        → Unwinds rest sent sent'
        → Unwinds (a ∷ rest) sent sent'
    once :
        {a : Symbol × Side × D} {rest : List (Symbol × Side × D)} {sent sent' : Requests D}
        {r : OrderRequest D}
        → Closes a r
        → Unwinds rest (r ∷ sent) sent'
        → Unwinds (a ∷ rest) sent sent'
    twice :
        {a : Symbol × Side × D} {rest : List (Symbol × Side × D)} {sent sent' : Requests D}
        {r r' : OrderRequest D}
        → Closes a r
        → Closes a r'
        → r.order_type ≡ limit
        → r'.order_type ≡ market
        → Unwinds rest (r' ∷ r ∷ sent) sent'
        → Unwinds (a ∷ rest) sent sent'

  -- One round: nothing, one request, or two.
  abbrev Round : Symbol × Side × D → Requests D → Requests D → Type 0
  Round a sent sent' =
      (sent' ≡ sent)
      ⊎ (((r : OrderRequest D) × Closes a r × (sent' ≡ r ∷ sent))
          ⊎ ((r : OrderRequest D) × (r' : OrderRequest D) × Closes a r
              × Closes a r'
              × (r.order_type ≡ limit)
              × (r'.order_type ≡ market)
              × (sent' ≡ r' ∷ r ∷ sent)))

module _ {D : Type 0} ⦃d : Decimal D⦄ (show : Uuid → Text) (render : RiskError D → Text)
    (client : Client D) (risk : RiskChecker D) where
  send_order-sends :
      (r : OrderRequest D) (ctx : RiskContext D) (sent : Requests D)
      → ((send_order show render client risk r ctx sent).1 ≡ sent)
        ⊎ ((send_order show render client risk r ctx sent).1 ≡ r ∷ sent)
  unfolding send_order
  send_order-sends r ctx sent = elim (Result-cases (risk r ctx)) [
    | inl (_, e) ↦ inr (ground (arith, e))
    | inr (x, e) ↦ inl (ground (arith, e))
  ]

  is_limit-limit : (r : OrderRequest D) → is_limit r.order_type ≡ true → r.order_type ≡ limit
  is_limit-limit r e = ground arith

  panicked :
      (r : OrderRequest D) (ctx : RiskContext D) (sent : Requests D)
      → (let first = send_order show render client risk r ctx sent in
          let second = send_order show render client risk (at_any_price r) ctx first.1 in
          ((send_panic show render client risk r ctx sent).1 ≡ first.1)
          ⊎ ((is_limit r.order_type ≡ true)
              × ((send_panic show render client risk r ctx sent).1 ≡ second.1)))
  unfolding send_panic
  panicked r ctx sent = elim (Result-cases (send_order show render client risk r ctx sent).0) [
    | inl (_, e) ↦ inl (ground (arith, e))
    | inr (_, e) ↦ elim (Bool-cases (is_limit r.order_type)) [
      | inl l ↦ inr (l, ground (arith, e, l))
      | inr l ↦ inl (ground (arith, e, l))
    ]
  ]

  send_panic-Round :
      (a : Symbol × Side × D) (r : OrderRequest D) (ctx : RiskContext D) (sent : Requests D)
      → Closes a r
      → Round a sent (send_panic show render client risk r ctx sent).1
  send_panic-Round a r ctx sent c =
      let sent₁ = (send_order show render client risk r ctx sent).1 in
      let c' : Closes a (at_any_price r) = record {
        symbol = c.symbol;
        side = c.side;
        quantity = c.quantity;
        some_quantity = c.some_quantity;
      } in
      elim (panicked r ctx sent) [
        | inl e ↦ elim (send_order-sends r ctx sent) [
          | inl s ↦ inl (e ∙ s)
          | inr s ↦ inr (inl (r, c, e ∙ s))
        ]
        | inr (l, e) ↦ elim (send_order-sends (at_any_price r) ctx sent₁) [
          | inl s' ↦ elim (send_order-sends r ctx sent) [
            | inl s ↦ inl (e ∙ s' ∙ s)
            | inr s ↦ inr (inl (r, c, e ∙ s' ∙ s))
          ]
          | inr s' ↦ elim (send_order-sends r ctx sent) [
            | inl s ↦ inr (inl (at_any_price r, c', e ∙ s' ∙ ap (λ x. at_any_price r ∷ x) s))
            | inr s ↦ inr (
                inr (
                  r,
                  at_any_price r,
                  c,
                  c',
                  is_limit-limit r l,
                  refl,
                  e ∙ s' ∙ ap (λ x. at_any_price r ∷ x) s,
                ))
          ]
        ]
      ]

  panic_request-Closes :
      (group_id : Uuid) (config : PanicCloseConfig D) (a : Symbol × Side × D) (ctx : RiskContext D)
      → nought ≺ a.2
      → Closes a (panic_request show group_id config a.0 a.1 a.2 ctx)
  unfolding panic_request
  panic_request-Closes group_id config a ctx h = record {
    symbol = refl;
    side = refl;
    quantity = refl;
    some_quantity = h;
  }

  module _ (contexts : HashMap Symbol (RiskContext D)) where
    close_leg-sent :
        (group_id : Uuid) (reason : Text) (config : PanicCloseConfig D) (a : Symbol × Side × D)
        (p : PanicState D)
        → Round a p.sent
            (close_leg show render client risk contexts group_id reason config a p).sent
          × ((close_leg show render client risk contexts group_id reason config a p).groups
              ≡ p.groups)
    unfolding close_leg notify_panic
    close_leg-sent group_id reason config (symbol, side, qty) p =
        elim (Bool-cases (qty ≤? nought)) [
          | inl e ↦ (inl (ground (arith, e)), ground (arith, e))
          | inr e ↦ elim (Option-cases (lookup symbol contexts)) [
            | inl l ↦ (inl (ground (arith, e, l)), ground (arith, e, l))
            | inr (ctx, l) ↦
                let r = panic_request show group_id config symbol side qty ctx in
                let c : Closes (symbol, side, qty) r =
                  panic_request-Closes group_id config (symbol, side, qty) ctx
                    (ground (arith, e)) in
                let reply = (send_panic show render client risk r ctx p.sent).0 in
                let round = send_panic-Round (symbol, side, qty) r ctx p.sent c in
                elim (Result-cases reply) [
                  | inl (_, x) ↦ (ground (arith, e, l, x, round), ground (arith, e, l, x))
                  | inr (_, x) ↦ (ground (arith, e, l, x, round), ground (arith, e, l, x))
                ]
          ]
        ]

    Round-Unwinds :
        (a : Symbol × Side × D) (rest : List (Symbol × Side × D)) {sent sent₁ sent' : Requests D}
        → Round a sent sent₁
        → Unwinds rest sent₁ sent'
        → Unwinds (a ∷ rest) sent sent'
    Round-Unwinds a rest (inl e) u = Unwinds.skip (rw (← e) u)
    Round-Unwinds a rest (inr (inl (r, c, e))) u = Unwinds.once c (rw (← e) u)
    Round-Unwinds a rest (inr (inr (r, r', c, c', l, m, e))) u = Unwinds.twice c c' l m (rw (← e) u)

    pub execute_panic_actions-Unwinds :
        (group_id : Uuid) (reason : Text) (actions : List (Symbol × Side × D))
        (config : PanicCloseConfig D) (p : PanicState D)
        → (let p' =
              execute_panic_actions show render client risk contexts group_id reason actions config
                p in
            Unwinds actions p.sent p'.sent × (p'.groups ≡ p.groups))
    unfolding execute_panic_actions
    execute_panic_actions-Unwinds group_id reason [] config p = (Unwinds.done, refl)
    execute_panic_actions-Unwinds group_id reason (a ∷ actions) config p =
        let p₁ = close_leg show render client risk contexts group_id reason config a p in
        let (round, same) = close_leg-sent group_id reason config a p in
        let (rest, kept) = execute_panic_actions-Unwinds group_id reason actions config p₁ in
        (Round-Unwinds a actions round rest, kept ∙ same)
