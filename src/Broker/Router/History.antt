-- ===== src/Broker/Router/History.antt =====
-- What the maps of the router hold, told by the steps that led to them alone.
use tesser.Prelude.{
  ◌≡◌, refl, sym, ◌∙◌, ap, inl, inr, Option, none, some, arith, if◌then◌else◌, Bool-cases,
}
use tesser.Prelude.Key.{pair_key, nat_key, same_pair}
use tesser.Prelude.Bytes.{same_text, same_text_iff, text_key}
use tesser.Core.Ids.{ExchangeId}
use tesser.Core.Types.{Text}
use tesser.Broker.Router.{RoutedOrder, RouteState, empty_state, get, lookup_external_order}
use tesser.Broker.Router.Reach.{
  recorded, moved, Reach, here, next, get-insert_route, lookup-insert_route,
}

-- The identifier at its exchange of an order, which had the given one at the start: the last step that
-- moved the order gave it.
abbrev pub external_after : {s t : RouteState} → Text → Text → Reach s t → Text
external_after i x here = x
external_after i x (next u (recorded j q n e)) = external_after i x u
external_after i x (next u (moved j q y n e)) =
    let before = external_after i x u in if same_text i j then y else before

-- The order of the router that an exchange last gave an identifier to.
abbrev pub owner : {s t : RouteState} → ExchangeId → Text → Reach s t → Option Text
owner exchange external here = none
owner exchange external (next u (recorded j q n e)) =
    let before = owner exchange external u in
    if same_pair (exchange, external) (q.exchange, q.external_order_id) then some j else before
owner exchange external (next u (moved j q y n e)) =
    let before = owner exchange external u in
    if same_pair (exchange, external) (q.exchange, y) then some j else before

-- The order as it was recorded under an identifier of the router.
abbrev pub recorded_as : {s t : RouteState} → Text → Reach s t → Option RoutedOrder
recorded_as i here = none
recorded_as i (next u (recorded j q n e)) =
    let before = recorded_as i u in if same_text i j then some q else before
recorded_as i (next u (moved j q y n e)) = recorded_as i u

pub Reach-external :
    (i : Text) (r : RoutedOrder) {s t : RouteState} (u : Reach s t)
    → get i s ≡ some r
    → (now : RoutedOrder) × (get i t ≡ some now)
      × (now.exchange ≡ r.exchange)
      × (now.symbol ≡ r.symbol)
      × (now.external_order_id ≡ external_after i r.external_order_id u)
Reach-external i r here h = (r, h, refl, refl, refl)
Reach-external i r {t = t} (next {t = m} u (recorded j q n e)) h =
    let (now, known, at, symbol, external) = Reach-external i r u h in
    let found = ap (get i) e ∙ get-insert_route i j q m in
    elim (Bool-cases (same_text i j)) [
      | inl same ↦ ground (arith, known, n, same_text_iff i j, same)
      | inr other ↦ (now, found ∙ rw other known, at, symbol, external)
    ]
Reach-external i r {t = t} (next {t = m} u (moved j q y n e)) h =
    let (now, known, at, symbol, external) = Reach-external i r u h in
    let found = ap (get i) e ∙ get-insert_route i j (record q { external_order_id = y }) m in
    elim (Bool-cases (same_text i j)) [
      | inl same ↦
          let there : get i m ≡ some q = ap (λ x. get x m) ((same_text_iff i j).0 same) ∙ n in
          (
            record q { external_order_id = y },
            found ∙ rw same refl,
            ground (arith, there, known, at),
            ground (arith, there, known, symbol),
            rw same refl,
          )
      | inr other ↦ (now, found ∙ rw other known, at, symbol, rw other external)
    ]

pub Reach-owner :
    (exchange : ExchangeId) (external : Text) {t : RouteState} (u : Reach empty_state t)
    → lookup_external_order exchange external t ≡ owner exchange external u
Reach-owner exchange external here = refl
Reach-owner exchange external (next {t = m} u (recorded j q n e)) =
    ap (lookup_external_order exchange external) e
    ∙ lookup-insert_route exchange external j q m
    ∙ rw (Reach-owner exchange external u) refl
Reach-owner exchange external (next {t = m} u (moved j q y n e)) =
    ap (lookup_external_order exchange external) e
    ∙ lookup-insert_route exchange external j (record q { external_order_id = y }) m
    ∙ rw (Reach-owner exchange external u) refl

-- an order is known as it was recorded, but for its identifier at the exchange
pub Reach-recorded :
    (i : Text) (r : RoutedOrder) {t : RouteState} (u : Reach empty_state t)
    → get i t ≡ some r
    → (q : RoutedOrder) × (recorded_as i u ≡ some q)
      × (q.exchange ≡ r.exchange)
      × (q.symbol ≡ r.symbol)
Reach-recorded i r here h = absurd cc
Reach-recorded i r (next {t = m} u (recorded j q n e)) h =
    let found = sym (get-insert_route i j q m) ∙ sym (ap (get i) e) ∙ h in
    elim (Bool-cases (same_text i j)) [
      | inl same ↦
          (q, ground (arith, same), ground (arith, found, same), ground (arith, found, same))
      | inr other ↦
          let (p, was, at, symbol) = Reach-recorded i r u (ground (arith, found, other)) in
          (p, ground (arith, other, was), at, symbol)
    ]
Reach-recorded i r (next {t = m} u (moved j q y n e)) h =
    let found =
      sym (get-insert_route i j (record q { external_order_id = y }) m) ∙ sym (ap (get i) e) ∙ h in
    elim (Bool-cases (same_text i j)) [
      | inl same ↦
          let there : get i m ≡ some q = ap (λ x. get x m) ((same_text_iff i j).0 same) ∙ n in
          let (p, was, at, symbol) = Reach-recorded i q u there in
          (p, was, ground (arith, found, same, at), ground (arith, found, same, symbol))
      | inr other ↦ Reach-recorded i r u (ground (arith, found, other))
    ]
