-- ===== src/Broker/Router/Reach.antt =====
-- How the maps of the router change: an identifier that is new is recorded, or a recorded order gets
-- another identifier at its exchange.
use tesser.Prelude.{
  ◌≡◌, refl, sym, ◌∙◌, ap, inl, inr, Option, none, some, arith, if◌then◌else◌, Bool-cases,
}
use Prim.Derive.{subst}
use tesser.Prelude.Key.{pair_key, nat_key, same_pair, same_pair_iff}
use tesser.Prelude.HashMap.{lookup-insert}
use tesser.Prelude.Bytes.{same_text, same_text_iff, text_key}
use tesser.Core.Ids.{ExchangeId}
use tesser.Core.Types.{Text}
use tesser.Broker.Router.{
  RoutedOrder, RouteState, empty_state, insert_route, get, lookup_external_order,
}

pub data Step (s t : RouteState) : Type 0 where
  recorded :
      (internal : Text) (r : RoutedOrder)
      → get internal s ≡ none
      → t ≡ insert_route internal r s
      → Step s t
  moved :
      (internal : Text) (r : RoutedOrder) (external : Text)
      → get internal s ≡ some r
      → t ≡ insert_route internal (record r { external_order_id = external }) s
      → Step s t

pub data Reach (s : RouteState) : RouteState → Type 0 where
  here : Reach s s
  next : {t u : RouteState} → Reach s t → Step t u → Reach s u

-- the order that an identifier stands for is still at its exchange, under the same symbol and with
-- the client identifier that it came with
pub record Keeps (r : RoutedOrder) (o : Option RoutedOrder) : Type 0 where
  pub now : RoutedOrder
  pub known : o ≡ some now
  pub same_exchange : now.exchange ≡ r.exchange
  pub same_symbol : now.symbol ≡ r.symbol
  pub same_client_id : now.original_client_id ≡ r.original_client_id

pub get-insert_route :
    (i j : Text) (r : RoutedOrder) (s : RouteState)
    → get i (insert_route j r s) ≡ (if same_text i j then some r else get i s)
unfolding insert_route
get-insert_route i j r s = lookup-insert j i r s.by_internal

known_Keeps : (r : RoutedOrder) {o : Option RoutedOrder} → o ≡ some r → Keeps r o
known_Keeps r h = record {
  now = r;
  known = h;
  same_exchange = refl;
  same_symbol = refl;
  same_client_id = refl;
}

Step-Keeps :
    (i : Text) (r : RoutedOrder) {s t : RouteState}
    → Step s t
    → Keeps r (get i s)
    → Keeps r (get i t)
Step-Keeps i r {s} (recorded j q n e) k =
    let at = ap (get i) e ∙ get-insert_route i j q s in
    elim (Bool-cases (same_text i j)) [
      | inl same ↦
          let gone : get i s ≡ none = ap (λ x. get x s) ((same_text_iff i j).0 same) ∙ n in
          absurd (cc (gone, k.known))
      | inr other ↦ subst (Keeps r) (sym (at ∙ rw other refl)) k
    ]
Step-Keeps i r {s} (moved j q x n e) k =
    let at = ap (get i) e ∙ get-insert_route i j (record q { external_order_id = x }) s in
    elim (Bool-cases (same_text i j)) [
      | inl same ↦
          let there : get i s ≡ some q = ap (λ x. get x s) ((same_text_iff i j).0 same) ∙ n in
          record {
            now = record q { external_order_id = x };
            known = at ∙ rw same refl;
            same_exchange = ground (arith, there);
            same_symbol = ground (arith, there);
            same_client_id = ground (arith, there);
          }
      | inr other ↦ subst (Keeps r) (sym (at ∙ rw other refl)) k
    ]

-- the order that an identifier of an exchange leads to is at that exchange
abbrev pub LeadsHome : ExchangeId → Option Text → RouteState → Type 0
LeadsHome exchange none s = Unit
LeadsHome exchange (some internal) s =
    (r : RoutedOrder) × (get internal s ≡ some r) × (r.exchange ≡ exchange)

pub lookup-insert_route :
    (exchange : ExchangeId) (external j : Text) (r : RoutedOrder) (s : RouteState)
    → lookup_external_order exchange external (insert_route j r s) ≡ (
        if same_pair (exchange, external) (r.exchange, r.external_order_id)
        then some j
        else lookup_external_order exchange external s)
unfolding insert_route
lookup-insert_route exchange external j r s =
    lookup-insert (r.exchange, r.external_order_id) (exchange, external) j s.by_exchange_order

Step-LeadsHome_old :
    (exchange : ExchangeId) (o : Option Text) {s t : RouteState}
    → Step s t
    → LeadsHome exchange o s
    → LeadsHome exchange o t
Step-LeadsHome_old exchange none st h = tt
Step-LeadsHome_old exchange (some i) st (r, known, at) =
    let k = Step-Keeps i r st (known_Keeps r known) in (k.now, k.known, k.same_exchange ∙ at)

insert_route-LeadsHome :
    (exchange : ExchangeId) (external j : Text) (q : RoutedOrder) (s t : RouteState)
    → t ≡ insert_route j q s
    → LeadsHome exchange (lookup_external_order exchange external s) t
    → LeadsHome exchange (lookup_external_order exchange external t) t
insert_route-LeadsHome exchange external j q s t e k =
    let at =
      ap (lookup_external_order exchange external) e
      ∙ lookup-insert_route exchange external j q s in
    elim (Bool-cases (same_pair (exchange, external) (q.exchange, q.external_order_id))) [
      | inl same ↦
          let there : get j t ≡ some q =
            ap (get j) e ∙ get-insert_route j j q s ∙ rw ((same_text_iff j j).1 refl) refl in
          let equal =
            (same_pair_iff (exchange, external) (q.exchange, q.external_order_id)).0 same in
          let home : LeadsHome exchange (some j) t = (q, there, ap (λ p. p.0) (sym equal)) in
          subst (λ o. LeadsHome exchange o t) {x = some j} (sym (at ∙ rw same refl)) home
      | inr other ↦ subst (λ o. LeadsHome exchange o t) (sym (at ∙ rw other refl)) k
    ]

Step-LeadsHome :
    (exchange : ExchangeId) (external : Text) {s t : RouteState}
    → Step s t
    → LeadsHome exchange (lookup_external_order exchange external s) s
    → LeadsHome exchange (lookup_external_order exchange external t) t
Step-LeadsHome exchange external {s} {t} (recorded j q n e) k =
    insert_route-LeadsHome exchange external j q s t e
      (Step-LeadsHome_old exchange _ (recorded j q n e) k)
Step-LeadsHome exchange external {s} {t} (moved j q x n e) k =
    insert_route-LeadsHome exchange external j (record q { external_order_id = x }) s t e
      (Step-LeadsHome_old exchange _ (moved j q x n e) k)

-- Of a router that began with no orders, whatever an identifier of an exchange leads to is an order
-- that is known, and at that exchange.
pub Reach-LeadsHome :
    (exchange : ExchangeId) (external : Text) {t : RouteState}
    → Reach empty_state t
    → LeadsHome exchange (lookup_external_order exchange external t) t
Reach-LeadsHome exchange external here = tt
Reach-LeadsHome exchange external (next u st) =
    Step-LeadsHome exchange external st (Reach-LeadsHome exchange external u)
