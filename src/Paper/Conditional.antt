-- ===== src/Paper/Conditional.antt =====
-- connectors/tesser-paper/src/conditional.rs: stop and take-profit orders that wait for a price. The
-- groups of a hash map are gone through in the order of its list.
pub mod Groups
pub mod Sorted
pub mod Wins
use tesser.Prelude.{
  ℕ, Bool, true, false, Option, none, some, List, [], ◌∷◌, ◌++◌, if◌then◌else◌, ltb,
}
use tesser.Prelude.HashMap.{HashMap, entry_or}
use tesser.Prelude.Bytes.{codes, same_text, text_key, strip_suffix}
use tesser.Decimal.{Decimal, ◌≤?◌}
use tesser.Core.Types.{Text, Time, buy, sell, Order, Candle}

pub data TriggerKind : Type 0 where
  standalone stop_loss take_profit : TriggerKind

abbrev pub priority : TriggerKind → ℕ
priority stop_loss = 0
priority take_profit = 1
priority standalone = 2

abbrev pub contains : Text → List Text → Bool
contains group [] = false
contains group (g ∷ groups) = if same_text group g then true else contains group groups

module _ (D : Type 0) where
  pub record TriggeredOrder : Type 0 where
    pub order : Order D
    pub fill_price : D
    pub timestamp : Time
    pub kind : TriggerKind
    pub group : Option Text

  pub record PendingConditional : Type 0 where
    pub order : Order D
    pub kind : TriggerKind
    pub group : Option Text

  pub record ConditionalOrderManager : Type 0 where
    pub orders : List PendingConditional

module _ {D : Type 0} where
  unfoldable pub parse_group : Order D → Option Text × TriggerKind
  parse_group o = elim o.request.client_order_id [
    | none ↦ (none, standalone)
    | some cid ↦ elim (strip_suffix (codes "-sl") cid) [
      | some base ↦ (some base, stop_loss)
      | none ↦ elim (strip_suffix (codes "-tp") cid) [
        | some base ↦ (some base, take_profit)
        | none ↦ (none, standalone)
      ]
    ]
  ]

  unfoldable pub push : Order D → ConditionalOrderManager D → ConditionalOrderManager D
  push o m =
      let (group, kind) = parse_group o in
      record { orders = m.orders ++ (record { order = o; kind = kind; group = group } ∷ []) }

  -- the first loop of `evaluate`: what is triggered, and what is not
  abbrev pub split :
      (PendingConditional D → Option (D × Time))
      → List (PendingConditional D)
      → List (TriggeredOrder D) × List (PendingConditional D)
  split evaluator [] = ([], [])
  split evaluator (p ∷ pending) =
      let (triggered, survivors) = split evaluator pending in
      elim (evaluator p) [
        | none ↦ (triggered, p ∷ survivors)
        | some (price, ts) ↦ (
          record {
            order = p.order;
            fill_price = price;
            timestamp = ts;
            kind = p.kind;
            group = p.group;
          }
              ∷ triggered,
          survivors,
        )
      ]

  -- the second loop: events without a group, and the others by their groups
  abbrev pub ungrouped : List (TriggeredOrder D) → List (TriggeredOrder D)
  ungrouped [] = []
  ungrouped (e ∷ events) = elim e.group [ none ↦ e ∷ ungrouped events | some _ ↦ ungrouped events ]

  abbrev pub collect :
      List (TriggeredOrder D)
      → HashMap Text (List (TriggeredOrder D))
      → HashMap Text (List (TriggeredOrder D))
  collect [] grouped = grouped
  collect (e ∷ events) grouped = collect events (elim e.group [
    | none ↦ grouped
    | some group ↦ entry_or group [] (λ es. es ++ (e ∷ [])) grouped
  ])

  -- `sort_by_key`, which is stable
  abbrev pub insert_by_priority :
      TriggeredOrder D → List (TriggeredOrder D) → List (TriggeredOrder D)
  insert_by_priority e [] = e ∷ []
  insert_by_priority e (x ∷ xs) =
      let rest = insert_by_priority e xs in
      if ltb (priority x.kind) (priority e.kind) then x ∷ rest else e ∷ x ∷ xs

  abbrev pub sort_by_priority : List (TriggeredOrder D) → List (TriggeredOrder D)
  sort_by_priority [] = []
  sort_by_priority (e ∷ es) = insert_by_priority e (sort_by_priority es)

  abbrev pub first_of : List (TriggeredOrder D) → List (TriggeredOrder D)
  first_of [] = []
  first_of (e ∷ es) = e ∷ []

  -- the third loop: the best event of each group, and the groups that have one
  abbrev pub best_events : HashMap Text (List (TriggeredOrder D)) → List (TriggeredOrder D)
  best_events [] = []
  best_events ((_, events) ∷ grouped) = first_of (sort_by_priority events) ++ best_events grouped

  abbrev pub drop_groups : HashMap Text (List (TriggeredOrder D)) → List Text
  drop_groups [] = []
  drop_groups ((group, events) ∷ grouped) = elim (sort_by_priority events) [
    | [] ↦ drop_groups grouped
    | _ ∷ _ ↦ group ∷ drop_groups grouped
  ]

  abbrev pub keep_groups : List Text → List (PendingConditional D) → List (PendingConditional D)
  keep_groups dropped [] = []
  keep_groups dropped (p ∷ pending) =
      let rest = keep_groups dropped pending in
      elim p.group [
        | none ↦ p ∷ rest
        | some group ↦ if contains group dropped then rest else p ∷ rest
      ]

  unfoldable pub evaluate :
      (PendingConditional D → Option (D × Time))
      → ConditionalOrderManager D
      → ConditionalOrderManager D × List (TriggeredOrder D)
  evaluate evaluator m =
      let (triggered, survivors) = split evaluator m.orders in
      let grouped = collect triggered [] in
      (
        record { orders = keep_groups (drop_groups grouped) survivors },
        ungrouped triggered ++ best_events grouped,
      )

module _ {D : Type 0} ⦃d : Decimal D⦄ where
  -- the closure of `trigger_with_candle`, and that of `trigger_with_price`
  unfoldable pub candle_touches : Candle D → PendingConditional D → Option (D × Time)
  candle_touches c p = elim p.order.request.trigger_price [
    | none ↦ none
    | some trigger ↦
        let touched : Bool = elim p.order.request.side [
          | buy ↦ trigger ≤? c.high
          | sell ↦ c.low ≤? trigger
        ] in
        if touched then some (trigger, c.timestamp) else none
  ]

  unfoldable pub price_touches : D → Time → PendingConditional D → Option (D × Time)
  price_touches last_price timestamp p = elim p.order.request.trigger_price [
    | none ↦ none
    | some trigger ↦
        let touched : Bool = elim p.order.request.side [
          | buy ↦ trigger ≤? last_price
          | sell ↦ last_price ≤? trigger
        ] in
        if touched then some (last_price, timestamp) else none
  ]

  unfoldable pub trigger_with_candle :
      Candle D → ConditionalOrderManager D → ConditionalOrderManager D × List (TriggeredOrder D)
  trigger_with_candle c m = evaluate (candle_touches c) m

  unfoldable pub trigger_with_price :
      D → Time → ConditionalOrderManager D → ConditionalOrderManager D × List (TriggeredOrder D)
  trigger_with_price last_price timestamp m = evaluate (price_touches last_price timestamp) m
