-- ===== src/Execution/Orchestrator.antt =====
-- tesser-execution/src/orchestrator.rs: the legs of multi-leg execution groups. Each map that the code
-- keeps behind a lock is a field of a state record; a handler takes its locks one after another, and
-- the steps stand in that order.
pub mod Panic
mod Tests
use tesser.Prelude.{
  Bool, true, false, not, ◌&&◌, Option, none, some, List, [], ◌∷◌, if◌then◌else◌, ◌==◌,
}
use tesser.Prelude.HashMap.{HashMap, lookup, insert, entry_or, remove, retain, modify}
use tesser.Prelude.Key.{nat_key}
use tesser.Prelude.Bytes.{text_key}
use tesser.Decimal.{Decimal, nought, ◌⊕◌, ◌<?◌, ◌≤?◌, abs, max}
use tesser.Core.Ids.{Symbol, symbol_key}
use tesser.Core.Types.{
  Text, Uuid, Side, side_of, Signal, market_close, aggressive_limit, Order, Fill,
}

-- `PanicCloseMode` and `PanicCloseConfig` of tesser-execution/src/lib.rs
pub data PanicCloseMode : Type 0 where
  at_market aggressive : PanicCloseMode

pub data ExecutionLegStatus : Type 0 where
  pending filled failed closed : ExecutionLegStatus

module _ (D : Type 0) where
  pub record PanicCloseConfig : Type 0 where
    pub mode : PanicCloseMode
    pub limit_offset_bps : D

  pub record ExecutionGroupLeg : Type 0 where
    pub symbol : Symbol
    pub side : Side
    pub target : D
    pub filled : D
    pub status : ExecutionLegStatus

  pub record ExecutionGroupState : Type 0 where
    pub legs : HashMap Symbol ExecutionGroupLeg
    pub panic_config : PanicCloseConfig
    pub panic_triggered : Bool

  -- the fields of `OrderOrchestrator` that keep the groups
  pub record Groups : Type 0 where
    pub execution_groups : HashMap Uuid ExecutionGroupState
    pub group_order_mapping : HashMap Text (Uuid × Symbol)

abbrev pub is_pending : ExecutionLegStatus → Bool
is_pending pending = true
is_pending _ = false

abbrev pub is_filled : ExecutionLegStatus → Bool
is_filled filled = true
is_filled _ = false

module _ {D : Type 0} where
  -- the two `all(…)` of `is_complete` and `is_finished`
  abbrev pub all_filled : HashMap Symbol (ExecutionGroupLeg D) → Bool
  all_filled [] = true
  all_filled ((_, leg) ∷ legs) = is_filled leg.status && all_filled legs

  abbrev pub all_done : HashMap Symbol (ExecutionGroupLeg D) → Bool
  all_done [] = true
  all_done ((_, leg) ∷ legs) = not (is_pending leg.status) && all_done legs

  unfoldable pub is_complete : ExecutionGroupState D → Bool
  is_complete g = elim g.legs [ [] ↦ false | leg ∷ legs ↦ all_filled g.legs ]

  unfoldable pub is_finished : ExecutionGroupState D → Bool
  is_finished g = all_done g.legs

  abbrev pub new_group : PanicCloseConfig D → ExecutionGroupState D
  new_group config = record { legs = []; panic_config = config; panic_triggered = false }

  unfoldable pub override_config :
      PanicCloseConfig D → ExecutionGroupState D → ExecutionGroupState D
  override_config config g = record g { panic_config = config }

module _ {D : Type 0} ⦃d : Decimal D⦄ where
  abbrev pub new_leg : Symbol → Side → ExecutionGroupLeg D
  new_leg symbol side = record {
    symbol = symbol;
    side = side;
    target = nought;
    filled = nought;
    status = pending;
  }

  -- the group with `f` applied to the leg that `leg_entry` finds or opens
  unfoldable pub leg_entry :
      Symbol
      → Side
      → (ExecutionGroupLeg D → ExecutionGroupLeg D)
      → ExecutionGroupState D
      → ExecutionGroupState D
  leg_entry symbol side f g = record g { legs = entry_or symbol (new_leg symbol side) f g.legs }

  -- the legs that have to be unwound, and the legs with those closed
  abbrev pub stranded : HashMap Symbol (ExecutionGroupLeg D) → List (Symbol × Side × D)
  stranded [] = []
  stranded ((_, leg) ∷ legs) =
      if nought <? leg.filled
      then (leg.symbol, leg.side, leg.filled) ∷ stranded legs
      else stranded legs

  abbrev pub close_stranded :
      HashMap Symbol (ExecutionGroupLeg D) → HashMap Symbol (ExecutionGroupLeg D)
  close_stranded [] = []
  close_stranded ((symbol, leg) ∷ legs) =
      (symbol, if nought <? leg.filled then record leg { status = closed } else leg)
      ∷ close_stranded legs

  unfoldable pub panic_actions :
      ExecutionGroupState D → ExecutionGroupState D × Option (List (Symbol × Side × D))
  panic_actions g =
      let legs = close_stranded g.legs in
      if g.panic_triggered then (g, none) else elim (stranded g.legs) [
        | [] ↦ (record g { legs = legs }, none)
        | action ∷ actions ↦
            (record g { legs = legs; panic_triggered = true }, some (action ∷ actions))
      ]

  unfoldable pub panic_override_from_signal :
      PanicCloseConfig D → Signal D → Option (PanicCloseConfig D)
  panic_override_from_signal config s = elim s.panic_behavior [
    | none ↦ none
    | some behavior ↦ some (elim behavior [
      | market_close ↦ record config { mode = at_market }
      | aggressive_limit offset_bps ↦ record {
        mode = aggressive;
        limit_offset_bps = max offset_bps nought;
      }
    ])
  ]

  -- what `register_group_signal` does to the group
  abbrev pub join_group :
      PanicCloseConfig D → Signal D → ExecutionGroupState D → ExecutionGroupState D
  join_group config s g =
      let configured : ExecutionGroupState D = elim (panic_override_from_signal config s) [
        | none ↦ g
        | some override ↦ override_config override g
      ] in
      leg_entry s.symbol (side_of s.kind) (λ leg. leg) configured

  unfoldable pub register_group_signal : PanicCloseConfig D → Signal D → Groups D → Groups D
  register_group_signal config s o = elim s.group_id [
    | none ↦ o
    | some group_id ↦ record o {
      execution_groups =
          entry_or group_id (new_group config) (join_group config s) o.execution_groups;
    }
  ]

  abbrev pub await_order : Order D → ExecutionGroupLeg D → ExecutionGroupLeg D
  await_order order leg = record leg {
    target = abs order.request.quantity;
    side = order.request.side;
    status = pending;
  }

  unfoldable pub track_group_order : Uuid → Order D → Groups D → Groups D
  track_group_order group_id order o = record {
    execution_groups =
        modify group_id (leg_entry order.request.symbol order.request.side (await_order order))
          o.execution_groups;
    group_order_mapping = insert order.id (group_id, order.request.symbol) o.group_order_mapping;
  }

  unfoldable pub purge_group_orders : Uuid → Groups D → Groups D
  purge_group_orders group_id o = record o {
    group_order_mapping =
        retain (λ (key : Uuid × Symbol). not (key.0 == group_id)) o.group_order_mapping;
  }

  -- the leg after a fill, and whether the fill completes it
  abbrev pub completes_leg : Fill D → ExecutionGroupLeg D → Bool
  completes_leg f leg = (leg.target ≤? (leg.filled ⊕ abs f.fill_quantity)) && is_pending leg.status

  abbrev pub fill_leg : Fill D → ExecutionGroupLeg D → ExecutionGroupLeg D
  fill_leg f leg = record leg {
    filled = leg.filled ⊕ abs f.fill_quantity;
    status = if completes_leg f leg then filled else leg.status;
  }

  -- the part of `handle_group_fill` on the leg
  unfoldable pub fill_group : Fill D → Symbol → ExecutionGroupState D → ExecutionGroupState D
  fill_group f symbol g = record g { legs = modify symbol (fill_leg f) g.legs }

  abbrev pub frees_order : Fill D → Symbol → ExecutionGroupState D → Bool
  frees_order f symbol g = elim (lookup symbol g.legs) [
    | none ↦ false
    | some leg ↦ completes_leg f leg
  ]

  unfoldable pub handle_group_fill : Fill D → Groups D → Groups D
  handle_group_fill f o = elim (lookup f.order_id o.group_order_mapping) [
    | none ↦ o
    | some (group_id, symbol) ↦ elim (lookup group_id o.execution_groups) [
      | none ↦ o
      | some g ↦
          let g' = fill_group f symbol g in
          let mapping =
            if frees_order f symbol g
            then remove f.order_id o.group_order_mapping
            else o.group_order_mapping in
          let kept : Groups D = record {
            execution_groups = insert group_id g' o.execution_groups;
            group_order_mapping = mapping;
          } in
          let dropped : Groups D = record {
            execution_groups = remove group_id o.execution_groups;
            group_order_mapping = mapping;
          } in
          if is_complete g' then purge_group_orders group_id dropped else kept
    ]
  ]
