-- ===== src/Execution/Algorithm/Iceberg.antt =====
-- tesser-execution/src/algorithm/iceberg.rs
pub mod Bounds
pub mod Run
pub mod Recovery
use tesser.Prelude.{
  ℕ, ◌+◌, ◌%◌, Bool, not, ◌||◌, Option, none, some, List, [], ◌∷◌, ◌++◌, if◌then◌else◌, max_ℕ,
  is_some, unwrap_or,
}
use tesser.Prelude.Bytes.{codes, same_text, strip_prefix, rsplit_once, show_u32, parse_u32}
use tesser.Prelude.Result.{Result, ok, fail_if, ◌>>◌}
use tesser.Decimal.{Decimal, nought, one, of_ℕ, ◌⊕◌, ◌⊖◌, ◌⊗◌, ◌⊘◌, ◌≤?◌, abs, max, min}
use tesser.Core.Types.{
  Text, Uuid, buy, sell, side_of, limit, good_til_canceled, OrderRequest, Order, Fill, Signal,
}
use tesser.Execution.Algorithm.{
  AlgoStatus, working, completed, cancelled, is_working, is_active_status, ChildOrderRequest, place,
}

pub record ActiveChild (D : Type 0) : Type 0 where
  pub order_id : Text
  pub remaining : D

pub record IcebergState (D : Type 0) : Type 0 where
  pub id : Uuid
  pub parent_signal : Signal D
  pub status : AlgoStatus
  pub total_quantity : D
  pub filled_quantity : D
  pub display_quantity : D
  pub limit_price : D
  pub limit_offset_bps : Option D
  pub next_child_seq : ℕ
  pub active_child : Option (ActiveChild D)

module _ {D : Type 0} ⦃d : Decimal D⦄ where
  -- `IcebergAlgorithm::new`, with the identifier that `Uuid::new_v4` made
  unfoldable pub new : Uuid → Signal D → D → D → D → Option D → Result Text (IcebergState D)
  new id signal total display price offset =
      fail_if (total ≤? nought) (codes "iceberg total quantity must be positive")
      >> fail_if (display ≤? nought) (codes "iceberg display quantity must be positive")
      >> fail_if (price ≤? nought) (codes "iceberg limit price must be positive")
      >> ok (record {
        id = id;
        parent_signal = signal;
        status = working;
        total_quantity = total;
        filled_quantity = nought;
        display_quantity = display;
        limit_price = price;
        limit_offset_bps = offset;
        next_child_seq = 0;
        active_child = none;
      })

  unfoldable pub remaining_parent : IcebergState D → D
  remaining_parent s = max (s.total_quantity ⊖ s.filled_quantity) nought

  unfoldable pub adjusted_limit_price : IcebergState D → D
  adjusted_limit_price s =
      let offset = max (unwrap_or s.limit_offset_bps nought) nought ⊘ of_ℕ 10000 in
      elim (side_of s.parent_signal.kind) [
        | buy ↦ s.limit_price ⊗ (one ⊕ offset)
        | sell ↦ s.limit_price ⊗ (one ⊖ offset)
      ]

  unfoldable pub complete_if_needed : IcebergState D → IcebergState D
  complete_if_needed s = if remaining_parent s ≤? nought then record s { status = completed } else s

  unfoldable pub on_child_order_placed : Order D → IcebergState D → IcebergState D
  on_child_order_placed o s = record s {
    active_child = some (record { order_id = o.id; remaining = abs o.request.quantity });
  }

  -- the child after a fill: a fill of another order leaves its quantity, and a child with nothing left
  -- is dropped
  unfoldable pub fill_child : Fill D → Option (ActiveChild D) → Option (ActiveChild D)
  fill_child f none = none
  fill_child f (some c) =
      let rest =
        if same_text c.order_id f.order_id then c.remaining ⊖ f.fill_quantity else c.remaining in
      if rest ≤? nought then none else some (record c { remaining = rest })

  unfoldable pub on_timer : IcebergState D → IcebergState D × List (ChildOrderRequest D)
  on_timer s = (complete_if_needed s, [])

  unfoldable pub cancel : IcebergState D → IcebergState D
  cancel s = record s { status = cancelled }

-- the client order id of a child
abbrev pub client_id : (Uuid → Text) → Uuid → ℕ → Text
client_id show id seq = codes "iceberg-" ++ (show id ++ (codes "-" ++ show_u32 seq))

module _ {D : Type 0} ⦃d : Decimal D⦄ (show : Uuid → Text) where
  -- The sequence number is a `u32`.
  unfoldable pub build_limit_child :
      D → IcebergState D → IcebergState D × List (ChildOrderRequest D)
  build_limit_child quantity s =
      let seq = (s.next_child_seq + 1) % 4294967296 in
      let request : OrderRequest D = record {
        symbol = s.parent_signal.symbol;
        side = side_of s.parent_signal.kind;
        order_type = limit;
        quantity = quantity;
        price = some (adjusted_limit_price s);
        trigger_price = none;
        time_in_force = some good_til_canceled;
        client_order_id = some (client_id show s.id seq);
        take_profit = none;
        stop_loss = none;
        display_quantity = some (min s.display_quantity quantity);
      } in
      (
        record s { next_child_seq = seq },
        record { parent_algo_id = s.id; action = place request } ∷ [],
      )

  unfoldable pub maybe_spawn_slice : IcebergState D → IcebergState D × List (ChildOrderRequest D)
  maybe_spawn_slice s =
      let qty = max (min (remaining_parent s) s.display_quantity) nought in
      if not (is_working s.status)
      then (s, [])
      else if (remaining_parent s ≤? nought) || is_some s.active_child
      then (s, [])
      else if qty ≤? nought
      then (s, [])
      else build_limit_child qty s

  unfoldable pub start : IcebergState D → IcebergState D × List (ChildOrderRequest D)
  start s = maybe_spawn_slice s

  unfoldable pub on_fill : Fill D → IcebergState D → IcebergState D × List (ChildOrderRequest D)
  on_fill f s = maybe_spawn_slice (
      complete_if_needed (record s {
        filled_quantity = s.filled_quantity ⊕ f.fill_quantity;
        active_child = fill_child f s.active_child;
      }))

  unfoldable pub sequence_from_client_id : IcebergState D → Text → Option ℕ
  sequence_from_client_id s text = elim (strip_prefix (codes "iceberg-") text) [
    | none ↦ none
    | some rest ↦ elim (rsplit_once b'-' rest) [
      | none ↦ none
      | some (id_part, seq_part) ↦
          if same_text id_part (show s.id) then parse_u32 seq_part else none
    ]
  ]

  unfoldable pub bind_child_order : Order D → IcebergState D → IcebergState D
  bind_child_order o s =
      let bound = λ (seq : ℕ). record s {
        next_child_seq = max_ℕ s.next_child_seq seq;
        active_child = some (record {
          order_id = o.id;
          remaining = max (abs o.request.quantity ⊖ o.filled_quantity) nought;
        });
        status = if is_working s.status then s.status else working;
      } in
      if not (is_active_status o.status) then s else elim o.request.client_order_id [
        | none ↦ s
        | some text ↦ elim (sequence_from_client_id s text) [ none ↦ s | some seq ↦ bound seq ]
      ]
