-- ===== src/Execution/Algorithm/Iceberg/Recovery.antt =====
-- After a restart an iceberg order finds its child again by the client order id that it gave it.
use tesser.Prelude.{ℕ, ◌<◌, ◌≡◌, refl, true, none, some, arith, max_ℕ, ◌++◌, ◌∷◌}
use tesser.Prelude.Bytes.{codes, same_text, same_text_iff, rsplit_once, show_u32, parse_u32}
use tesser.Prelude.Bytes.Digits.{rsplit_once-append, rsplit_once-show_u32, parse_u32-show_u32}
use tesser.Decimal.{Decimal, nought, ◌⊖◌, abs, max}
use tesser.Core.Types.{Text, Uuid, Order}
use tesser.Execution.Algorithm.{working, is_active_status}
use tesser.Execution.Algorithm.Iceberg.{
  IcebergState, client_id, sequence_from_client_id, bind_child_order,
}

module _ {D : Type 0} ⦃d : Decimal D⦄ where
  -- What binding an order as the child with a number leads to.
  abbrev pub Bound : IcebergState D → Order D → ℕ → IcebergState D → Type 0
  Bound s o seq s' =
      (s'.next_child_seq ≡ max_ℕ s.next_child_seq seq)
      × (s'.active_child
          ≡ some (record {
            order_id = o.id;
            remaining = max (abs o.request.quantity ⊖ o.filled_quantity) nought;
          }))
      × (s'.status ≡ working)

module _ {D : Type 0} ⦃d : Decimal D⦄ (show : Uuid → Text) where
  read_back :
      (s : IcebergState D) (digits : Text) (seq : ℕ)
      → rsplit_once b'-' digits ≡ none
      → parse_u32 digits ≡ some seq
      → sequence_from_client_id show s (codes "iceberg-" ++ (show s.id ++ (codes "-" ++ digits)))
        ≡ some seq
  unfolding sequence_from_client_id
  read_back s digits seq plain read =
      let rest = show s.id ++ (b'-' ∷ digits) in
      let split : rsplit_once b'-' rest ≡ some (show s.id, digits) =
        rsplit_once-append b'-' (show s.id) digits plain in
      let same : same_text (show s.id) (show s.id) ≡ true =
        (same_text_iff (show s.id) (show s.id)).1 refl in
      cc (split, same, read)

  -- The sequence number of 32 bits that `build_limit_child` writes into a client order id is the one that
  -- `sequence_from_client_id` reads from it, however identifiers are printed.
  pub sequence_round_trip :
      (s : IcebergState D) (seq : ℕ)
      → seq < 4294967296
      → sequence_from_client_id show s (client_id show s.id seq) ≡ some seq
  sequence_round_trip s seq h =
      read_back s (show_u32 seq) seq (rsplit_once-show_u32 seq) (parse_u32-show_u32 seq h)

  bind_read :
      (s : IcebergState D) (o : Order D) (text : Text) (seq : ℕ)
      → is_active_status o.status ≡ true
      → o.request.client_order_id ≡ some text
      → sequence_from_client_id show s text ≡ some seq
      → Bound s o seq (bind_child_order show o s)
  unfolding bind_child_order
  bind_read s o text seq active id read = ground arith

  -- An active order whose client order id is that of a child of the parent is bound: it becomes the open
  -- child with what it has left, the sequence goes on above its number, and the parent is worked.
  pub bind_child_order_recovers :
      (s : IcebergState D) (o : Order D) (seq : ℕ)
      → seq < 4294967296
      → is_active_status o.status ≡ true
      → o.request.client_order_id ≡ some (client_id show s.id seq)
      → Bound s o seq (bind_child_order show o s)
  bind_child_order_recovers s o seq h active id =
      bind_read s o (client_id show s.id seq) seq active id (sequence_round_trip s seq h)
