-- ===== src/Execution/Algorithm/Iceberg/Run.antt =====
-- An iceberg order under an exchange that acknowledges a child with no more than was asked for before it fills it, and fills it by no more than that. Fills of other orders, and fills before the
-- acknowledgement, are left out: the code counts them all the same.
use tesser.Prelude.{◌≡◌, true, none, some, List, [], ◌∷◌, arith}
use tesser.Prelude.Bytes.{same_text}
use tesser.Prelude.Int.{◌+ℤ◌, ◌≤ℤ◌, +ℤ_parts}
use tesser.Decimal.{Decimal, units, abs}
use tesser.Decimal.Laws.{IsExact}
use tesser.Decimal.Parts.{IsPos, IsNonneg, ◌≼◌, nought_parts, abs_parts}
use tesser.Core.Types.{Text, Uuid, Order, Fill}
use tesser.Execution.Algorithm.{ChildOrderRequest}
use tesser.Execution.Algorithm.Iceberg.{
  ActiveChild, IcebergState, on_child_order_placed, on_fill, on_timer, cancel, complete_if_needed,
  remaining_parent,
}
use tesser.Execution.Algorithm.Iceberg.Bounds.{
  placed, open_quantity, IsBounded, Asks, on_fill-IsBounded,
}

-- The algorithm, and the requests that it has made and the exchange has not yet acknowledged.
pub record World (D : Type 0) : Type 0 where
  pub algo : IcebergState D
  pub pending : List (ChildOrderRequest D)

module _ {D : Type 0} ⦃d : Decimal D⦄ (show : Uuid → Text) where
  pub data Step (w : World D) : World D → Type 0 where
    acknowledge :
        {c : ChildOrderRequest D} (o : Order D)
        → w.pending ≡ c ∷ []
        → abs o.request.quantity ≼ placed c.action
        → Step w (record { algo = on_child_order_placed o w.algo; pending = [] })
    fill :
        {c : ActiveChild D} (f : Fill D)
        → w.pending ≡ []
        → w.algo.active_child ≡ some c
        → same_text c.order_id f.order_id ≡ true
        → IsNonneg f.fill_quantity
        → f.fill_quantity ≼ c.remaining
        → Step w (record { algo = (on_fill show f w.algo).0; pending = (on_fill show f w.algo).1 })
    timer : Step w (record w { algo = (on_timer w.algo).0 })
    stop : Step w (record w { algo = cancel w.algo })

  pub data Reach (w : World D) : World D → Type 0 where
    here : Reach w w
    next : {u v : World D} → Reach w u → Step u v → Reach w v

  -- The pending requests leave room within the parent, and only one is made at a time.
  abbrev pub Room : IcebergState D → List (ChildOrderRequest D) → Type 0
  Room s [] = Unit
  Room s (c ∷ []) =
      (s.active_child ≡ none)
      × IsPos (placed c.action)
      × (units s.filled_quantity +ℤ units (placed c.action) ≤ℤ units s.total_quantity)
  Room s (c ∷ c' ∷ cs) = ⊥

  pub record IsSafe (w : World D) : Type 0 where
    pub bounded : IsBounded w.algo
    pub room : Room w.algo w.pending

  Asks-Room : (s : IcebergState D) (cs : List (ChildOrderRequest D)) → Asks s cs → Room s cs
  Asks-Room s [] a = tt
  Asks-Room s (c ∷ []) (w, e, p, le, fits) = (e, p, fits)
  Asks-Room s (c ∷ c' ∷ cs) a = a

  module _ (laws : IsExact D) where
    acknowledge-IsSafe :
        (s : IcebergState D) (cs : List (ChildOrderRequest D)) {c : ChildOrderRequest D}
        (o : Order D)
        → IsBounded s
        → Room s cs
        → cs ≡ c ∷ []
        → abs o.request.quantity ≼ placed c.action
        → IsBounded (on_child_order_placed o s)
    unfolding on_child_order_placed
    acknowledge-IsSafe s [] o b r e q = cc
    acknowledge-IsSafe s (a ∷ []) {c = c} o b r e q = ground (
      arith,
      abs_parts laws o.request.quantity,
      +ℤ_parts (units s.filled_quantity) (units (abs o.request.quantity)),
      +ℤ_parts (units s.filled_quantity) (units (placed a.action)),
    )
    acknowledge-IsSafe s (a ∷ a' ∷ cs) o b r e q = absurd r

    complete-Room :
        (s : IcebergState D) (cs : List (ChildOrderRequest D))
        → Room s cs
        → Room (complete_if_needed s) cs
    unfolding complete_if_needed remaining_parent
    complete-Room s [] r = tt
    complete-Room s (c ∷ []) r = ground arith
    complete-Room s (c ∷ c' ∷ cs) r = r

    cancel-Room :
        (s : IcebergState D) (cs : List (ChildOrderRequest D)) → Room s cs → Room (cancel s) cs
    unfolding cancel
    cancel-Room s [] r = tt
    cancel-Room s (c ∷ []) r = r
    cancel-Room s (c ∷ c' ∷ cs) r = r

    complete-IsBounded : (s : IcebergState D) → IsBounded s → IsBounded (complete_if_needed s)
    unfolding complete_if_needed remaining_parent
    complete-IsBounded s b = ground arith

    Step-IsSafe : {w v : World D} → Step w v → IsSafe w → IsSafe v
    unfolding on_timer
    Step-IsSafe {w} (acknowledge o e q) i = record {
      bounded = acknowledge-IsSafe w.algo w.pending o i.bounded i.room e q;
      room = tt;
    }
    Step-IsSafe {w} (fill f e a same n le) i =
        let (b, asks) = on_fill-IsBounded laws show f w.algo i.bounded a same n le in
        record {
          bounded = b;
          room = Asks-Room (on_fill show f w.algo).0 (on_fill show f w.algo).1 asks;
        }
    Step-IsSafe {w} timer i = record {
      bounded = complete-IsBounded w.algo i.bounded;
      room = complete-Room w.algo w.pending i.room;
    }
    Step-IsSafe {w} stop i = record {
      bounded =
          unfold cancel in
          record {
            shown = i.bounded.shown;
            within = i.bounded.within;
            open_nonneg = i.bounded.open_nonneg;
          };
      room = cancel-Room w.algo w.pending i.room;
    }

    Reach-IsSafe : {w v : World D} → IsSafe w → Reach w v → IsSafe v
    Reach-IsSafe i here = i
    Reach-IsSafe i (next r s) = Step-IsSafe s (Reach-IsSafe i r)

    -- The exchange acknowledges each child with no more than the quantity that was asked for, before it
    -- reports a fill of it, and fills only the open child, by an amount not below zero and at most what is left of it.
    -- Whatever such acknowledgements and fills, timers and cancellations follow one another, from a safe
    -- state the quantity filled never exceeds the parent's, and at most one request is outstanding, which
    -- is within what is left, and only while no child is open.
    pub Reach-bounded :
        {w v : World D}
        → IsSafe w
        → Reach w v
        → (v.algo.filled_quantity ≼ v.algo.total_quantity) × Room v.algo v.pending
    Reach-bounded {w} {v} i r =
        let s = Reach-IsSafe i r in
        (
          ground (
            arith,
            s.bounded,
            nought_parts laws,
            +ℤ_parts (units v.algo.filled_quantity) (units (open_quantity v.algo.active_child)),
          ),
          s.room,
        )
