-- ===== src/Execution/Algorithm/Iceberg/Bounds.antt =====
-- How much an iceberg order shows at a time, and that its fills never exceed the parent.
use tesser.Prelude.{◌≡◌, ◌↔◌, true, Option, none, some, List, [], ◌∷◌, arith}
use tesser.Prelude.Bytes.{same_text}
use tesser.Prelude.Int.{pos, ◌+ℤ◌, ◌≤ℤ◌, ◌<ℤ◌, +ℤ_parts}
use tesser.Decimal.{Decimal, units, nought, ◌⊕◌, ◌⊖◌, max, min}
use tesser.Decimal.Laws.{IsExact}
use tesser.Decimal.Parts.{IsPos, IsNonneg, ◌≼◌, nought_parts, add_parts, sub_parts}
use tesser.Core.Types.{Text, Uuid, Fill}
use tesser.Execution.Algorithm.{
  working, completed, ChildOrderRequest, ChildOrderAction, place, amend,
}
use tesser.Execution.Algorithm.Iceberg.{
  ActiveChild, IcebergState, remaining_parent, complete_if_needed, fill_child, build_limit_child,
  maybe_spawn_slice, on_fill,
}

module _ {D : Type 0} ⦃d : Decimal D⦄ where
  -- what the child order still has to fill
  abbrev pub open_quantity : Option (ActiveChild D) → D
  open_quantity none = nought
  open_quantity (some c) = c.remaining

  -- the quantity of an action's order
  abbrev pub placed : ChildOrderAction D → D
  placed (place r) = r.quantity
  placed (amend r) = nought

  -- What has been filled and what the child may still fill stay within the parent's quantity.
  pub record IsBounded (s : IcebergState D) : Type 0 where
    pub shown : pos 0 <ℤ units s.display_quantity
    pub within :
        units s.filled_quantity +ℤ units (open_quantity s.active_child) ≤ℤ units s.total_quantity
    pub open_nonneg : IsNonneg (open_quantity s.active_child)

  -- What a call may ask for: a first child only while the parent is worked, none while a child is open,
  -- and then an order above zero, within the display size and what is left.
  abbrev pub Asks : IcebergState D → List (ChildOrderRequest D) → Type 0
  Asks s [] = Unit
  Asks s (c ∷ []) =
      (s.status ≡ working)
      × (s.active_child ≡ none)
      × IsPos (placed c.action)
      × (placed c.action ≼ s.display_quantity)
      × (units s.filled_quantity +ℤ units (placed c.action) ≤ℤ units s.total_quantity)
  Asks s (c ∷ c' ∷ cs) = ⊥

module _ {D : Type 0} ⦃d : Decimal D⦄ (laws : IsExact D) (show : Uuid → Text) where
  maybe_spawn_slice-Asks :
      (s : IcebergState D) → IsPos s.display_quantity → Asks s (maybe_spawn_slice show s).1
  unfolding maybe_spawn_slice build_limit_child remaining_parent
  maybe_spawn_slice-Asks s h = ground (
    arith,
    nought_parts laws,
    sub_parts laws s.total_quantity s.filled_quantity,
    +ℤ_parts (units s.filled_quantity) (
        units (
          max (min (max (s.total_quantity ⊖ s.filled_quantity) nought) s.display_quantity) nought)),
  )

  -- A fill of the open child, of no more than what is left of it, keeps the bound; it asks for a new
  -- child only if the old one is gone and the parent still worked, within the display size and what is
  -- left of the parent.
  pub on_fill-IsBounded :
      (f : Fill D) (s : IcebergState D) {c : ActiveChild D}
      → IsBounded s
      → s.active_child ≡ some c
      → same_text c.order_id f.order_id ≡ true
      → IsNonneg f.fill_quantity
      → f.fill_quantity ≼ c.remaining
      → (let (s', asked) = on_fill show f s in IsBounded s' × Asks s' asked)
  unfolding on_fill complete_if_needed maybe_spawn_slice build_limit_child remaining_parent
      fill_child
  on_fill-IsBounded f s {c = c} b a e n le =
      let filled = s.filled_quantity ⊕ f.fill_quantity in
      let left = max (s.total_quantity ⊖ filled) nought in
      ground (
        arith,
        nought_parts laws,
        laws.units-nought,
        add_parts laws s.filled_quantity f.fill_quantity,
        sub_parts laws s.total_quantity filled,
        sub_parts laws c.remaining f.fill_quantity,
        +ℤ_parts (units s.filled_quantity) (units c.remaining),
        +ℤ_parts (units filled) (units (c.remaining ⊖ f.fill_quantity)),
        +ℤ_parts (units filled) (units d.nought),
        +ℤ_parts (units filled) (units (max (min left s.display_quantity) nought)),
      )

  -- The parent is completed by a fill exactly when nothing of it is left.
  pub on_fill_completes :
      (f : Fill D) (s : IcebergState D)
      → s.status ≡ working
      → ((on_fill show f s).0.status ≡ completed)
        ↔ (s.total_quantity ≼ (s.filled_quantity ⊕ f.fill_quantity))
  unfolding on_fill complete_if_needed maybe_spawn_slice build_limit_child remaining_parent
  on_fill_completes f s w = ground (
    arith,
    nought_parts laws,
    sub_parts laws s.total_quantity (s.filled_quantity ⊕ f.fill_quantity),
  )
