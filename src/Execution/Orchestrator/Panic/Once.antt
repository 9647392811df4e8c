-- ===== src/Execution/Orchestrator/Panic/Once.antt =====
-- A group panics once, and what reaches it afterwards.
use tesser.Prelude.{
  ◌≡◌, ◌≢◌, refl, ◌∙◌, ap, ◌⊎◌, inl, inr, true, not, none, some, List, [], ◌∷◌, arith, Option-cases,
  ◌==◌, ==_iff,
}
use tesser.Prelude.HashMap.{
  HashMap, lookup, insert, remove, retain, lookup-insert, lookup-remove, lookup-modify,
}
use tesser.Prelude.Key.{nat_key}
use tesser.Prelude.Bytes.{text_key}
use tesser.Decimal.{Decimal}
use tesser.Core.Ids.{Symbol, symbol_key}
use tesser.Core.Types.{Text, Uuid, Order, Fill}
use tesser.Execution.Risk.{RiskContext, RiskError}
use tesser.Execution.Engine.{Client, RiskChecker}
use tesser.Execution.Orchestrator.{
  ExecutionGroupState, Groups, stranded, handle_group_fill, fill_group, track_group_order,
  leg_entry, await_order, purge_group_orders,
}
use tesser.Execution.Orchestrator.Panic.{PanicState, fail_group, fail_group_leg}
use tesser.Execution.Orchestrator.Panic.Fails.{Panics, fail_known, fail_unknown, closed_group}

-- What happens to a group after a failure of a leg.
pub data Event (D : Type 0) : Type 0 where
  failure : Symbol → Text → Event D
  fill : Fill D → Event D
  order : Uuid → Order D → Event D

-- No order of the group is known any more.
abbrev pub IsCut : Uuid → HashMap Text (Uuid × Symbol) → Type 0
IsCut group_id [] = Unit
IsCut group_id ((_, key) ∷ mapping) = (key.0 ≢ group_id) × IsCut group_id mapping

retain-IsCut :
    (group_id : Uuid) (mapping : HashMap Text (Uuid × Symbol))
    → IsCut group_id (retain (λ (key : Uuid × Symbol). not (key.0 == group_id)) mapping)
retain-IsCut group_id [] = tt
retain-IsCut group_id ((k, (other, symbol)) ∷ mapping) =
    ground (arith, ==_iff other group_id, retain-IsCut group_id mapping)

lookup-IsCut :
    (group_id : Uuid) (order_id : Text) (mapping : HashMap Text (Uuid × Symbol))
    {key : Uuid × Symbol}
    → IsCut group_id mapping
    → lookup order_id mapping ≡ some key
    → key.0 ≢ group_id
lookup-IsCut group_id order_id [] c e = absurd (cc e)
lookup-IsCut group_id order_id ((k, key') ∷ mapping) {key = key} c e =
    ground (arith, e, lookup-IsCut group_id order_id mapping {key = key} (c.1))

module _ {D : Type 0} ⦃d : Decimal D⦄ where
  -- The group has panicked, or is gone.
  abbrev pub IsSpent : Uuid → Groups D → Type 0
  IsSpent group_id o = elim (lookup group_id o.execution_groups) [
    | none ↦ Unit
    | some g ↦ g.panic_triggered ≡ true
  ]

  IsSpent-purge :
      (group_id : Uuid) (o : Groups D)
      → IsSpent group_id o
      → IsSpent group_id (purge_group_orders group_id o)
  unfolding purge_group_orders
  IsSpent-purge group_id o h = h

  IsSpent-insert :
      (group_id : Uuid) (g : ExecutionGroupState D) (o : Groups D)
      → g.panic_triggered ≡ true
      → IsSpent group_id (record o { execution_groups = insert group_id g o.execution_groups })
  IsSpent-insert group_id g o h =
      ground (arith, h, lookup-insert group_id group_id g o.execution_groups)

  -- what a fill does to the groups
  handle_group_fill-groups :
      (f : Fill D) (o : Groups D)
      → (let after = (handle_group_fill f o).execution_groups in
          (after ≡ o.execution_groups)
          ⊎ ((group_id : Uuid) × (symbol : Symbol) × (g : ExecutionGroupState D) × (lookup
                  f.order_id o.group_order_mapping
                ≡ some (group_id, symbol))
              × (lookup group_id o.execution_groups ≡ some g)
              × ((after ≡ insert group_id (fill_group f symbol g) o.execution_groups)
                  ⊎ (after ≡ remove group_id o.execution_groups))))
  unfolding handle_group_fill purge_group_orders
  handle_group_fill-groups f o = elim (Option-cases (lookup f.order_id o.group_order_mapping)) [
    | inl e ↦ inl (ground (arith, e))
    | inr ((group_id, symbol), e) ↦ elim (Option-cases (lookup group_id o.execution_groups)) [
      | inl l ↦ inl (ground (arith, e, l))
      | inr (g, l) ↦ inr (group_id, symbol, g, e, l, ground (arith, e, l))
    ]
  ]

  handle_group_fill-IsSpent :
      (group_id : Uuid) (f : Fill D) (o : Groups D)
      → IsSpent group_id o
      → IsSpent group_id (handle_group_fill f o)
  unfolding fill_group
  handle_group_fill-IsSpent group_id f o h = elim (handle_group_fill-groups f o) [
    | inl e ↦ rw e h
    | inr (other, symbol, g, _, l, inl e) ↦ ground (
      arith,
      e,
      l,
      h,
      ==_iff group_id other,
      lookup-insert other group_id (fill_group f symbol g) o.execution_groups,
    )
    | inr (other, symbol, g, _, l, inr e) ↦
        ground (arith, e, h, lookup-remove other group_id o.execution_groups)
  ]

  track_group_order-IsSpent :
      (group_id : Uuid) (other : Uuid) (x : Order D) (o : Groups D)
      → IsSpent group_id o
      → IsSpent group_id (track_group_order other x o)
  unfolding track_group_order leg_entry
  track_group_order-IsSpent group_id other x o h = ground (
    arith,
    h,
    lookup-modify other group_id (leg_entry x.request.symbol x.request.side (await_order x))
        o.execution_groups,
    ==_iff group_id other,
  )

  purge-IsCut :
      (group_id : Uuid) (o : Groups D)
      → IsCut group_id (purge_group_orders group_id o).group_order_mapping
  unfolding purge_group_orders
  purge-IsCut group_id o = retain-IsCut group_id o.group_order_mapping

  handle_group_fill-cut :
      (group_id : Uuid) (f : Fill D) (o : Groups D)
      → IsCut group_id o.group_order_mapping
      → lookup group_id (handle_group_fill f o).execution_groups
        ≡ lookup group_id o.execution_groups
  handle_group_fill-cut group_id f o c = elim (handle_group_fill-groups f o) [
    | inl e ↦ ap (λ m. lookup group_id m) e
    | inr (other, symbol, g, known, l, after) ↦ ground (
      arith,
      after,
      lookup-IsCut group_id f.order_id o.group_order_mapping c known,
      ==_iff group_id other,
      lookup-insert other group_id (fill_group f symbol g) o.execution_groups,
      lookup-remove other group_id o.execution_groups,
    )
  ]

module _ {D : Type 0} ⦃d : Decimal D⦄ (show : Uuid → Text) (render : RiskError D → Text)
    (client : Client D) (risk : RiskChecker D) (contexts : HashMap Symbol (RiskContext D)) where
  abbrev pub after : Uuid → Symbol → Text → PanicState D → PanicState D
  after group_id symbol reason p =
      fail_group_leg show render client risk contexts group_id symbol reason p

  -- A failure spends a group that it makes panic, and keeps a group spent.
  fail-IsSpent :
      (group_id : Uuid) (symbol : Symbol) (reason : Text) (p : PanicState D)
      → IsSpent group_id p.groups
      → ((after group_id symbol reason p).sent ≡ p.sent)
        × IsSpent group_id (after group_id symbol reason p).groups
  fail-IsSpent group_id symbol reason p h =
      elim (Option-cases (lookup group_id p.groups.execution_groups)) [
        | inl e ↦
            let same = fail_unknown show render client risk contexts group_id symbol reason p e in
            (ap (λ q. q.sent) same, rw same h)
        | inr (g, e) ↦
            elim (fail_known show render client risk contexts group_id symbol reason p e) [
              | inl (fresh, _, _) ↦ absurd (ground (arith, e, h, fresh))
              | inr (_, same, inl gone) ↦ (
                same,
                ground (arith, gone, lookup-remove group_id group_id p.groups.execution_groups),
              )
              | inr (_, same, inr (g', flag, kept)) ↦ (
                same,
                ground (
                  arith,
                  kept,
                  flag,
                  e,
                  h,
                  lookup-insert group_id group_id g' p.groups.execution_groups,
                ),
              )
            ]
      ]

  fail-spends :
      (group_id : Uuid) (symbol : Symbol) (reason : Text) (p : PanicState D)
      {g : ExecutionGroupState D}
      → lookup group_id p.groups.execution_groups ≡ some g
      → stranded g.legs ≢ []
      → IsSpent group_id (after group_id symbol reason p).groups
  fail-spends group_id symbol reason p {g = g} e h =
      elim (fail_known show render client risk contexts group_id symbol reason p e) [
        | inl (_, groups, _) ↦
            let spent = record (closed_group (fail_group symbol g)) { panic_triggered = true } in
            let kept = record p.groups {
              execution_groups = insert group_id spent p.groups.execution_groups;
            } in
            rw groups (IsSpent-purge group_id kept (IsSpent-insert group_id spent p.groups refl))
        | inr (none_left, _, _) ↦
            (fail-IsSpent group_id symbol reason p (ground (arith, e, none_left, h))).1
      ]

  -- the events in order, of one group
  pub run : Uuid → List (Event D) → PanicState D → PanicState D
  run group_id [] p = p
  run group_id (failure symbol reason ∷ events) p =
      run group_id events (after group_id symbol reason p)
  run group_id (fill f ∷ events) p =
      run group_id events (record p { groups = handle_group_fill f p.groups })
  run group_id (order other x ∷ events) p =
      run group_id events (record p { groups = track_group_order other x p.groups })

  run-IsSpent :
      (group_id : Uuid) (events : List (Event D)) (p : PanicState D)
      → IsSpent group_id p.groups
      → (run group_id events p).sent ≡ p.sent
  unfolding run
  run-IsSpent group_id [] p h = refl
  run-IsSpent group_id (failure symbol reason ∷ events) p h =
      let (same, spent) = fail-IsSpent group_id symbol reason p h in
      run-IsSpent group_id events (after group_id symbol reason p) spent ∙ same
  run-IsSpent group_id (fill f ∷ events) p h =
      run-IsSpent group_id events (record p { groups = handle_group_fill f p.groups })
        (handle_group_fill-IsSpent group_id f p.groups h)
  run-IsSpent group_id (order other x ∷ events) p h =
      run-IsSpent group_id events (record p { groups = track_group_order other x p.groups })
        (track_group_order-IsSpent group_id other x p.groups h)

  -- If a leg of a group with fills fails, then no further failures of its legs, in any order with fills
  -- and new orders of any group, send another request.
  pub panic_once :
      (group_id : Uuid) (symbol : Symbol) (reason : Text) (events : List (Event D))
      (p : PanicState D) {g : ExecutionGroupState D}
      → lookup group_id p.groups.execution_groups ≡ some g
      → stranded g.legs ≢ []
      → (run group_id events (after group_id symbol reason p)).sent
        ≡ (after group_id symbol reason p).sent
  panic_once group_id symbol reason events p e h =
      run-IsSpent group_id events (after group_id symbol reason p)
        (fail-spends group_id symbol reason p e h)

  -- After the failure that makes a group panic, no fill reaches the group: whatever a leg is filled by
  -- then is neither counted nor unwound.
  pub late_fill_lost :
      (group_id : Uuid) (symbol : Symbol) (reason : Text) (f : Fill D) (p : PanicState D)
      {g : ExecutionGroupState D}
      → lookup group_id p.groups.execution_groups ≡ some g
      → Panics g
      → lookup group_id
          (handle_group_fill f (after group_id symbol reason p).groups).execution_groups
        ≡ lookup group_id (after group_id symbol reason p).groups.execution_groups
  late_fill_lost group_id symbol reason f p e h =
      elim (fail_known show render client risk contexts group_id symbol reason p e) [
        | inl (_, groups, _) ↦
            handle_group_fill-cut group_id f (after group_id symbol reason p).groups
              (rw groups (purge-IsCut group_id _))
        | inr (none_left, _, _) ↦ absurd (ground (arith, none_left, h))
      ]
