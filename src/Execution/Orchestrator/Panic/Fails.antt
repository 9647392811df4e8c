-- ===== src/Execution/Orchestrator/Panic/Fails.antt =====
-- What the failure of a leg of a group leads to.
use tesser.Prelude.{
  ◌≡◌, ◌≢◌, refl, ◌∙◌, ap, ◌⊎◌, inl, inr, true, false, Option, none, some, [], ◌∷◌, arith,
  if◌then◌else◌, Option-cases,
}
use tesser.Prelude.HashMap.{HashMap, lookup, insert, remove, modify}
use tesser.Prelude.Key.{nat_key}
use tesser.Decimal.{Decimal}
use tesser.Core.Ids.{Symbol, symbol_key}
use tesser.Core.Types.{Text, Uuid}
use tesser.Execution.Risk.{RiskContext, RiskError}
use tesser.Execution.Engine.{Client, RiskChecker, Requests}
use tesser.Execution.Orchestrator.{
  ExecutionGroupLeg, ExecutionGroupState, stranded, close_stranded, panic_actions,
  purge_group_orders,
}
use tesser.Execution.Orchestrator.Panic.{
  PanicState, execute_panic_actions, fail_group, fail_leg, fail_group_leg, notify_panic,
}
use tesser.Execution.Orchestrator.Panic.Closes.{Unwinds, execute_panic_actions-Unwinds}

module _ {D : Type 0} ⦃d : Decimal D⦄ where
  -- What a failed leg sends for its group.
  abbrev pub Unwound : Option (ExecutionGroupState D) → Requests D → Requests D → Type 0
  Unwound none sent sent' = sent' ≡ sent
  Unwound (some g) sent sent' =
      Unwinds (if g.panic_triggered then [] else stranded g.legs) sent sent'

  abbrev pub closed_group : ExecutionGroupState D → ExecutionGroupState D
  closed_group g = record g { legs = close_stranded g.legs }

  -- A group panics at its first failure with fills, and only then.
  abbrev pub Panics : ExecutionGroupState D → Type 0
  Panics g = (g.panic_triggered ≡ false) × (stranded g.legs ≢ [])

  pub panic_actions-cases :
      (g : ExecutionGroupState D)
      → (Panics g
          × (panic_actions g
              ≡ (record (closed_group g) { panic_triggered = true }, some (stranded g.legs))))
        ⊎ (((if g.panic_triggered then [] else stranded g.legs) ≡ [])
            × ((panic_actions g ≡ (g, none)) ⊎ (panic_actions g ≡ (closed_group g, none))))
  unfolding panic_actions
  panic_actions-cases g = ground arith

  stranded-fail :
      (symbol : Symbol) (legs : HashMap Symbol (ExecutionGroupLeg D))
      → stranded (modify symbol fail_leg legs) ≡ stranded legs
  stranded-fail symbol [] = refl
  stranded-fail symbol ((k, leg) ∷ legs) = ground (arith, stranded-fail symbol legs)

module _ {D : Type 0} ⦃d : Decimal D⦄ (show : Uuid → Text) (render : RiskError D → Text)
    (client : Client D) (risk : RiskChecker D) where
  module _ (contexts : HashMap Symbol (RiskContext D)) where
    -- what the failure of a leg of a known group does, by whether the group panics
    abbrev pub Panicked :
        Uuid → Symbol → ExecutionGroupState D → PanicState D → PanicState D → Type 0
    Panicked group_id symbol g p p' =
        let spent = record (closed_group (fail_group symbol g)) { panic_triggered = true } in
        Panics g
        × (p'.groups
            ≡ purge_group_orders group_id (record p.groups {
              execution_groups = insert group_id spent p.groups.execution_groups;
            }))
        × Unwinds (stranded g.legs) p.sent p'.sent

    abbrev pub Calm : Uuid → ExecutionGroupState D → PanicState D → PanicState D → Type 0
    Calm group_id g p p' =
        ((if g.panic_triggered then [] else stranded g.legs) ≡ [])
        × (p'.sent ≡ p.sent)
        × ((p'.groups.execution_groups ≡ remove group_id p.groups.execution_groups)
            ⊎ ((g' : ExecutionGroupState D) × (g'.panic_triggered ≡ g.panic_triggered)
                × (p'.groups.execution_groups ≡ insert group_id g' p.groups.execution_groups)))

    pub fail_unknown :
        (group_id : Uuid) (symbol : Symbol) (reason : Text) (p : PanicState D)
        → lookup group_id p.groups.execution_groups ≡ none
        → fail_group_leg show render client risk contexts group_id symbol reason p ≡ p
    unfolding fail_group_leg
    fail_unknown group_id symbol reason p e = ground (arith, e)

    fail_panics :
        (group_id : Uuid) (symbol : Symbol) (reason : Text) (p : PanicState D)
        {g : ExecutionGroupState D}
        → lookup group_id p.groups.execution_groups ≡ some g
        → (let spent = record (closed_group (fail_group symbol g)) { panic_triggered = true } in
            let kept = record p.groups {
              execution_groups = insert group_id spent p.groups.execution_groups;
            } in
            panic_actions (fail_group symbol g)
              ≡ (spent, some (stranded (fail_group symbol g).legs))
            → (let closed =
                  execute_panic_actions show render client risk contexts group_id reason
                    (stranded (fail_group symbol g).legs)
                    g.panic_config
                    (record p { groups = kept }) in
                fail_group_leg show render client risk contexts group_id symbol reason p
                ≡ record closed { groups = purge_group_orders group_id closed.groups }))
    unfolding fail_group_leg
    fail_panics group_id symbol reason p e a = ground (arith, e, a)

    fail_calm :
        (group_id : Uuid) (symbol : Symbol) (reason : Text) (p : PanicState D)
        {g g' : ExecutionGroupState D}
        → lookup group_id p.groups.execution_groups ≡ some g
        → panic_actions (fail_group symbol g) ≡ (g', none)
        → (let p' = fail_group_leg show render client risk contexts group_id symbol reason p in
            (p'.sent ≡ p.sent)
            × ((p'.groups.execution_groups ≡ remove group_id p.groups.execution_groups)
                ⊎ (p'.groups.execution_groups ≡ insert group_id g' p.groups.execution_groups)))
    unfolding fail_group_leg notify_panic
    fail_calm group_id symbol reason p e a = ground (arith, e, a)

    pub fail_known :
        (group_id : Uuid) (symbol : Symbol) (reason : Text) (p : PanicState D)
        {g : ExecutionGroupState D}
        → lookup group_id p.groups.execution_groups ≡ some g
        → (let p' = fail_group_leg show render client risk contexts group_id symbol reason p in
            Panicked group_id symbol g p p' ⊎ Calm group_id g p p')
    unfolding fail_group_leg notify_panic fail_group
    fail_known group_id symbol reason p {g = g} e =
        let failing = fail_group symbol g in
        let spent = record (closed_group failing) { panic_triggered = true } in
        let same = stranded-fail symbol g.legs in
        elim (panic_actions-cases failing) [
          | inl (h, a) ↦
              let kept = record p.groups {
                execution_groups = insert group_id spent p.groups.execution_groups;
              } in
              let (unwound, groups) =
                execute_panic_actions-Unwinds show render client risk contexts group_id reason
                  (stranded failing.legs) g.panic_config (record p { groups = kept }) in
              let result = fail_panics group_id symbol reason p e a in
              let sent : Unwinds (stranded failing.legs) p.sent
                  (fail_group_leg show render client risk contexts group_id symbol reason p).sent =
                rw result unwound in
              inl (
                (h.0, λ x. h.1 (same ∙ x)),
                ap (λ q. q.groups) result ∙ ap (λ o. purge_group_orders group_id o) groups,
                rw (← same) sent,
              )
          | inr (h, inl a) ↦
              let (sent, groups) = fail_calm group_id symbol reason p e a in
              inr
                (cc (h, same), sent, elim groups [ inl x ↦ inl x | inr x ↦ inr (failing, refl, x) ])
          | inr (h, inr a) ↦
              let (sent, groups) = fail_calm group_id symbol reason p e a in
              inr (
                cc (h, same),
                sent,
                elim groups [ inl x ↦ inl x | inr x ↦ inr (closed_group failing, refl, x) ],
              )
        ]

    pub fail_group_leg_unwinds :
        (group_id : Uuid) (symbol : Symbol) (reason : Text) (p : PanicState D)
        → Unwound
            (lookup group_id p.groups.execution_groups)
            p.sent
            (fail_group_leg show render client risk contexts group_id symbol reason p).sent
    unfolding fail_group_leg notify_panic fail_group
    fail_group_leg_unwinds group_id symbol reason p =
        elim (Option-cases (lookup group_id p.groups.execution_groups)) [
          | inl e ↦ ground (arith, e)
          | inr (g, e) ↦
              let sent' =
                (fail_group_leg show render client risk contexts group_id symbol reason p).sent in
              let unwound : Unwound (some g) p.sent sent' =
                elim (fail_known group_id symbol reason p e) [
                  | inl (h, _, u) ↦ rw (h.0) u
                  | inr (none_left, same, _) ↦ rw (none_left, same) Unwinds.done
                ] in
              rw e unwound
        ]
