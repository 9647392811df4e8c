-- ===== src/Reconcile/Orders.antt =====
-- The orders of one identifier in the report.
use tesser.Prelude.{
  ◌≡◌, refl, ◌∙◌, ap, inl, inr, true, false, Option, none, some, List, [], ◌∷◌, arith,
  if◌then◌else◌, map, Option-cases, Bool-cases,
}
use tesser.Prelude.HashMap.{HashMap, lookup, insert, remove, values, lookup-remove}
use tesser.Prelude.Bytes.{same_text, same_text_iff, text_key}
use tesser.Core.Types.{Text, Order}
use tesser.Reconcile.{OrderPair, OrderDiff, keys, index_from, match_orders, diff_orders}
use tesser.Reconcile.Distinct.{member, IsDistinct, lookup-absent, of_key, listed}

module _ {D : Type 0} where
  abbrev pub with_id : Text → List (Order D) → List (Order D)
  with_id id = of_key (λ (o : Order D). o.id) id

  abbrev pub ids : List (Order D) → List Text
  ids orders = map (λ (o : Order D). o.id) orders

  -- the index has every key once, and under it an order of that identifier
  abbrev IsIndex : HashMap Text (Order D) → Type 0
  IsIndex [] = Unit
  IsIndex ((k, o) ∷ m) = (o.id ≡ k) × (member k (keys m) ≡ false) × IsIndex m

  with_id-none :
      (k : Text) (orders : List (Order D)) → member k (ids orders) ≡ false → with_id k orders ≡ []
  with_id-none k [] n = refl
  with_id-none k (o ∷ orders) n = ground (arith, n, with_id-none k orders)

  member-insert :
      (k j : Text) (o : Order D) (m : HashMap Text (Order D))
      → member k (keys (insert j o m)) ≡ (if same_text k j then true else member k (keys m))
  member-insert k j o [] = refl
  member-insert k j o ((i, p) ∷ m) =
      ground (arith, member-insert k j o m, same_text_iff j i, same_text_iff k j, same_text_iff k i)

  insert-IsIndex :
      (o : Order D) (m : HashMap Text (Order D)) → IsIndex m → IsIndex (insert o.id o m)
  insert-IsIndex o [] i = (refl, refl, tt)
  insert-IsIndex o ((k, p) ∷ m) (own, n, i) = ground (
    arith,
    own,
    n,
    insert-IsIndex o m i,
    member-insert k o.id o m,
    same_text_iff o.id k,
    same_text_iff k o.id,
  )

  index_from-IsIndex :
      (orders : List (Order D)) (m : HashMap Text (Order D))
      → IsIndex m
      → IsIndex (index_from (λ (o : Order D). o.id) orders m)
  index_from-IsIndex [] m i = i
  index_from-IsIndex (o ∷ orders) m i =
      index_from-IsIndex orders (insert o.id o m) (insert-IsIndex o m i)

  member-remove :
      (k j : Text) (m : HashMap Text (Order D))
      → member k (keys m) ≡ false
      → member k (keys (remove j m)) ≡ false
  member-remove k j [] n = refl
  member-remove k j ((i, p) ∷ m) n = ground (arith, n, member-remove k j m)

  remove-IsIndex : (j : Text) (m : HashMap Text (Order D)) → IsIndex m → IsIndex (remove j m)
  remove-IsIndex j [] i = tt
  remove-IsIndex j ((k, p) ∷ m) (own, n, i) =
      ground (arith, own, n, remove-IsIndex j m i, member-remove k j m n)

  with_id-values :
      (k : Text) (m : HashMap Text (Order D))
      → IsIndex m
      → with_id k (values m) ≡ listed (lookup k m)
  with_id-values k [] i = refl
  with_id-values k ((j, o) ∷ m) (own, n, i) =
      let later = with_id-values k m i in
      let at : same_text k o.id ≡ same_text k j = ap (same_text k) own in
      elim (Bool-cases (same_text k j)) [
        | inl s ↦
            let same : k ≡ j = (same_text_iff k j).0 s in
            let gone : lookup k m ≡ none = ap (λ x. lookup x m) same ∙ lookup-absent j m n in
            ground (arith, later, s, at, gone)
        | inr s ↦ ground (arith, later, s, at)
      ]

  found :
      (o : Order D) (orders : List (Order D)) (m : HashMap Text (Order D)) {r : Order D}
      → lookup o.id m ≡ some r
      → match_orders (o ∷ orders) m ≡ (
          let rest = match_orders orders (remove o.id m) in
          record rest { matched = record { local = o; remote = r } ∷ rest.matched })
  found o orders m h = ground (arith, h)

  lost :
      (o : Order D) (orders : List (Order D)) (m : HashMap Text (Order D))
      → lookup o.id m ≡ none
      → match_orders (o ∷ orders) m
        ≡ (let rest = match_orders orders m in record rest { ghosts = o ∷ rest.ghosts })
  lost o orders m h = ground (arith, h)

  abbrev pub pairs_with : Text → List (OrderPair D) → List (OrderPair D)
  pairs_with id = of_key (λ (p : OrderPair D). p.local.id) id

  abbrev pub paired : Order D → List (Order D) → List (OrderPair D)
  paired r [] = []
  paired r (l ∷ ls) = record { local = l; remote = r } ∷ paired r ls

  -- what becomes of the orders of one identifier: local orders without a remote one are ghosts, with
  -- one they are matched with it, and a remote order without a local one is a zombie
  abbrev pub Splits : Text → List (Order D) → Option (Order D) → OrderDiff D → Type 0
  Splits id local r x =
      (with_id id x.ghosts ≡ elim r [ none ↦ with_id id local | some _ ↦ [] ])
      × (pairs_with id x.matched ≡ elim r [ none ↦ [] | some o ↦ paired o (with_id id local) ])
      × (with_id id x.zombies ≡ (if member id (ids local) then [] else listed r))

  match_orders-Splits :
      (id : Text) (local : List (Order D)) (m : HashMap Text (Order D))
      → IsDistinct (ids local)
      → IsIndex m
      → Splits id local (lookup id m) (match_orders local m)
  match_orders-Splits id [] m u i = elim (Option-cases (lookup id m)) [
    | inl h ↦ rw h (refl, refl, with_id-values id m i ∙ rw h refl)
    | inr (r, h) ↦ rw h (refl, refl, with_id-values id m i ∙ rw h refl)
  ]
  match_orders-Splits id (o ∷ local) m (n, u) i = elim (Option-cases (lookup o.id m)) [
    | inl h ↦
        let later = match_orders-Splits id local m u i in
        let step = lost o local m h in
        elim (Bool-cases (same_text id o.id)) [
          | inl s ↦
              let same : id ≡ o.id = (same_text_iff id o.id).0 s in
              let none_here : lookup id m ≡ none = ap (λ x. lookup x m) same ∙ h in
              let only : member id (ids local) ≡ false = ap (λ x. member x (ids local)) same ∙ n in
              ground (arith, later, step, s, none_here, only)
          | inr s ↦ ground (arith, later, step, s)
        ]
    | inr (r, h) ↦
        let later = match_orders-Splits id local (remove o.id m) u (remove-IsIndex o.id m i) in
        let step = found o local m h in
        let kept = lookup-remove o.id id m in
        elim (Bool-cases (same_text id o.id)) [
          | inl s ↦
              let same : id ≡ o.id = (same_text_iff id o.id).0 s in
              let here : lookup id m ≡ some r = ap (λ x. lookup x m) same ∙ h in
              let only : member id (ids local) ≡ false = ap (λ x. member x (ids local)) same ∙ n in
              ground (arith, later, step, s, kept, here, only, with_id-none id local only)
          | inr s ↦ ground (arith, later, step, s, kept)
        ]
  ]

  -- For every identifier, if the local orders have different ones: the local order is a ghost if the
  -- exchange has none of that identifier, and otherwise only matched, with the last one that the
  -- exchange has; and that one is a zombie exactly if there is no local order.
  pub diff_orders-Splits :
      (id : Text) (local remote : List (Order D))
      → IsDistinct (ids local)
      → Splits id local
          (lookup id (index_from (λ (o : Order D). o.id) remote []))
          (diff_orders local remote)
  unfolding diff_orders
  diff_orders-Splits id local remote u =
      match_orders-Splits id local _ u (index_from-IsIndex remote [] tt)
