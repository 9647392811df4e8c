-- ===== src/Paper/Matching/Trades/Queue.antt =====
-- The queue before a resting order, over a run of trades at its price.
use tesser.Prelude.{
  ◌≡◌, refl, ◌∙◌, ap, false, List, [], ◌∷◌, arith, All, if◌then◌else◌, inl, inr, Bool-cases,
}
use tesser.Prelude.Int.{ℤ, pos, ◌+ℤ◌, ◌-ℤ◌, ◌≤ℤ◌, min_ℤ, leb_ℤ, +ℤ_parts, -ℤ_parts, eq_of_parts}
use tesser.Decimal.{Decimal, units, nought, ◌⊕◌, ◌⊖◌, ◌≤?◌, min, max}
use tesser.Decimal.Laws.{IsExact}
use tesser.Decimal.Parts.{IsPos, IsNonneg, ◌≼◌, add_parts, sub_parts, nought_parts}
use tesser.Paper.Matching.{RestingOrder}
use tesser.Paper.Matching.Trades.{passive_fillable_volume}

abbrev pub max_ℤ : ℤ → ℤ → ℤ
max_ℤ a b = if leb_ℤ a b then b else a

module _ {D : Type 0} ⦃d : Decimal D⦄ where
  abbrev pub total : List D → ℤ
  total [] = pos 0
  total (s ∷ sizes) = units s +ℤ total sizes

  -- what trades of these sizes at the price of an order give it in all, while something remains of it,
  -- and the order after them
  abbrev pub watch : List D → RestingOrder D → ℤ × RestingOrder D
  watch [] r = (pos 0, r)
  watch (s ∷ sizes) r =
      let (v, seen) = passive_fillable_volume s r in
      let (t, r') = watch sizes seen in (units v +ℤ t, r')

  -- what of the volume seen was beyond the queue
  abbrev served : RestingOrder D → D
  served r = max (r.processed_volume ⊖ r.initial_queue_position) nought

  -- An order in a queue: something remains, and the volume seen is between nothing and all that it counts.
  record IsQueued (r : RestingOrder D) : Type 0 where
    remains : IsPos r.remaining
    queue_nonneg : IsNonneg r.initial_queue_position
    original_nonneg : IsNonneg r.original_quantity
    seen_nonneg : IsNonneg r.processed_volume
    seen_within : r.processed_volume ≼ (r.initial_queue_position ⊕ r.original_quantity)

  -- what the trades have shown of an order after a run from another state of it
  record Watched (r r' : RestingOrder D) (t size : ℤ) : Type 0 where
    all_served : t +ℤ units (served r) ≡ units (served r')
    all_seen :
        units r'.processed_volume
        ≡ min_ℤ
            (units r.processed_volume +ℤ size)
            (units (r.initial_queue_position ⊕ r.original_quantity))
    same_queue : r'.initial_queue_position ≡ r.initial_queue_position
    same_cap :
        r'.initial_queue_position ⊕ r'.original_quantity
        ≡ r.initial_queue_position ⊕ r.original_quantity

module _ {D : Type 0} ⦃d : Decimal D⦄ (laws : IsExact D) where
  one_trade :
      (s : D) (r : RestingOrder D)
      → IsQueued r
      → IsNonneg s
      → IsQueued (passive_fillable_volume s r).1
        × Watched r
            (passive_fillable_volume s r).1
            (units (passive_fillable_volume s r).0)
            (units s)
  unfolding passive_fillable_volume
  one_trade s r w n =
      let some_left : (r.remaining ≤? nought) ≡ false =
        ground (arith, w.remains, laws.units-nought) in
      let q = r.initial_queue_position in
      let cap = q ⊕ r.original_quantity in
      let p = r.processed_volume in
      let seen = min (p ⊕ s) cap in
      rw (some_left, passive_fillable_volume)
        (
          record {
            remains = w.remains;
            queue_nonneg = w.queue_nonneg;
            original_nonneg = w.original_nonneg;
            seen_nonneg = ground (arith, add_parts laws p s);
            seen_within = ground arith;
          },
          record {
            all_served = eq_of_parts _ _ (
                ground (
                  arith,
                  nought_parts laws,
                  laws.units-nought,
                  +ℤ_parts (units (max (max (seen ⊖ q) nought ⊖ max (p ⊖ q) nought) nought))
                      (units (max (p ⊖ q) nought)),
                  sub_parts laws seen q,
                  sub_parts laws p q,
                  sub_parts laws (max (seen ⊖ q) nought) (max (p ⊖ q) nought),
                  add_parts laws p s,
                  w.seen_within,
                ));
            all_seen = ground (arith, laws.units-add p s);
            same_queue = refl;
            same_cap = refl;
          },
        )

  total_nonneg : (sizes : List D) → All (λ (s : D). IsNonneg s) sizes → pos 0 ≤ℤ total sizes
  total_nonneg [] a = omega arith
  total_nonneg (s ∷ sizes) (n, a) =
      omega (arith, n, total_nonneg sizes a, +ℤ_parts (units s) (total sizes))

  joined : (a b c x y : ℤ) → a +ℤ c ≡ x → b +ℤ x ≡ y → (a +ℤ b) +ℤ c ≡ y
  joined a b c x y h k =
      eq_of_parts _ _
        (ground (arith, h, k, +ℤ_parts a b, +ℤ_parts (a +ℤ b) c, +ℤ_parts a c, +ℤ_parts b x))

  regroup : (a b c : ℤ) → (a +ℤ b) +ℤ c ≡ a +ℤ (b +ℤ c)
  regroup a b c =
      eq_of_parts _ _
        (omega (arith, +ℤ_parts a b, +ℤ_parts (a +ℤ b) c, +ℤ_parts b c, +ℤ_parts a (b +ℤ c)))

  capped_twice : (m c t : ℤ) → pos 0 ≤ℤ t → min_ℤ (min_ℤ m c +ℤ t) c ≡ min_ℤ (m +ℤ t) c
  capped_twice m c t n = elim (Bool-cases (leb_ℤ m c)) [
    | inl b ↦ rw b refl
    | inr b ↦ rw b (eq_of_parts _ _ (ground (arith, n, b, +ℤ_parts c t, +ℤ_parts m t)))
  ]

  capped :
      (p s t c x y : ℤ)
      → pos 0 ≤ℤ t
      → x ≡ min_ℤ (p +ℤ s) c
      → y ≡ min_ℤ (x +ℤ t) c
      → y ≡ min_ℤ (p +ℤ (s +ℤ t)) c
  capped p s t c x y n h k =
      k
      ∙ ap (λ x. min_ℤ (x +ℤ t) c) h
      ∙ capped_twice (p +ℤ s) c t n
      ∙ ap (λ x. min_ℤ x c) (regroup p s t)

  all_trades :
      (sizes : List D) (r : RestingOrder D)
      → IsQueued r
      → All (λ (s : D). IsNonneg s) sizes
      → Watched r (watch sizes r).1 (watch sizes r).0 (total sizes)
  all_trades [] r w a = record {
    all_served = eq_of_parts _ _ (omega (arith, +ℤ_parts (pos 0) (units (served r))));
    all_seen =
        eq_of_parts _ _
          (ground (arith, w.seen_within, +ℤ_parts (units r.processed_volume) (pos 0)));
    same_queue = refl;
    same_cap = refl;
  }
  all_trades (s ∷ sizes) r w (n, a) =
      let (w', now) = one_trade s r w n in
      let seen = (passive_fillable_volume s r).1 in
      let later = all_trades sizes seen w' a in
      record {
        all_served =
            joined (units (passive_fillable_volume s r).0) (watch sizes seen).0 (units (served r))
              (units (served seen)) _ now.all_served later.all_served;
        all_seen =
            capped (units r.processed_volume) (units s) (total sizes) _
              (units seen.processed_volume) _ (total_nonneg sizes a) now.all_seen
              (later.all_seen
                ∙ ap (λ x. min_ℤ (units seen.processed_volume +ℤ total sizes) (units x))
                    now.same_cap);
        same_queue = later.same_queue ∙ now.same_queue;
        same_cap = later.same_cap ∙ now.same_cap;
      }

  -- When a resting order has just been put in a queue, with something remaining and neither the queue
  -- before it nor its quantity negative, trades at its price of any sizes that are not negative give it
  -- in all what they have beyond the queue, up to its quantity, as long as fills leave something of it.
  pub queue_served :
      (sizes : List D) (r : RestingOrder D)
      → IsPos r.remaining
      → IsNonneg r.initial_queue_position
      → IsNonneg r.original_quantity
      → r.processed_volume ≡ nought
      → All (λ (s : D). IsNonneg s) sizes
      → (watch sizes r).0
        ≡ min_ℤ
            (max_ℤ (total sizes -ℤ units r.initial_queue_position) (pos 0))
            (units r.original_quantity)
  queue_served sizes r p q o fresh a =
      let start : IsQueued r = record {
        remains = p;
        queue_nonneg = q;
        original_nonneg = o;
        seen_nonneg = ground (arith, fresh, laws.units-nought);
        seen_within = ground (
          arith,
          fresh,
          laws.units-nought,
          add_parts laws r.initial_queue_position r.original_quantity,
        );
      } in
      let w = all_trades sizes r start a in
      let r' = (watch sizes r).1 in
      eq_of_parts _ _ (
        ground (
          arith,
          w.all_served,
          w.all_seen,
          fresh,
          laws.units-nought,
          total_nonneg sizes a,
          +ℤ_parts (watch sizes r).0 (units (served r)),
          +ℤ_parts (units r.processed_volume) (total sizes),
          -ℤ_parts (total sizes) (units r.initial_queue_position),
          ap (λ x. units x) w.same_queue,
          sub_parts laws r.processed_volume r.initial_queue_position,
          sub_parts laws r'.processed_volume r'.initial_queue_position,
          add_parts laws r.initial_queue_position r.original_quantity,
        ))
