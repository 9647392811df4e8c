-- ===== src/Paper/Matching/Trades/Fair.antt =====
-- A trade of the market and all resting orders.
use Prim.Derive.{subst}
use tesser.Prelude.{
  ◌≡◌, refl, sym, ◌∙◌, ap, ◌⊎◌, inl, inr, false, not, ◌||◌, List, [], ◌∷◌, ◌++◌, arith,
  if◌then◌else◌, All, All-append, All-imp, Bool-cases, Option-cases,
}
use tesser.Prelude.Int.{ℤ, pos, ◌+ℤ◌, ◌≤ℤ◌, +ℤ_parts, eq_of_parts, pos_part, neg_part}
use tesser.Prelude.HashMap.{lookup, remove, Values, remove-Values}
use tesser.Prelude.Bytes.{text_key}
use tesser.Decimal.{Decimal, units, nought, ◌≤?◌}
use tesser.Decimal.Laws.{IsExact}
use tesser.Decimal.Parts.{IsPos, IsNonneg}
use tesser.Core.Ids.{Symbol}
use tesser.Core.Types.{Text, Time, Side, Fill, Order}
use tesser.Paper.Conditional.{TriggeredOrder, trigger_with_price}
use tesser.Paper.Matching.{MatchingEngine, RestingOrder}
use tesser.Paper.Matching.Booking.{apply_fill_accounting}
use tesser.Paper.Matching.Orders.{Attached, spawn_attached_orders}
use tesser.Paper.Matching.Trades.{
  Resting, Matched, meet, match_resting, reseeded, reseed_all, reseed_queue_positions, activated,
  is_due, activate_all, activate_due, is_canceled, keep_open, finalize_cancels, advance_time,
  retire_one, retire, book_triggered, trigger_conditionals, process_trade,
}
use tesser.Paper.Matching.Trades.Meet.{IsSettled, IsFillOf, traded, meet-IsFair}

module _ {D : Type 0} ⦃d : Decimal D⦄ where
  abbrev pub AllSettled : MatchingEngine D → Type 0
  AllSettled e = Values (IsSettled {D = D}) e.open_orders

  -- a fill that a trade may give to one of these orders
  abbrev pub IsGiven : Side → D → Resting D → Fill D → Type 0
  IsGiven aggressor price [] f = ⊥
  IsGiven aggressor price ((id, r) ∷ resting) f =
      IsFillOf aggressor price id r f ⊎ IsGiven aggressor price resting f

  pub traded-append : (xs ys : List (Fill D)) → traded (xs ++ ys) ≡ traded xs +ℤ traded ys
  traded-append [] ys = eq_of_parts _ _ (omega (arith, +ℤ_parts (pos 0) (traded ys)))
  traded-append (x ∷ xs) ys =
      let u = units x.fill_quantity in
      eq_of_parts _ _ (
        omega (
          arith,
          ap (λ z. pos_part z) (traded-append xs ys),
          ap (λ z. neg_part z) (traded-append xs ys),
          +ℤ_parts u (traded (xs ++ ys)),
          +ℤ_parts u (traded xs),
          +ℤ_parts (u +ℤ traded xs) (traded ys),
          +ℤ_parts (traded xs) (traded ys),
        ))

  -- What a trade leaves after all orders.
  pub record AllFair (aggressor : Side) (price quantity : D) (resting : Resting D) (m : Matched D)
      : Type 0 where
    pub given : All (IsGiven aggressor price resting) m.generated
    pub all_used : traded m.generated +ℤ units m.left ≡ units quantity
    pub left_nonneg : IsNonneg m.left
    pub settled : Values (IsSettled {D = D}) m.resting

module _ {D : Type 0} ⦃d : Decimal D⦄ (laws : IsExact D) (code : Symbol → Text) where
  match_resting-AllFair :
      (aggressor : Side) (price size : D) (timestamp : Time) (resting : Resting D) (quantity : D)
      (e : MatchingEngine D)
      → Values (IsSettled {D = D}) resting
      → IsNonneg quantity
      → AllFair aggressor price quantity resting
          (match_resting code aggressor price size timestamp resting quantity e)
  match_resting-AllFair aggressor price size timestamp [] quantity e s n = record {
    given = tt;
    all_used = eq_of_parts _ _ (omega (arith, +ℤ_parts (pos 0) (units quantity)));
    left_nonneg = n;
    settled = tt;
  }
  match_resting-AllFair aggressor price size timestamp ((id, r) ∷ resting) quantity e (s, ss) n =
      let m = meet code aggressor price size timestamp id r quantity e in
      let fair = meet-IsFair laws code aggressor price size timestamp id r quantity e s n in
      let rest =
        match_resting-AllFair aggressor price size timestamp resting m.left m.engine ss
          fair.left_nonneg in
      let more = match_resting code aggressor price size timestamp resting m.left m.engine in
      record {
        given =
            All-append (IsGiven aggressor price ((id, r) ∷ resting)) m.generated more.generated
              (All-imp (λ f g. inl g) m.generated fair.fair_fills)
              (All-imp (λ f g. inr g) more.generated rest.given);
        all_used =
            ap (λ x. x +ℤ units more.left) (traded-append m.generated more.generated)
            ∙ joined (traded m.generated) (traded more.generated) (units more.left) (units m.left)
                (units quantity) rest.all_used fair.all_used;
        left_nonneg = rest.left_nonneg;
        settled = (fair.settled, rest.settled);
      }
    where
      joined : (a b c x y : ℤ) → b +ℤ c ≡ x → a +ℤ x ≡ y → (a +ℤ b) +ℤ c ≡ y
      joined a b c x y h k =
          eq_of_parts _ _
            (ground (arith, h, k, +ℤ_parts a b, +ℤ_parts (a +ℤ b) c, +ℤ_parts b c, +ℤ_parts a x))

  -- the clock leaves what is filled and what remains

  reseeded-IsSettled :
      (e : MatchingEngine D) (r : RestingOrder D) → IsSettled r → IsSettled (reseeded e r)
  reseeded-IsSettled e r s = elim (Bool-cases (not r.active || (r.remaining ≤? nought))) [
    | inl b ↦ rw b s
    | inr b ↦ rw b (record {
      whole = s.whole;
      filled_nonneg = s.filled_nonneg;
      remaining_nonneg = s.remaining_nonneg;
    })
  ]

  reseed_all-Settled :
      (e : MatchingEngine D) (resting : Resting D)
      → Values (IsSettled {D = D}) resting
      → Values (IsSettled {D = D}) (reseed_all e resting)
  reseed_all-Settled e [] s = tt
  reseed_all-Settled e ((id, r) ∷ resting) (s, ss) =
      (reseeded-IsSettled e r s, reseed_all-Settled e resting ss)

  activated-IsSettled :
      (now : Time) (e : MatchingEngine D) (r : RestingOrder D)
      → IsSettled r
      → IsSettled (if is_due now r then activated now e r else r)
  activated-IsSettled now e r s = elim (Bool-cases (is_due now r)) [
    | inl b ↦ rw b (record {
      whole = s.whole;
      filled_nonneg = s.filled_nonneg;
      remaining_nonneg = s.remaining_nonneg;
    })
    | inr b ↦ rw b s
  ]

  activate_all-Settled :
      (now : Time) (e : MatchingEngine D) (resting : Resting D)
      → Values (IsSettled {D = D}) resting
      → Values (IsSettled {D = D}) (activate_all now e resting)
  activate_all-Settled now e [] s = tt
  activate_all-Settled now e ((id, r) ∷ resting) (s, ss) =
      (activated-IsSettled now e r s, activate_all-Settled now e resting ss)

  keep_open-Settled :
      (now : Time) (resting : Resting D)
      → Values (IsSettled {D = D}) resting
      → Values (IsSettled {D = D}) (keep_open now resting)
  keep_open-Settled now [] s = tt
  keep_open-Settled now ((id, r) ∷ resting) (s, ss) = elim (Bool-cases (is_canceled now r)) [
    | inl b ↦ rw b (keep_open-Settled now resting ss)
    | inr b ↦ rw b (s, keep_open-Settled now resting ss)
  ]

  pub advance_time-AllSettled :
      (now : Time) (e : MatchingEngine D) → AllSettled e → AllSettled (advance_time now e)
  unfolding advance_time finalize_cancels activate_due reseed_queue_positions
  advance_time-AllSettled now e s = elim (Bool-cases e.queue_reset) [
    | inl b ↦
        rw (b, advance_time)
          (keep_open-Settled now _
            (activate_all-Settled now _ _ (reseed_all-Settled _ e.open_orders s)))
    | inr b ↦
        rw (b, advance_time) (keep_open-Settled now _ (activate_all-Settled now _ e.open_orders s))
  ]

  pub spawned_open :
      (drawn : Attached) (o : Order D) (e : MatchingEngine D)
      → (spawn_attached_orders drawn o e).open_orders ≡ e.open_orders
  unfolding spawn_attached_orders
  spawned_open drawn o e = ground arith

  retire_one-AllSettled :
      (drawn : Attached) (id : Text) (e : MatchingEngine D)
      → AllSettled e
      → AllSettled (retire_one code drawn id e)
  retire_one-AllSettled drawn id e s = elim (Option-cases (lookup id e.open_orders)) [
    | inl h ↦ rw (h, retire_one) s
    | inr (r, h) ↦
        let rest = record e { open_orders = remove id e.open_orders } in
        rw (h, retire_one)
          (subst (Values (IsSettled {D = D})) (sym (spawned_open drawn r.order rest))
            (remove-Values (IsSettled {D = D}) id e.open_orders s))
  ]

  retire-AllSettled :
      (drawn : Text → Attached) (finished : List Text) (e : MatchingEngine D)
      → AllSettled e
      → AllSettled (retire code drawn finished e)
  retire-AllSettled drawn [] e s = s
  retire-AllSettled drawn (id ∷ finished) e s =
      retire-AllSettled drawn finished (retire_one code (drawn id) id e)
        (retire_one-AllSettled (drawn id) id e s)

  book_triggered_open :
      (triggered : List (TriggeredOrder D)) (e : MatchingEngine D)
      → (book_triggered code triggered e).open_orders ≡ e.open_orders
  unfolding apply_fill_accounting
  book_triggered_open [] e = refl
  book_triggered_open (t ∷ triggered) e = book_triggered_open triggered _

  triggered_open :
      (price : D) (timestamp : Time) (e : MatchingEngine D)
      → (trigger_conditionals code price timestamp e).open_orders ≡ e.open_orders
  unfolding trigger_conditionals
  triggered_open price timestamp e =
      let fired = trigger_with_price price timestamp e.conditional_orders in
      book_triggered_open fired.1 (record e { conditional_orders = fired.0 })

  within : (a b c : ℤ) → a +ℤ b ≡ c → pos 0 ≤ℤ b → a ≤ℤ c
  within a b c h n = ground (arith, h, +ℤ_parts a b)

  module _ (drawn : Text → Attached) (aggressor : Side) (price quantity : D) (timestamp : Time)
      (e : MatchingEngine D) (s : AllSettled e) where
    now_settled : AllSettled (advance_time timestamp e)
    now_settled = advance_time-AllSettled timestamp e s

    all_fair :
        IsNonneg quantity
        → AllFair aggressor price quantity (advance_time timestamp e).open_orders (
            match_resting code aggressor price quantity timestamp
              (advance_time timestamp e).open_orders
              quantity
              (advance_time timestamp e))
    all_fair n =
        match_resting-AllFair aggressor price quantity timestamp
          (advance_time timestamp e).open_orders quantity (advance_time timestamp e) now_settled n

    -- When all resting orders are settled, a trade of a positive quantity gives them fills only of that
    -- quantity in all: each goes to an active order on the side that the trade takes from, within what
    -- remains of that order, and at the price of the trade, which is no worse than the order's own.
    pub process_trade_fair :
        IsPos quantity
        → All
            (IsGiven aggressor price (advance_time timestamp e).open_orders)
            (process_trade code drawn aggressor price quantity timestamp e).0
          × (traded (process_trade code drawn aggressor price quantity timestamp e).0
              ≤ℤ units quantity)
    unfolding process_trade
    process_trade_fair p =
        let some_left : (quantity ≤? nought) ≡ false = ground (arith, laws.units-nought) in
        let fair = all_fair (omega (arith, p)) in
        let matched =
          match_resting code aggressor price quantity timestamp
            (advance_time timestamp e).open_orders quantity (advance_time timestamp e) in
        rw (some_left, process_trade)
          (
            fair.given,
            within (traded matched.generated) (units matched.left) (units quantity) fair.all_used
                fair.left_nonneg,
          )

    pub process_trade-AllSettled :
        AllSettled (process_trade code drawn aggressor price quantity timestamp e).1
    unfolding process_trade
    process_trade-AllSettled = elim (Bool-cases (quantity ≤? nought)) [
      | inl b ↦ rw (b, process_trade) now_settled
      | inr b ↦
          let m =
            match_resting code aggressor price quantity timestamp
              (advance_time timestamp e).open_orders quantity (advance_time timestamp e) in
          rw (b, process_trade)
            (subst (Values (IsSettled {D = D})) (sym (triggered_open price timestamp _)) (
              retire-AllSettled drawn m.finished (record m.engine { open_orders = m.resting })
                (all_fair (ground (arith, laws.units-nought))).settled))
    ]
