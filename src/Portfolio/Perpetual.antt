-- ===== src/Portfolio/Perpetual.antt =====
-- What opening and closing a perpetual position books.
use tesser.Prelude.{◌+◌, ◌≡◌, refl, ap, ◌∙◌, none, some, List, [], ◌∷◌, ◌++◌, arith, if◌then◌else◌}
use tesser.Prelude.Int.{
  ◌+ℤ◌, ◌-ℤ◌, pos_part, neg_part, eq_of_parts, +ℤ_parts, -ℤ_parts, neg_ℤ_parts,
}
use tesser.Decimal.{Decimal, units, of_ℕ, nought, ◌⊕◌, ◌⊖◌, ◌⊗◌, neg}
use tesser.Decimal.Laws.{IsExact}
use tesser.Decimal.Parts.{up, down, nought_parts, add_parts, neg_parts}
use tesser.Core.Ids.{AssetId, same_asset, same_asset_iff, Symbol}
use tesser.Core.Types.{Text, Uuid, Time, linear_perpetual, buy, sell, Instrument, Fill, Position}
use tesser.Ledger.{LedgerEntry, LedgerType, adjustment, trade_realized_pnl, new}
use tesser.Prelude.Bytes.{codes}
use tesser.Ledger.Journal.{
  FillLedgerContext, entries_from_fill, direction_of, build_entry, entry_of, derivative_entries,
}
use tesser.Portfolio.Holding.{realized_delta, calculate_realized_pnl}

module _ {D : Type 0} ⦃d : Decimal D⦄ where
  -- The sum of the amounts that the entries book on an asset.
  abbrev pub booked : AssetId → List (LedgerEntry D) → D
  booked a [] = nought
  booked a (entry ∷ entries) =
      let rest = booked a entries in if same_asset entry.asset a then entry.amount ⊕ rest else rest

module _ {D : Type 0} ⦃d : Decimal D⦄ (laws : IsExact D) where
  booked-append :
      (a : AssetId) (xs ys : List (LedgerEntry D))
      → up (booked a (xs ++ ys)) + down (booked a xs) + down (booked a ys)
        ≡ down (booked a (xs ++ ys)) + up (booked a xs) + up (booked a ys)
  booked-append a [] ys = omega (arith, nought_parts laws)
  booked-append a (x ∷ xs) ys = ground (
    arith,
    booked-append a xs ys,
    add_parts laws x.amount (booked a (xs ++ ys)),
    add_parts laws x.amount (booked a xs),
  )

  module _ (draw : Text → Uuid) (now : Time) (render : Symbol → Text) where
    booked-entry :
        (a : AssetId) (amount : D) (f : Fill D) (t : LedgerType) (component : Text)
        → (let b = booked a (entry_of draw now render a amount f t component) in
            up b + down amount ≡ down b + up amount)
    unfolding build_entry new
    booked-entry a amount f t component =
        ground (arith, (same_asset_iff a a).1 refl, nought_parts laws, add_parts laws amount nought)

    entries-perpetual :
        (f : Fill D) (i : Instrument D) (realized : D)
        → i.kind ≡ linear_perpetual
        → f.fee ≡ none
        → (let a = i.settlement_currency in
            let moved = neg ((f.fill_price ⊗ f.fill_quantity) ⊗ direction_of f.side) in
            let context : FillLedgerContext D = record {
              fill = f;
              instrument = i;
              realized_pnl = realized;
            } in
            entries_from_fill draw now render context
            ≡ entry_of draw now render a moved f adjustment (codes "settlement")
              ++ (entry_of draw now render a realized f trade_realized_pnl (codes "realized_pnl")
                  ++ []))
    unfolding entries_from_fill derivative_entries
    entries-perpetual f i realized kind fee = rw (kind, fee) refl

    -- what a fill of a perpetual without a fee books on the settlement currency
    booked-fill :
        (f : Fill D) (i : Instrument D) (realized : D)
        → i.kind ≡ linear_perpetual
        → f.fee ≡ none
        → (let entries =
              entries_from_fill draw now render
                (record { fill = f; instrument = i; realized_pnl = realized }) in
            let moved = neg ((f.fill_price ⊗ f.fill_quantity) ⊗ direction_of f.side) in
            let b = booked i.settlement_currency entries in
            up b + down moved + down realized ≡ down b + up moved + up realized)
    booked-fill f i realized kind fee =
        let a = i.settlement_currency in
        let moved = neg ((f.fill_price ⊗ f.fill_quantity) ⊗ direction_of f.side) in
        let first = entry_of draw now render a moved f adjustment (codes "settlement") in
        let second =
          entry_of draw now render a realized f trade_realized_pnl (codes "realized_pnl") in
        rw (entries-perpetual f i realized kind fee) (
          omega (
            arith,
            booked-append a first (second ++ []),
            booked-append a second [],
            nought_parts laws,
            booked-entry a moved f adjustment (codes "settlement"),
            booked-entry a realized f trade_realized_pnl (codes "realized_pnl"),
          ))

  moved-buy :
      (f : Fill D)
      → f.side ≡ buy
      → (let paid = f.fill_price ⊗ f.fill_quantity in
          let moved = neg (paid ⊗ direction_of f.side) in
          up moved + up paid ≡ down moved + down paid)
  moved-buy f b =
      let paid = f.fill_price ⊗ f.fill_quantity in
      rw b (
        omega (
          arith,
          neg_parts laws (paid ⊗ of_ℕ 1),
          ap pos_part (laws.mul_of_one paid),
          ap neg_part (laws.mul_of_one paid),
        ))

  moved-sell :
      (f : Fill D)
      → f.side ≡ sell
      → (let received = f.fill_price ⊗ f.fill_quantity in
          let moved = neg (received ⊗ direction_of f.side) in
          up moved + down received ≡ down moved + up received)
  moved-sell f b =
      let received = f.fill_price ⊗ f.fill_quantity in
      let turned = received ⊗ neg (of_ℕ 1) in
      rw b (
        omega (
          arith,
          neg_parts laws turned,
          neg_ℤ_parts (units received),
          ap pos_part (laws.mul_neg_one received),
          ap neg_part (laws.mul_neg_one received),
        ))

  -- the profit of a long position of a linear perpetual that a sale closes
  realized-close :
      (close : Fill D) (q : Position D) {entry : D}
      → close.side ≡ sell
      → q.side ≡ some buy
      → q.entry_price ≡ some entry
      → q.quantity ≡ close.fill_quantity
      → realized_delta linear_perpetual close q ≡ (close.fill_price ⊖ entry) ⊗ close.fill_quantity
  unfolding realized_delta calculate_realized_pnl
  realized-close close q s b e n = ground (arith, s, b, e, n)

  module _ (draw : Text → Uuid) (now : Time) (render : Symbol → Text) where
    -- A long position of a linear perpetual is opened by one fill and closed by another of the same
    -- quantity, without fees. The entries of the two fills move the settlement currency by the proceeds
    -- of the sale less those of the purchase, and by the realized profit besides, so that the profit is
    -- booked a second time.
    pub perpetual_booked_twice :
        (i : Instrument D) (open_fill close : Fill D) (q : Position D)
        → i.kind ≡ linear_perpetual
        → open_fill.side ≡ buy
        → close.side ≡ sell
        → open_fill.fee ≡ none
        → close.fee ≡ none
        → close.fill_quantity ≡ open_fill.fill_quantity
        → q.side ≡ some buy
        → q.entry_price ≡ some open_fill.fill_price
        → q.quantity ≡ close.fill_quantity
        → (let opened : FillLedgerContext D = record {
          fill = open_fill;
          instrument = i;
          realized_pnl = nought;
        } in
            let closed : FillLedgerContext D = record {
              fill = close;
              instrument = i;
              realized_pnl = realized_delta i.kind close q;
            } in
            let entries =
              entries_from_fill draw now render opened
              ++ entries_from_fill draw now render closed in
            let paid = open_fill.fill_price ⊗ open_fill.fill_quantity in
            let received = close.fill_price ⊗ close.fill_quantity in
            let profit = (close.fill_price ⊖ open_fill.fill_price) ⊗ close.fill_quantity in
            units (booked i.settlement_currency entries)
            ≡ (units received -ℤ units paid) +ℤ units profit)
    perpetual_booked_twice i open_fill close q kind b s f f' n qs qe qn =
        let a = i.settlement_currency in
        let paid = open_fill.fill_price ⊗ open_fill.fill_quantity in
        let received = close.fill_price ⊗ close.fill_quantity in
        let r = realized_delta i.kind close q in
        let profit = (close.fill_price ⊖ open_fill.fill_price) ⊗ close.fill_quantity in
        let opened =
          entries_from_fill draw now render
            (record { fill = open_fill; instrument = i; realized_pnl = nought }) in
        let closed =
          entries_from_fill draw now render
            (record { fill = close; instrument = i; realized_pnl = r }) in
        let gain : r ≡ profit =
          ap (λ k. realized_delta k close q) kind ∙ realized-close close q s qs qe qn in
        let same : units r ≡ units profit = ap (λ x. units x) gain in
        let swing = units received -ℤ units paid in
        eq_of_parts (units (booked a (opened ++ closed))) (swing +ℤ units profit) (
          ground (
            arith,
            same,
            booked-append a opened closed,
            booked-fill draw now render open_fill i nought kind f,
            booked-fill draw now render close i r kind f',
            nought_parts laws,
            moved-buy open_fill b,
            moved-sell close s,
            -ℤ_parts (units received) (units paid),
            +ℤ_parts swing (units profit),
          ))
