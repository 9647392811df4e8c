-- ===== src/Portfolio/Updates/Fills.antt =====
-- Which positions a fill changes, and by how much.
use tesser.Prelude.{
  ◌≡◌, ◌⊎◌, inl, inr, Option, some, List, [], ◌∷◌, arith, refl, ap, ◌∙◌, ◌==◌, if◌then◌else◌,
  unwrap_or, Bool-cases, ==_iff,
}
use tesser.Prelude.Key.{nat_key}
use tesser.Prelude.HashMap.{lookup, insert, lookup-insert, lookup-entry_or}
use tesser.Prelude.Int.{◌+ℤ◌, eq_of_parts}
use tesser.Prelude.Result.{ok}
use tesser.Decimal.{Decimal, units, nought, neg}
use tesser.Decimal.Laws.{IsExact}
use tesser.Decimal.Parts.{IsNonneg, nought_parts, neg_parts}
use tesser.Core.Ids.{
  ExchangeId, AssetId, asset_key, Symbol, same_symbol, symbol_key, same_symbol_iff,
}
use tesser.Core.Types.{Text, Instrument, Fill, Position}
use tesser.Portfolio.{
  Portfolio, SubAccount, ensure_currency, with_account, empty_account, update_drawdown_state,
}
use tesser.Ledger.{LedgerEntry}
use tesser.Portfolio.Holding.{fill_position, signed, realized_delta}
use tesser.Portfolio.Holding.Signed.{IsPosition, signed_fill, fill_position-signed}
use tesser.Portfolio.Updates.{
  opened, fill_account, positions_on, position, signed_position_qty, apply_fill_positions,
  FillLedgerImpact, book_entry, book_entries, apply_ledger_entries,
}

module _ {D : Type 0} ⦃d : Decimal D⦄ (code : AssetId → Text) where
  position-update :
      (symbol : Symbol) (p : Portfolio D)
      → position symbol (update_drawdown_state p) ≡ position symbol p
  unfolding update_drawdown_state position
  position-update symbol p = ground arith

  -- the account that a fill finds or opens keeps its positions until the fill is put in
  abbrev found : ExchangeId → Portfolio D → SubAccount D
  found e p =
      unwrap_or (lookup e p.sub_accounts)
        (ensure_currency code p.reporting_currency p.reporting_currency (empty_account e))

  position-with_account :
      (e : ExchangeId) (f : SubAccount D → SubAccount D) (p : Portfolio D) (symbol : Symbol)
      → position symbol (with_account code e f p) ≡ (
          if symbol.exchange == e
          then lookup symbol (f (found e p)).positions
          else position symbol p)
  unfolding position with_account
  position-with_account e f p symbol = ground (
    arith,
    lookup-entry_or e symbol.exchange
        (ensure_currency code p.reporting_currency p.reporting_currency (empty_account e)) f
        p.sub_accounts,
  )

  found-positions :
      (e : ExchangeId) (p : Portfolio D) → (found e p).positions ≡ positions_on code e p
  unfolding ensure_currency
  found-positions e p = ground arith

  position-on :
      (symbol : Symbol) (p : Portfolio D)
      → position symbol p ≡ lookup symbol (positions_on code symbol.exchange p)
  unfolding position
  position-on symbol p = ground arith

  filled-positions :
      (r : AssetId) (i : Instrument D) (f : Fill D) (a : SubAccount D)
      → (fill_account code r i f a).positions
        ≡ insert f.symbol (fill_position f (opened f a.positions)) a.positions
  unfolding ensure_currency
  filled-positions r i f a = refl

  position-fill_account :
      (i : Instrument D) (f : Fill D) (p : Portfolio D) (symbol : Symbol)
      → position symbol
          (with_account code f.symbol.exchange (fill_account code p.reporting_currency i f) p)
        ≡ (if same_symbol symbol f.symbol
            then some (fill_position f (opened f (positions_on code f.symbol.exchange p)))
            else position symbol p)
  position-fill_account i f p symbol =
      let e = f.symbol.exchange in
      let fill = fill_account code p.reporting_currency i f in
      let before = positions_on code e p in
      let put = insert f.symbol (fill_position f (opened f before)) before in
      let updated : (fill (found e p)).positions ≡ put =
        filled-positions p.reporting_currency i f (found e p)
        ∙ ap (λ ps. insert f.symbol (fill_position f (opened f ps)) ps) (found-positions e p) in
      let there : lookup symbol (fill (found e p)).positions ≡ lookup symbol put =
        ap (λ ps. lookup symbol ps) updated in
      let kept : position symbol p ≡ lookup symbol (positions_on code symbol.exchange p) =
        position-on symbol p in
      let looked = lookup-insert f.symbol symbol (fill_position f (opened f before)) before in
      let found_at = position-with_account e fill p symbol in
      elim (Bool-cases (symbol.exchange == e)) [
        | inl same ↦
            let here : lookup symbol (positions_on code symbol.exchange p) ≡ lookup symbol before =
              ap (λ x. lookup symbol (positions_on code x p)) ((==_iff symbol.exchange e).0 same) in
            cc (same, here, there, kept, looked, found_at)
        | inr other ↦ cc (other, found_at)
      ]

  signed-opened :
      (laws : IsExact D) (f : Fill D) (p : Portfolio D)
      → units (signed (opened f (positions_on code f.symbol.exchange p)))
        ≡ units (signed_position_qty f.symbol p)
  unfolding signed signed_position_qty
  signed-opened laws f p = ground (
    arith,
    position-on f.symbol p,
    nought_parts laws,
    neg_parts laws nought,
    eq_of_parts (units (neg d.nought)) (units d.nought),
  )

  pub signed-at :
      (symbol : Symbol) (p : Portfolio D) {q : Position D}
      → position symbol p ≡ some q
      → signed_position_qty symbol p ≡ signed q
  unfolding signed_position_qty signed
  signed-at symbol p e = ground (arith, e)

  -- the position of the fill's symbol after the fill
  pub position-filled :
      (i : Instrument D) (f : Fill D) (p : Portfolio D)
      → (let p' =
            with_account code f.symbol.exchange (fill_account code p.reporting_currency i f) p in
          position f.symbol (update_drawdown_state p')
          ≡ some (fill_position f (opened f (positions_on code f.symbol.exchange p))))
  position-filled i f p =
      let p' = with_account code f.symbol.exchange (fill_account code p.reporting_currency i f) p in
      let same = (same_symbol_iff f.symbol f.symbol).1 refl in
      cc (same, position-update f.symbol p', position-fill_account i f p f.symbol)

  position-others :
      (i : Instrument D) (f : Fill D) (p : Portfolio D) (symbol : Symbol)
      → (let p' =
            with_account code f.symbol.exchange (fill_account code p.reporting_currency i f) p in
          (symbol ≡ f.symbol) ⊎ (position symbol (update_drawdown_state p') ≡ position symbol p))
  position-others i f p symbol =
      let p' = with_account code f.symbol.exchange (fill_account code p.reporting_currency i f) p in
      elim (Bool-cases (same_symbol symbol f.symbol)) [
        | inl same ↦ inl ((same_symbol_iff symbol f.symbol).0 same)
        | inr other ↦
            inr (cc (other, position-update symbol p', position-fill_account i f p symbol))
      ]

  -- A fill of an instrument that the registry knows succeeds. It moves the signed quantity of its symbol
  -- by its own signed quantity, and leaves the position of every other symbol. The hypotheses ask for a
  -- fill quantity that is not below zero, and for a sound position of the symbol if there is one.
  pub apply_fill_positions_moves :
      (laws : IsExact D) (get : Symbol → Option (Instrument D)) (f : Fill D) (p : Portfolio D)
      {i : Instrument D}
      → get f.symbol ≡ some i
      → IsNonneg f.fill_quantity
      → IsPosition (opened f (positions_on code f.symbol.exchange p))
      → (p' : Portfolio D) × (impact : FillLedgerImpact D) × (apply_fill_positions code get f p
          ≡ ok (p', impact))
        × (units (signed_position_qty f.symbol p')
            ≡ units (signed_position_qty f.symbol p) +ℤ units (signed_fill f))
        × ((symbol : Symbol) → (symbol ≡ f.symbol) ⊎ (position symbol p' ≡ position symbol p))
  unfolding apply_fill_positions
  apply_fill_positions_moves laws get f p {i = i} known nonneg sound =
      let p' = with_account code f.symbol.exchange (fill_account code p.reporting_currency i f) p in
      (
        update_drawdown_state p',
        record {
          realized_pnl = realized_delta i.kind f (opened f (positions_on code f.symbol.exchange p));
        },
        ground (arith, known),
        (let (valid, moved) =
              fill_position-signed laws f (opened f (positions_on code f.symbol.exchange p)) sound
                nonneg in
            let after = signed-at f.symbol (update_drawdown_state p') (position-filled i f p) in
            cc (moved, after, signed-opened laws f p)),
        λ symbol. position-others i f p symbol,
      )

  booked-positions :
      (r : AssetId) (entry : LedgerEntry D) (a : SubAccount D)
      → (book_entry code r entry a).positions ≡ a.positions
  unfolding ensure_currency
  booked-positions r entry a = refl

  position-book_entry :
      (entry : LedgerEntry D) (p : Portfolio D) (symbol : Symbol)
      → position symbol
          (with_account code entry.exchange (book_entry code p.reporting_currency entry) p)
        ≡ position symbol p
  position-book_entry entry p symbol =
      let e = entry.exchange in
      let book = book_entry code p.reporting_currency entry in
      let kept : (book (found e p)).positions ≡ positions_on code e p =
        booked-positions p.reporting_currency entry (found e p) ∙ found-positions e p in
      let there : lookup symbol (book (found e p)).positions
          ≡ lookup symbol (positions_on code e p) =
        ap (λ ps. lookup symbol ps) kept in
      let before = position-on symbol p in
      let after = position-with_account e book p symbol in
      elim (Bool-cases (symbol.exchange == e)) [
        | inl same ↦
            let here : lookup symbol (positions_on code symbol.exchange p)
                ≡ lookup symbol (positions_on code e p) =
              ap (λ x. lookup symbol (positions_on code x p)) ((==_iff symbol.exchange e).0 same) in
            cc (same, here, there, before, after)
        | inr other ↦ cc (other, after)
      ]

  position-book_entries :
      (entries : List (LedgerEntry D)) (p : Portfolio D) (symbol : Symbol)
      → position symbol (book_entries code entries p) ≡ position symbol p
  position-book_entries [] p symbol = refl
  position-book_entries (entry ∷ entries) p symbol =
      position-book_entries entries
        (with_account code entry.exchange (book_entry code p.reporting_currency entry) p) symbol
      ∙ position-book_entry entry p symbol

  -- entries of the ledger move cash only
  pub apply_ledger_entries-position :
      (entries : List (LedgerEntry D)) (p : Portfolio D) (symbol : Symbol)
      → position symbol (apply_ledger_entries code entries p) ≡ position symbol p
  unfolding apply_ledger_entries
  apply_ledger_entries-position entries p symbol =
      position-update symbol (book_entries code entries p) ∙ position-book_entries entries p symbol
