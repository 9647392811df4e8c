-- ===== src/Live.antt =====
-- tesser-cli/src/live.rs: how the live loop books a fill, the first part of `handle_fill`. What it does
-- then, from the persistence of the entries on, is not modelled.
mod Tests
use tesser.Prelude.{
  ℕ, suc, ◌+◌, ◌^◌, ◌%◌, ◌<◌, ◌≡◌, ◌⊎◌, inl, inr, refl, ap, ◌∙◌, Option, none, some, List, [], ◌∷◌,
  arith, length,
}
use tesser.Prelude.Int.{◌+ℤ◌}
use tesser.Prelude.Result.{Result, ok, err}
use tesser.Decimal.{Decimal, units}
use tesser.Decimal.Laws.{IsExact}
use tesser.Decimal.Parts.{IsNonneg}
use tesser.Core.Ids.{AssetId, Symbol}
use tesser.Core.Types.{Text, Uuid, Time, Instrument, Fill}
use tesser.Ledger.{LedgerEntry, with_sequence}
use tesser.Ledger.Journal.{entries_from_fill, entries_from_fill-few}
use tesser.Ledger.Sequencer.{LedgerSequencer, next, numbers_from}
use tesser.Portfolio.{Portfolio, PortfolioError}
use tesser.Portfolio.Updates.{
  apply_fill_positions, apply_ledger_entries, signed_position_qty, position, opened, positions_on,
}
use tesser.Portfolio.Updates.Fills.{apply_fill_positions_moves, apply_ledger_entries-position}
use tesser.Portfolio.Holding.Signed.{IsPosition, signed_fill}

pub data LiveError : Type 0 where
  unknown_instrument : Symbol → LiveError
  portfolio_failed : PortfolioError → LiveError

module _ {D : Type 0} where
  -- the loop that numbers the entries
  abbrev pub number_entries :
      List (LedgerEntry D) → LedgerSequencer → List (LedgerEntry D) × LedgerSequencer
  number_entries [] s = ([], s)
  number_entries (entry ∷ entries) s =
      let (s', sequence) = next s in
      let (rest, s'') = number_entries entries s' in (with_sequence sequence entry ∷ rest, s'')

-- The portfolio and the sequencer after a fill, with the entries that are then persisted.
module _ {D : Type 0} ⦃d : Decimal D⦄ (code : AssetId → Text) (draw : Text → Uuid) (now : Time)
    (render : Symbol → Text) where
  unfoldable pub handle_fill :
      (Symbol → Option (Instrument D))
      → Fill D
      → Portfolio D
      → LedgerSequencer
      → Result LiveError (Portfolio D × LedgerSequencer × List (LedgerEntry D))
  handle_fill get f p s = elim (get f.symbol) [
    | none ↦ err (unknown_instrument f.symbol)
    | some i ↦ elim (apply_fill_positions code get f p) [
      | err e ↦ err (portfolio_failed e)
      | ok (p', impact) ↦
          let (entries, s') =
            number_entries
              (entries_from_fill draw now render
                (record { fill = f; instrument = i; realized_pnl = impact.realized_pnl }))
              s in
          ok (apply_ledger_entries code entries p', s', entries)
    ]
  ]

abbrev pub sequences : {D : Type 0} → List (LedgerEntry D) → List ℕ
sequences [] = []
sequences (entry ∷ entries) = entry.sequence ∷ sequences entries

module _ {D : Type 0} where
  number_entries-length :
      (entries : List (LedgerEntry D)) (s : LedgerSequencer)
      → length (number_entries entries s).0 ≡ length entries
  number_entries-length [] s = refl
  number_entries-length (entry ∷ entries) s =
      omega (arith, number_entries-length entries (next s).0)

  number_entries-sequences :
      (entries : List (LedgerEntry D)) (s : LedgerSequencer)
      → s.counter + length entries < 2 ^ 64
      → sequences (number_entries entries s).0 ≡ numbers_from (suc s.counter) (length entries)
  unfolding next with_sequence
  number_entries-sequences [] s h = refl
  number_entries-sequences (entry ∷ entries) s h =
      let value : (s.counter + 1) % 2 ^ 64 ≡ suc s.counter = omega arith in
      let later =
        number_entries-sequences entries (record { counter = suc s.counter }) (omega arith) in
      rw value (ap (λ r. suc s.counter ∷ r) later)

module _ {D : Type 0} ⦃d : Decimal D⦄ (code : AssetId → Text) (draw : Text → Uuid) (now : Time)
    (render : Symbol → Text) where
  signed-position :
      (symbol : Symbol) (p p' : Portfolio D)
      → position symbol p' ≡ position symbol p
      → signed_position_qty symbol p' ≡ signed_position_qty symbol p
  unfolding signed_position_qty
  signed-position symbol p p' e = ground (arith, e)

  pub handle_fill_books :
      (laws : IsExact D) (get : Symbol → Option (Instrument D)) (f : Fill D) (p : Portfolio D)
      (s : LedgerSequencer) {i : Instrument D}
      → get f.symbol ≡ some i
      → IsNonneg f.fill_quantity
      → IsPosition (opened f (positions_on code f.symbol.exchange p))
      → s.counter + 4 < 2 ^ 64
      → (p' : Portfolio D) × (s' : LedgerSequencer) × (entries : List (LedgerEntry D))
        × (handle_fill code draw now render get f p s ≡ ok (p', s', entries))
        × (units (signed_position_qty f.symbol p')
            ≡ units (signed_position_qty f.symbol p) +ℤ units (signed_fill f))
        × ((symbol : Symbol) → (symbol ≡ f.symbol) ⊎ (position symbol p' ≡ position symbol p))
        × (sequences entries ≡ numbers_from (suc s.counter) (length entries))
  unfolding handle_fill
  handle_fill_books laws get f p s {i = i} known nonneg sound room =
      let (p₁, impact, applied, moved, others) =
        apply_fill_positions_moves code laws get f p known nonneg sound in
      let drafts =
        entries_from_fill draw now render
          (record { fill = f; instrument = i; realized_pnl = impact.realized_pnl }) in
      let few =
        entries_from_fill-few draw now render
          (record { fill = f; instrument = i; realized_pnl = impact.realized_pnl }) in
      let numbered = number_entries drafts s in
      let p' = apply_ledger_entries code numbered.0 p₁ in
      let kept : (symbol : Symbol) → position symbol p' ≡ position symbol p₁ =
        apply_ledger_entries-position code numbered.0 p₁ in
      (
        p',
        numbered.1,
        numbered.0,
        ground (arith, known, applied),
        cc (signed-position f.symbol p₁ p' (kept f.symbol), moved),
        λ symbol. elim (others symbol) [ inl e ↦ inl e | inr e ↦ inr (kept symbol ∙ e) ],
        rw (number_entries-length drafts s)
            (number_entries-sequences drafts s (omega (arith, few))),
      )
