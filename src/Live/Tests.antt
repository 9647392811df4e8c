-- ===== src/Live/Tests.antt =====
-- A sale that turns a long position around, booked by the live loop.
use tesser.Prelude.{◌≡◌, ◌⊎◌, refl, List, arith, length}
use tesser.Prelude.Int.{ℤ, pos, ◌+ℤ◌}
use tesser.Prelude.Result.{ok}
use tesser.Decimal.{units}
use tesser.Decimal.Cents.{cents, cents-IsExact}
use tesser.Core.Ids.{Symbol}
use tesser.Ledger.{LedgerEntry}
use tesser.Ledger.Sequencer.{LedgerSequencer, new, numbers_from}
use tesser.Portfolio.{Portfolio}
use tesser.Portfolio.Updates.{signed_position_qty, position}
use tesser.Portfolio.Holding.Signed.{signed_fill}
use tesser.Portfolio.Tests.{
  code_of, market_of, registry, sale, start, long-IsPosition, draw, render,
}
use tesser.Live.{handle_fill, handle_fill_books, sequences}

handle_fill_books_example :
    (p' : Portfolio ℤ) × (s' : LedgerSequencer) × (entries : List (LedgerEntry ℤ)) × (handle_fill
        code_of draw
        (pos 0)
        render
        registry
        sale
        start
        (new 6)
      ≡ ok (p', s', entries))
    × (units (signed_position_qty market_of p')
        ≡ units (signed_position_qty market_of start) +ℤ units (signed_fill sale))
    × ((symbol : Symbol) → (symbol ≡ market_of) ⊎ (position symbol p' ≡ position symbol start))
    × (sequences entries ≡ numbers_from 7 (length entries))
handle_fill_books_example =
    handle_fill_books code_of draw (pos 0) render cents-IsExact registry sale start (new 6) refl
      (omega arith) long-IsPosition (omega arith)
