-- ===== src/Portfolio/Updates/Closed.antt =====
-- What closing a position does to the unrealized profit of the whole portfolio.
use Prim.Derive.{subst}
use mathlib.Core.List.{map-append}
use tesser.Prelude.{
  ◌≡◌, refl, sym, ap, ◌∙◌, ◌==◌, inl, inr, Option, some, List, [], ◌∷◌, ◌++◌, map, arith,
  if◌then◌else◌, unwrap_or, Bool-cases,
}
use tesser.Prelude.Key.{nat_key}
use tesser.Prelude.HashMap.{HashMap, lookup, insert, entry_or, values}
use tesser.Prelude.Result.{ok}
use tesser.Decimal.{Decimal, units, nought}
use tesser.Decimal.Laws.{IsExact}
use tesser.Core.Ids.{ExchangeId, AssetId, Symbol, same_symbol, symbol_key}
use tesser.Core.Types.{Text, inverse, Instrument, Fill, Position}
use tesser.Core.Cash.{sum}
use tesser.Portfolio.{
  Portfolio, SubAccount, positions_of, total_unrealized, update_drawdown_state, ensure_currency,
  with_account, empty_account,
}
use tesser.Ledger.{LedgerEntry}
use tesser.Portfolio.Holding.{fill_position, signed, realized_delta, unrealized_of}
use tesser.Portfolio.Holding.Signed.{close-fill_position, close_realizes_mark}
use tesser.Portfolio.Updates.Fills.{signed-at, position-filled}
use tesser.Portfolio.Updates.{
  fill_account, positions_on, position, signed_position_qty, apply_fill_positions, book_entry,
  book_entries, apply_ledger_entries, FillLedgerImpact, opened,
}

module _ {D : Type 0} ⦃d : Decimal D⦄ where
  abbrev profits : List (Position D) → List D
  profits = map (λ (q : Position D). q.unrealized_pnl)

  -- another position in the place of one with the same unrealized profit
  profits-insert :
      (k : Symbol) (q q' : Position D) (m : HashMap Symbol (Position D))
      → lookup k m ≡ some q
      → q'.unrealized_pnl ≡ q.unrealized_pnl
      → profits (values (insert k q' m)) ≡ profits (values m)
  profits-insert k q q' [] h e = absurd cc
  profits-insert k q q' ((j, w) ∷ m) h e = elim (Bool-cases (same_symbol k j)) [
    | inl same ↦ rw same (ground (arith, h, same, e))
    | inr other ↦
        rw other
          (ap (λ xs. w.unrealized_pnl ∷ xs) (profits-insert k q q' m (ground (arith, h, other)) e))
  ]

  profits-append :
      (xs xs' ys ys' : List (Position D))
      → profits xs ≡ profits xs'
      → profits ys ≡ profits ys'
      → profits (xs ++ ys) ≡ profits (xs' ++ ys')
  profits-append xs xs' ys ys' h k =
      map-append (λ (q : Position D). q.unrealized_pnl) xs ys
      ∙ ap (λ l. l ++ profits ys) h
      ∙ ap (λ l. profits xs' ++ l) k
      ∙ sym (map-append (λ (q : Position D). q.unrealized_pnl) xs' ys')

  -- the account that an exchange has, or `z`
  abbrev account_or : SubAccount D → ExchangeId → HashMap ExchangeId (SubAccount D) → SubAccount D
  account_or z e m = unwrap_or (lookup e m) z

  abbrev Kept : (SubAccount D → SubAccount D) → SubAccount D → Type 0
  Kept f a = profits (values (f a).positions) ≡ profits (values a.positions)

  profits-entry_or :
      (e : ExchangeId) (z : SubAccount D) (f : SubAccount D → SubAccount D)
      (m : HashMap ExchangeId (SubAccount D))
      → z.positions ≡ []
      → Kept f (account_or z e m)
      → profits (positions_of (entry_or e z f m)) ≡ profits (positions_of m)
  profits-entry_or e z f [] empty kept =
      profits-append (values (f z).positions) [] [] [] (kept ∙ ap (λ ps. profits (values ps)) empty)
        refl
  profits-entry_or e z f ((j, a) ∷ m) empty kept = elim (Bool-cases (e == j)) [
    | inl b ↦
        let at : Kept f a =
          subst (λ c. Kept f (unwrap_or (if c then some a else lookup e m) z)) b kept in
        rw b (
          profits-append (values (f a).positions) (values a.positions) (positions_of m)
            (positions_of m) at refl)
    | inr b ↦
        let at : Kept f (account_or z e m) =
          subst (λ c. Kept f (unwrap_or (if c then some a else lookup e m) z)) b kept in
        rw b (
          profits-append (values a.positions) (values a.positions) (positions_of (entry_or e z f m))
            (positions_of m) refl (profits-entry_or e z f m empty at))
  ]

module _ {D : Type 0} ⦃d : Decimal D⦄ (code : AssetId → Text) where
  abbrev first_account : ExchangeId → Portfolio D → SubAccount D
  first_account e p =
      ensure_currency code p.reporting_currency p.reporting_currency (empty_account e)

  total_unrealized-with_account :
      (e : ExchangeId) (f : SubAccount D → SubAccount D) (p : Portfolio D)
      → Kept f (account_or (first_account e p) e p.sub_accounts)
      → total_unrealized (with_account code e f p) ≡ total_unrealized p
  unfolding total_unrealized with_account ensure_currency
  total_unrealized-with_account e f p kept =
      ap sum (profits-entry_or e (first_account e p) f p.sub_accounts refl kept)

  total_unrealized-update :
      (p : Portfolio D) → total_unrealized (update_drawdown_state p) ≡ total_unrealized p
  unfolding total_unrealized update_drawdown_state
  total_unrealized-update p =
      let same : (update_drawdown_state p).sub_accounts ≡ p.sub_accounts = ground arith in
      ap (λ accounts. sum (profits (positions_of accounts))) same

  total_unrealized-book_entries :
      (es : List (LedgerEntry D)) (p : Portfolio D)
      → total_unrealized (book_entries code es p) ≡ total_unrealized p
  unfolding ensure_currency
  total_unrealized-book_entries [] p = refl
  total_unrealized-book_entries (x ∷ es) p =
      let book = book_entry code p.reporting_currency x in
      total_unrealized-book_entries es (with_account code x.exchange book p)
      ∙ total_unrealized-with_account x.exchange book p refl

  held :
      (z : SubAccount D) (symbol : Symbol) (p : Portfolio D) {q : Position D}
      → position symbol p ≡ some q
      → (lookup symbol (account_or z symbol.exchange p.sub_accounts).positions ≡ some q)
        × (lookup symbol (positions_on code symbol.exchange p) ≡ some q)
  unfolding position
  held z symbol p h = ground (arith, h)

  opened_held :
      (f : Fill D) (m : HashMap Symbol (Position D)) {q : Position D}
      → lookup f.symbol m ≡ some q
      → opened f m ≡ q
  opened_held f m h = rw h refl

  fill_account-Kept :
      (r : AssetId) (i : Instrument D) (f : Fill D) (a : SubAccount D) {q : Position D}
      → lookup f.symbol a.positions ≡ some q
      → (fill_position f q).unrealized_pnl ≡ q.unrealized_pnl
      → Kept (fill_account code r i f) a
  unfolding ensure_currency
  fill_account-Kept r i f a {q} h same =
      profits-insert f.symbol q (fill_position f (opened f a.positions)) a.positions h (
        ap (λ (x : Position D). (fill_position f x).unrealized_pnl) (opened_held f a.positions h)
        ∙ same)

  -- A fill of the other side takes the whole quantity of a position that is marked to the price of the
  -- fill. It succeeds, realizes the unrealized profit of the position, and leaves no quantity, but the
  -- unrealized profit of the whole portfolio stays what it was, and goes on so whatever ledger entries,
  -- that of the realized profit among them, are booked.
  pub closed_counts_twice :
      (laws : IsExact D) (get : Symbol → Option (Instrument D)) (f : Fill D) (p : Portfolio D)
      (es : List (LedgerEntry D)) {i : Instrument D} {q : Position D}
      → get f.symbol ≡ some i
      → position f.symbol p ≡ some q
      → q.side ≡ some (inverse f.side)
      → units f.fill_quantity ≡ units q.quantity
      → q.unrealized_pnl ≡ unrealized_of i.kind f.fill_price q
      → (p' : Portfolio D) × (impact : FillLedgerImpact D) × (apply_fill_positions code get f p
          ≡ ok (p', impact))
        × (impact.realized_pnl ≡ q.unrealized_pnl)
        × (units (signed_position_qty f.symbol p') ≡ units {D = D} nought)
        × (total_unrealized (apply_ledger_entries code es p') ≡ total_unrealized p)
  unfolding apply_fill_positions apply_ledger_entries signed
  closed_counts_twice laws get f p es {i} {q} known at side whole marked =
      let e = f.symbol.exchange in
      let fill = fill_account code p.reporting_currency i f in
      let mid = with_account code e fill p in
      let closes = close-fill_position laws f q side whole in
      let open_at =
        opened_held f (positions_on code e p) (held (first_account e p) f.symbol p at).1 in
      let kept : Kept fill (account_or (first_account e p) e p.sub_accounts) =
        fill_account-Kept p.reporting_currency i f (account_or (first_account e p) e p.sub_accounts)
          (held (first_account e p) f.symbol p at).0
          (ap (λ (x : Position D). x.unrealized_pnl) closes) in
      (
        update_drawdown_state mid,
        record { realized_pnl = realized_delta i.kind f (opened f (positions_on code e p)) },
        ground (arith, known),
        ap (realized_delta i.kind f) open_at
            ∙ close_realizes_mark i.kind f q side whole
            ∙ sym marked,
        ap (λ x. units x)
              (signed-at code f.symbol (update_drawdown_state mid) (position-filled code i f p))
            ∙ ap (λ x. units (signed (fill_position f x))) open_at
            ∙ ap (λ (x : Position D). units (signed x)) closes,
        total_unrealized-update (book_entries code es (update_drawdown_state mid))
            ∙ total_unrealized-book_entries es (update_drawdown_state mid)
            ∙ total_unrealized-update mid
            ∙ total_unrealized-with_account e fill p kept,
      )
