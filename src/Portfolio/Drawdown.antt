-- ===== src/Portfolio/Drawdown.antt =====
-- The drawdown switch: it trips at the limit, and stays.
use tesser.Prelude.{
  ◌≡◌, ◌⊎◌, inl, inr, ◌↔◌, true, false, Option, none, some, List, [], ◌∷◌, arith, Bool-cases,
  Option-cases,
}
use tesser.Prelude.Result.{ok, err}
use tesser.Decimal.{Decimal, nought, ◌<?◌, ◌⊖◌, ◌⊘◌}
use tesser.Decimal.Parts.{◌≼◌, ◌≺◌}
use tesser.Core.Ids.{ExchangeId, AssetId, Symbol}
use tesser.Core.Types.{Text, Time, Instrument, Fill}
use tesser.Portfolio.{
  Portfolio, SubAccount, equity, check_limit, update_drawdown_state, with_account,
}
use tesser.Ledger.{LedgerEntry}
use tesser.Portfolio.Updates.{
  apply_fill_positions, apply_ledger_entries, update_market_data, book_entries, book_entry,
  fill_account, mark_account,
}

module _ {D : Type 0} ⦃d : Decimal D⦄ where
  -- An equity is below a peak by the limit at least.
  abbrev pub Breached : Option D → D → D → Type 0
  Breached none peak now = ⊥
  Breached (some limit) peak now = (nought ≺ peak) × (limit ≼ ((peak ⊖ now) ⊘ peak))

  check_limit_trips :
      (now : D) (p : Portfolio D)
      → (((check_limit now p).liquidate_only ≡ true)
          ↔ ((p.liquidate_only ≡ true) ⊎ Breached p.drawdown_limit p.peak_equity now))
        × ((check_limit now p).peak_equity ≡ p.peak_equity)
  check_limit_trips now p =
      elim p.drawdown_limit
        as (λ o.
          (((check_limit now (record p { drawdown_limit = o })).liquidate_only ≡ true)
            ↔ ((p.liquidate_only ≡ true) ⊎ Breached o p.peak_equity now))
          × ((check_limit now (record p { drawdown_limit = o })).peak_equity ≡ p.peak_equity)) [
            | none ↦ ground arith
            | some limit ↦ ground arith
          ]

  -- The peak never falls and is at least the equity, and the switch is on afterwards exactly when it was
  -- on before or the equity is below that peak by the limit at least.
  pub update_drawdown_state_trips :
      (p : Portfolio D)
      → (let p' = update_drawdown_state p in
          (p.peak_equity ≼ p'.peak_equity)
          × (equity p ≼ p'.peak_equity)
          × ((p'.liquidate_only ≡ true)
              ↔ ((p.liquidate_only ≡ true) ⊎ Breached p.drawdown_limit p'.peak_equity (equity p))))
  unfolding update_drawdown_state
  update_drawdown_state_trips p = elim (Bool-cases (p.peak_equity <? equity p)) [
    | inl e ↦ ground (arith, check_limit_trips (equity p) (record p { peak_equity = equity p }))
    | inr e ↦ ground (arith, check_limit_trips (equity p) p)
  ]

  -- What no operation takes back.
  pub record Keeps (p p' : Portfolio D) : Type 0 where
    pub peak : p.peak_equity ≼ p'.peak_equity
    pub switch : (p.liquidate_only ≡ false) ⊎ (p'.liquidate_only ≡ true)
    pub limit : p'.drawdown_limit ≡ p.drawdown_limit

  update-Keeps : (p : Portfolio D) → Keeps p (update_drawdown_state p)
  unfolding update_drawdown_state
  update-Keeps p = ground arith

  Keeps-trans : {p q r : Portfolio D} → Keeps p q → Keeps q r → Keeps p r
  Keeps-trans h k = ground (arith, h, k)

pub data Event (D : Type 0) : Type 0 where
  fill : (Symbol → Option (Instrument D)) → Fill D → Event D
  entries : List (LedgerEntry D) → Event D
  price : (Symbol → Option (Instrument D)) → Time → Symbol → D → Event D

module _ {D : Type 0} ⦃d : Decimal D⦄ (code : AssetId → Text) where
  -- the portfolio after an operation, which an error leaves as it is
  pub handle : Event D → Portfolio D → Portfolio D
  handle (fill get f) p = elim (apply_fill_positions code get f p) [ err e ↦ p | ok r ↦ r.0 ]
  handle (entries es) p = apply_ledger_entries code es p
  handle (price get now symbol v) p = elim (update_market_data code get now symbol v p) [
    | err e ↦ p
    | ok r ↦ r.0
  ]

  pub run : List (Event D) → Portfolio D → Portfolio D
  run [] p = p
  run (e ∷ es) p = run es (handle e p)

  with_account-Keeps :
      (e : ExchangeId) (f : SubAccount D → SubAccount D) (p : Portfolio D)
      → Keeps p (with_account code e f p)
  unfolding with_account
  with_account-Keeps e f p = ground arith

  book_entries-Keeps :
      (es : List (LedgerEntry D)) (p : Portfolio D) → Keeps p (book_entries code es p)
  book_entries-Keeps [] p = ground arith
  book_entries-Keeps (e ∷ es) p =
      Keeps-trans (with_account-Keeps e.exchange (book_entry code p.reporting_currency e) p) (
        book_entries-Keeps es
          (with_account code e.exchange (book_entry code p.reporting_currency e) p))

  handle-Keeps : (e : Event D) (p : Portfolio D) → Keeps p (handle e p)
  unfolding handle apply_fill_positions apply_ledger_entries update_market_data
  handle-Keeps (fill get f) p = elim (Option-cases (get f.symbol)) [
    | inl e ↦ ground (arith, e)
    | inr (i, e) ↦
        let p' =
          with_account code f.symbol.exchange (fill_account code p.reporting_currency i f) p in
        ground (
          arith,
          e,
          Keeps-trans
              (with_account-Keeps f.symbol.exchange (fill_account code p.reporting_currency i f) p)
              (update-Keeps p'),
        )
  ]
  handle-Keeps (entries es) p =
      Keeps-trans (book_entries-Keeps es p) (update-Keeps (book_entries code es p))
  handle-Keeps (price get now symbol v) p = elim (Option-cases (get symbol)) [
    | inl e ↦ ground (arith, e)
    | inr (i, e) ↦
        let mark = mark_account code now symbol p.reporting_currency i v in
        ground (
          arith,
          e,
          Keeps-trans (with_account-Keeps symbol.exchange mark p)
              (update-Keeps (with_account code symbol.exchange mark p)),
        )
  ]

  -- Over any run of fills, ledger entries and prices the peak equity never falls, a switch that is on
  -- stays on whatever the exposure, and the limit stays what it was.
  pub drawdown_sticky :
      (es : List (Event D)) (p : Portfolio D)
      → (p.peak_equity ≼ (run es p).peak_equity)
        × ((p.liquidate_only ≡ false) ⊎ ((run es p).liquidate_only ≡ true))
        × ((run es p).drawdown_limit ≡ p.drawdown_limit)
  unfolding run
  drawdown_sticky [] p = ground arith
  drawdown_sticky (e ∷ es) p = ground (arith, handle-Keeps e p, drawdown_sticky es (handle e p))
