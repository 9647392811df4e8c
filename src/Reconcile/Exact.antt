-- ===== src/Reconcile/Exact.antt =====
-- The discrepancies of one symbol in the report on positions.
use tesser.Prelude.{
  ◌≡◌, ◌≢◌, refl, ◌∙◌, ap, ◌↔◌, ◌⊎◌, inl, inr, true, false, Option, none, some, List, [], ◌∷◌,
  arith, map, Option-cases, Bool-cases,
}
use tesser.Prelude.Int.{◌-ℤ◌, eq_of_parts}
use tesser.Prelude.HashMap.{HashMap}
use tesser.Decimal.{Decimal, units, ◌⊖◌, ◌=?◌}
use tesser.Decimal.Laws.{IsExact}
use tesser.Core.Ids.{Symbol, symbol_key}
use tesser.Core.Types.{Position}
use tesser.Reconcile.{
  LocalSnapshot, ExchangeSnapshot, PositionDiscrepancy, keys, extend, local_symbols, position_entry,
  local_position, remote_position, position_symbols, position_discrepancy, signed_or_zero,
  diff_positions,
}
use tesser.Reconcile.Distinct.{
  member, member-extend, extend-IsDistinct, IsDistinct, lookup-absent, index-absent, of_key,
  of_key-all, listed,
}

module _ {D : Type 0} ⦃d : Decimal D⦄ where
  -- the discrepancies of a symbol
  abbrev pub about_symbol : Symbol → List (PositionDiscrepancy D) → List (PositionDiscrepancy D)
  about_symbol symbol = of_key (λ (x : PositionDiscrepancy D). x.symbol) symbol

  -- Nothing for equal quantities, and otherwise the one that has both positions and their difference.
  abbrev pub Reports :
      Option (Position D) → Option (Position D) → List (PositionDiscrepancy D) → Type 0
  Reports l r found =
      ((units (signed_or_zero l) ≡ units (signed_or_zero r)) × (found ≡ []))
      ⊎ ((units (signed_or_zero l) ≢ units (signed_or_zero r))
          × (x : PositionDiscrepancy D) × (found ≡ x ∷ [])
          × (x.local ≡ l)
          × (x.remote ≡ r)
          × (units x.delta ≡ units (signed_or_zero l) -ℤ units (signed_or_zero r)))

  local-IsDistinct : (local : LocalSnapshot D) → IsDistinct (local_symbols local)
  local-IsDistinct local = elim (Option-cases local.portfolio) [
    | inl n ↦ rw n tt
    | inr (p, n) ↦ rw n (extend-IsDistinct (keys p.positions) [] tt)
  ]

  -- a symbol that is not gone through has no position on either side
  apart :
      (local : LocalSnapshot D) (remote : ExchangeSnapshot D) (s : Symbol)
      → member s (position_symbols local remote) ≡ false
      → (member s (map (λ (p : Position D). p.symbol) remote.positions) ≡ false)
        × (member s (local_symbols local) ≡ false)
  apart local remote s n =
      let h =
        member-extend s (map (λ (p : Position D). p.symbol) remote.positions)
          (local_symbols local) in
      ground (arith, h, n)

  local_absent :
      (local : LocalSnapshot D) (s : Symbol)
      → member s (local_symbols local) ≡ false
      → local_position local s ≡ none
  local_absent local s = elim (Option-cases local.portfolio) [
    | inl n ↦ rw n (λ m. refl)
    | inr (p, n) ↦ rw n (λ m. lookup-absent s p.positions (own p.positions m))
  ]
    where
      own :
          (positions : HashMap Symbol (Position D))
          → member s (extend (keys positions) []) ≡ false
          → member s (keys positions) ≡ false
      own positions m = ground (arith, m, member-extend s (keys positions) [])

  entry_own :
      (s : Symbol) (l r : Option (Position D)) (x : PositionDiscrepancy D)
      → position_entry s l r ≡ some x
      → x.symbol ≡ s
  entry_own s l r x h = ground (arith, h)

  no_entry : (s : Symbol) → position_entry {D = D} s none none ≡ none
  no_entry s = ground arith

  body_absent :
      (local : LocalSnapshot D) (remote : ExchangeSnapshot D) (s : Symbol)
      → member s (position_symbols local remote) ≡ false
      → position_discrepancy local remote s ≡ none
  body_absent local remote s n =
      let (there, here) = apart local remote s n in
      let l = local_absent local s here in
      let r = index-absent (λ (p : Position D). p.symbol) s remote.positions [] there in
      ap (λ x. position_entry s x (remote_position remote s)) l
      ∙ ap (position_entry s none) r
      ∙ no_entry s

  found_of :
      (local : LocalSnapshot D) (remote : ExchangeSnapshot D) (s : Symbol)
      → about_symbol s (diff_positions local remote).discrepancies
        ≡ listed (position_discrepancy local remote s)
  unfolding diff_positions
  found_of local remote s =
      of_key-all (λ (x : PositionDiscrepancy D). x.symbol) (position_discrepancy local remote) s
        (position_symbols local remote)
        (λ j x h. entry_own j (local_position local j) (remote_position remote j) x h)
        (extend-IsDistinct (map (λ (p : Position D). p.symbol) remote.positions)
          (local_symbols local) (local-IsDistinct local))
        (body_absent local remote s)

module _ {D : Type 0} ⦃d : Decimal D⦄ where
  equal_units : (a b : D) → ((a =? b) ≡ true) ↔ (units a ≡ units b)
  equal_units a b = ground (arith, eq_of_parts (units a) (units b))

module _ {D : Type 0} ⦃d : Decimal D⦄ (laws : IsExact D) where
  reported :
      (s : Symbol) (l r : Option (Position D)) {found : List (PositionDiscrepancy D)}
      → found ≡ listed (position_entry s l r)
      → Reports l r found
  reported s l r h = elim (Bool-cases (signed_or_zero l =? signed_or_zero r)) [
    | inl same ↦ inl ((equal_units (signed_or_zero l) (signed_or_zero r)).0 same, h ∙ rw same refl)
    | inr other ↦
        let entry : PositionDiscrepancy D = record {
          symbol = s;
          local = l;
          remote = r;
          local_signed = signed_or_zero l;
          remote_signed = signed_or_zero r;
          delta = signed_or_zero l ⊖ signed_or_zero r;
        } in
        let one : listed (position_entry s l r) ≡ entry ∷ [] = rw other refl in
        inr (
          λ e. absurd (cc (other, (equal_units (signed_or_zero l) (signed_or_zero r)).1 e)),
          entry,
          h ∙ one,
          refl,
          refl,
          laws.units-sub (signed_or_zero l) (signed_or_zero r),
        )
  ]

  pub diff_positions_exact :
      (local : LocalSnapshot D) (remote : ExchangeSnapshot D) (s : Symbol)
      → Reports
          (local_position local s)
          (remote_position remote s)
          (about_symbol s (diff_positions local remote).discrepancies)
  diff_positions_exact local remote s =
      reported s (local_position local s) (remote_position remote s) (found_of local remote s)
