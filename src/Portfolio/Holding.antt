-- ===== src/Portfolio/Holding.antt =====
-- tesser-portfolio/src/lib.rs: what a fill and a price do to one position.
pub mod Signed
use tesser.Prelude.{Bool, Option, none, some, if◌then◌else◌, ◌||◌}
use tesser.Decimal.{Decimal, nought, one, ◌⊕◌, ◌⊖◌, ◌⊗◌, ◌⊘◌, ◌<?◌, is_zero, min, abs, neg}
use tesser.Core.Types.{
  InstrumentKind, spot, linear_perpetual, inverse_perpetual, Side, buy, sell, same_side, Fill,
  Position, Time,
}

-- the side, or that of the fill if there is none
abbrev side_or : Side → Option Side → Side
side_or s none = s
side_or s (some t) = t

module _ {D : Type 0} ⦃d : Decimal D⦄ where
  -- the step from one value to another for a long position, and back for a short one
  abbrev gain : Side → D → D → D
  gain buy from to = to ⊖ from
  gain sell from to = from ⊖ to

  unfoldable pub calculate_realized_pnl : InstrumentKind → D → D → D → Side → D
  calculate_realized_pnl spot entry_price exit_price quantity exit_side = nought
  calculate_realized_pnl linear_perpetual entry_price exit_price quantity buy =
      (entry_price ⊖ exit_price) ⊗ quantity
  calculate_realized_pnl linear_perpetual entry_price exit_price quantity sell =
      (exit_price ⊖ entry_price) ⊗ quantity
  calculate_realized_pnl inverse_perpetual entry_price exit_price quantity exit_side =
      let inv_entry = one ⊘ entry_price in
      let inv_exit = one ⊘ exit_price in
      let delta : D = elim exit_side [ buy ↦ inv_entry ⊖ inv_exit | sell ↦ inv_exit ⊖ inv_entry ] in
      if is_zero entry_price || is_zero exit_price then nought else delta ⊗ quantity

  -- the fill added to a position of its own side
  unfoldable pub grow : Fill D → Position D → Position D
  grow f q =
      let total = q.quantity ⊕ f.fill_quantity in
      let prev_cost : D = elim q.entry_price [ none ↦ nought | some price ↦ price ⊗ q.quantity ] in
      let new_cost = f.fill_price ⊗ f.fill_quantity in
      record q {
        entry_price = some (if is_zero total then f.fill_price else (prev_cost ⊕ new_cost) ⊘ total);
        quantity = total;
      }

  -- the fill taken from a position of the other side, which it may close or turn around
  unfoldable pub shrink : Fill D → Position D → Position D
  shrink f q =
      let remaining = q.quantity ⊖ f.fill_quantity in
      if nought <? remaining
      then record q { quantity = remaining }
      else if remaining <? nought
      then record q {
        quantity = abs remaining;
        side = some f.side;
        entry_price = some f.fill_price;
      }
      else record q { quantity = nought; side = none; entry_price = none }

  -- The position after a fill. A position without a side takes that of the fill first, so the last
  -- branch of the code's match is never taken.
  unfoldable pub fill_position : Fill D → Position D → Position D
  fill_position f q =
      let side = side_or f.side q.side in
      let sided = record q { side = some side } in
      let q' = if same_side side f.side then grow f sided else shrink f sided in
      record q' { updated_at = f.timestamp }

  -- The profit that a fill realizes on a position.
  unfoldable pub realized_delta : InstrumentKind → Fill D → Position D → D
  realized_delta kind f q =
      if same_side (side_or f.side q.side) f.side then nought else elim q.entry_price [
        | none ↦ nought
        | some price ↦
            calculate_realized_pnl kind price f.fill_price (min q.quantity f.fill_quantity) f.side
      ]

  -- the mark-to-market value that `update_unrealized` stores
  unfoldable pub unrealized_of : InstrumentKind → D → Position D → D
  unrealized_of spot price q = nought
  unrealized_of linear_perpetual price q = elim q.entry_price [
    | none ↦ nought
    | some entry ↦ elim q.side [ none ↦ nought | some side ↦ gain side entry price ⊗ q.quantity ]
  ]
  unrealized_of inverse_perpetual price q = elim q.entry_price [
    | none ↦ nought
    | some entry ↦ elim q.side [
      | none ↦ nought
      | some side ↦
          if is_zero price || is_zero entry
          then nought
          else gain side (one ⊘ entry) (one ⊘ price) ⊗ q.quantity
    ]
  ]

  unfoldable pub update_unrealized : Time → InstrumentKind → D → Position D → Position D
  update_unrealized now kind price q = record q {
    unrealized_pnl = unrealized_of kind price q;
    updated_at = now;
  }

  -- The signed quantity of a position: long above zero, short below.
  unfoldable pub signed : Position D → D
  signed q = elim q.side [
    | none ↦ nought
    | some side ↦ elim side [ buy ↦ q.quantity | sell ↦ neg q.quantity ]
  ]
