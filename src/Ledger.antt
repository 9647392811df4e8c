-- ===== src/Ledger.antt =====
-- tesser-ledger/src/entry.rs: the entries of the ledger.
pub mod Journal
pub mod Sequencer
use tesser.Prelude.{
  ℕ, ◌≡◌, ◌↔◌, refl, ap, ◌∙◌, Option, none, ◌++◌, if◌then◌else◌, arith, Bool-cases, inl, inr,
}
use tesser.Prelude.Result.{Result, ok, err}
use tesser.Prelude.Bytes.{codes, same_text, same_text_iff}
use tesser.Core.Ids.{ExchangeId, AssetId}
use tesser.Core.Types.{Text, Uuid, Time}

pub data LedgerType : Type 0 where
  trade_realized_pnl fee funding transfer_in transfer_out adjustment : LedgerType

-- the JSON object that `build_entry` stores
pub record EntryMeta : Type 0 where
  pub symbol : Text
  pub component : Text

pub record LedgerEntry (D : Type 0) : Type 0 where
  pub id : Uuid
  pub sequence : ℕ
  pub timestamp : Time
  pub exchange : ExchangeId
  pub asset : AssetId
  pub amount : D
  pub entry_type : LedgerType
  pub reference_id : Text
  pub meta : Option EntryMeta

-- the texts, as bytes
abbrev pub as_str : LedgerType → Text
as_str trade_realized_pnl = codes "trade_realized_pnl"
as_str fee = codes "fee"
as_str funding = codes "funding"
as_str transfer_in = codes "transfer_in"
as_str transfer_out = codes "transfer_out"
as_str adjustment = codes "adjustment"

unfoldable pub from_str : Text → Result Text LedgerType
from_str s =
    if same_text s (codes "trade_realized_pnl")
    then ok trade_realized_pnl
    else if same_text s (codes "fee")
    then ok fee
    else if same_text s (codes "funding")
    then ok funding
    else if same_text s (codes "transfer_in")
    then ok transfer_in
    else if same_text s (codes "transfer_out")
    then ok transfer_out
    else if same_text s (codes "adjustment")
    then ok adjustment
    else err (codes "unknown ledger type: " ++ s)

module _ {D : Type 0} where
  -- `LedgerEntry::new`, with the identifier that is drawn and the reading of the clock
  unfoldable pub new : Uuid → Time → ExchangeId → AssetId → D → LedgerType → Text → LedgerEntry D
  new id now exchange asset amount entry_type reference_id = record {
    id = id;
    sequence = 0;
    timestamp = now;
    exchange = exchange;
    asset = asset;
    amount = amount;
    entry_type = entry_type;
    reference_id = reference_id;
    meta = none;
  }

  unfoldable pub with_sequence : ℕ → LedgerEntry D → LedgerEntry D
  with_sequence sequence entry = record entry { sequence = sequence }

from_str-as_str : (t : LedgerType) → from_str (as_str t) ≡ ok t
unfolding from_str
from_str-as_str trade_realized_pnl = refl
from_str-as_str fee = refl
from_str-as_str funding = refl
from_str-as_str transfer_in = refl
from_str-as_str transfer_out = refl
from_str-as_str adjustment = refl

-- one test of the match: it finds its own type, or leaves the rest
match_step :
    (s w : Text) (u t : LedgerType) (rest : Result Text LedgerType)
    → w ≡ as_str u
    → (rest ≡ ok t → s ≡ as_str t)
    → (if same_text s w then ok u else rest) ≡ ok t
    → s ≡ as_str t
match_step s w u t rest written later h = elim (Bool-cases (same_text s w)) [
  | inl e ↦
      let same : u ≡ t = ground (arith, e, h) in (same_text_iff s w).0 e ∙ written ∙ ap as_str same
  | inr e ↦ later (ground (arith, e, h))
]

as_str-from_str : (s : Text) (t : LedgerType) → from_str s ≡ ok t → s ≡ as_str t
unfolding from_str
as_str-from_str s t h =
    match_step s _ trade_realized_pnl t _ refl
      (match_step s _ fee t _ refl (
        match_step s _ funding t _ refl (
          match_step s _ transfer_in t _ refl (
            match_step s _ transfer_out t _ refl
              (match_step s _ adjustment t _ refl (λ e. absurd (cc e)))))))
      h

-- A text is read as a ledger type exactly if it is the one that the type is written as.
pub from_str_iff : (s : Text) (t : LedgerType) → (from_str s ≡ ok t) ↔ (s ≡ as_str t)
from_str_iff s t = (as_str-from_str s t, λ h. ap from_str h ∙ from_str-as_str t)
