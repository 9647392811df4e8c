-- ===== src/Execution/Algorithm.antt =====
-- tesser-execution/src/algorithm/mod.rs: what all execution algorithms share. `status` is kept as the
-- value that the method of that name reads from the text.
pub mod Iceberg
pub mod Sniper
pub mod TrailingStop
pub mod Twap
pub mod Pegged
pub mod Vwap
mod Tests
use tesser.Prelude.{Bool, true, false, ◌≡◌, ◌⊎◌, arith}
use tesser.Core.Types.{
  Text, Uuid, OrderRequest, OrderUpdateRequest, OrderStatus, pending_new, accepted,
  partially_filled, filled, canceled, rejected,
}

pub data AlgoStatus : Type 0 where
  working completed cancelled : AlgoStatus
  failed : Text → AlgoStatus

-- `matches!(self.status(), AlgoStatus::Working)`
abbrev pub is_working : AlgoStatus → Bool
is_working working = true
is_working _ = false

pub data ChildOrderAction (D : Type 0) : Type 0 where
  place : OrderRequest D → ChildOrderAction D
  amend : OrderUpdateRequest D → ChildOrderAction D

pub record ChildOrderRequest (D : Type 0) : Type 0 where
  pub parent_algo_id : Uuid
  pub action : ChildOrderAction D

-- `is_active_status`, which three of the algorithms repeat
abbrev pub is_active_status : OrderStatus → Bool
is_active_status pending_new = true
is_active_status accepted = true
is_active_status partially_filled = true
is_active_status filled = false
is_active_status canceled = false
is_active_status rejected = false

pub AlgoStatus-cases : (s : AlgoStatus) → (s ≡ working) ⊎ (is_working s ≡ false)
AlgoStatus-cases s = ground arith
