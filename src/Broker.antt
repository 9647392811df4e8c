-- ===== src/Broker.antt =====
-- tesser-broker/src/lib.rs: the errors of a broker, and the interface of an execution client. A client
-- acts on a state `S`, which stands for all that its calls can change.
pub mod Router
use tesser.Prelude.{Bool, Option, List}
use tesser.Prelude.Result.{Result}
use tesser.Core.Ids.{Symbol}
use tesser.Core.Types.{
  Text, OrderRequest, OrderUpdateRequest, Order, AccountBalance, Position, Instrument,
}

pub data BrokerError : Type 0 where
  transport authentication invalid_request serialization exchange other : Text → BrokerError

pub record BrokerInfo : Type 0 where
  pub name : Text
  pub markets : List Text
  pub supports_testnet : Bool

-- a call of an interface: its answer, and the state after it
abbrev pub Call : Type 0 → Type 0 → Type 0
Call S A = S → Result BrokerError A × S

pub record ExecutionClient (S D : Type 0) : Type 0 where
  pub info : BrokerInfo
  pub place_order : OrderRequest D → Call S (Order D)
  pub cancel_order : Text → Symbol → Call S (Unit {0})
  pub amend_order : OrderUpdateRequest D → Call S (Order D)
  pub list_open_orders : Symbol → Call S (List (Order D))
  pub account_balances : Call S (List (AccountBalance D))
  pub positions : Option (List Symbol) → Call S (List (Position D))
  pub list_instruments : Text → Call S (List (Instrument D))
