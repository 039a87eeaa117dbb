-- ===== src/Mesh/Abi.antt =====
-- kanbrick-core/src/abi.rs: what crosses the boundary between the host and a guest.
use kanbrick_v.Common.{Text, List}
use kanbrick_v.Json.{JsonValue, Fields}

pub record Event : Type 0 where
  pub kind : Text
  pub payload : JsonValue

pub record GuestRequest : Type 0 where
  pub payload : JsonValue

pub record GuestResponse : Type 0 where
  pub payload : JsonValue

-- The map of the parameters, in the order of its keys.
pub record GraphQuery : Type 0 where
  pub cypher : Text
  pub params : Fields

pub record GraphRows : Type 0 where
  pub rows : List JsonValue
