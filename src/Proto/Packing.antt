-- ===== src/Proto/Packing.antt =====
-- The values that requests and answers carry, proto/messages.go among them. What msgpack makes of
-- each type is a parameter: a value as it is written, and as it is read into a variable.
use dfi.Prelude.{Option, List}
use dfi.Prelude.Int.{ℤ}
use dfi.Prelude.Outcome.{Outcome}
use dfi.Dht.Address.{Address, Bytes}
use dfi.Dht.Entry.{Entry}
use dfi.Data.Post.{Post}
use dfi.Proto.Message.{NetError}
use dfi.Proto.HashList.{MessageCollection}

pub record SearchQuery : Type 0 where
  pub query : Bytes
  pub page : ℤ

pub record PieceRequest : Type 0 where
  pub address : Bytes
  pub id : ℤ
  pub length : ℤ

pub record Packed (A B : Type 0) : Type 0 where
  pub encode : A → Outcome NetError Bytes
  pub decode : Bytes → Outcome NetError B

-- A pointer that is written may be nil, and is read into a struct.
pub record Packing : Type 0 where
  pub address : Packed Address Address
  pub entry : Packed (Option Entry) Entry
  pub entries : Packed (List (Option Entry)) (List (Option Entry))
  pub search : Packed SearchQuery SearchQuery
  pub page : Packed ℤ ℤ
  pub posts : Packed (List Post) (List (Option Post))
  pub collection : Packed MessageCollection MessageCollection
  pub piece : Packed PieceRequest PieceRequest
