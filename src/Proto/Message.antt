-- ===== src/Proto/Message.antt =====
-- proto/message.go, and the connection under `Client` of proto/client.go: what each `ReadMessage`
-- comes to is given as a list, so that the peer may send anything, and what was written is kept.
use dfi.Prelude.{
  ℕ, Bool, true, false, Option, none, some, List, [], ◌∷◌, ◌++◌, length, ◌||◌, if◌then◌else◌,
}
use dfi.Prelude.Outcome.{Outcome, ok, err, panic}
use dfi.Prelude.Action.{Action, pure, attempt}
use dfi.Dht.Address.{Bytes}
use dfi.Dht.Entry.{EntryError}
use dfi.Proto.HashList.{HashListError}

-- The headers of proto/protocolinfo.go that are sent, and all others.
pub data Header : Type 0 where
  proto_ok proto_no proto_header proto_cap proto_cookie proto_sig : Header
  proto_search proto_recent proto_popular proto_posts : Header
  proto_request_hash_list proto_request_piece proto_request_add_peer proto_hash_list : Header
  proto_dht_entry proto_dht_entries proto_dht_query proto_dht_announce : Header
  proto_dht_find_closest : Header
  other_header : Bytes → Header

pub record Message : Type 0 where
  pub header : Header
  pub content : Option Bytes

-- `Ok`
abbrev pub is_ok : Message → Bool
is_ok m = elim m.header [ proto_ok ↦ true | _ ↦ false ]

-- `Header == ProtoNo`
abbrev pub is_no : Message → Bool
is_no m = elim m.header [ proto_no ↦ true | _ ↦ false ]

pub data NetError : Type 0 where
  read_failed write_failed random_failed no_content bad_content : NetError

pub data ProtoError : Type 0 where
  net_error : NetError → ProtoError
  entry_error : EntryError → ProtoError
  signature_not_verified nil_local_peer refused_header refused_signature : ProtoError
  hash_list_error : HashListError → ProtoError
  returned_no no_ok_answer add_refused not_accepted nil_entry no_session : ProtoError

pub record Conn : Type 0 where
  pub incoming : List (Outcome NetError Message)
  pub sent : List Message
  pub closed : Bool

abbrev pub Net : Type 0 → Type 0
Net = Action Conn ProtoError

abbrev pub net_result : {A : Type 0} → Outcome NetError A → Outcome ProtoError A
net_result (ok a) = ok a
net_result (err e) = err (net_error e)
net_result panic = panic

-- `ReadMessage`
abbrev pub next_message : List (Outcome NetError Message) → Conn → Outcome ProtoError Message × Conn
next_message [] conn = (err (net_error read_failed), conn)
next_message (m ∷ ms) conn = (net_result m, record conn { incoming = ms })

unfoldable pub read_message : Net Message
read_message conn = next_message conn.incoming conn

-- `WriteMessage`, where `fails` says for the number of messages sent whether the next write fails.
-- A closed connection takes nothing.
unfoldable pub write_message : (ℕ → Bool) → Message → Net (Unit {0})
write_message fails m conn =
    if conn.closed || fails (length conn.sent)
    then (err (net_error write_failed), conn)
    else (ok tt, record conn { sent = conn.sent ++ m ∷ [] })

-- A write whose error is ignored.
abbrev pub write_ignored : (ℕ → Bool) → Message → Net (Unit {0})
write_ignored fails m = attempt (write_message fails m) (λ _. pure tt) (λ _. pure tt)

abbrev pub close : Net (Unit {0})
close conn = (ok tt, record conn { closed = true })

abbrev pub bare : Header → Message
bare header = record { header = header; content = none }

-- `Read` into a variable of a type whose decoding is given: a message without content is an error.
abbrev pub read_content : {A : Type 0} → (Bytes → Outcome NetError A) → Message → Outcome NetError A
read_content decode m = elim m.content [ none ↦ err no_content | some bs ↦ decode bs ]

-- What a decoding into an array comes to, and the array that it leaves. Where the error is ignored,
-- what was written before it stays.
abbrev pub array_of : Outcome NetError (Unit {0}) × Bytes → Outcome ProtoError Bytes
array_of (ok t, a) = ok a
array_of (err e, a) = ok a
array_of (panic, a) = panic

-- `Read` into an array, with its error ignored. Without content the array stays as it was.
abbrev pub filled :
    (Bytes → Bytes → Outcome NetError (Unit {0}) × Bytes)
    → Bytes
    → Message
    → Outcome ProtoError Bytes
filled fill a m = elim m.content [ none ↦ ok a | some bs ↦ array_of (fill a bs) ]

-- Where the error of `Read` is ignored the variable stays as it was.
abbrev pub content_or : {A : Type 0} → A → Outcome NetError A → Outcome ProtoError A
content_or zero_value (ok a) = ok a
content_or zero_value (err _) = ok zero_value
content_or zero_value panic = panic
