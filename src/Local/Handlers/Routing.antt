-- ===== src/Local/Handlers/Routing.antt =====
-- `RouteMessage` and `HandleStream` of proto/server.go.
use dfi.Prelude.{List, [], ◌∷◌}
use dfi.Prelude.Outcome.{Outcome, ok, err, panic}
use dfi.Prelude.Action.{pure, lift, attempt, deferred, ◌>>◌}
use dfi.Dht.Address.{Address}
use dfi.Proto.Message.{
  Header, Message, ProtoError, close, proto_search, proto_recent, proto_popular,
  proto_request_hash_list, proto_request_piece, proto_request_add_peer, proto_dht_query,
  proto_dht_announce, proto_dht_find_closest,
}
use dfi.Proto.Handshake.{Party}
use dfi.Proto.Packing.{Packing}
use dfi.Local.Node.{Outside}
use dfi.Local.Handlers.{
  Serve, on_client, handle_query, handle_find_closest, handle_announce, handle_search,
  handle_recent, handle_popular, handle_hash_list, handle_piece, handle_add_peer,
}

module _ {S D : Type 0} (outside : Outside S D) (party : Party) (packing : Packing) where
  -- The handler for the header of the message.
  unfoldable pub handler_of : Header → Address → Message → Serve outside party packing (Unit {0})
  handler_of header from m = elim header [
    | proto_dht_announce ↦ handle_announce outside party packing m
    | proto_dht_query ↦ handle_query outside party packing m
    | proto_dht_find_closest ↦ handle_find_closest outside party packing m
    | proto_search ↦ handle_search outside party packing m
    | proto_recent ↦ handle_recent outside party packing m
    | proto_popular ↦ handle_popular outside party packing m
    | proto_request_hash_list ↦ handle_hash_list outside party packing m
    | proto_request_piece ↦ handle_piece outside party packing m
    | proto_request_add_peer ↦ handle_add_peer outside party packing from m
    | _ ↦ pure tt
  ]

  -- An error of the handler is only logged.
  unfoldable pub route_message : Address → Message → Serve outside party packing (Unit {0})
  unfolding handler_of
  route_message from m =
      deferred (attempt (handler_of m.header from m) pure (λ _. pure tt))
        (on_client outside party packing close)

  -- The loop of `HandleStream`, over what its reads come to, up to the first that fails. The stream
  -- may be closed already: what was received before, and what the decoder holds, is read all the same.
  unfoldable pub handle_stream :
      Address → List (Outcome ProtoError Message) → Serve outside party packing (Unit {0})
  unfolding route_message
  handle_stream from [] = pure tt
  handle_stream from (ok m ∷ rest) = route_message from m >> handle_stream from rest
  handle_stream from (err e ∷ rest) = pure tt
  handle_stream from (panic ∷ rest) = lift panic
