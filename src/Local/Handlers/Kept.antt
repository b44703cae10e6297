-- ===== src/Local/Handlers/Kept.antt =====
-- What the handlers keep: the routing table of the node.
pub mod Calls
use dfi.Prelude.{
  List, ◌∷◌, ◌/◌, ◌≡◌, refl, Bool, true, false, Option, none, some, [], ltb, if◌then◌else◌,
}
use dfi.Prelude.Int.{pos}
use dfi.Prelude.Outcome.{Outcome, ok, err, panic}
use dfi.Prelude.Action.{
  Keeps, Keeps-pure, Keeps-lift, Keeps-bind, Keeps-attempt, Keeps-if, Keeps-within, map_err, pure,
}
use dfi.Dht.Address.{Address, Bytes, equals, string_or}
use dfi.Dht.Entry.{Entry}
use dfi.Dht.NetDb.Reading.{query}
use dfi.Dht.NetDb.Closest.{find_closest}
use dfi.Dht.NetDb.Writing.{insert}
use dfi.Dht.NetDb.Invariant.{query-IsDb, insert-IsDb, find_closest-IsDb}
use dfi.Data.Database.{QueryError, search, query_recent, query_popular}
use dfi.Proto.Message.{
  Header, Message, ProtoError, NetError, Net, net_result, write_message, write_ignored, bare,
  read_content, proto_ok, proto_no, proto_posts, proto_dht_query, proto_dht_entries,
  proto_hash_list,
}
use dfi.Proto.Handshake.{Party, with_content, with_content_or_none}
use dfi.Proto.Packing.{Packing}
use dfi.Proto.Client.{send, text_of}
use dfi.Local.Node.{LocalPeer, Outside, Node, on_dht, proto_error, not_saved, no_peer_entry}
use dfi.Local.Kept.{HasTable, on_dht-Keeps, save_entry-Keeps}
use dfi.Local.Handlers.{
  Serving, on_peer, on_client, the_peer, content_of, reply, reply_ignored, own_posts, piece_posts,
  hash_list_of, none_of_no_rows, insert_ignored, add_known, with_seed, is_new_seed, handle_query,
  handle_find_closest, handle_announce, handle_search, handle_recent, handle_popular,
  handle_hash_list, handle_piece, handle_add_peer,
}
use dfi.Proto.Message.{
  proto_dht_announce, proto_dht_find_closest, proto_search, proto_recent, proto_popular,
  proto_request_hash_list, proto_request_piece, proto_request_add_peer,
}
use dfi.Local.Handlers.Routing.{handler_of, route_message, handle_stream}
use dfi.Local.Handlers.Kept.Calls.{
  ServesTable, on_peer-Keeps, on_client-Keeps, content_of-Keeps, reply-Keeps, reply_ignored-Keeps,
  the_peer-Keeps, query-Keeps, insert-Keeps, own_posts-Keeps,
}

module _ {S D : Type 0} (outside : Outside S D) (party : Party) (packing : Packing) where
  open outside use {env, posts}
  open party use {fails}

  handle_query-Keeps : (m : Message) → Keeps ServesTable (handle_query outside party packing m)
  unfolding handle_query
  handle_query-Keeps m =
      Keeps-bind (content_of-Keeps outside party packing packing.address.decode m) λ address.
        Keeps-bind (the_peer-Keeps outside party packing) λ lp.
          Keeps-if (equals address lp.address)
            (reply-Keeps outside party packing proto_dht_query
              (packing.entry.encode (some lp.entry)))
            (Keeps-bind (query-Keeps outside party packing address) λ t. Keeps-bind (said t.0) λ _.
              Keeps-bind
                (Keeps-lift (
                  map_err proto_error
                    (with_content party proto_dht_query (packing.entry.encode t.0))))
                λ answer. reply_ignored-Keeps outside party packing answer)
    where
      said :
          (kv : Option Entry)
          → Keeps ServesTable (elim kv [
            | none ↦ reply_ignored outside party packing (bare proto_no)
            | some _ ↦ pure tt
          ])
      said none = reply_ignored-Keeps outside party packing (bare proto_no)
      said (some e) = Keeps-pure tt

  handle_find_closest-Keeps :
      (m : Message) → Keeps ServesTable (handle_find_closest outside party packing m)
  unfolding handle_find_closest
  handle_find_closest-Keeps m =
      Keeps-bind (content_of-Keeps outside party packing packing.address.decode m) λ address.
        Keeps-bind
          (on_peer-Keeps outside party packing (on_dht outside (find_closest env address)) (
            on_dht-Keeps outside (find_closest env address)
              (record { at = find_closest-IsDb env address })))
          λ pairs.
            Keeps-bind
              (Keeps-lift (
                map_err proto_error
                  (with_content_or_none party proto_dht_entries (packing.entries.encode pairs))))
              λ results. on_client-Keeps outside party packing (write_message fails results)

  handle_announce-Keeps :
      (m : Message) → Keeps ServesTable (handle_announce outside party packing m)
  unfolding handle_announce
  handle_announce-Keeps m =
      let refused =
        Keeps-bind (reply_ignored-Keeps outside party packing (bare proto_no))
          λ _. Keeps-lift {A = Unit {0}} (err not_saved) in
      let announced =
        Keeps-bind (content_of-Keeps outside party packing packing.entry.decode m) λ e.
          Keeps-attempt
            (on_peer-Keeps outside party packing (on_dht outside (insert env e))
              (insert-Keeps outside party packing e))
            (λ affected.
              Keeps-if (ltb 0 affected) (reply_ignored-Keeps outside party packing (bare proto_ok))
                refused)
            (λ _. refused) in
      record { at = λ s h. announced.at s h }

  handle_search-Keeps : (m : Message) → Keeps ServesTable (handle_search outside party packing m)
  unfolding handle_search
  handle_search-Keeps m =
      Keeps-bind (content_of-Keeps outside party packing packing.search.decode m) λ sq.
        Keeps-bind (own_posts-Keeps outside party packing (search posts sq.query sq.page (pos 25)))
          λ found. reply-Keeps outside party packing proto_posts (packing.posts.encode found)

  handle_recent-Keeps : (m : Message) → Keeps ServesTable (handle_recent outside party packing m)
  unfolding handle_recent
  handle_recent-Keeps m =
      Keeps-bind (content_of-Keeps outside party packing packing.page.decode m) λ page.
        Keeps-bind (own_posts-Keeps outside party packing (query_recent posts page))
          λ recent. reply-Keeps outside party packing proto_posts (packing.posts.encode recent)

  handle_popular-Keeps : (m : Message) → Keeps ServesTable (handle_popular outside party packing m)
  unfolding handle_popular
  handle_popular-Keeps m =
      Keeps-bind (content_of-Keeps outside party packing packing.page.decode m) λ page.
        Keeps-bind (own_posts-Keeps outside party packing (query_popular posts page))
          λ popular. reply-Keeps outside party packing proto_posts (packing.posts.encode popular)

  handle_hash_list-Keeps :
      (m : Message) → Keeps ServesTable (handle_hash_list outside party packing m)
  unfolding handle_hash_list
  handle_hash_list-Keeps m =
      Keeps-bind (content_of-Keeps outside party packing packing.address.decode m) λ address.
        Keeps-bind
          (Keeps-attempt (query-Keeps outside party packing address) Keeps-pure
            (λ e. Keeps-lift (none_of_no_rows outside party packing e)))
          λ t. Keeps-bind (the_peer-Keeps outside party packing) λ lp.
            Keeps-bind (Keeps-lift (hash_list_of outside party packing address t.0 lp)) λ hash_list.
              Keeps-bind
                (Keeps-lift (
                  map_err proto_error (
                    with_content_or_none party proto_hash_list (
                      packing.collection.encode (record {
                        hash = [];
                        hash_list = hash_list;
                        size = pos (hash_list.len / 32);
                        signature = [];
                      })))))
                (reply_ignored-Keeps outside party packing)

  handle_piece-Keeps : (m : Message) → Keeps ServesTable (handle_piece outside party packing m)
  unfolding handle_piece
  handle_piece-Keeps m =
      Keeps-bind (content_of-Keeps outside party packing packing.piece.decode m) λ mrp.
        Keeps-bind (the_peer-Keeps outside party packing) λ lp.
          Keeps-bind (Keeps-lift (text_of (string_or env.codec lp.address []))) λ own.
            Keeps-bind (Keeps-lift (piece_posts outside party packing mrp own lp))
              λ found. record { at = λ s h. h }

  insert_ignored-Keeps : (e : Entry) → Keeps HasTable (insert_ignored outside party packing e)
  insert_ignored-Keeps e =
      Keeps-attempt (insert-Keeps outside party packing e) (λ _. Keeps-pure tt) (λ _. Keeps-pure tt)

  seed_added-Keeps :
      (from : Address) (b : Bool) (kv : LocalPeer S D)
      → HasTable kv
      → HasTable (
          if b then record kv { entry = with_seed outside party packing from.raw kv.entry } else kv)
  seed_added-Keeps from true lp h = h
  seed_added-Keeps from false lp h = h

  known_peer-Keeps :
      (from : Address) (kv : Option Entry)
      → Keeps ServesTable (add_known outside party packing from kv)
  known_peer-Keeps from none = Keeps-lift (err no_peer_entry)
  known_peer-Keeps from (some e) =
      let seeded = with_seed outside party packing from.raw e in
      on_peer-Keeps outside party packing (insert_ignored outside party packing seeded)
        (insert_ignored-Keeps seeded)

  handle_add_peer-Keeps :
      (from : Address) (m : Message)
      → Keeps ServesTable (handle_add_peer outside party packing from m)
  unfolding handle_add_peer
  handle_add_peer-Keeps from m =
      Keeps-bind (content_of-Keeps outside party packing packing.address.decode m) λ address.
        Keeps-bind (the_peer-Keeps outside party packing) λ lp.
          Keeps-bind
            (Keeps-if (equals address lp.address)
              (on_peer-Keeps outside party packing _ (
                Keeps-bind
                  {m = λ lp. (
                    ok tt,
                    if is_new_seed outside party packing from lp.entry.seeds
                        then record lp { entry = with_seed outside party packing from.raw lp.entry }
                        else lp,
                  )}
                  (record {
                    at = λ lp h.
                        seed_added-Keeps from
                          (is_new_seed outside party packing from lp.entry.seeds) lp h;
                  })
                  λ _. save_entry-Keeps outside))
              (Keeps-bind (query-Keeps outside party packing address)
                λ t. known_peer-Keeps from t.0))
            λ _. reply_ignored-Keeps outside party packing (bare proto_ok)

  handler_of-Keeps :
      (header : Header) (from : Address) (m : Message)
      → Keeps ServesTable (handler_of outside party packing header from m)
  unfolding handler_of
  handler_of-Keeps header from m =
      elim header as (λ h. Keeps ServesTable (handler_of outside party packing h from m)) [
        | proto_dht_announce ↦ handle_announce-Keeps m
        | proto_dht_query ↦ handle_query-Keeps m
        | proto_dht_find_closest ↦ handle_find_closest-Keeps m
        | proto_search ↦ handle_search-Keeps m
        | proto_recent ↦ handle_recent-Keeps m
        | proto_popular ↦ handle_popular-Keeps m
        | proto_request_hash_list ↦ handle_hash_list-Keeps m
        | proto_request_piece ↦ handle_piece-Keeps m
        | proto_request_add_peer ↦ handle_add_peer-Keeps from m
        | _ ↦ Keeps-pure tt
      ]

  -- Whatever the header and the content of a message and whoever sent it, and whether its handler
  -- returns, fails or panics: `RouteMessage` leaves a well-formed routing table when there was one,
  -- and the connection of the message is closed.
  pub route_message-ServesTable :
      (from : Address) (m : Message) (s : Serving S D)
      → ServesTable s
      → let (_, s') = route_message outside party packing from m s in
        ServesTable s' × (s'.client.closed ≡ true)
  unfolding route_message
  route_message-ServesTable from m s h = (
    (Keeps-attempt (handler_of-Keeps m.header from m) Keeps-pure (λ _. Keeps-pure tt)).at s h,
    refl,
  )

  -- Whatever a stream brings, as many messages as it holds and in whatever order, and whether it ends
  -- with an error or a panic: `HandleStream` leaves a well-formed routing table when there was one.
  pub handle_stream-ServesTable :
      (from : Address) (reads : List (Outcome ProtoError Message)) (s : Serving S D)
      → ServesTable s
      → ServesTable (handle_stream outside party packing from reads s).1
  unfolding handle_stream
  handle_stream-ServesTable from [] s h = h
  handle_stream-ServesTable from (ok m ∷ rest) s h =
      (Keeps-bind {m = route_message outside party packing from m}
          (record { at = λ s h. (route_message-ServesTable from m s h).0 })
          λ _. record { at = λ s h. handle_stream-ServesTable from rest s h }).at
        s h
  handle_stream-ServesTable from (err e ∷ rest) s h = h
  handle_stream-ServesTable from (panic ∷ rest) s h = h
