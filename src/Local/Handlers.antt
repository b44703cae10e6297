-- ===== src/Local/Handlers.antt =====
-- localpeerhandlers.go and `RouteMessage` of proto/server.go: the answer of this node to a message.
-- The node, the connection of the message and the uncompressed text that is streamed to it are the
-- state.
pub mod Routing
pub mod Kept
pub mod Answers
use dfi.Prelude.{
  ℕ, ◌/◌, ◌==◌, Bool, true, false, Option, none, some, List, [], ◌∷◌, ◌++◌, map, length, ltb, not,
  bytes_eq, if◌then◌else◌,
}
use dfi.Prelude.Int.{ℤ, pos, negsuc}
use dfi.Prelude.Outcome.{Outcome, ok, err, panic}
use dfi.Prelude.Action.{Action, map_err, within, pure, lift, attempt, deferred, ◌>>=◌, ◌>>◌}
use dfi.Dht.Address.{Address, AddressError, Bytes, equals, of_raw, string, string_or}
use dfi.Dht.Entry.{Entry}
use dfi.Dht.NetDb.{NetDb, DbError, no_rows, sql_error}
use dfi.Dht.NetDb.Reading.{query}
use dfi.Dht.NetDb.Closest.{find_closest}
use dfi.Dht.NetDb.Writing.{insert}
use dfi.Data.Post.{Post}
use dfi.Data.Collection.{Buffer}
use dfi.Data.Reader.{send_posts}
use dfi.Data.Database.{QueryError, search, query_recent, query_popular, query_piece_posts}
use dfi.Proto.Message.{
  Header, Message, NetError, ProtoError, Conn, Net, net_result, write_message, write_ignored, close,
  bare, read_content, proto_ok, proto_no, proto_posts, proto_hash_list, proto_dht_query,
  proto_dht_entries,
}
use dfi.Proto.Handshake.{Party, with_content, with_content_or_none}
use dfi.Proto.HashList.{MessageCollection}
use dfi.Proto.Packing.{Packing, SearchQuery, PieceRequest}
use dfi.Proto.Client.{send, text_of}
use dfi.Local.Node.{
  LocalPeer, LocalError, Outside, Node, on_dht, save_entry, proto_error, db_error, not_saved,
  no_hash_list, no_piece, no_peer_entry, query_error,
}

pub record Serving (S D : Type 0) : Type 0 where
  pub peer : LocalPeer S D
  pub client : Conn
  pub streamed : Bytes

module _ {S D : Type 0} (outside : Outside S D) (party : Party) (packing : Packing) where
  open outside use {env, posts, read_collection}
  open party use {fails}

  abbrev pub Serve : Type 0 → Type 0
  Serve = Action (Serving S D) LocalError

  abbrev pub on_peer : {A : Type 0} → Node outside A → Serve A
  on_peer = within (λ s. s.peer) (λ lp s. record s { peer = lp }) (λ e. e)

  abbrev pub on_client : {A : Type 0} → Net A → Serve A
  on_client = within (λ s. s.client) (λ conn s. record s { client = conn }) proto_error

  abbrev pub the_peer : Serve (LocalPeer S D)
  the_peer s = (ok s.peer, s)

  -- `msg.Read`
  abbrev pub content_of : {A : Type 0} → (Bytes → Outcome NetError A) → Message → Serve A
  content_of decode m = lift (map_err proto_error (net_result (read_content decode m)))

  -- A message that is made and written, with the error of either.
  abbrev pub reply : Header → Outcome NetError Bytes → Serve (Unit {0})
  reply header encoded = on_client (send party packing header encoded)

  abbrev pub reply_ignored : Message → Serve (Unit {0})
  reply_ignored m = on_client (write_ignored fails m)

  -- Without an entry a no is sent, and after it the empty pointer all the same. The error of the last
  -- write is in a variable of the inner block, and is lost.
  unfoldable pub handle_query : Message → Serve (Unit {0})
  handle_query m = do
    address ← content_of packing.address.decode m
    lp ← the_peer
    if equals address lp.address
        then reply proto_dht_query (packing.entry.encode (some lp.entry))
        else (do
          (kv, _) ← on_peer (on_dht outside (query env address))
          elim kv [ none ↦ reply_ignored (bare proto_no) | some _ ↦ pure tt ]
          answer ←
              lift
                (map_err proto_error (with_content party proto_dht_query (packing.entry.encode kv)))
          reply_ignored answer)

  -- The error of `Write` is ignored, and leaves a message without content.
  unfoldable pub handle_find_closest : Message → Serve (Unit {0})
  handle_find_closest m = do
    address ← content_of packing.address.decode m
    pairs ← on_peer (on_dht outside (find_closest env address))
    results ← lift (
        map_err proto_error
          (with_content_or_none party proto_dht_entries (packing.entries.encode pairs)))
    on_client (write_message fails results)

  -- The stream of the message is closed at the end, however it ends.
  unfoldable pub handle_announce : Message → Serve (Unit {0})
  handle_announce m =
      let refuse : Serve (Unit {0}) = reply_ignored (bare proto_no) >> lift (err not_saved) in
      deferred
        (do
          entry ← content_of packing.entry.decode m
          attempt (on_peer (on_dht outside (insert env entry)))
              (λ affected. if ltb 0 affected then reply_ignored (bare proto_ok) else refuse)
              (λ _. refuse))
        (on_client close)

  -- Posts of the node's own database.
  abbrev pub own_posts : {A : Type 0} → (D → Outcome QueryError A) → Serve A
  own_posts f s = (map_err query_error (f s.peer.posts), s)

  unfoldable pub handle_search : Message → Serve (Unit {0})
  handle_search m = do
    sq ← content_of packing.search.decode m
    found ← own_posts (search posts sq.query sq.page (pos 25))
    reply proto_posts (packing.posts.encode found)

  unfoldable pub handle_recent : Message → Serve (Unit {0})
  handle_recent m = do
    page ← content_of packing.page.decode m
    recent ← own_posts (query_recent posts page)
    reply proto_posts (packing.posts.encode recent)

  unfoldable pub handle_popular : Message → Serve (Unit {0})
  handle_popular m = do
    page ← content_of packing.page.decode m
    popular ← own_posts (query_popular posts page)
    reply proto_posts (packing.posts.encode popular)

  abbrev pub whole : Bytes → Buffer
  whole bs = record { array = bs; len = length bs }

  -- The hash list of this node, or the file of the collection of another one.
  abbrev pub hash_list_of : Address → Option Entry → LocalPeer S D → Outcome LocalError Buffer
  hash_list_of address kv lp =
      if equals address lp.address then ok lp.collection.hash_list else elim kv [
        | none ↦ err no_hash_list
        | some _ ↦
            elim (text_of {E = LocalError} (string_or env.codec address (101 ∷ 114 ∷ 114 ∷ []))) [
              | ok text ↦ elim (read_collection text) [
                | ok hl ↦ ok (whole hl)
                | err e ↦ err e
                | panic ↦ panic
              ]
              | err e ↦ err e
              | panic ↦ panic
            ]
      ]

  -- `err == sql.ErrNoRows` is no error, and there is no entry.
  abbrev pub none_of_no_rows : LocalError → Outcome LocalError (Option Entry × ℤ)
  none_of_no_rows (db_error (sql_error no_rows)) = ok (none, negsuc 0)
  none_of_no_rows e = err e

  unfoldable pub handle_hash_list : Message → Serve (Unit {0})
  handle_hash_list m = do
    address ← content_of packing.address.decode m
    (kv, _) ←
        attempt (on_peer (on_dht outside (query env address))) pure (λ e. lift (none_of_no_rows e))
    lp ← the_peer
    hash_list ← lift (hash_list_of address kv lp)
    resp ← lift (
        map_err proto_error (
          with_content_or_none party proto_hash_list (
            packing.collection.encode (record {
              hash = [];
              hash_list = hash_list;
              size = pos (hash_list.len / 32);
              signature = [];
            }))))
    reply_ignored resp

  abbrev pub piece_posts : PieceRequest → Bytes → LocalPeer S D → Outcome LocalError (List Post)
  piece_posts mrp own lp =
      if bytes_eq mrp.address own
      then ok (query_piece_posts posts mrp.id mrp.length lp.posts)
      else elim (lp.databases mrp.address) [
        | none ↦ err no_piece
        | some db ↦ ok (query_piece_posts posts mrp.id mrp.length db)
      ]

  -- Errors of the stream are ignored.
  unfoldable pub handle_piece : Message → Serve (Unit {0})
  handle_piece m = do
    mrp ← content_of packing.piece.decode m
    lp ← the_peer
    own ← lift (text_of (string_or env.codec lp.address []))
    found ← lift (piece_posts mrp own lp)
    λ s. (ok tt, record s { streamed = s.streamed ++ send_posts found })

  -- Whether no seed of the entry is the peer.
  abbrev pub is_new_seed : Address → List Bytes → Bool
  is_new_seed from [] = true
  is_new_seed from (seed ∷ seeds) =
      if equals from (of_raw seed) then false else is_new_seed from seeds

  abbrev pub with_seed : Bytes → Entry → Entry
  with_seed raw e = record e { seeds = e.seeds ++ raw ∷ [] }

  abbrev pub insert_ignored : Entry → Node outside (Unit {0})
  insert_ignored e = attempt (on_dht outside (insert env e)) (λ _. pure tt) (λ _. pure tt)

  -- The entry of another peer is needed.
  abbrev pub add_known : Address → Option Entry → Serve (Unit {0})
  add_known from none = lift (err no_peer_entry)
  add_known from (some e) = on_peer (insert_ignored (with_seed from.raw e))

  -- `from` is the peer that the message comes from.
  unfoldable pub handle_add_peer : Address → Message → Serve (Unit {0})
  handle_add_peer from m = do
    address ← content_of packing.address.decode m
    lp ← the_peer
    if equals address lp.address
        then on_peer (do
          λ lp. (
            ok tt,
            if is_new_seed from lp.entry.seeds
                then record lp { entry = with_seed from.raw lp.entry }
                else lp,
          )
          save_entry outside)
        else (do (kv, _) ← on_peer (on_dht outside (query env address)); add_known from kv)
    reply_ignored (bare proto_ok)
