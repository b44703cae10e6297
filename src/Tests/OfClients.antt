-- ===== src/Tests/OfClients.antt =====
-- Requests and what they establish.
use dfi.Prelude.{◌≡◌, refl, true, [], ◌∷◌, take, bytes_eq}
use dfi.Prelude.Outcome.{ok}
use dfi.Dht.Entry.{Entry}
use dfi.Dht.Table.Initial.{new_table-IsTable}
use dfi.Dht.NetDb.Invariant.{IsDb}
use dfi.Data.Piece.{Piece}
use dfi.Proto.Message.{Conn, proto_dht_query, proto_hash_list, read_message, write_message}
use dfi.Proto.HashList.{verify_list, write_list}
use dfi.Proto.Honest.{opened, carrying}
use dfi.Proto.Client
use dfi.Proto.Requests.{Answered, query-Answered}
use dfi.Proto.Bootstrap.{bootstrap, bootstrap-IsDb}
use dfi.Peers.Mirror.{mirror_pieces, hashes, mirror_pieces-collection_hash}
use dfi.Data.Piece.{hash_of}
use dfi.Tests.Fixtures.{env, net_db, node, self, signed, signed_verified}
use dfi.Tests.Nodes.{party, packing, list, sixes}

abbrev asked : Conn
asked = opened (carrying proto_dht_query (1 ∷ []) ∷ [])

query_returns : (Client.query party packing (node 7) asked).0 ≡ ok signed
unfolding Client.query read_message write_message
query_returns = rw signed_verified refl

query-Answered_example : Answered party packing asked signed
query-Answered_example = query-Answered party packing (node 7) asked signed query_returns

bootstrap-IsDb_example :
    let (_, (db, conn)) = bootstrap env party packing (node 3) (net_db 1, asked) in
    IsDb db × (conn.closed ≡ true)
bootstrap-IsDb_example =
    bootstrap-IsDb env party packing (node 3) (net_db 1) asked (new_table-IsTable self).0

-- An entry whose collection has two hashes.
abbrev owner : Entry
owner = record signed { collection_hash = sixes }

abbrev listing : Conn
listing = opened (carrying proto_hash_list (2 ∷ []) ∷ [])

collection_returns : (Client.collection party packing (node 7) owner listing).0 ≡ ok list
unfolding Client.collection read_message write_message verify_list write_list bytes_eq
collection_returns = refl

abbrev piece : Piece
piece = record { id = 0; posts = []; hash = take 32 sixes }

mirrored : (mirror_pieces party.codec.sha3 list.hash_list 0 (piece ∷ piece ∷ []) []).0 ≡ ok tt
unfolding mirror_pieces hash_of bytes_eq
mirrored = refl

mirror_pieces-collection_hash_example :
    ((mirror_pieces party.codec.sha3 list.hash_list 0 (piece ∷ piece ∷ []) []).1
      ≡ piece ∷ piece ∷ [])
    × (party.codec.sha3 (hashes party.codec.sha3 (piece ∷ piece ∷ [])) ≡ sixes)
mirror_pieces-collection_hash_example =
    mirror_pieces-collection_hash party packing (node 7) owner listing list (piece ∷ piece ∷ [])
      collection_returns refl mirrored
