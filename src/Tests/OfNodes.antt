-- ===== src/Tests/OfNodes.antt =====
-- The node and its handlers.
use dfi.Prelude.{
  ℕ, ◌≡◌, ◌≢◌, refl, arith, true, some, none, [], ◌∷◌, replicate, bytes_eq, length-replicate,
}
use dfi.Prelude.Int.{pos, negsuc}
use dfi.Prelude.Outcome.{Outcome, ok, panic}
use dfi.Dht.Address.{equals, string}
use dfi.Dht.Entry.{Entry, verify}
use dfi.Dht.Table.Initial.{new_table-IsTable}
use dfi.Dht.NetDb.Writing.{insert}
use dfi.Dht.NetDb.Inserting.{insert-known}
use dfi.Data.Piece.{setup}
use dfi.Data.Database.{no_post}
use dfi.Proto.Message.{Message, proto_dht_query}
use dfi.Proto.Honest.{opened, finished, carrying}
use dfi.Proto.Client
use dfi.Dht.NetDb.Reading
use dfi.Dht.NetDb.Reading.{insert_address, save_table}
use dfi.Dht.NetDb.Writing.{update}
use dfi.Dht.Table.{new_table, insert_into_table, insert_bucket, find_equal, bucket_index}
use dfi.Dht.Address.{xor, xor_bytes, leading_zeroes, first_one, first_bit}
use dfi.Dht.Entry.{signed_bytes, signed_text}
use dfi.Text.Decimal.{itoa, digits}
use dfi.Text.Utf8.{rune_string}
use dfi.Data.Collection.{contents}
use dfi.Local.{sign_entry}
use dfi.Local.Node.{sign, save_entry, piece_to_add}
use dfi.Local.Saved.{save_entry-verified, piece_to_add-setup}
use dfi.Local.Handlers.{handle_query, handle_announce, handle_hash_list, whole}
use dfi.Local.Handlers.Routing.{handle_stream, route_message}
use dfi.Local.Handlers.Kept.Calls.{ServesTable}
use dfi.Local.Handlers.Kept.{route_message-ServesTable, handle_stream-ServesTable}
use dfi.Local.Handlers.Answers.{
  IsPacked, serving, own, told, said, query-handle_query, announce-handle_announce, listed,
  collection-handle_hash_list,
}
use dfi.Tests.Fixtures.{
  env, net_db, node, node-IsNode, self, signed, signed_verified, owner_signature,
}
use dfi.Tests.Nodes.{party, packing, outside, local, list, sixes, post_sql-IsPaged}

address-IsPacked : IsPacked packing.address self self
address-IsPacked = record { bytes = replicate 20 0; encoded = refl; decoded = refl }

entry-IsPacked : IsPacked packing.entry (some signed) signed
entry-IsPacked = record { bytes = 1 ∷ []; encoded = refl; decoded = refl }

self-equals : equals self self ≡ true
unfolding equals bytes_eq
self-equals = refl

query-handle_query_example :
    (request : Message) × (answer : Message) × (Client.query party packing self
        (opened (answer ∷ []))
      ≡ (ok signed, finished (request ∷ [])))
    × (handle_query outside party packing request (serving (local 1) (opened []))
        ≡ (ok tt, serving (local 1) (finished (answer ∷ []))))
query-handle_query_example =
    query-handle_query outside party packing (λ n. refl) self signed (local 1) (local 1)
      address-IsPacked entry-IsPacked (own self-equals refl) signed_verified

abbrev announced : Outcome dfi.Dht.NetDb.DbError ℕ
announced = (insert env signed (net_db 1)).0

announced_ok : announced ≡ ok 1
unfolding string
announced_ok =
    (insert-known env (net_db 1) signed
      (81 ∷ replicate 20 7, record { raw = replicate 20 7; encoded = 81 ∷ replicate 20 7 })
      (record { rows_affected = ok 1; last_insert_id = ok (pos 1) }) 1 0 (new_table-IsTable self).0
      (node-IsNode 0 (omega arith)) (node-IsNode 7 (omega arith)) signed_verified refl refl refl).0

no_panic : announced ≢ panic
no_panic e = cc (announced_ok, e)

announce-handle_announce_example :
    (request : Message) × (Client.announce party packing signed
        (opened (said outside party packing (λ n. refl) announced ∷ []))
      ≡ (told outside party packing (λ n. refl) announced, finished (request ∷ [])))
    × ((handle_announce outside party packing request (serving (local 1) (opened []))).1
        ≡ serving
            (record (local 1) { dht = (insert env signed (net_db 1)).1 })
            (record (finished (said outside party packing (λ n. refl) announced ∷ [])) {
              closed = true;
            }))
announce-handle_announce_example =
    announce-handle_announce outside party packing (λ n. refl) signed (local 1) announced
      (insert env signed (net_db 1)).1 entry-IsPacked refl no_panic

abbrev query_message : Message
query_message = carrying proto_dht_query (replicate 20 0)

route_message-ServesTable_example :
    let (_, s) =
      route_message outside party packing (node 3) query_message (serving (local 1) (opened [])) in
    ServesTable s × (s.client.closed ≡ true)
route_message-ServesTable_example =
    route_message-ServesTable outside party packing (node 3) query_message
      (serving (local 1) (opened [])) (new_table-IsTable self).0

handle_stream-ServesTable_example :
    ServesTable
      (handle_stream outside party packing
        (node 3)
        (ok query_message ∷ ok query_message ∷ [])
        (serving (local 1) (opened []))).1
handle_stream-ServesTable_example =
    handle_stream-ServesTable outside party packing (node 3)
      (ok query_message ∷ ok query_message ∷ []) (serving (local 1) (opened []))
      (new_table-IsTable self).0

piece_to_add-setup_case :
    piece_to_add outside (pos 1000) (record (local 1) { posts = replicate 1000 no_post })
    ≡ (ok (setup 1), record (local 1) { posts = replicate 1000 no_post })
piece_to_add-setup_case =
    piece_to_add-setup outside (record (local 1) { posts = replicate 1000 no_post })
      (replicate 1000 no_post) 1 (post_sql-IsPaged (replicate 1000 no_post))
      (length-replicate 1000 no_post) (omega arith)

abbrev sender : Entry
sender = record signed { collection_hash = sixes }

no_entry_found : Reading.query env self (net_db 0) ≡ (ok (none, negsuc 0), net_db 0)
unfolding Reading.query string
no_entry_found = refl

list_IsPacked :
    IsPacked packing.collection
      (listed outside party packing (λ n. refl) (local 0).collection.hash_list)
      (listed outside party packing
        (λ n. refl)
        (whole outside party packing (contents (local 0).collection.hash_list)))
list_IsPacked = record { bytes = 2 ∷ []; encoded = refl; decoded = refl }

collection-handle_hash_list_example :
    (request : Message) × (answer : Message) × (Client.collection party packing self sender
        (opened (answer ∷ []))
      ≡ (ok list, finished (request ∷ [])))
    × (handle_hash_list outside party packing request (serving (local 0) (opened []))
        ≡ (ok tt, serving (local 0) (finished (answer ∷ []))))
collection-handle_hash_list_example =
    collection-handle_hash_list outside party packing (λ n. refl) self sender (local 0) none
      (negsuc 0) (net_db 0) address-IsPacked list_IsPacked self-equals no_entry_found (omega arith)
      refl refl

-- The node signs its own entry and stores it.
saved : (save_entry outside (local 1)).0 ≡ ok tt
unfolding save_entry sign sign_entry insert verify signed_bytes signed_text string itoa digits
    rune_string bytes_eq insert_address insert_into_table insert_bucket find_equal bucket_index xor
    xor_bytes leading_zeroes first_one first_bit equals update save_table owner_signature new_table
saved = refl

save_entry-verified_example :
    verify env.codec env.sigs (save_entry outside (local 1)).1.entry ≡ ok tt
save_entry-verified_example = save_entry-verified outside (local 1) saved
