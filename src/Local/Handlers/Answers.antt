-- ===== src/Local/Handlers/Answers.antt =====
-- A request of one node and the handler of another: what the client gets is what the node holds.
use dfi.Prelude.{
  ℕ, zero, suc, ◌*◌, ◌/◌, ◌%◌, ◌≤◌, ◌≡◌, ◌≢◌, refl, ap, ◌∙◌, arith, true, false, Option, some, [],
  ◌∷◌, length, length-take, ltb, take, take_of_length-le, inl, inr,
}
use dfi.Prelude.Int.{ℤ, pos}
use dfi.Prelude.Outcome.{Outcome, ok, err, panic}
use dfi.Dht.Address.{Address, Bytes, equals}
use dfi.Dht.Entry.{Entry, verify}
use dfi.Dht.NetDb.{NetDb, DbError}
use dfi.Dht.NetDb.Writing.{insert}
use dfi.Data.Collection.{Buffer, contents}
use dfi.Proto.Message.{
  Message, ProtoError, Conn, read_message, write_message, bare, proto_ok, proto_no, proto_dht_query,
  proto_dht_announce, proto_request_hash_list, proto_hash_list, no_ok_answer,
}
use dfi.Proto.Handshake.{Party}
use dfi.Proto.HashList.{MessageCollection, verify_list, verify_list_lem}
use dfi.Proto.Honest.{opened, finished, carrying}
use dfi.Proto.Packing.{Packing, Packed}
use dfi.Proto.Client
use dfi.Local.Node.{LocalPeer, Outside}
use dfi.Local.Handlers.{Serving, handle_query, handle_announce, handle_hash_list, whole}

-- What msgpack documents: what is read is what was written.
pub record IsPacked {A B : Type 0} (p : Packed A B) (a : A) (b : B) : Type 0 where
  pub bytes : Bytes
  pub encoded : p.encode a ≡ ok bytes
  pub decoded : p.decode bytes ≡ ok b

-- A node that is asked on a new connection.
abbrev pub serving : {S D : Type 0} → LocalPeer S D → Conn → Serving S D
serving lp conn = record { peer = lp; client = conn; streamed = [] }

-- The entry that a node has of an address, and the node once it has looked it up.
pub data Holds {S D : Type 0} (outside : Outside S D) (a : Address) (e : Entry)
    : LocalPeer S D → LocalPeer S D → Type 0 where
  own : {lp : LocalPeer S D} → equals a lp.address ≡ true → lp.entry ≡ e → Holds outside a e lp lp
  known :
      {lp : LocalPeer S D} (id : ℤ) (db : NetDb S)
      → equals a lp.address ≡ false
      → dfi.Dht.NetDb.Reading.query outside.env a lp.dht ≡ (ok (some e, id), db)
      → Holds outside a e lp (record lp { dht = db })

module _ {S D : Type 0} (outside : Outside S D) (party : Party) (packing : Packing)
    (quiet : (n : ℕ) → party.fails n ≡ false) where
  -- Where msgpack reads back what it wrote and no write fails: a client that asks a node for the
  -- entry of an address gets the entry that the node has of it, be it the node's own or one of its
  -- database, if `Verify` accepts that entry. There are the two messages with which both return.
  pub query-handle_query :
      (a : Address) (e : Entry) (lp lp' : LocalPeer S D)
      → IsPacked packing.address a a
      → IsPacked packing.entry (some e) e
      → Holds outside a e lp lp'
      → verify party.codec party.sigs e ≡ ok tt
      → (request : Message) × (answer : Message) × (Client.query party packing a
            (opened (answer ∷ []))
          ≡ (ok e, finished (request ∷ [])))
        × (handle_query outside party packing request (serving lp (opened []))
            ≡ (ok tt, serving lp' (finished (answer ∷ []))))
  unfolding Client.query handle_query read_message write_message
  query-handle_query a e lp lp' pa pe (own same held) v = (
    carrying proto_dht_query pa.bytes,
    carrying proto_dht_query pe.bytes,
    rw (pa.encoded, quiet 0, pe.decoded, v) refl,
    rw (pa.decoded, same, held, pe.encoded, quiet 0) refl,
  )
  query-handle_query a e lp lp' pa pe (known id db other found) v = (
    carrying proto_dht_query pa.bytes,
    carrying proto_dht_query pe.bytes,
    rw (pa.encoded, quiet 0, pe.decoded, v) refl,
    rw (pa.decoded, other, found, pe.encoded, quiet 0) refl,
  )

  -- What the announcing node is told.
  abbrev pub told : Outcome DbError ℕ → Outcome ProtoError (Unit {0})
  told (ok zero) = err no_ok_answer
  told (ok (suc n)) = ok tt
  told (err x) = err no_ok_answer
  told panic = panic

  -- The answer that is sent.
  abbrev pub said : Outcome DbError ℕ → Message
  said (ok zero) = bare proto_no
  said (ok (suc n)) = bare proto_ok
  said (err x) = bare proto_no
  said panic = bare proto_no

  -- Where msgpack reads back what it wrote and no write fails: a node that announces an entry to
  -- another is told that all is well exactly when the other's `Insert` changed a row, and is
  -- refused when it changed none or failed. The other node keeps what `Insert` left, and closes
  -- the connection.
  pub announce-handle_announce :
      (e : Entry) (lp : LocalPeer S D) (o : Outcome DbError ℕ) (db : NetDb S)
      → IsPacked packing.entry (some e) e
      → insert outside.env e lp.dht ≡ (o, db)
      → o ≢ panic
      → (request : Message) × (Client.announce party packing e (opened (said o ∷ []))
          ≡ (told o, finished (request ∷ [])))
        × ((handle_announce outside party packing request (serving lp (opened []))).1
            ≡ serving (record lp { dht = db }) (record (finished (said o ∷ [])) { closed = true }))
  unfolding Client.announce handle_announce read_message write_message
  announce-handle_announce e lp (ok zero) db pe i p = (
    carrying proto_dht_announce pe.bytes,
    rw (pe.encoded, quiet 0) refl,
    rw (pe.decoded, i, quiet 0) refl,
  )
  announce-handle_announce e lp (ok (suc n)) db pe i p =
      let changed : ltb 0 (suc n) ≡ true = ground arith in
      (
        carrying proto_dht_announce pe.bytes,
        rw (pe.encoded, quiet 0) refl,
        rw (pe.decoded, i, changed, quiet 0) refl,
      )
  announce-handle_announce e lp (err x) db pe i p = (
    carrying proto_dht_announce pe.bytes,
    rw (pe.encoded, quiet 0) refl,
    rw (pe.decoded, i, quiet 0) refl,
  )
  announce-handle_announce e lp panic db pe i p = absurd (p refl)

  -- The hash list of a node as it is asked for and as it is read.
  abbrev pub listed : Buffer → MessageCollection
  listed b = record { hash = []; hash_list = b; size = pos (b.len / 32); signature = [] }

  listed-verified :
      (b : Buffer) (root : Bytes)
      → b.len ≤ length b.array
      → b.len % 32 ≡ 0
      → party.codec.sha3 (contents b) ≡ root
      → verify_list party.codec.sha3 (listed (whole outside party packing (contents b))) root
        ≡ ok tt
  listed-verified b root fits hashes same =
      let size : length (contents b) ≡ b.len = omega (arith, length-take b.len b.array, fits) in
      let count : b.len / 32 * 32 ≡ b.len = omega (arith, hashes) in
      let list : MessageCollection = listed (whole outside party packing (contents b)) in
      let half : length (contents b) / 32 * 32 ≡ length (contents b) = rw size count in
      let all : take (length (contents b) / 32 * 32) (contents b) ≡ contents b =
        take_of_length-le _ (contents b) (omega (arith, half)) in
      elim (verify_list_lem party.codec.sha3 list root) [
        | inl (_, inl (_, e)) ↦ e
        | inl (_, inr (ne, _)) ↦ absurd (ne (ap party.codec.sha3 all ∙ same))
        | inr (short, _) ↦ absurd (omega (arith, short, half))
      ]

  -- Where msgpack reads back what it wrote and no write fails: a client that asks a node for its
  -- hash list gets all of it, if the list is made of hashes of 32 bytes, its hash is the one in
  -- the entry that the client has of the node, and the node's query of its database for its own
  -- address does not fail.
  pub collection-handle_hash_list :
      (a : Address) (e : Entry) (lp : LocalPeer S D) (kv : Option Entry) (id : ℤ) (db : NetDb S)
      → let list = lp.collection.hash_list in
        let sent = whole outside party packing (contents list) in
        IsPacked packing.address a a
        → IsPacked packing.collection (listed list) (listed sent)
        → equals a lp.address ≡ true
        → dfi.Dht.NetDb.Reading.query outside.env a lp.dht ≡ (ok (kv, id), db)
        → list.len ≤ length list.array
        → list.len % 32 ≡ 0
        → party.codec.sha3 (contents list) ≡ e.collection_hash
        → (request : Message) × (answer : Message) × (Client.collection party packing a e
              (opened (answer ∷ []))
            ≡ (ok (listed sent), finished (request ∷ [])))
          × (handle_hash_list outside party packing request (serving lp (opened []))
              ≡ (ok tt, serving (record lp { dht = db }) (finished (answer ∷ []))))
  unfolding Client.collection handle_hash_list read_message write_message
  collection-handle_hash_list a e lp kv id db pa pc same found fits hashes root = (
    carrying proto_request_hash_list pa.bytes,
    carrying proto_hash_list pc.bytes,
    rw
        (
          pa.encoded,
          quiet 0,
          pc.decoded,
          listed-verified (lp.collection.hash_list) e.collection_hash fits hashes root,
        )
        refl,
    rw (pa.decoded, found, same, pc.encoded, quiet 0) refl,
  )
