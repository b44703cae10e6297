-- ===== src/Proto/Honest.antt =====
-- A handshake between two honest parties.
use dfi.Prelude.{replicate, ℕ, ◌≡◌, refl, false, some, List, [], ◌∷◌, map, length}
use dfi.Prelude.Outcome.{ok}
use dfi.Dht.Address.{Bytes}
use dfi.Dht.Entry.{Entry, verify}
use dfi.Dht.Entry.Signing.{AreSignatures}
use dfi.Proto.Message.{
  Header, Message, Conn, read_message, write_message, bare, proto_ok, proto_header, proto_cap,
  proto_cookie, proto_sig,
}
use dfi.Proto.Handshake.{
  Party, Wire, LocalSigner, Capabilities, recieve_entry, recieve_proof, handshake_recieve,
  handshake_send,
}

-- What msgpack documents: a value that is decoded is the one that was encoded.
pub record IsFaithful (wire : Wire) (e : Entry) (c : Capabilities) : Type 0 where
  pub entry_bytes : Bytes
  pub encode_entry : wire.encode_entry e ≡ ok entry_bytes
  pub decode_entry : wire.decode_entry entry_bytes ≡ ok e
  pub caps_bytes : Bytes
  pub encode_caps : wire.encode_caps c ≡ ok caps_bytes
  pub decode_caps : wire.decode_caps caps_bytes ≡ ok c
  pub bytes_of : Bytes → Bytes
  pub encode_bytes : (b : Bytes) → wire.encode_bytes b ≡ ok (bytes_of b)
  pub fill :
      (n : ℕ) (b : Bytes) → length b ≡ n → wire.fill (replicate n 0) (bytes_of b) ≡ (ok tt, b)

-- An open connection on which the messages come in.
abbrev pub opened : List Message → Conn
opened messages = record { incoming = map ok messages; sent = []; closed = false }

-- The connection after all of them were read, with the messages that were sent.
abbrev pub finished : List Message → Conn
finished messages = record { incoming = []; sent = messages; closed = false }

abbrev pub carrying : Header → Bytes → Message
carrying header bs = record { header = header; content = some bs }

-- If no write fails, msgpack reads back what it wrote and the signatures of the key are
-- accepted, then a handshake sent with the private key of an entry that `Verify` accepts is
-- received, for every cookie of 20 bytes: there are messages in both directions with which both
-- sides return, the one with the entry and the capabilities of the other.
pub handshake_recieve-handshake_send :
    (party : Party) (lp : LocalSigner) (entry : Entry) (cookie : Bytes)
    → IsFaithful party.wire entry lp.capabilities
    → AreSignatures party.sigs entry.public_key lp.private_key
    → ((n : ℕ) → party.fails n ≡ false)
    → length cookie ≡ 20
    → verify party.codec party.sigs entry ≡ ok tt
    → (there : List Message) × (back : List Message) × (handshake_send party lp entry (opened back)
        ≡ (ok tt, finished there))
      × (handshake_recieve party (ok cookie) (opened there)
          ≡ (ok (entry, lp.capabilities), finished back))
unfolding handshake_send handshake_recieve recieve_entry recieve_proof read_message write_message
handshake_recieve-handshake_send party lp entry cookie faithful keys quiet size accepted =
    let signature : Bytes = party.sigs.sign lp.private_key cookie in
    let there : List Message =
      carrying proto_header faithful.entry_bytes
      ∷ carrying proto_cap faithful.caps_bytes
      ∷ carrying proto_sig (faithful.bytes_of signature)
      ∷ [] in
    let back : List Message =
      bare proto_ok ∷ carrying proto_cookie (faithful.bytes_of cookie) ∷ bare proto_ok ∷ [] in
    let read_cookie = faithful.fill 20 cookie size in
    let read_signature = faithful.fill 64 signature (keys.length-sign cookie) in
    (
      there,
      back,
      rw
          (
            faithful.encode_entry,
            quiet 0,
            faithful.encode_caps,
            quiet 1,
            read_cookie,
            faithful.encode_bytes signature,
            quiet 2,
          )
          refl,
      rw
          (
            faithful.decode_entry,
            accepted,
            quiet 0,
            faithful.decode_caps,
            faithful.encode_bytes cookie,
            quiet 1,
            read_signature,
            keys.check-sign cookie,
            quiet 2,
          )
          refl,
    )
