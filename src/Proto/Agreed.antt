-- ===== src/Proto/Agreed.antt =====
-- A connection between two honest parties, from the opening to the entries of both.
use dfi.Prelude.{ℕ, ◌≡◌, refl, false, some, List, [], ◌∷◌, ◌++◌, length}
use dfi.Prelude.Outcome.{ok}
use dfi.Dht.Address.{Bytes}
use dfi.Dht.Entry.{Entry, verify}
use dfi.Dht.Entry.Signing.{AreSignatures}
use dfi.Proto.Message.{
  Message, ProtoError, Conn, read_message, write_message, bare, proto_ok, proto_header, proto_cap,
  proto_cookie, proto_sig,
}
use dfi.Proto.Handshake.{
  Party, LocalSigner, handshake, handshake_send, handshake_recieve, recieve_entry, recieve_proof,
}
use dfi.Proto.Gets.{Inbox}
use dfi.Proto.Honest.{IsFaithful, opened, finished, carrying}
use dfi.Proto.Opening.{open_handshake}

-- An open connection with messages to come and messages that were sent.
abbrev amid : Inbox → List Message → Conn
amid incoming sent = record { incoming = incoming; sent = sent; closed = false }

module _ (party : Party) (lp : LocalSigner) (entry : Entry) (cookie : Bytes)
    (faithful : IsFaithful party.wire entry lp.capabilities)
    (keys : AreSignatures party.sigs entry.public_key lp.private_key)
    (quiet : (n : ℕ) → party.fails n ≡ false) (size : length cookie ≡ 20) where
  abbrev signature : Bytes
  signature = party.sigs.sign lp.private_key cookie

  abbrev cookie_message : Message
  cookie_message = carrying proto_cookie (faithful.bytes_of cookie)

  abbrev sig_message : Message
  sig_message = carrying proto_sig (faithful.bytes_of signature)

  abbrev header_message : Message
  header_message = carrying proto_header faithful.entry_bytes

  abbrev cap_message : Message
  cap_message = carrying proto_cap faithful.caps_bytes

  handshake_send-amid :
      (rest : Inbox) (before : List Message)
      → handshake_send party lp entry
          (amid (ok (bare proto_ok) ∷ ok cookie_message ∷ ok (bare proto_ok) ∷ rest) before)
        ≡ (
          ok tt,
          amid rest (((before ++ header_message ∷ []) ++ cap_message ∷ []) ++ sig_message ∷ []),
        )
  unfolding handshake_send read_message write_message
  handshake_send-amid rest before =
      rw
        (
          faithful.encode_entry,
          quiet (length before),
          faithful.encode_caps,
          quiet (length (before ++ header_message ∷ [])),
          faithful.fill 20 cookie size,
          faithful.encode_bytes signature,
          quiet (length ((before ++ header_message ∷ []) ++ cap_message ∷ [])),
        )
        refl

  handshake_recieve-amid :
      (rest : Inbox) (before : List Message)
      → verify party.codec party.sigs entry ≡ ok tt
      → handshake_recieve party
          (ok cookie)
          (amid (ok header_message ∷ ok cap_message ∷ ok sig_message ∷ rest) before)
        ≡ (
          ok (entry, lp.capabilities),
          amid rest (((before ++ bare proto_ok ∷ []) ++ cookie_message ∷ []) ++ bare proto_ok ∷ []),
        )
  unfolding handshake_recieve recieve_entry recieve_proof read_message write_message
  handshake_recieve-amid rest before accepted =
      rw
        (
          faithful.decode_entry,
          accepted,
          quiet (length before),
          faithful.decode_caps,
          faithful.encode_bytes cookie,
          quiet (length (before ++ bare proto_ok ∷ [])),
          faithful.fill 64 signature (keys.length-sign cookie),
          keys.check-sign cookie,
          quiet (length ((before ++ bare proto_ok ∷ []) ++ cookie_message ∷ [])),
        )
        refl

-- Where msgpack reads back what it wrote, no write fails and both keys are those of the entries, the
-- one that opens a connection and the one that takes it each get the other's entry and
-- capabilities, if `Verify` accepts both entries and the cookies are of 20 bytes. There are the
-- messages in both directions with which both return.
pub open_handshake-handshake :
    (party : Party) (opens takes : LocalSigner) (from to : Entry) (cookie cookie' : Bytes)
    (error_message : ProtoError → Message)
    → IsFaithful party.wire from opens.capabilities
    → IsFaithful party.wire to takes.capabilities
    → AreSignatures party.sigs from.public_key opens.private_key
    → AreSignatures party.sigs to.public_key takes.private_key
    → ((n : ℕ) → party.fails n ≡ false)
    → length cookie ≡ 20
    → length cookie' ≡ 20
    → verify party.codec party.sigs from ≡ ok tt
    → verify party.codec party.sigs to ≡ ok tt
    → (there : List Message) × (back : List Message) × (open_handshake party
          (ok cookie')
          opens
          from
          (opened back)
        ≡ (ok (some (to, takes.capabilities)), finished there))
      × (handshake party (ok cookie) error_message (some takes) to (opened there)
          ≡ (ok (from, opens.capabilities), finished back))
unfolding open_handshake handshake read_message write_message
open_handshake-handshake party opens takes from to cookie cookie' error_message f g keys keys' quiet
      size size' accepted accepted' =
    let header = header_message party opens from cookie f keys quiet size in
    let cap = cap_message party opens from cookie f keys quiet size in
    let sig = sig_message party opens from cookie f keys quiet size in
    let asked = cookie_message party opens from cookie f keys quiet size in
    let header' = header_message party takes to cookie' g keys' quiet size' in
    let cap' = cap_message party takes to cookie' g keys' quiet size' in
    let sig' = sig_message party takes to cookie' g keys' quiet size' in
    let asked' = cookie_message party takes to cookie' g keys' quiet size' in
    let fine = bare proto_ok in
    let there : List Message = header ∷ cap ∷ sig ∷ fine ∷ asked' ∷ fine ∷ [] in
    let back : List Message = fine ∷ asked ∷ fine ∷ fine ∷ header' ∷ cap' ∷ sig' ∷ [] in
    (
      there,
      back,
      rw
          (
            handshake_send-amid party opens from cookie f keys quiet size
                (ok fine ∷ ok header' ∷ ok cap' ∷ ok sig' ∷ []) [],
            handshake_recieve-amid party takes to cookie' g keys' quiet size' []
                (header ∷ cap ∷ sig ∷ []) accepted',
          )
          refl,
      rw
          (
            handshake_recieve-amid party opens from cookie f keys quiet size
                (ok fine ∷ ok asked' ∷ ok fine ∷ []) [] accepted,
            quiet 3,
            handshake_send-amid party takes to cookie' g keys' quiet size' []
                (fine ∷ asked ∷ fine ∷ fine ∷ []),
          )
          refl,
    )
