-- ===== src/Proto/Authentic.antt =====
-- What a handshake that is received establishes.
use dfi.Prelude.{◌≡◌, refl, ap, ◌∙◌, Bool, true, false, List, ◌∷◌, replicate, not, if◌then◌else◌}
use dfi.Prelude.Outcome.{Outcome, ok, err, panic}
use dfi.Prelude.Action.{pure, lift, ◌>>◌}
use dfi.Dht.Address.{Bytes}
use dfi.Dht.Entry.{Entry, EntryError, verify}
use dfi.Proto.Message.{
  Message, NetError, Conn, net_result, write_ignored, close, bare, read_content, content_or, filled,
  proto_ok, proto_no, proto_cookie, signature_not_verified,
}
use dfi.Proto.Gets.{
  Inbox, Gets, Gets-bind, Gets-lift, Gets-pure, Gets-err, Gets-close, Gets-checked, Gets-weaken,
  Gets-read_message, Gets-write_message, Gets-write_ignored, of_return,
}
use dfi.Proto.Handshake.{
  Party, Capabilities, recieve_entry, recieve_proof, handshake_recieve, refuse, nothing,
  verify_result, with_content, zero_caps,
}

-- The peer sent the entry, which `Verify` accepts, and what the decoding of its third message left in
-- the array of the signature checks out as a signature of this handshake's cookie under the public
-- key of the entry. The error of that decoding is ignored.
pub record Authenticated (party : Party) (random : Outcome NetError Bytes) (conn : Conn)
    (entry : Entry) : Type 0 where
  pub accepted : verify party.codec party.sigs entry ≡ ok tt
  pub header : Message
  pub caps_message : Message
  pub sig : Message
  pub rest : List (Outcome NetError Message)
  pub came : conn.incoming ≡ ok header ∷ ok caps_message ∷ ok sig ∷ rest
  pub decoded : read_content party.wire.decode_entry header ≡ ok entry
  pub cookie : Bytes
  pub drawn : random ≡ ok cookie
  pub signature : Bytes
  pub given : filled party.wire.fill (replicate 64 0) sig ≡ ok signature
  pub signed : party.sigs.check entry.public_key cookie signature ≡ ok true

module _ (party : Party) (start : Inbox) where
  open party use {wire, codec, sigs, fails}

  -- What is left when the peer's header was accepted.
  abbrev HasEntry : Entry → Inbox → Type 0
  HasEntry entry l =
      (header : Message) × (start ≡ ok header ∷ l)
      × (read_content wire.decode_entry header ≡ ok entry)
      × (verify codec sigs entry ≡ ok tt)

  net_result_inv : {A : Type 0} (o : Outcome NetError A) (a : A) → net_result o ≡ ok a → o ≡ ok a
  net_result_inv (ok b) a h = cc
  net_result_inv (err e) a h = cc
  net_result_inv panic a h = cc

  verify_result_inv :
      {A : Type 0} (o : Outcome EntryError A) (a : A) → verify_result o ≡ ok a → o ≡ ok a
  verify_result_inv (ok b) a h = cc
  verify_result_inv (err e) a h = cc
  verify_result_inv panic a h = cc

  recieve_entry-HasEntry : Gets (λ l. start ≡ l) (recieve_entry party) HasEntry
  unfolding recieve_entry
  recieve_entry-HasEntry = Gets-bind (Gets-checked (refuse party) Gets-read_message) λ header.
      Gets-bind
        (Gets-checked (refuse party)
          (Gets-lift (net_result (read_content wire.decode_entry header))))
        λ entry.
          Gets-bind
            (Gets-checked (refuse party) (Gets-lift (verify_result (verify codec sigs entry))))
            λ t.
              Gets-bind (Gets-checked (nothing party) (Gets-write_message fails (bare proto_ok)))
                λ _.
                  Gets-pure entry
                    λ l ((i, d), v). (header, i, net_result_inv _ entry d, verify_result_inv _ tt v)

  -- What is left when the proof was accepted as well.
  abbrev HasProof : Outcome NetError Bytes → Entry → Entry × Capabilities → Inbox → Type 0
  HasProof random entry (e, caps) l =
      (header : Message) × (caps_message : Message) × (sig : Message) × (cookie : Bytes)
      × (signature : Bytes) × (start ≡ ok header ∷ ok caps_message ∷ ok sig ∷ l)
      × (read_content wire.decode_entry header ≡ ok entry)
      × (verify codec sigs entry ≡ ok tt)
      × (random ≡ ok cookie)
      × (filled wire.fill (replicate 64 0) sig ≡ ok signature)
      × (sigs.check entry.public_key cookie signature ≡ ok true)
      × (e ≡ entry)

  -- The answer to the signature.
  answer_inv :
      (I : Inbox → Type 0) (J : Entry × Capabilities → Inbox → Type 0) (verified : Bool)
      (got : Entry × Capabilities)
      → ((l : Inbox) → I l → verified ≡ true → J got l)
      → Gets I
          (if not verified
            then (do refuse party; close; lift (err signature_not_verified))
            else (do write_ignored fails (bare proto_ok); pure got))
          J
  answer_inv I J false got h =
      Gets-bind (Gets-write_ignored fails (bare proto_no))
        λ _. Gets-bind Gets-close λ _. Gets-err signature_not_verified
  answer_inv I J true got h =
      Gets-bind (Gets-write_ignored fails (bare proto_ok)) λ _. Gets-pure got λ l i. h l i refl

  recieve_proof-HasProof :
      (random : Outcome NetError Bytes) (entry : Entry)
      → Gets (HasEntry entry) (recieve_proof party random entry) (HasProof random entry)
  unfolding recieve_proof
  recieve_proof-HasProof random entry =
      Gets-bind (Gets-checked (nothing party) Gets-read_message) λ caps_message.
        Gets-bind (Gets-lift (content_or zero_caps (read_content wire.decode_caps caps_message)))
          λ caps. Gets-bind (Gets-checked (nothing party) (Gets-lift (net_result random))) λ cookie.
            Gets-bind (Gets-lift (with_content party proto_cookie (wire.encode_bytes cookie)))
              λ message.
                Gets-bind (Gets-checked (nothing party) (Gets-write_message fails message)) λ _.
                  Gets-bind (Gets-checked (nothing party) Gets-read_message) λ sig.
                    Gets-bind (Gets-lift (filled wire.fill (replicate 64 0) sig)) λ signature.
                      Gets-bind
                        (Gets-lift (verify_result (sigs.check entry.public_key cookie signature)))
                        λ verified.
                          answer_inv _ (HasProof random entry) verified (entry, caps)
                            λ l ((((((header, i, d, a), _), c), _), g), v) e. (
                              header,
                              caps_message,
                              sig,
                              cookie,
                              signature,
                              i,
                              d,
                              a,
                              net_result_inv random cookie c,
                              g,
                              verify_result_inv _ true (v ∙ ap ok e),
                              refl,
                            )

  handshake_recieve-Proven :
      (random : Outcome NetError Bytes)
      → Gets
          (λ l. start ≡ l)
          (handshake_recieve party random)
          (λ got l. (entry : Entry) × HasProof random entry got l)
  unfolding handshake_recieve
  handshake_recieve-Proven random =
      Gets-bind recieve_entry-HasEntry
        λ entry. Gets-weaken (recieve_proof-HasProof random entry) λ got l h. (entry, h)

-- When `handshake_recieve` returns an entry, whatever the peer sent and whichever writes failed,
-- the first message of the peer carried that entry, `Verify` accepts it, and the array of the
-- signature, as the decoding of the third message left it and whether or not that decoding failed,
-- checks out under the entry's public key as a signature of the cookie that was drawn.
pub handshake_recieve-Authenticated :
    (party : Party) (random : Outcome NetError Bytes) (conn : Conn) (entry : Entry)
    (caps : Capabilities)
    → (handshake_recieve party random conn).0 ≡ ok (entry, caps)
    → Authenticated party random conn entry
handshake_recieve-Authenticated party random conn entry caps e =
    let (
      entry',
      (header, caps_message, sig, cookie, signature, came, d, v, drawn, given, signed, same),
    ) =
      of_return _ (handshake_recieve party random conn).0 _ (entry, caps)
        ((handshake_recieve-Proven party conn.incoming random).at conn refl) e in
    record {
      accepted = rw same v;
      header = header;
      caps_message = caps_message;
      sig = sig;
      rest = (handshake_recieve party random conn).1.incoming;
      came = came;
      decoded = rw same d;
      cookie = cookie;
      drawn = drawn;
      signature = signature;
      given = given;
      signed = rw same signed;
    }
