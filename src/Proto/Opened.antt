-- ===== src/Proto/Opened.antt =====
-- What a connection that was opened establishes.
use mathlib.Core.List.{append_assoc}
use dfi.Prelude.{
  ℕ, ◌≡◌, refl, sym, ◌∙◌, subst, Bool, none, some, [], ◌∷◌, ◌++◌, length, replicate, ◌||◌,
  Bool-cases, inl, inr, not,
}
use dfi.Prelude.Outcome.{Outcome, ok, err, panic}
use dfi.Prelude.Action.{
  pure, lift, attempt, continue, recover, ◌>>=◌, ◌>>◌, Keeps, Keeps-pure, Keeps-lift, Keeps-bind,
  Keeps-attempt, Keeps-if,
}
use dfi.Dht.Address.{Bytes}
use dfi.Dht.Entry.{Entry}
use dfi.Proto.Message.{
  filled, refused_header, refused_signature, Message, NetError, ProtoError, Conn, Net, read_message,
  write_message, next_message, is_ok, proto_header, proto_cap, proto_sig,
}
use dfi.Proto.Handshake.{
  with_content, with_content_or_none, Party, LocalSigner, Capabilities, handshake_send,
  handshake_recieve,
}
use dfi.Proto.Authentic.{Authenticated, handshake_recieve-Authenticated}
use dfi.Proto.Gets.{Inbox}
use dfi.Proto.Opening.{ConnHeader, proven, open_handshake}

-- `l` is what is left of `start`.
abbrev pub IsLeft : Inbox → Inbox → Type 0
IsLeft start l = (before : Inbox) × (start ≡ before ++ l)

module _ (start : Inbox) where
  abbrev Left : Conn → Type 0
  Left conn = IsLeft start conn.incoming

  next_message-Left :
      (l : Inbox) (conn : Conn) → IsLeft start l → conn.incoming ≡ l → Left (next_message l conn).1
  next_message-Left [] conn h same = subst (IsLeft start) (sym same) h
  next_message-Left (m ∷ ms) conn (before, h) same =
      (before ++ m ∷ [], h ∙ sym (append_assoc before (m ∷ []) ms))

  read_message-Keeps : Keeps Left read_message
  unfolding read_message
  read_message-Keeps = record { at = λ conn h. next_message-Left conn.incoming conn h refl }

  write_message-Keeps : (fails : ℕ → Bool) (m : Message) → Keeps Left (write_message fails m)
  unfolding write_message
  write_message-Keeps fails m = record {
    at = λ conn h. elim (Bool-cases (conn.closed || fails (length conn.sent))) [
      | inl refused ↦ rw refused h
      | inr sent ↦ rw sent h
    ];
  }

  sent-Keeps :
      {A : Type 0} (fails : ℕ → Bool) (m : Outcome ProtoError Message) (next : Net A)
      → Keeps Left next
      → Keeps Left (do m ← lift m; write_message fails m; next)
  sent-Keeps fails m next k =
      Keeps-bind (Keeps-lift m) λ m. Keeps-bind (write_message-Keeps fails m) λ _. k

  module _ (party : Party) (lp : LocalSigner) (entry : Entry) where
    open party use {wire, codec, sigs, fails}

    handshake_send-Keeps : Keeps Left (handshake_send party lp entry)
    unfolding handshake_send
    handshake_send-Keeps =
        sent-Keeps fails (with_content party proto_header (wire.encode_entry entry)) _ (
          Keeps-bind read_message-Keeps λ answer.
            Keeps-if (not (is_ok answer)) (Keeps-lift (err refused_header)) (
              sent-Keeps fails
                (with_content_or_none party proto_cap (wire.encode_caps lp.capabilities)) _
                (Keeps-bind read_message-Keeps λ message.
                  Keeps-bind (Keeps-lift (filled wire.fill (replicate 20 0) message)) λ cookie.
                    sent-Keeps fails
                      (with_content party proto_sig
                        (wire.encode_bytes (sigs.sign lp.private_key cookie)))
                      _
                      (Keeps-bind read_message-Keeps λ last.
                        Keeps-if (not (is_ok last)) (Keeps-lift (err refused_signature))
                          (Keeps-pure tt)))))

    -- The peer was asked for its proof on what was left of the connection.
    Recieved : Outcome NetError Bytes → ConnHeader → Type 0
    Recieved random (e, caps) = (later : Conn) × Left later × Authenticated party random later e

    recieved_some :
        (random : Outcome NetError Bytes) (header : ConnHeader) (o : Outcome ProtoError ConnHeader)
        (s : Conn)
        → (continue o (λ got. pure (some got)) s).0 ≡ ok (some header)
        → o ≡ ok header
    recieved_some random header (ok got) s h = cc h
    recieved_some random header (err e) s h = cc h
    recieved_some random header panic s h = cc h

    after_answer :
        (random : Outcome NetError Bytes) (header : ConnHeader) (o : Outcome ProtoError Message)
        (s : Conn)
        → Left s
        → (recover o (proven party random lp entry) (λ _. pure none) s).0 ≡ ok (some header)
        → Recieved random header
    unfolding Recieved
    after_answer random (e, caps) (ok m) s left h = elim (Bool-cases (not (is_ok m))) [
      | inl refused ↦ cc (rw refused at h)
      | inr accepted ↦ (
        s,
        left,
        handshake_recieve-Authenticated party random s e caps (
            recieved_some random (e, caps) (handshake_recieve party random s).0
              (handshake_recieve party random s).1 (rw accepted at h)),
      )
    ]
    after_answer random header (err x) s left h = cc h
    after_answer random header panic s left h = cc h

    after_sent :
        (random : Outcome NetError Bytes) (header : ConnHeader) (o : Outcome ProtoError (Unit {0}))
        (s : Conn)
        → Left s
        → (continue o
            (λ _. attempt read_message (proven party random lp entry) (λ _. pure none))
            s).0
          ≡ ok (some header)
        → Recieved random header
    after_sent random header (ok t) s left h =
        after_answer random header (read_message s).0 (read_message s).1
          (read_message-Keeps.at s left) h
    after_sent random header (err x) s left h = cc h
    after_sent random header panic s left h = cc h

    opened-Recieved :
        (random : Outcome NetError Bytes) (header : ConnHeader) (conn : Conn)
        → Left conn
        → (open_handshake party random lp entry conn).0 ≡ ok (some header)
        → Recieved random header
    unfolding open_handshake
    opened-Recieved random header conn left h =
        let sent = attempt (handshake_send party lp entry) pure (λ _. pure tt) in
        after_sent random header (sent conn).0 (sent conn).1
          ((Keeps-attempt handshake_send-Keeps Keeps-pure (λ _. Keeps-pure tt)).at conn left) h

-- When `Handshake` of the stream manager returns an entry, whatever the peer sent and whether or not
-- the peer took the node's own proof: on what was left of the messages of the connection the peer
-- sent that entry, which `Verify` accepts, and the array of the signature, as the decoding of a
-- later message left it and whether or not that decoding failed, checks out under the entry's
-- public key as a signature of the cookie that was drawn.
pub open_handshake-Authenticated :
    (party : Party) (random : Outcome NetError Bytes) (lp : LocalSigner) (own entry : Entry)
    (caps : Capabilities) (conn : Conn)
    → (open_handshake party random lp own conn).0 ≡ ok (some (entry, caps))
    → (later : Conn) × IsLeft conn.incoming later.incoming × Authenticated party random later entry
unfolding Recieved
open_handshake-Authenticated party random lp own entry caps conn h =
    opened-Recieved conn.incoming party lp own random (entry, caps) conn ([], refl) h
