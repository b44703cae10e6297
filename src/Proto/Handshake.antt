-- ===== src/Proto/Handshake.antt =====
-- proto/handshake.go. The encoding of values by msgpack is a parameter, and so are the random
-- bytes of the cookie.
use dfi.Prelude.{ℕ, Bool, Option, none, some, List, [], replicate, not, if◌then◌else◌}
use dfi.Prelude.Outcome.{Outcome, ok, err, panic}
use dfi.Prelude.Action.{pure, lift, attempt, ◌>>=◌, ◌>>◌}
use dfi.Dht.Address.{Bytes, Codec}
use dfi.Dht.Entry.{Entry, EntryError, Signatures, verify}
use dfi.Proto.Message.{
  Header, Message, NetError, ProtoError, Net, net_result, read_message, write_message,
  write_ignored, close, bare, read_content, content_or, filled, is_ok, proto_ok, proto_no,
  proto_header, proto_cap, proto_cookie, proto_sig, net_error, signature_not_verified,
  nil_local_peer, refused_header, refused_signature,
}

abbrev pub Capabilities : Type 0
Capabilities = List Bytes

-- `fill` decodes into an array: it gives what the array holds afterwards, also after an error.
pub record Wire : Type 0 where
  pub encode_entry : Entry → Outcome NetError Bytes
  pub decode_entry : Bytes → Outcome NetError Entry
  pub encode_caps : Capabilities → Outcome NetError Bytes
  pub decode_caps : Bytes → Outcome NetError Capabilities
  pub encode_bytes : Bytes → Outcome NetError Bytes
  pub fill : Bytes → Bytes → Outcome NetError (Unit {0}) × Bytes

pub record Party : Type 0 where
  pub wire : Wire
  pub codec : Codec
  pub sigs : Signatures
  pub fails : ℕ → Bool

-- `common.Signer` with its capabilities
pub record LocalSigner : Type 0 where
  pub private_key : Bytes
  pub capabilities : Capabilities

-- `check`: an error closes the connection; `after` is what the code does before it returns.
abbrev pub checked : {A : Type 0} → Net (Unit {0}) → Net A → Net A
checked after m = attempt m pure (λ e. close >> (after >> lift (err e)))

abbrev pub verify_result : {A : Type 0} → Outcome EntryError A → Outcome ProtoError A
verify_result (ok t) = ok t
verify_result (err e) = err (ProtoError.entry_error e)
verify_result panic = panic

abbrev pub zero_caps : Capabilities
zero_caps = []

module _ (party : Party) where
  open party use {wire, codec, sigs, fails}

  abbrev pub nothing : Net (Unit {0})
  nothing = pure tt

  abbrev pub refuse : Net (Unit {0})
  refuse = write_ignored fails (bare proto_no)

  -- A message with an encoded value.
  abbrev pub with_content : Header → Outcome NetError Bytes → Outcome ProtoError Message
  with_content header (ok bs) = ok (record { header = header; content = some bs })
  with_content header (err e) = err (net_error e)
  with_content header panic = panic

  -- `msgCaps.Write` of the capabilities, whose error is ignored.
  abbrev pub with_content_or_none : Header → Outcome NetError Bytes → Outcome ProtoError Message
  with_content_or_none header (ok bs) = ok (record { header = header; content = some bs })
  with_content_or_none header (err e) = ok (bare header)
  with_content_or_none header panic = panic

  -- The header of the peer, up to the answer to it.
  unfoldable pub recieve_entry : Net Entry
  unfolding read_message write_message
  recieve_entry = do
    header ← checked refuse read_message
    entry ← checked refuse (lift (net_result (read_content wire.decode_entry header)))
    checked refuse (lift (verify_result (verify codec sigs entry)))
    checked nothing (write_message fails (bare proto_ok))
    pure entry

  -- The capabilities, and the proof of the private key by the signature of a cookie.
  unfoldable pub recieve_proof : Outcome NetError Bytes → Entry → Net (Entry × Capabilities)
  unfolding read_message write_message
  recieve_proof random entry = do
    caps_message ← checked nothing read_message
    caps ← lift (content_or zero_caps (read_content wire.decode_caps caps_message))
    cookie ← checked nothing (lift (net_result random))
    message ← lift (with_content proto_cookie (wire.encode_bytes cookie))
    checked nothing (write_message fails message)
    sig ← checked nothing read_message
    signature ← lift (filled wire.fill (replicate 64 0) sig)
    verified ← lift (verify_result (sigs.check entry.public_key cookie signature))
    if not verified
        then (do refuse; close; lift (err signature_not_verified))
        else (do write_ignored fails (bare proto_ok); pure (entry, caps))

  unfoldable pub handshake_recieve : Outcome NetError Bytes → Net (Entry × Capabilities)
  unfolding recieve_entry recieve_proof
  handshake_recieve random = do entry ← recieve_entry; recieve_proof random entry

  unfoldable pub handshake_send : LocalSigner → Entry → Net (Unit {0})
  unfolding read_message write_message
  handshake_send lp entry = do
    header ← lift (with_content proto_header (wire.encode_entry entry))
    write_message fails header
    answer ← read_message
    if not (is_ok answer) then lift (err refused_header) else do
      caps ← lift (with_content_or_none proto_cap (wire.encode_caps lp.capabilities))
      write_message fails caps
      message ← read_message
      cookie ← lift (filled wire.fill (replicate 20 0) message)
      sig ← lift (with_content proto_sig (wire.encode_bytes (sigs.sign lp.private_key cookie)))
      write_message fails sig
      last ← read_message
      if not (is_ok last) then lift (err refused_signature) else pure tt

  -- `WriteErr`, whose content nothing reads, is the message that is passed.
  unfoldable pub handshake :
      Outcome NetError Bytes
      → (ProtoError → Message)
      → Option LocalSigner
      → Entry
      → Net (Entry × Capabilities)
  unfolding handshake_recieve handshake_send
  handshake random error_message lp entry =
      attempt (handshake_recieve random)
        (λ got. elim lp [
          | none ↦ write_ignored fails (error_message nil_local_peer) >> lift (err nil_local_peer)
          | some signer ↦ do
            write_ignored fails (bare proto_ok)
            handshake_send signer entry
            pure got
        ])
        (λ e. write_ignored fails (error_message e) >> lift (err e))
