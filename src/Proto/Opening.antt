-- ===== src/Proto/Opening.antt =====
-- The opening of connections of proto/streammanager.go, the other side of `handshake`. The dialing
-- is a parameter, and so is what comes of the two numbers that are written first.
use dfi.Prelude.{Bool, Option, none, some, not, if◌then◌else◌}
use dfi.Prelude.Outcome.{Outcome, ok, err, panic}
use dfi.Prelude.Action.{pure, lift, attempt, ◌>>=◌, ◌>>◌}
use dfi.Dht.Address.{Bytes}
use dfi.Dht.Entry.{Entry}
use dfi.Proto.Message.{
  Message, NetError, ProtoError, Conn, Net, read_message, is_ok, not_accepted, nil_entry,
}
use dfi.Proto.Handshake.{Party, LocalSigner, Capabilities, handshake_send, handshake_recieve}

-- The entry and the capabilities of a `ConnHeader`.
abbrev pub ConnHeader : Type 0
ConnHeader = Entry × Capabilities

pub record Dialer : Type 0 where
  pub socks : Bool
  pub tor : Bytes → Outcome ProtoError Conn
  pub tcp : Bytes → Outcome ProtoError Conn

abbrev pub some_header : Net ConnHeader → Net (Option ConnHeader)
some_header m = m >>= λ got. pure (some got)

module _ (party : Party) (random : Outcome NetError Bytes) (lp : LocalSigner) (entry : Entry) where
  abbrev pub proven : Message → Net (Option ConnHeader)
  proven m =
      if not (is_ok m)
      then lift (err not_accepted)
      else some_header (handshake_recieve party random)

  -- `Handshake`: the error of `handshake_send` is overwritten, and one of the read that follows is
  -- dropped, with a nil entry.
  unfoldable pub open_handshake : Net (Option ConnHeader)
  unfolding read_message handshake_send handshake_recieve
  open_handshake = do
    attempt (handshake_send party lp entry) pure (λ _. pure tt)
    attempt read_message proven (λ _. pure none)

  abbrev pub not_nil : Option ConnHeader → Net ConnHeader
  not_nil none = lift (err nil_entry)
  not_nil (some header) = pure header

  -- `handleConnection`, after the identifier and the version of the protocol.
  unfoldable pub handle_connection :
      Outcome ProtoError (Unit {0}) → Outcome ProtoError (Unit {0}) → Net ConnHeader
  unfolding open_handshake
  handle_connection dfi version = do lift dfi; lift version; open_handshake >>= not_nil

  -- The connection that is kept, if it is the new one.
  abbrev pub kept_header :
      Option ConnHeader
      → Outcome ProtoError ConnHeader
      → Outcome ProtoError ConnHeader × Option ConnHeader
  kept_header old (ok header) = (ok header, some header)
  kept_header old (err e) = (err e, old)
  kept_header old panic = (panic, old)

  module _ (dfi version : Outcome ProtoError (Unit {0})) where
    abbrev pub open_dialed :
        Option ConnHeader
        → Outcome ProtoError Conn
        → Outcome ProtoError ConnHeader × Option ConnHeader
    open_dialed old (ok conn) = kept_header old (handle_connection dfi version conn).0
    open_dialed old (err e) = (err e, old)
    open_dialed old panic = (panic, old)

    -- `OpenTCP` and `OpenSocks`. A connection that is kept is used again, but not over Tor.
    unfoldable pub open_tcp :
        Dialer → Bytes → Option ConnHeader → Outcome ProtoError ConnHeader × Option ConnHeader
    unfolding handle_connection
    open_tcp dialer addr old =
        if dialer.socks then open_dialed old (dialer.tor addr) else elim old [
          | some header ↦ (ok header, some header)
          | none ↦ open_dialed none (dialer.tcp addr)
        ]
