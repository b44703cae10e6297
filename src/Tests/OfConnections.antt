-- ===== src/Tests/OfConnections.antt =====
-- Connections that are opened, and shuffled lists.
use dfi.Prelude.{ℕ, ◌≡◌, refl, some, List, [], ◌∷◌, replicate, bytes_eq, arith, ◌/◌}
use dfi.Prelude.Outcome.{ok}
use mathlib.Core.List.{Perm}
use dfi.Proto.Message.{
  Message, ProtoError, Conn, proto_ok, proto_header, proto_cap, proto_sig, proto_cookie, bare,
  read_message, write_message,
}
use dfi.Proto.Handshake.{handshake, handshake_recieve, handshake_send, recieve_entry, recieve_proof}
use dfi.Proto.Authentic.{Authenticated}
use dfi.Proto.Honest.{opened, finished}
use dfi.Proto.Opening.{open_handshake}
use dfi.Proto.Opened.{IsLeft, open_handshake-Authenticated}
use dfi.Proto.Agreed.{open_handshake-handshake}
use dfi.Util.Shuffle.{shuffle, shuffle-Perm}
use dfi.Tests.Fixtures.{sigs-AreSignatures, signed, signed_verified, padded}
use dfi.Tests.OfProto.{party, signer, wire-IsFaithful, conn}

abbrev error_message : ProtoError → Message
error_message e = bare proto_ok

open_handshake-handshake_example :
    (there : List Message) × (back : List Message) × (open_handshake party
        (ok (replicate 20 4))
        signer
        signed
        (opened back)
      ≡ (ok (some (signed, signer.capabilities)), finished there))
    × (handshake party (ok (replicate 20 3)) error_message (some signer) signed (opened there)
        ≡ (ok (signed, signer.capabilities), finished back))
open_handshake-handshake_example =
    open_handshake-handshake party signer signer signed signed (replicate 20 3) (replicate 20 4)
      error_message wire-IsFaithful wire-IsFaithful sigs-AreSignatures sigs-AreSignatures
      (λ n. refl) refl refl signed_verified signed_verified

-- What an honest peer writes to the one that opens the connection.
abbrev answered : Conn
answered = conn (
    bare proto_ok
    ∷ record { header = proto_cookie; content = some (replicate 20 3) }
    ∷ bare proto_ok
    ∷ bare proto_ok
    ∷ record { header = proto_header; content = some (1 ∷ []) }
    ∷ record { header = proto_cap; content = some (2 ∷ []) }
    ∷ record { header = proto_sig; content = some (padded (replicate 20 4)) }
    ∷ [])

accepted :
    (open_handshake party (ok (replicate 20 4)) signer signed answered).0
    ≡ ok (some (signed, signer.capabilities))
unfolding open_handshake handshake_send handshake_recieve recieve_entry recieve_proof read_message
    write_message bytes_eq
accepted = rw signed_verified refl

open_handshake-Authenticated_example :
    (later : Conn) × IsLeft answered.incoming later.incoming
    × Authenticated party (ok (replicate 20 4)) later signed
open_handshake-Authenticated_example =
    open_handshake-Authenticated party (ok (replicate 20 4)) signer signed signed
      signer.capabilities answered accepted

shuffle-Perm_example :
    (l : List ℕ) × (shuffle {E = ProtoError} (λ n. n / 2) (7 ∷ 8 ∷ 9 ∷ []) ≡ ok l)
    × Perm l (7 ∷ 8 ∷ 9 ∷ [])
shuffle-Perm_example =
    shuffle-Perm {E = ProtoError} (λ n. n / 2) (7 ∷ 8 ∷ 9 ∷ []) (λ n. omega arith)
