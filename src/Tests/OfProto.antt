-- ===== src/Tests/OfProto.antt =====
-- The handshake and what is sent in it.
use dfi.Prelude.{
  ℕ, ◌+◌, ◌*◌, ◌≡◌, ◌≢◌, ◌≤◌, ◌<◌, refl, false, some, List, [], ◌∷◌, map, take, replicate, ◌⊎◌,
  bytes_eq,
}
use dfi.Prelude.Int.{pos}
use dfi.Prelude.Outcome.{Outcome, ok, err, panic}
use dfi.Dht.Address.{Bytes}
use dfi.Proto.Message.{
  Message, Conn, proto_header, proto_cap, proto_sig, read_message, write_message,
}
use dfi.Proto.Handshake.{
  Wire, Party, LocalSigner, handshake_recieve, handshake_send, recieve_entry, recieve_proof,
}
use dfi.Proto.Authentic.{Authenticated, handshake_recieve-Authenticated}
use dfi.Proto.Honest.{IsFaithful, handshake_recieve-handshake_send}
use dfi.Proto.Capabilities.{IsChoice, choose_compression, choose_compression-IsChoice}
use dfi.Proto.HashList.{MessageCollection, verify_list, verify_list_lem, invalid_hash_list}
use dfi.Proto.Sessions.{
  SessionError, setup_sessions, connect, connect_client, connect_server, connect_all, get_session,
  client_call, server_call, IsExclusive, connect_all-get_session,
}
use dfi.Tests.Fixtures.{
  codec, sigs, sigs-AreSignatures, signed, signed_verified, private_key, padded,
}

-- Values as the wire has them: one entry and one list of capabilities are known to it.
abbrev wire : Wire
wire = record {
  encode_entry = λ e. ok (1 ∷ []);
  decode_entry = λ bs. ok signed;
  encode_caps = λ c. ok (2 ∷ []);
  decode_caps = λ bs. ok ((103 ∷ []) ∷ []);
  encode_bytes = λ bs. ok bs;
  fill = λ a bs. (ok tt, bs);
}

abbrev pub party : Party
party = record { wire = wire; codec = codec; sigs = sigs; fails = λ n. false }

abbrev pub signer : LocalSigner
signer = record { private_key = private_key; capabilities = (103 ∷ []) ∷ [] }

pub wire-IsFaithful : IsFaithful wire signed signer.capabilities
wire-IsFaithful = record {
  entry_bytes = 1 ∷ [];
  encode_entry = refl;
  decode_entry = refl;
  caps_bytes = 2 ∷ [];
  encode_caps = refl;
  decode_caps = refl;
  bytes_of = λ bs. bs;
  encode_bytes = λ bs. refl;
  fill = λ n bs h. refl;
}

abbrev pub conn : List Message → Conn
conn messages = record { incoming = map ok messages; sent = []; closed = false }

handshake_recieve-handshake_send_case :
    (there : List Message) × (back : List Message) × (handshake_send party signer signed (conn back)
      ≡ (ok tt, record { incoming = []; sent = there; closed = false }))
    × (handshake_recieve party (ok (replicate 20 3)) (conn there)
        ≡ (ok (signed, signer.capabilities), record { incoming = []; sent = back; closed = false }))
handshake_recieve-handshake_send_case =
    handshake_recieve-handshake_send party signer signed (replicate 20 3) wire-IsFaithful
      sigs-AreSignatures (λ n. refl) refl signed_verified

-- The messages of a peer that signs the cookie.
abbrev honest : Conn
honest = conn (
    record { header = proto_header; content = some (1 ∷ []) }
    ∷ record { header = proto_cap; content = some (2 ∷ []) }
    ∷ record { header = proto_sig; content = some (padded (replicate 20 3)) }
    ∷ [])

returned :
    (handshake_recieve party (ok (replicate 20 3)) honest).0 ≡ ok (signed, signer.capabilities)
unfolding handshake_recieve recieve_entry recieve_proof read_message write_message bytes_eq
returned = rw signed_verified refl

handshake_recieve-Authenticated_example : Authenticated party (ok (replicate 20 3)) honest signed
handshake_recieve-Authenticated_example =
    handshake_recieve-Authenticated party (ok (replicate 20 3)) honest signed signer.capabilities
      returned

choose_compression-IsChoice_example :
    IsChoice
      ((103 ∷ []) ∷ [])
      ((108 ∷ []) ∷ (103 ∷ []) ∷ [])
      (choose_compression ((103 ∷ []) ∷ []) ((108 ∷ []) ∷ (103 ∷ []) ∷ []))
choose_compression-IsChoice_example =
    choose_compression-IsChoice ((103 ∷ []) ∷ []) ((108 ∷ []) ∷ (103 ∷ []) ∷ [])

abbrev sixes : Bytes
sixes = replicate 64 6

abbrev hashes : MessageCollection
hashes = record {
  hash = [];
  hash_list = record { array = sixes; len = 64 };
  size = pos 2;
  signature = [];
}

verify_list_lem_example :
    ((32 * 2 ≤ 64)
      × (((take (2 * 32) sixes ≡ sixes) × (verify_list (λ bs. bs) hashes sixes ≡ ok tt))
          ⊎ ((take (2 * 32) sixes ≢ sixes)
              × (verify_list (λ bs. bs) hashes sixes ≡ err invalid_hash_list))))
    ⊎ ((64 < 32 * 2) × (verify_list (λ bs. bs) hashes sixes ≡ panic))
verify_list_lem_example = verify_list_lem (λ bs. bs) hashes sixes

abbrev yamux : ℕ → Outcome SessionError ℕ
yamux n = ok (n + 40)

connect_all-get_session_example :
    IsExclusive (connect_all yamux (server_call ∷ client_call ∷ []) setup_sessions)
    × (connect_all yamux (server_call ∷ client_call ∷ server_call ∷ []) setup_sessions
        ≡ connect_all yamux (server_call ∷ client_call ∷ []) setup_sessions)
unfolding connect_all connect connect_client connect_server setup_sessions get_session
connect_all-get_session_example =
    connect_all-get_session yamux (server_call ∷ client_call ∷ []) (server_call ∷ []) 40 refl
