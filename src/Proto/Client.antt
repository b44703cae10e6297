-- ===== src/Proto/Client.antt =====
-- The requests of `Client` in proto/client.go, each from its message to what is made of the answer.
use dfi.Prelude.{Option, some, List, [], not, if◌then◌else◌}
use dfi.Prelude.Int.{ℤ}
use dfi.Prelude.Outcome.{Outcome, ok, err, panic}
use dfi.Prelude.Action.{pure, lift, attempt, ◌>>=◌, ◌>>◌}
use dfi.Dht.Address.{Address, AddressError, Bytes, string_or}
use dfi.Dht.Entry.{Entry, verify}
use dfi.Data.Post.{Post}
use dfi.Proto.Message.{
  Header, NetError, ProtoError, Net, net_result, read_message, write_message, write_ignored, close,
  read_content, is_ok, is_no, proto_no, proto_search, proto_recent, proto_popular,
  proto_request_hash_list, proto_request_piece, proto_request_add_peer, proto_dht_entry,
  proto_dht_query, proto_dht_announce, proto_dht_find_closest, returned_no, no_ok_answer,
  add_refused,
}
use dfi.Proto.Handshake.{Party, with_content, verify_result}
use dfi.Proto.HashList.{HashListError, MessageCollection, verify_list}
use dfi.Proto.Packing.{Packing}

abbrev pub hash_list_result : {A : Type 0} → Outcome HashListError A → Outcome ProtoError A
hash_list_result (ok a) = ok a
hash_list_result (err e) = err (ProtoError.hash_list_error e)
hash_list_result panic = panic

-- `StringOr` gives a text beside every error.
abbrev pub text_of : {E : Type 0} → Outcome AddressError Bytes → Outcome E Bytes
text_of (ok s) = ok s
text_of (err _) = ok []
text_of panic = panic

module _ (party : Party) (packing : Packing) where
  open party use {codec, sigs, fails}

  -- A message with an encoded value is made and written; an error of either is returned.
  abbrev pub send : Header → Outcome NetError Bytes → Net (Unit {0})
  send header encoded = do
    message ← lift (with_content party header encoded)
    write_message fails message

  abbrev pub answer_of : {A : Type 0} → (Bytes → Outcome NetError A) → Net A
  answer_of decode = do answer ← read_message; lift (net_result (read_content decode answer))

  -- `WriteErr`, of the text of an error
  unfoldable pub write_err : (Bytes → Outcome NetError Bytes) → Bytes → Net (Unit {0})
  unfolding write_message
  write_err encode text = send proto_no (encode text)

  -- `SendStruct`: the error of the write is ignored.
  unfoldable pub send_struct : Outcome NetError Bytes → Net (Unit {0})
  unfolding write_message
  send_struct encoded =
      attempt (lift (with_content party proto_dht_entry encoded)) (write_ignored fails)
        (λ e. close >> lift (err e))

  unfoldable pub announce : Entry → Net (Unit {0})
  unfolding write_message read_message
  announce e = do
    send proto_dht_announce (packing.entry.encode (some e))
    answer ← read_message
    if not (is_ok answer) then lift (err no_ok_answer) else pure tt

  unfoldable pub find_closest : Address → Net (List (Option Entry))
  unfolding write_message read_message
  find_closest address = do
    send proto_dht_find_closest (packing.address.encode address)
    answer_of packing.entries.decode

  unfoldable pub query : Address → Net Entry
  unfolding write_message read_message
  query address = do
    send proto_dht_query (packing.address.encode address)
    answer ← read_message
    if is_no answer then lift (err returned_no) else do
      entry ← lift (net_result (read_content packing.entry.decode answer))
      lift (verify_result (verify codec sigs entry))
      pure entry

  -- `Search`: the error of the write is ignored.
  unfoldable pub search : Bytes → ℤ → Net (List (Option Post))
  unfolding write_message read_message
  search text page = do
    message ← lift (
        with_content party proto_search
          (packing.search.encode (record { query = text; page = page })))
    write_ignored fails message
    answer_of packing.posts.decode

  unfoldable pub recent : ℤ → Net (List (Option Post))
  unfolding write_message read_message
  recent page = do send proto_recent (packing.page.encode page); answer_of packing.posts.decode

  unfoldable pub popular : ℤ → Net (List (Option Post))
  unfolding write_message read_message
  popular page = do send proto_popular (packing.page.encode page); answer_of packing.posts.decode

  unfoldable pub collection : Address → Entry → Net MessageCollection
  unfolding write_message read_message
  collection address entry = do
    send proto_request_hash_list (packing.address.encode address)
    mhl ← answer_of packing.collection.decode
    lift (hash_list_result (verify_list codec.sha3 mhl entry.collection_hash))
    pure mhl

  -- The request of `Pieces`. What comes back is read by `read_pieces`.
  unfoldable pub request_pieces : Address → ℤ → ℤ → Net (Unit {0})
  unfolding write_message
  request_pieces address id length = do
    text ← lift (text_of (string_or codec address []))
    send proto_request_piece
        (packing.piece.encode (record { address = text; id = id; length = length }))

  unfoldable pub request_add_peer : Address → Net (Unit {0})
  unfolding write_message read_message
  request_add_peer addr = do
    send proto_request_add_peer (packing.address.encode addr)
    answer ← read_message
    if not (is_ok answer) then lift (err add_refused) else pure tt
