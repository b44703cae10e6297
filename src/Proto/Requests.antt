-- ===== src/Proto/Requests.antt =====
-- What a request establishes when it returns, whatever the peer answers.
use dfi.Prelude.{
  ◌*◌, ◌≤◌, ◌≡◌, refl, Bool, true, false, List, ◌∷◌, length, take, if◌then◌else◌, inl, inr,
}
use dfi.Prelude.Outcome.{Outcome, ok, err, panic}
use dfi.Prelude.Action.{pure, lift, ◌>>=◌, ◌>>◌}
use dfi.Dht.Address.{Address, Bytes}
use dfi.Dht.Entry.{Entry, EntryError, verify}
use dfi.Proto.Message.{
  Header, Message, NetError, Conn, net_result, read_content, is_no, returned_no,
}
use dfi.Proto.Gets.{
  Inbox, Gets, Gets-bind, Gets-lift, Gets-pure, Gets-err, Gets-read_message, Gets-write_message,
  Gets-weaken, of_return,
}
use dfi.Proto.Handshake.{Party, with_content, verify_result}
use dfi.Proto.HashList.{HashListError, MessageCollection, verify_list, verify_list_lem, rounds_of}
use dfi.Proto.Packing.{Packing}
use dfi.Proto.Client.{send, answer_of, query, collection, hash_list_result}

-- The peer's answer is the entry, which `Verify` accepts.
pub record Answered (party : Party) (packing : Packing) (conn : Conn) (entry : Entry) : Type 0 where
  pub accepted : verify party.codec party.sigs entry ≡ ok tt
  pub answer : Message
  pub rest : List (Outcome NetError Message)
  pub came : conn.incoming ≡ ok answer ∷ rest
  pub not_no : is_no answer ≡ false
  pub decoded : read_content packing.entry.decode answer ≡ ok entry

module _ (party : Party) (packing : Packing) (start : Inbox) where
  open party use {codec, sigs, fails}

  net_result_inv : {A : Type 0} (o : Outcome NetError A) (a : A) → net_result o ≡ ok a → o ≡ ok a
  net_result_inv (ok b) a h = cc
  net_result_inv (err e) a h = cc
  net_result_inv panic a h = cc

  Gets-send :
      (header : Header) (encoded : Outcome NetError Bytes) (I : Inbox → Type 0)
      → Gets I (send party packing header encoded) (λ _. I)
  Gets-send header encoded I =
      Gets-bind (Gets-lift (with_content party header encoded))
        λ message. Gets-weaken (Gets-write_message fails message) λ t l (i, _). i

  Gets-answer_of :
      {A : Type 0} (decode : Bytes → Outcome NetError A) (I : Inbox → Type 0)
      → Gets I
          (answer_of party packing decode)
          (λ a l. (m : Message) × I (ok m ∷ l) × (read_content decode m ≡ ok a))
  Gets-answer_of decode I = Gets-bind Gets-read_message λ m.
      Gets-weaken (Gets-lift (net_result (read_content decode m)))
        λ a l (i, d). (m, i, net_result_inv _ a d)

  HasAnswer : Entry → Inbox → Type 0
  HasAnswer entry l =
      (answer : Message) × (start ≡ ok answer ∷ l)
      × (is_no answer ≡ false)
      × (read_content packing.entry.decode answer ≡ ok entry)
      × (verify codec sigs entry ≡ ok tt)

  verify_result_inv :
      {A : Type 0} (o : Outcome EntryError A) (a : A) → verify_result o ≡ ok a → o ≡ ok a
  verify_result_inv (ok b) a h = cc
  verify_result_inv (err e) a h = cc
  verify_result_inv panic a h = cc

  hash_list_result_inv :
      {A : Type 0} (o : Outcome HashListError A) (a : A) → hash_list_result o ≡ ok a → o ≡ ok a
  hash_list_result_inv (ok b) a h = cc
  hash_list_result_inv (err e) a h = cc
  hash_list_result_inv panic a h = cc

  -- What `Query` does with an answer.
  accept_inv :
      (answer : Message) (no : Bool)
      → is_no answer ≡ no
      → Gets
          (λ l. start ≡ ok answer ∷ l)
          (if no then lift (err returned_no) else do
            entry ← lift (net_result (read_content packing.entry.decode answer))
            lift (verify_result (verify codec sigs entry))
            pure entry)
          HasAnswer
  unfolding HasAnswer
  accept_inv answer true e = Gets-err returned_no
  accept_inv answer false e =
      Gets-bind (Gets-lift (net_result (read_content packing.entry.decode answer))) λ entry.
        Gets-bind (Gets-lift (verify_result (verify codec sigs entry))) λ t.
          Gets-pure entry
            λ l ((i, d), v). (answer, i, e, net_result_inv _ entry d, verify_result_inv _ tt v)

  query-HasAnswer :
      (address : Address) → Gets (λ l. start ≡ l) (query party packing address) HasAnswer
  unfolding query
  query-HasAnswer address =
      Gets-bind (Gets-send _ _ _)
        λ t. Gets-bind Gets-read_message λ answer. accept_inv answer (is_no answer) refl

  collection-verified :
      (address : Address) (entry : Entry)
      → Gets
          (λ l. start ≡ l)
          (collection party packing address entry)
          (λ mhl l. verify_list codec.sha3 mhl entry.collection_hash ≡ ok tt)
  unfolding collection
  collection-verified address entry = Gets-bind (Gets-send _ _ (λ l. start ≡ l)) λ t.
      Gets-bind (Gets-answer_of packing.collection.decode (λ l. start ≡ l)) λ mhl.
        Gets-bind (Gets-lift (hash_list_result (verify_list codec.sha3 mhl entry.collection_hash)))
          λ t. Gets-pure mhl λ l (i, v). hash_list_result_inv _ tt v

-- When `Query` returns an entry, whatever the peer sent and whether or not the entry is of the
-- address that was asked for, it is the content of the peer's answer, the answer is not a no, and
-- `Verify` accepts the entry.
pub query-Answered :
    (party : Party) (packing : Packing) (address : Address) (conn : Conn) (entry : Entry)
    → (query party packing address conn).0 ≡ ok entry
    → Answered party packing conn entry
unfolding HasAnswer
query-Answered party packing address conn entry e =
    let (answer, came, is_yes, decoded, accepted) =
      of_return (HasAnswer party packing conn.incoming) (query party packing address conn).0
        (query party packing address conn).1.incoming entry
        ((query-HasAnswer party packing conn.incoming address).at conn refl) e in
    record {
      accepted = accepted;
      answer = answer;
      rest = (query party packing address conn).1.incoming;
      came = came;
      not_no = is_yes;
      decoded = decoded;
    }

-- When `Collection` returns a hash list, its first `Size` hashes are all there, and their hash is
-- the collection hash of the entry that was passed, whatever the peer sent.
pub collection-hash_list :
    (party : Party) (packing : Packing) (address : Address) (entry : Entry) (conn : Conn)
    (mhl : MessageCollection)
    → (collection party packing address entry conn).0 ≡ ok mhl
    → (32 * rounds_of mhl.size ≤ length mhl.hash_list.array)
      × (party.codec.sha3 (take (rounds_of mhl.size * 32) mhl.hash_list.array)
          ≡ entry.collection_hash)
collection-hash_list party packing address entry conn mhl e =
    let v =
      of_return _ (collection party packing address entry conn).0 _ mhl
        ((collection-verified party packing conn.incoming address entry).at conn refl) e in
    elim (verify_list_lem party.codec.sha3 mhl entry.collection_hash) [
      | inl (room, inl (same, _)) ↦ (room, same)
      | inl (_, inr (_, f)) ↦ cc (v, f)
      | inr (_, f) ↦ cc (v, f)
    ]
