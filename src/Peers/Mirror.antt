-- ===== src/Peers/Mirror.antt =====
-- `Mirror` of peer.go: the pieces of a peer's collection, each checked against the hash list before
-- it goes to the database.
use mathlib.Core.List.{append_assoc, append-nil}
use dfi.Prelude.{
  ℕ, suc, ◌+◌, ◌-◌, ◌*◌, ◌/◌, ◌≡◌, refl, sym, ap, ◌∙◌, arith, List, [], ◌∷◌, ◌++◌, map, concat,
  length, take, drop, leb, ◌==◌, bytes_eq, bytes_eq_sound, if◌then◌else◌, Bool-cases, inl, inr,
}
use dfi.Prelude.Outcome.{ok, err, panic}
use dfi.Prelude.Action.{Action, pure, lift, ◌>>◌}
use dfi.Data.Post.{Bytes}
use dfi.Data.Piece.{Piece, hash_of}
use dfi.Data.Hashes.{take_split, drop-drop}
use dfi.Data.Collection.{Buffer}
use dfi.Proto.Message.{Conn}
use dfi.Proto.HashList.{MessageCollection, rounds_of}
use dfi.Proto.Handshake.{Party}
use dfi.Proto.Packing.{Packing}
use dfi.Proto.Client
use dfi.Proto.Requests.{collection-hash_list}
use dfi.Dht.Address.{Address}
use dfi.Dht.Entry.{Entry}

pub data MirrorError : Type 0 where
  piece_hash_mismatch : MirrorError

-- The piece that the download starts from, for the number of posts that are stored.
unfoldable pub since : ℕ → ℕ
since posts =
    let current_store = (posts + 999) / 1000 in if current_store == 0 then 0 else current_store - 1

-- The pieces that were passed on to the database are the state.
abbrev pub Mirroring : Type 0 → Type 0
Mirroring = Action (List Piece) MirrorError

abbrev pub pass_on : Piece → Mirroring (Unit {0})
pass_on p passed = (ok tt, passed ++ p ∷ [])

-- The loop. The hash of the round `i` is a slice of the list, bounded by its capacity.
unfoldable pub mirror_pieces : (Bytes → Bytes) → Buffer → ℕ → List Piece → Mirroring (Unit {0})
mirror_pieces sha3 list i [] = pure tt
mirror_pieces sha3 list i (p ∷ ps) =
    let next = pass_on p >> mirror_pieces sha3 list (i + 1) ps in
    if leb (32 * i + 32) (length list.array)
    then if bytes_eq (take 32 (drop (32 * i) list.array)) (hash_of sha3 p)
      then next
      else lift (err piece_hash_mismatch)
    else lift panic

-- The hashes of pieces, one after the other.
abbrev pub hashes : (Bytes → Bytes) → List Piece → Bytes
hashes sha3 ps = concat (map (hash_of sha3) ps)

module _ (sha3 : Bytes → Bytes) (list : Buffer) where
  mirror_step :
      (n i : ℕ)
      → take 32 (drop (32 * i) list.array) ++ take (n * 32) (drop (32 * (i + 1)) list.array)
        ≡ take (suc n * 32) (drop (32 * i) list.array)
  mirror_step n i =
      let next : drop (32 * (i + 1)) list.array ≡ drop 32 (drop (32 * i) list.array) =
        ap (λ k. drop k list.array) (omega arith) ∙ sym (drop-drop (32 * i) 32 list.array) in
      let count : 32 + n * 32 ≡ suc n * 32 = omega arith in
      ap (λ r. take 32 (drop (32 * i) list.array) ++ take (n * 32) r) next
      ∙ sym (take_split 32 (n * 32) (drop (32 * i) list.array))
      ∙ ap (λ k. take k (drop (32 * i) list.array)) count

  mirror_from :
      (i : ℕ) (ps passed : List Piece)
      → (mirror_pieces sha3 list i ps passed).0 ≡ ok tt
      → ((mirror_pieces sha3 list i ps passed).1 ≡ passed ++ ps)
        × (hashes sha3 ps ≡ take (length ps * 32) (drop (32 * i) list.array))
  unfolding mirror_pieces
  mirror_from i [] passed h = (sym (append-nil passed), refl)
  mirror_from i (p ∷ ps) passed h = elim (Bool-cases (leb (32 * i + 32) (length list.array))) [
    | inr over ↦ cc (rw over at h)
    | inl fits ↦
        elim (Bool-cases (bytes_eq (take 32 (drop (32 * i) list.array)) (hash_of sha3 p))) [
          | inr other ↦ cc (rw (fits, mirror_pieces, other) at h)
          | inl same ↦
              let (all, rest) =
                mirror_from (i + 1) ps (passed ++ p ∷ []) (rw (fits, mirror_pieces, same) at h) in
              let here : take 32 (drop (32 * i) list.array) ≡ hash_of sha3 p =
                bytes_eq_sound _ _ same in
              (
                rw (fits, mirror_pieces, same) (all ∙ append_assoc passed (p ∷ []) ps),
                ap (λ r. hash_of sha3 p ++ r) rest
                    ∙ ap (λ r. r ++ take (length ps * 32) (drop (32 * (i + 1)) list.array))
                        (sym here)
                    ∙ mirror_step (length ps) i,
              )
        ]
  ]

  -- However the loop ends, with an error or a panic too, what went to the database is a part of
  -- the pieces from the first on, and their hashes are those of the list.
  pub mirror_pieces-take :
      (i : ℕ) (ps passed : List Piece)
      → (n : ℕ) × ((mirror_pieces sha3 list i ps passed).1 ≡ passed ++ take n ps)
        × (hashes sha3 (take n ps) ≡ take (length (take n ps) * 32) (drop (32 * i) list.array))
  unfolding mirror_pieces
  mirror_pieces-take i [] passed = (0, sym (append-nil passed), refl)
  mirror_pieces-take i (p ∷ ps) passed =
      let stopped = sym (append-nil passed) in
      elim (Bool-cases (leb (32 * i + 32) (length list.array))) [
        | inr over ↦ (0, rw over stopped, refl)
        | inl fits ↦
            elim (Bool-cases (bytes_eq (take 32 (drop (32 * i) list.array)) (hash_of sha3 p))) [
              | inr other ↦ (0, rw (fits, other) stopped, refl)
              | inl same ↦
                  let (n, all, rest) = mirror_pieces-take (i + 1) ps (passed ++ p ∷ []) in
                  let here : take 32 (drop (32 * i) list.array) ≡ hash_of sha3 p =
                    bytes_eq_sound _ _ same in
                  (
                    suc n,
                    rw (fits, same) (all ∙ append_assoc passed (p ∷ []) (take n ps)),
                    ap (λ r. hash_of sha3 p ++ r) rest
                        ∙ ap
                            (λ r.
                              r ++ take (length (take n ps) * 32) (drop (32 * (i + 1)) list.array))
                            (sym here)
                        ∙ mirror_step (length (take n ps)) i,
                  )
            ]
      ]

-- When `Collection` has returned the hash list of a peer, and the loop of `Mirror` ends without an
-- error on as many pieces as the list has, then all of the pieces went to the database, and the
-- hash of their hashes is the collection hash in the entry of the peer.
pub mirror_pieces-collection_hash :
    (party : Party) (packing : Packing) (address : Address) (entry : Entry) (conn : Conn)
    (mhl : MessageCollection) (ps : List Piece)
    → (Client.collection party packing address entry conn).0 ≡ ok mhl
    → length ps ≡ rounds_of mhl.size
    → (mirror_pieces party.codec.sha3 mhl.hash_list 0 ps []).0 ≡ ok tt
    → ((mirror_pieces party.codec.sha3 mhl.hash_list 0 ps []).1 ≡ ps)
      × (party.codec.sha3 (hashes party.codec.sha3 ps) ≡ entry.collection_hash)
mirror_pieces-collection_hash party packing address entry conn mhl ps got size h =
    let (_, root) = collection-hash_list party packing address entry conn mhl got in
    let (all, same) = mirror_from party.codec.sha3 mhl.hash_list 0 ps [] h in
    (all, ap party.codec.sha3 (same ∙ ap (λ n. take (n * 32) mhl.hash_list.array) size) ∙ root)
