-- ===== src/Data/Hashes.antt =====
-- The hash list of a collection and its root hash.
use mathlib.Core.List.{append_assoc, append-nil}
use dfi.Prelude.{
  ℕ, ◌⊎◌, zero, suc, ◌+◌, ◌-◌, ◌*◌, ◌/◌, ◌%◌, ◌<◌, ◌≤◌, ◌≡◌, refl, sym, ap, ◌∙◌, arith, true, false,
  [], ◌∷◌, ◌++◌, length, length-take, take, drop, take-take, take-append_length, take_of_length-le,
  ltb, leb, ◌==◌, Bool-cases, inl, inr,
}
use dfi.Prelude.Outcome.{ok, panic}
use dfi.Data.Post.{Bytes}
use dfi.Data.Piece.{Piece, hash_of}
use dfi.Data.Collection.{
  Collection, contents, overwrite, uint, new_collection, add, hash, write_hashes, rehash, save,
  load_collection,
}

take_nil : (n : ℕ) → ◌≡◌ {A = Bytes} (take n []) []
take_nil zero = refl
take_nil (suc n) = refl

drop_nil : (n : ℕ) → ◌≡◌ {A = Bytes} (drop n []) []
drop_nil zero = refl
drop_nil (suc n) = refl

pub take_split : (m n : ℕ) (bs : Bytes) → take (m + n) bs ≡ take m bs ++ take n (drop m bs)
take_split zero n bs = ap (λ k. take k bs) (omega arith)
take_split (suc m) n [] = take_nil (suc m + n) ∙ sym (take_nil n)
take_split (suc m) n (b ∷ bs) =
    let count : suc m + n ≡ suc (m + n) = omega arith in
    ap (λ k. take k (b ∷ bs)) count ∙ ap (λ r. b ∷ r) (take_split m n bs)

pub drop-drop : (m n : ℕ) (bs : Bytes) → drop n (drop m bs) ≡ drop (m + n) bs
drop-drop zero n bs = ap (λ k. drop k bs) (omega arith)
drop-drop (suc m) n [] = drop_nil n ∙ sym (drop_nil (suc m + n))
drop-drop (suc m) n (b ∷ bs) =
    let count : suc (m + n) ≡ suc m + n = omega arith in
    drop-drop m n bs ∙ ap (λ k. drop k (b ∷ bs)) count

write_hashes_lem :
    (rounds i : ℕ) (hashes out : Bytes)
    → write_hashes rounds i hashes out ≡ out ++ take (rounds * 32) (drop (i * 32) hashes)
unfolding write_hashes
write_hashes_lem zero i hashes out = sym (append-nil out)
write_hashes_lem (suc rounds) i hashes out =
    let tail : Bytes = drop (i * 32) hashes in
    let next : drop ((i + 1) * 32) hashes ≡ drop 32 tail =
      ap (λ k. drop k hashes) (omega arith) ∙ sym (drop-drop (i * 32) 32 hashes) in
    let count : 32 + rounds * 32 ≡ suc rounds * 32 = omega arith in
    write_hashes_lem rounds (i + 1) hashes (out ++ take 32 tail)
    ∙ append_assoc out (take 32 tail) (take (rounds * 32) (drop ((i + 1) * 32) hashes))
    ∙ ap (λ r. out ++ (take 32 tail ++ take (rounds * 32) r)) next
    ∙ ap (λ r. out ++ r) (sym (take_split 32 (rounds * 32) tail) ∙ ap (λ k. take k tail) count)

-- The root hash that `Rehash` computes is that of the whole hash list, if the list is made of
-- hashes of 32 bytes.
pub rehash-root_hash :
    (sha3 : Bytes → Bytes) (c : Collection)
    → c.hash_list.len ≤ length c.hash_list.array
    → c.hash_list.len % 32 ≡ 0
    → hash sha3 (rehash c) ≡ sha3 (contents c.hash_list)
unfolding hash rehash
rehash-root_hash sha3 c h m =
    let size : length (contents c.hash_list) ≤ c.hash_list.len / 32 * 32 =
      omega (arith, m, h, length-take c.hash_list.len c.hash_list.array) in
    ap sha3 (
      write_hashes_lem (c.hash_list.len / 32) 0 (contents c.hash_list) []
      ∙ take_of_length-le (c.hash_list.len / 32 * 32) (contents c.hash_list) size)

-- A collection whose list is made of hashes of 32 bytes is loaded as it was saved, and its hash is
-- then that of the list.
pub load_collection-save :
    (sha3 : Bytes → Bytes) (c : Collection)
    → c.hash_list.len ≤ length c.hash_list.array
    → c.hash_list.len % 32 ≡ 0
    → (d : Collection) × (load_collection (ok (save c)) ≡ ok d)
      × (save d ≡ save c)
      × (hash sha3 d ≡ sha3 (save c))
unfolding load_collection
load_collection-save sha3 c h m =
    let size : length (save c) ≡ c.hash_list.len =
      omega (arith, h, length-take c.hash_list.len c.hash_list.array) in
    let d : Collection = record {
      pieces = [];
      hash_list = record { array = save c; len = length (save c) };
      root_hash = [];
    } in
    let whole : save d ≡ save c = take_of_length-le (length (save c)) (save c) (omega arith) in
    let divides : (length (save c) % 32 == 0) ≡ true = rw (size, m) refl in
    (
      rehash d,
      rw divides (unfold new_collection in refl),
      (unfold rehash in whole),
      rehash-root_hash sha3 d (omega arith) (ap (λ n. n % 32) size ∙ m) ∙ ap sha3 whole,
    )

take-overwrite :
    (n at : ℕ) (bs array : Bytes)
    → n ≤ at
    → at ≤ length array
    → take n (overwrite at bs array) ≡ take n array
take-overwrite n at bs array h k =
    let front : take at (overwrite at bs array) ≡ take at array =
      take-append_length (take at array) (bs ++ drop (at + length bs) array) at
        (omega (arith, k, length-take at array)) in
    sym (take-take n at (overwrite at bs array) h) ∙ ap (take n) front ∙ take-take n at array h

-- While the list holds one hash, the hash of a piece with an id from 1 to 31 does not come into
-- it: `Add` panics where the list's array has no room for it, and else writes it behind the end
-- of the list. The root hash takes it in all the same.
pub add-lost :
    (capacity : ℕ → ℕ) (sha3 : Bytes → Bytes) (piece : Piece) (c : Collection)
    → c.hash_list.len ≡ 32
    → 1 ≤ piece.id
    → piece.id ≤ 31
    → ((add capacity sha3 piece c ≡ panic) × (length c.hash_list.array < piece.id * 32 + 32))
      ⊎ ((d : Collection) × (add capacity sha3 piece c ≡ ok d)
          × (contents d.hash_list ≡ contents c.hash_list)
          × (d.root_hash ≡ c.root_hash ++ hash_of sha3 piece))
unfolding add
add-lost capacity sha3 piece c full low high =
    let id_next : uint (piece.id + 1) ≡ piece.id + 1 = omega arith in
    let from : uint (piece.id * 32) ≡ piece.id * 32 = omega arith in
    let to : uint (piece.id * 32 + 32) ≡ piece.id * 32 + 32 = omega arith in
    let copied : ltb c.hash_list.len (piece.id + 1) ≡ false = ground arith in
    let ordered : leb (piece.id * 32) (piece.id * 32 + 32) ≡ true = ground arith in
    elim (Bool-cases (leb (piece.id * 32 + 32) (length c.hash_list.array))) [
      | inl room ↦ inr (
        record c {
          hash_list = record c.hash_list {
            array =
                overwrite (piece.id * 32)
                  (take (piece.id * 32 + 32 - piece.id * 32) (hash_of sha3 piece))
                  c.hash_list.array;
          };
          root_hash = c.root_hash ++ hash_of sha3 piece;
        },
        rw (id_next, copied, from, to, ordered, room) refl,
        take-overwrite c.hash_list.len (piece.id * 32) _ c.hash_list.array (omega arith)
            (ground arith),
        refl,
      )
      | inr short ↦ inl (rw (id_next, copied, from, to, ordered, short) refl, ground arith)
    ]
