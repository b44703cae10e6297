-- ===== src/Data/Collection.antt =====
-- data/collection.go: the list of the hashes of pieces, and its hash. Go's `append` is written out
-- on an array that may be longer than the slice, as `Add` cuts the list with the capacity as its
-- bound. The capacity of a new array is Go's own, a parameter.
use dfi.Prelude.{
  ℕ, zero, suc, ◌+◌, ◌-◌, ◌*◌, ◌/◌, ◌%◌, ◌^◌, List, [], ◌∷◌, ◌++◌, length, take, drop, replicate,
  ltb, leb, ◌==◌, ◌&&◌, not, if◌then◌else◌,
}
use dfi.Prelude.Outcome.{Outcome, ok, panic, return_if, ◌>>=◌, ◌>>◌}
use dfi.Data.Post.{Bytes}
use dfi.Data.Piece.{Piece, hash_of}

-- A slice: the array behind it, up to its capacity, and its length.
pub record Buffer : Type 0 where
  pub array : Bytes
  pub len : ℕ

abbrev pub contents : Buffer → Bytes
contents b = take b.len b.array

-- `copy` of bytes into an array at an offset.
abbrev pub overwrite : ℕ → Bytes → Bytes → Bytes
overwrite at bs array = take at array ++ (bs ++ drop (at + length bs) array)

-- The bytes of a Go slice of `n` bytes and what a new array has behind them.
abbrev pub append : (ℕ → ℕ) → Bytes → Buffer → Buffer
append capacity bs b =
    let n = b.len + length bs in
    if leb n (length b.array)
    then record { array = overwrite b.len bs b.array; len = n }
    else record { array = contents b ++ (bs ++ replicate (capacity n - n) 0); len = n }

pub record Collection : Type 0 where
  pub pieces : List Piece
  pub hash_list : Buffer
  pub root_hash : Bytes

pub data CollectionError : Type 0 where
  read_failed invalid_data_file : CollectionError

unfoldable pub new_collection : Collection
new_collection = record { pieces = []; hash_list = record { array = []; len = 0 }; root_hash = [] }

-- Go's `uint`
abbrev pub uint : ℕ → ℕ
uint n = n % 2 ^ 64

-- `copy(c.HashList[from:to], hash)`: a slice expression is bounded by the capacity.
abbrev pub copy_hash : ℕ → ℕ → Bytes → Buffer → Outcome CollectionError Buffer
copy_hash from to hash b =
    if leb from to && leb to (length b.array)
    then ok (record b { array = overwrite from (take (to - from) hash) b.array })
    else panic

unfoldable pub add :
    (ℕ → ℕ) → (Bytes → Bytes) → Piece → Collection → Outcome CollectionError Collection
add capacity sha3 piece c = do
  hash_list ←
      if ltb c.hash_list.len (uint (piece.id + 1))
      then ok (append capacity (hash_of sha3 piece) c.hash_list)
      else copy_hash (uint (piece.id * 32)) (uint (uint (piece.id * 32) + 32)) (hash_of sha3 piece)
          c.hash_list
  ok (record c { hash_list = hash_list; root_hash = c.root_hash ++ hash_of sha3 piece })

-- `Hash`
unfoldable pub hash : (Bytes → Bytes) → Collection → Bytes
hash sha3 c = sha3 c.root_hash

-- The loop of `Rehash` from a round on.
unfoldable pub write_hashes : ℕ → ℕ → Bytes → Bytes → Bytes
write_hashes zero i hashes out = out
write_hashes (suc rounds) i hashes out =
    write_hashes rounds (i + 1) hashes (out ++ take 32 (drop (i * 32) hashes))

unfoldable pub rehash : Collection → Collection
unfolding write_hashes
rehash c = record c { root_hash = write_hashes (c.hash_list.len / 32) 0 (contents c.hash_list) [] }

-- `Save`: what is in the file.
abbrev pub save : Collection → Bytes
save c = contents c.hash_list

-- `LoadCollection` of a file, with the collection beside an error.
unfoldable pub load_collection : Outcome CollectionError Bytes → Outcome CollectionError Collection
unfolding new_collection rehash
load_collection file = do
  data_bytes ← file
  return_if (not (length data_bytes % 32 == 0)) invalid_data_file
  ok (
      rehash (record new_collection {
        hash_list = record { array = data_bytes; len = length data_bytes };
      }))

-- The loop of `CreateCollection` over the pieces of the database.
unfoldable pub add_pieces :
    (ℕ → ℕ) → (Bytes → Bytes) → List Piece → Collection → Outcome CollectionError Collection
unfolding add
add_pieces capacity sha3 [] c = ok c
add_pieces capacity sha3 (piece ∷ pieces) c = do
  c' ← add capacity sha3 piece c
  add_pieces capacity sha3 pieces c'
