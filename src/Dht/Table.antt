-- ===== src/Dht/Table.antt =====
-- The routing table of dht/netdb.go: 160 buckets of at most 20 addresses, newest first.
-- A bucket is a Go slice: a length and the array that it shares with every slice cut from it.
-- `insertIntoTable` shifts such an array in place, which a loop over the old slice can see, so
-- the arrays are modelled as a store.
pub mod Bucket
pub mod Heap
pub mod Insert
pub mod Index
pub mod Initial
pub mod Refinement
use dfi.Prelude.{
  ℕ, zero, suc, ◌+◌, ◌-◌, ◌*◌, Bool, Option, none, some, List, [], ◌∷◌, ◌++◌, length, get_elem?,
  get_or, set, take, drop, replicate, map, ltb, ◌==◌, if◌then◌else◌,
}
use mathlib.Core.Option
use dfi.Prelude.Int.{ℤ, pos, negsuc}
use dfi.Prelude.Outcome.{Outcome, ok, err, panic, or_panic, ◌>>=◌}
use dfi.Dht.Address.{
  Address, AddressError, no_address, address_binary_size, xor, leading_zeroes, equals,
}

abbrev pub bucket_size : ℕ
bucket_size = 20

pub record Slice : Type 0 where
  pub array : ℕ
  pub len : ℕ

abbrev pub Arrays : Type 0
Arrays = List (List Address)

pub record Table : Type 0 where
  pub arrays : Arrays
  pub buckets : List Slice

abbrev pub array_at : Arrays → ℕ → List Address
array_at arrays i = get_or arrays i []

-- The addresses that a slice shows.
abbrev pub view : Arrays → Slice → List Address
view arrays s = take s.len (array_at arrays s.array)

-- `make([]Address, 0, BucketSize)` for each of `n` buckets.
unfoldable pub empty_buckets : ℕ → ℕ → List Slice
empty_buckets zero i = []
empty_buckets (suc n) i = record { array = i; len = 0 } ∷ empty_buckets n (i + 1)

unfoldable pub make_table : ℕ → Table
make_table n = record {
  arrays = replicate n (replicate bucket_size no_address);
  buckets = empty_buckets n 0;
}

unfoldable pub new_table : Table
unfolding make_table empty_buckets
new_table = make_table (address_binary_size * 8)

-- `TableLen`
unfoldable pub table_len : List Slice → ℕ
table_len [] = 0
table_len (s ∷ rest) = s.len + table_len rest

-- The search for an equal address, with its `break`.
unfoldable pub find_equal : Address → List Address → Option ℕ
find_equal addr [] = none
find_equal addr (b ∷ bs) =
    let rest = Option.map suc (find_equal addr bs) in if equals b addr then some 0 else rest

-- The contents of `append(bucket[:found], bucket[found+1:]...)`.
abbrev pub remove_at : ℕ → List Address → List Address
remove_at n bs = take n bs ++ drop (suc n) bs

-- The same append writes over the bucket's array and leaves the array's tail as it was.
abbrev pub shift_array : ℕ → ℕ → List Address → List Address
shift_array n len array = remove_at n (take len array) ++ drop (len - 1) array

-- `append([]Address{addr}, bucket...)` makes a new array.
abbrev pub push_front : Arrays → Slice → Address → Arrays × Slice
push_front arrays bucket addr = (
  arrays ++ (addr ∷ view arrays bucket) ∷ [],
  record { array = length arrays; len = bucket.len + 1 },
)

unfoldable pub insert_bucket : Arrays → Slice → Address → Arrays × Slice
insert_bucket arrays bucket addr = elim (find_equal addr (view arrays bucket)) [
  | some n ↦
      push_front (set arrays bucket.array (shift_array n bucket.len (array_at arrays bucket.array)))
        (record bucket { len = bucket.len - 1 }) addr
  | none ↦
      if bucket.len == bucket_size
      then push_front arrays (record bucket { len = bucket.len - 1 }) addr
      else push_front arrays bucket addr
]

-- `table[index]` with Go's range check.
abbrev pub table_at : List Slice → ℤ → Outcome AddressError (ℕ × Slice)
table_at buckets (negsuc n) = panic
table_at buckets (pos n) = do s ← or_panic (get_elem? buckets n); ok (n, s)

-- `addr.Xor(&ndb.addr).LeadingZeroes()`
unfoldable pub bucket_index : Address → Address → Outcome AddressError ℤ
bucket_index self addr = do d ← xor addr self; ok (leading_zeroes d)

-- `insertIntoTable`, but for the copy on disk that it ends with.
unfoldable pub insert_into_table : Address → Table → Address → Outcome AddressError Table
insert_into_table self t addr = do
  i ← bucket_index self addr
  (n, bucket) ← table_at t.buckets i
  let (arrays, new) = insert_bucket t.arrays bucket addr
  ok (record { arrays = arrays; buckets = set t.buckets n new })
