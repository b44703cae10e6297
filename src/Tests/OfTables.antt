-- ===== src/Tests/OfTables.antt =====
-- The routing table.
use dfi.Prelude.{ℕ, ◌<◌, ◌≡◌, ◌≤◌, refl, take, bytes_eq, arith, List, [], ◌∷◌, replicate, inl}
use dfi.Prelude.Int.{pos}
use dfi.Prelude.Outcome.{ok, panic}
use dfi.Dht.Address.{
  Address, of_raw, no_address, xor, xor_bytes, leading_zeroes, first_one, first_bit,
}
use dfi.Dht.Table.{
  Table, Slice, new_table, bucket_index, insert_into_table, insert_bucket, table_len,
}
use dfi.Dht.Table.Bucket.{remove}
use dfi.Dht.Table.Refinement.{insert_all, recent, insert_all-recent}
use dfi.Dht.Table.Heap.{Fits, Inserted, insert_bucket-Inserted}
use dfi.Dht.Table.Insert.{IsTable, Refreshed, bucket_view}
use dfi.Dht.Table.Index.{insert_into_table-IsTable, insert_into_table-panic}
use dfi.Dht.Table.Initial.{new_table-IsTable, table_len-le}
use dfi.Tests.Fixtures.{node, node-IsNode, self}

new_table-IsTable_case : IsTable self new_table × ((n : ℕ) → bucket_view new_table n ≡ [])
new_table-IsTable_case = new_table-IsTable self

insert_into_table-IsTable_example :
    (n : ℕ) × (u : Table) × (bucket_index self (node 7) ≡ ok (pos n))
    × (insert_into_table self new_table (node 7) ≡ ok u)
    × IsTable self u
    × Refreshed new_table n (node 7) u
insert_into_table-IsTable_example =
    insert_into_table-IsTable self new_table (node 7) (new_table-IsTable self).0
      (node-IsNode 0 (omega arith)) (node-IsNode 7 (omega arith))

insert_into_table_panic_case : insert_into_table self new_table (of_raw (replicate 21 7)) ≡ panic
insert_into_table_panic_case =
    insert_into_table-panic self new_table (of_raw (replicate 21 7)) (inl (omega arith))

table_len_is_below : table_len new_table.buckets ≤ 3200
table_len_is_below = table_len-le self new_table (new_table-IsTable self).0

abbrev arrays : List (List Address)
arrays = (node 3 ∷ node 4 ∷ no_address ∷ []) ∷ []

abbrev bucket : Slice
bucket = record { array = 0; len = 2 }

bucket-Fits : Fits arrays bucket
bucket-Fits = record { known = omega arith; inside = omega arith; bounded = omega arith }

insert_bucket_inserted_case : Inserted arrays bucket (node 4) (insert_bucket arrays bucket (node 4))
insert_bucket_inserted_case = insert_bucket-Inserted arrays bucket (node 4) bucket-Fits

insert_all-recent_example :
    (u : Table) × (insert_all self new_table (node 7 ∷ node 3 ∷ node 7 ∷ []) ≡ ok u)
    × IsTable self u
    × ((n : ℕ)
        → n < 160
        → bucket_view u n ≡ take 20 (recent self n (node 7 ∷ node 3 ∷ node 7 ∷ []) []))
insert_all-recent_example =
    insert_all-recent self (node 7 ∷ node 3 ∷ node 7 ∷ []) (node-IsNode 0 (omega arith)) (
      node-IsNode 7 (omega arith),
      (node-IsNode 3 (omega arith), (node-IsNode 7 (omega arith), tt)),
    )

-- 3 and 7 are in different buckets, and the repeated 7 is kept once.
recent_seven : recent self 5 (node 7 ∷ node 3 ∷ node 7 ∷ []) [] ≡ node 7 ∷ []
unfolding recent bucket_index xor xor_bytes leading_zeroes first_one first_bit remove bytes_eq
recent_seven = refl
