-- ===== src/Tests/OfDatabase.antt =====
-- The database of entries.
use dfi.Prelude.{bytes_eq, ◌++◌, ℕ, ◌+◌, ◌≡◌, ◌≤◌, refl, arith, some, [], ◌∷◌, replicate}
use dfi.Prelude.Int.{pos}
use dfi.Prelude.Outcome.{ok, panic}
use dfi.Dht.NetDb.Reading.{
  query, add_seed_to_entry, insert_address, query_seeds, query_seeding, decode_rows, save_table,
}
use dfi.Dht.Address.{
  of_raw, string, no_address, decode_address, xor, xor_bytes, leading_zeroes, first_one, first_bit,
  equals,
}
use dfi.Dht.Table.{bucket_index, table_len, insert_into_table, insert_bucket, find_equal}
use dfi.Dht.Table.Insert.{Refreshed}
use dfi.Dht.Table.Initial.{new_table-IsTable}
use dfi.Dht.Entry.{Entry}
use dfi.Dht.NetDb.{NetDb}
use dfi.Dht.NetDb.Writing.{insert}
use dfi.Dht.NetDb.Closest.{
  find_closest, closest_loop, outer_rounds, query_bucket, look_left, look_right,
}
use dfi.Dht.NetDb.Start.{new_dht, new_net_db}
use dfi.Dht.NetDb.Invariant.{IsDb, insert-IsDb, find_closest-IsDb}
use dfi.Dht.NetDb.Inserting.{insert-table, insert-known}
use dfi.Dht.NetDb.Found.{find_closest-length, closest_loop-outer_rounds, find_closest-panic}
use dfi.Dht.NetDb.Startup.{new_dht-table_len}
use dfi.Tests.Fixtures.{env, net_db, node, node-IsNode, self, signed, signed_verified, unsigned}

net_db-IsDb : (n : ℕ) → IsDb (net_db n)
net_db-IsDb n = (new_table-IsTable self).0

insert-IsDb_example : IsDb (insert env signed (net_db 0)).1
insert-IsDb_example = insert-IsDb env signed (net_db 0) (net_db-IsDb 0)

find_closest-IsDb_case : IsDb (find_closest env (node 7) (net_db 1)).1
find_closest-IsDb_case = find_closest-IsDb env (node 7) (net_db 1) (net_db-IsDb 1)

insert-table_example :
    (n : ℕ) × (bucket_index self (node 7) ≡ ok (pos n))
    × Refreshed (net_db 0).table n (node 7) (insert env signed (net_db 0)).1.table
insert-table_example =
    insert-table env (net_db 0) signed (net_db-IsDb 0) (node-IsNode 0 (omega arith))
      (node-IsNode 7 (omega arith)) signed_verified

pub insert_known_case :
    ((insert env signed (net_db 1)).0 ≡ ok 1) × ((insert env signed (net_db 1)).1.conn ≡ 1)
unfolding string
insert_known_case =
    insert-known env (net_db 1) signed
      (81 ∷ replicate 20 7, record { raw = replicate 20 7; encoded = 81 ∷ replicate 20 7 })
      (record { rows_affected = ok 1; last_insert_id = ok (pos 1) }) 1 0 (net_db-IsDb 1)
      (node-IsNode 0 (omega arith)) (node-IsNode 7 (omega arith)) signed_verified refl refl refl

find_closest_panic_case : find_closest env (of_raw (replicate 21 7)) (net_db 0) ≡ (panic, net_db 0)
find_closest_panic_case = find_closest-panic env (of_raw (replicate 21 7)) (net_db 0) (omega arith)

closest_loop-outer_rounds_example :
    closest_loop env (outer_rounds 3 160 + 5) 3 160 0 [] (net_db 1)
    ≡ closest_loop env (outer_rounds 3 160) 3 160 0 [] (net_db 1)
closest_loop-outer_rounds_example = closest_loop-outer_rounds env 5 3 160 [] (net_db 1)

new_dht-table_len_case :
    ((new_dht env self 1 []).1 ≡ new_net_db self 1 [])
    × (table_len (new_dht env self 1 []).1.table.buckets ≡ 0)
new_dht-table_len_case = new_dht-table_len env self 1 []

-- A database whose table has one address, in its bucket.
abbrev one_address : NetDb ℕ
one_address = record {
  table = record {
    arrays = (node 7 ∷ []) ∷ replicate 19 no_address ∷ [];
    buckets =
        replicate 5 (record { array = 1; len = 0 })
        ++ record { array = 0; len = 1 } ∷ replicate 154 (record { array = 1; len = 0 });
  };
  addr = self;
  conn = 1;
  table_file = [];
}

abbrev found : Entry
found = record unsigned { address = node 7 }

-- `FindClosest` visits the bucket of the address twice, so the one entry comes twice.
found_twice : (find_closest env (node 7) one_address).0 ≡ ok (some found ∷ some found ∷ [])
unfolding find_closest closest_loop query_bucket look_left look_right query add_seed_to_entry
    insert_address query_seeds query_seeding decode_rows string decode_address bucket_index xor
    xor_bytes leading_zeroes first_one first_bit insert_into_table insert_bucket find_equal equals
    save_table bytes_eq
found_twice = refl

find_closest-length_example : 2 ≤ 20
find_closest-length_example =
    find_closest-length env (node 7) one_address (some found ∷ some found ∷ []) found_twice
