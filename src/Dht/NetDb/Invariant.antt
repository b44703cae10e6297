-- ===== src/Dht/NetDb/Invariant.antt =====
-- Every operation of the database keeps the routing table well formed, whatever the database
-- answers.
use dfi.Prelude.{
  ℕ, zero, suc, ◌+◌, ◌-◌, ◌*◌, ◌≡◌, refl, Option, none, some, List, [], ◌∷◌, ◌++◌, length, ltb, leb,
  ◌==◌,
}
use dfi.Prelude.Int.{ℤ, pos}
use dfi.Prelude.Outcome.{Outcome, ok, err, panic}
use dfi.Prelude.Action.{Keeps, Keeps-if, Keeps-pure, Keeps-lift, Keeps-bind, Keeps-attempt}
use dfi.Dht.Address.{Address, AddressError, Bytes, string, decode_address}
use dfi.Dht.Table.{Table, Slice, bucket_size, bucket_index, insert_into_table}
use dfi.Dht.Table.Insert.{IsTable, insert_into_table-keeps}
use dfi.Dht.Entry.{Entry, verify}
use dfi.Dht.NetDb.{
  Env, NetDb, SqlError, DbError, Row, address_result, sql_result, entry_result, found_row,
}
use dfi.Dht.NetDb.Reading.{
  save_table, table_saved, insert_address, reading, decode_rows, query_seeds, query_seeding,
  search_peer, add_seed_to_entry, entry_found, query, query_addresses, element,
}
use dfi.Dht.NetDb.Kept.{IsStable, update-Keeps, insert_into_db-Keeps, insert_entry_seeds-Keeps}
use dfi.Dht.NetDb.Closest.{
  query_bucket, look_left, look_right, closest_loop, find_closest, goes_on, bucket_at, outer_rounds,
}
use dfi.Dht.NetDb.Writing.{insert}

abbrev pub IsDb : {S : Type 0} → NetDb S → Type 0
IsDb db = IsTable db.addr db.table

module _ {S : Type 0} (env : Env S) where
  open env use {sql, codec, sigs}

  save_table-IsDb : (db : NetDb S) → IsDb db → IsDb (save_table env db)
  unfolding save_table
  save_table-IsDb db h = h

  table_saved-IsDb :
      (db : NetDb S) (addr : Address) (o : Outcome AddressError Table)
      → insert_into_table db.addr db.table addr ≡ o
      → IsDb db
      → IsDb (table_saved env db o).1
  table_saved-IsDb db addr (ok t) e h =
      save_table-IsDb (record db { table = t })
        (insert_into_table-keeps db.addr db.table t addr h e)
  table_saved-IsDb db addr (err x) e h = h
  table_saved-IsDb db addr panic e h = h

  insert_address-IsDb : (addr : Address) → Keeps IsDb (insert_address env addr)
  unfolding insert_address
  insert_address-IsDb addr = record {
    at = λ db h. table_saved-IsDb db addr (insert_into_table db.addr db.table addr) refl h;
  }

  reading-IsDb : {A : Type 0} (f : S → Outcome DbError A) → Keeps IsDb (reading env f)
  reading-IsDb f = record { at = λ db h. h }

  decode_rows-IsDb : (rows : List (Outcome SqlError Bytes)) → Keeps IsDb (decode_rows env rows)
  unfolding decode_rows
  decode_rows-IsDb [] = Keeps-pure []
  decode_rows-IsDb (row ∷ rows) = Keeps-bind (Keeps-lift (sql_result row)) λ text.
      Keeps-bind (Keeps-lift (address_result (decode_address codec text)))
        λ a. Keeps-bind (decode_rows-IsDb rows) λ rest. Keeps-pure (a ∷ rest)

  query_seeds-IsDb : (id : ℤ) → Keeps IsDb (query_seeds env id)
  unfolding query_seeds
  query_seeds-IsDb id =
      Keeps-bind (reading-IsDb (λ conn. sql_result (sql.query_seeds conn id))) decode_rows-IsDb

  query_seeding-IsDb : (id : ℤ) → Keeps IsDb (query_seeding env id)
  unfolding query_seeding
  query_seeding-IsDb id =
      Keeps-bind (reading-IsDb (λ conn. sql_result (sql.query_seeding conn id))) decode_rows-IsDb

  add_seed_to_entry-IsDb : (e : Entry) (id : ℤ) → Keeps IsDb (add_seed_to_entry env e id)
  unfolding add_seed_to_entry
  add_seed_to_entry-IsDb e id =
      Keeps-bind (query_seeds-IsDb id)
        λ seeds. Keeps-bind (query_seeding-IsDb id) λ seeding. Keeps-pure _

  entry_found-IsDb : (found : Option Row) → Keeps IsDb (entry_found env found)
  entry_found-IsDb none = Keeps-pure _
  entry_found-IsDb (some row) =
      Keeps-bind (Keeps-lift (address_result (decode_address codec row.address))) λ decoded.
        Keeps-bind (add_seed_to_entry-IsDb _ row.id)
          λ e. Keeps-bind (insert_address-IsDb e.address) λ _. Keeps-pure _

  pub search_peer-IsDb :
      (name desc : Bytes) (page : ℤ) → Keeps IsDb (search_peer env name desc page)
  unfolding search_peer
  search_peer-IsDb name desc page =
      Keeps-bind (reading-IsDb (λ conn. sql_result (sql.search_peer conn name desc page 25)))
        decode_rows-IsDb

  pub query-IsDb : (addr : Address) → Keeps IsDb (query env addr)
  unfolding query
  query-IsDb addr = Keeps-bind (Keeps-lift (address_result (string codec addr))) λ t.
      Keeps-bind (reading-IsDb (λ conn. found_row (sql.query_address conn t.0))) entry_found-IsDb

  element-IsDb : (s : Slice) (k : ℕ) → Keeps IsDb (element env s k)
  element-IsDb s k = record { at = λ db h. h }

  query_addresses-IsDb :
      (rounds k : ℕ) (s : Slice) (ret : List (Option Entry))
      → Keeps IsDb (query_addresses env rounds k s ret)
  unfolding query_addresses
  query_addresses-IsDb zero k s ret = Keeps-pure ret
  query_addresses-IsDb (suc rounds) k s ret = Keeps-bind (element-IsDb s k) λ addr.
      Keeps-attempt (query-IsDb addr) (λ t. query_addresses-IsDb rounds (k + 1) s (ret ++ t.0 ∷ []))
        (λ _. query_addresses-IsDb rounds (k + 1) s ret)

  query_bucket-IsDb :
      (rounds k : ℕ) (s : Slice) (ret : List (Option Entry))
      → Keeps IsDb (query_bucket env rounds k s ret)
  unfolding query_bucket
  query_bucket-IsDb zero k s ret = Keeps-pure ret
  query_bucket-IsDb (suc rounds) k s ret =
      Keeps-if (leb bucket_size (length ret)) (Keeps-pure ret) (
        Keeps-bind (element-IsDb s k) λ addr.
          Keeps-attempt (query-IsDb addr)
            (λ t. query_bucket-IsDb rounds (k + 1) s (ret ++ t.0 ∷ []))
            (λ _. query_bucket-IsDb rounds (k + 1) s ret))

  bucket_at-IsDb : (i : ℤ) → Keeps IsDb (bucket_at env i)
  bucket_at-IsDb i = record { at = λ db h. h }

  look_left-IsDb :
      (index i : ℕ) (ret : List (Option Entry)) → Keeps IsDb (look_left env index i ret)
  unfolding look_left
  look_left-IsDb index i ret =
      Keeps-if (leb i index)
        (Keeps-bind (bucket_at-IsDb (pos (index - i))) λ t. query_bucket-IsDb t.1.len 0 t.1 ret)
        (Keeps-pure ret)

  look_right-IsDb :
      (index bits i : ℕ) (ret : List (Option Entry)) → Keeps IsDb (look_right env index bits i ret)
  unfolding look_right
  look_right-IsDb index bits i ret =
      Keeps-if (ltb (index + i) bits)
        (Keeps-bind (bucket_at-IsDb (pos (index + i))) λ t. query_bucket-IsDb t.1.len 0 t.1 ret)
        (Keeps-pure ret)

  closest_loop-IsDb :
      (rounds index bits i : ℕ) (ret : List (Option Entry))
      → Keeps IsDb (closest_loop env rounds index bits i ret)
  unfolding closest_loop
  closest_loop-IsDb zero index bits i ret = Keeps-pure ret
  closest_loop-IsDb (suc rounds) index bits i ret =
      Keeps-if (goes_on env index bits i ret)
        (Keeps-bind (look_left-IsDb index i ret) λ left.
          Keeps-bind (look_right-IsDb index bits i left)
            λ right. closest_loop-IsDb rounds index bits (i + 1) right)
        (Keeps-pure ret)

  -- `FindClosest` leaves a well-formed table when it is given one, whatever the database answers
  -- and whether it returns, fails or panics.
  pub find_closest-IsDb :
      (addr : Address) (db : NetDb S) → IsDb db → IsDb (find_closest env addr db).1
  unfolding find_closest
  find_closest-IsDb addr =
      (Keeps-bind {m = λ db. (address_result (bucket_index db.addr addr), db)}
        (record { at = λ db h. h })
        λ i. Keeps-bind (bucket_at-IsDb i) λ t.
          Keeps-if (t.1.len == bucket_size) (query_addresses-IsDb t.1.len 0 t.1 []) (
            closest_loop-IsDb (outer_rounds t.0 (length addr.raw * 8)) t.0 (length addr.raw * 8) 0
              [])).at

  stable : IsStable {S = S} IsDb
  stable = record { at = λ db conn h. h }

  -- `Insert` leaves a well-formed table when it is given one, whatever the database answers and
  -- whether it returns, fails or panics.
  pub insert-IsDb : (e : Entry) (db : NetDb S) → IsDb db → IsDb (insert env e db).1
  unfolding insert
  insert-IsDb e =
      (Keeps-bind (Keeps-lift (entry_result (verify codec sigs e))) λ _.
        Keeps-bind (insert_address-IsDb e.address) λ _.
          Keeps-bind (update-Keeps env IsDb stable e) λ affected.
            Keeps-if (ltb 0 affected) (Keeps-pure affected) (
              Keeps-bind (insert_into_db-Keeps env IsDb stable e) λ inserted.
                Keeps-bind (insert_entry_seeds-Keeps env IsDb stable e)
                  λ _. Keeps-pure inserted)).at
