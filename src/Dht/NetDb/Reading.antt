-- ===== src/Dht/NetDb/Reading.antt =====
-- The queries of dht/netdb.go. A query of an address also refreshes it in the table.
use dfi.Prelude.{ℕ, zero, suc, ◌+◌, Option, none, some, List, [], ◌∷◌, ◌++◌, get_elem?, map}
use dfi.Prelude.Int.{ℤ, negsuc}
use dfi.Prelude.Outcome.{Outcome, ok, err, panic, or_panic}
use dfi.Prelude.Action.{Action, pure, lift, attempt, ◌>>=◌, ◌>>◌}
use dfi.Dht.Address.{Address, AddressError, Bytes, of_raw, string, decode_address}
use dfi.Dht.Table.{Slice, Table, array_at, view, insert_into_table}
use dfi.Dht.Entry.{Entry}
use dfi.Dht.NetDb.{
  SqlError, DbError, Row, Env, NetDb, entry_of, address_result, sql_result, found_row,
}

module _ {S : Type 0} (env : Env S) where
  open env use {sql, codec, write_file}

  abbrev pub Db : Type 0 → Type 0
  Db = Action (NetDb S) DbError

  -- A read of the database.
  abbrev pub reading : {A : Type 0} → (S → Outcome DbError A) → Db A
  reading f db = (f db.conn, db)

  -- `SaveTable`: the buckets, as JSON shows them, go to a file, and a failure is not reported.
  unfoldable pub save_table : NetDb S → NetDb S
  save_table db = record db {
    table_file = write_file db.table_file (map (view db.table.arrays) db.table.buckets);
  }

  abbrev pub table_saved :
      NetDb S → Outcome AddressError Table → Outcome DbError (Unit {0}) × NetDb S
  table_saved db (ok t) = (ok tt, save_table (record db { table = t }))
  table_saved db (err e) = (err (DbError.address_error e), db)
  table_saved db panic = (panic, db)

  -- `insertIntoTable`
  unfoldable pub insert_address : Address → Db (Unit {0})
  insert_address addr db = table_saved db (insert_into_table db.addr db.table addr)

  -- The loop over the rows of a query of addresses.
  unfoldable pub decode_rows : List (Outcome SqlError Bytes) → Db (List Address)
  decode_rows [] = pure []
  decode_rows (row ∷ rows) = do
    text ← lift (sql_result row)
    a ← lift (address_result (decode_address codec text))
    rest ← decode_rows rows
    pure (a ∷ rest)

  unfoldable pub query_seeds : ℤ → Db (List Address)
  unfolding decode_rows
  query_seeds id = do
    rows ← reading (λ conn. sql_result (sql.query_seeds conn id))
    decode_rows rows

  unfoldable pub query_seeding : ℤ → Db (List Address)
  unfolding decode_rows
  query_seeding id = do
    rows ← reading (λ conn. sql_result (sql.query_seeding conn id))
    decode_rows rows

  -- `addSeedToEntry`, which gives the entry with its seeds.
  unfoldable pub add_seed_to_entry : Entry → ℤ → Db Entry
  unfolding query_seeds query_seeding
  add_seed_to_entry e id = do
    seeds ← query_seeds id
    seeding ← query_seeding id
    pure (record e { seeds = map (λ a. a.raw) seeds; seeding = map (λ a. a.raw) seeding })

  abbrev pub entry_found : Option Row → Db (Option Entry × ℤ)
  entry_found none = pure (none, negsuc 0)
  entry_found (some row) = do
    decoded ← lift (address_result (decode_address codec row.address))
    e ← add_seed_to_entry (record (entry_of row) { address = of_raw decoded.raw }) row.id
    insert_address e.address
    pure (some e, row.id)

  -- `Query`: no entry and the id -1 if there is none.
  unfoldable pub query : Address → Db (Option Entry × ℤ)
  unfolding add_seed_to_entry insert_address
  query addr = do
    (address_string, _) ← lift (address_result (string codec addr))
    found ← reading (λ conn. found_row (sql.query_address conn address_string))
    entry_found found

  -- `QuerySeeds` and `QuerySeeding`
  unfoldable pub query_seeds_of : Address → Db (List Address)
  unfolding query query_seeds
  query_seeds_of addr = do (_, id) ← query addr; query_seeds id

  unfoldable pub query_seeding_of : Address → Db (List Address)
  unfolding query query_seeding
  query_seeding_of addr = do (_, id) ← query addr; query_seeding id

  -- `Len`: the largest id.
  unfoldable pub len : Db ℤ
  len = reading (λ conn. sql_result (sql.entry_len conn))

  -- `SearchPeer`: 25 addresses.
  unfoldable pub search_peer : Bytes → Bytes → ℤ → Db (List Address)
  unfolding decode_rows
  search_peer name desc page = do
    rows ← reading (λ conn. sql_result (sql.search_peer conn name desc page 25))
    decode_rows rows

  -- The address that a loop over a slice reads in its round `k`, from the array as it then is.
  abbrev pub element : Slice → ℕ → Db Address
  element s k db = (or_panic (get_elem? (array_at db.table.arrays s.array) k), db)

  -- `queryAddresses`: an address whose query fails is passed over.
  unfoldable pub query_addresses : ℕ → ℕ → Slice → List (Option Entry) → Db (List (Option Entry))
  unfolding query
  query_addresses zero k s ret = pure ret
  query_addresses (suc rounds) k s ret = do
    addr ← element s k
    attempt (query addr) (λ (kv, _). query_addresses rounds (k + 1) s (ret ++ kv ∷ []))
        (λ _. query_addresses rounds (k + 1) s ret)
