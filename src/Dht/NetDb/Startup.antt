-- ===== src/Dht/NetDb/Startup.antt =====
-- What the table holds after `NewDHT`.
use dfi.Prelude.{◌≡◌, refl, ap, ◌∙◌, List, [], ◌∷◌, All}
use dfi.Prelude.Int.{ℤ}
use dfi.Prelude.Outcome.{Outcome, ok, err, panic}
use dfi.Prelude.Action.{pure, lift, recover, Keeps, Keeps-pure, Keeps-lift, Keeps-bind}
use dfi.Prelude.Returns.{Returns, OfValue, Returns-pure, Returns-after, Returns-bind}
use dfi.Dht.Address.{Address, Bytes, no_address, decode_address}
use dfi.Dht.Table.{new_table, table_len}
use dfi.Dht.Entry.{Entry, verify, address_size}
use dfi.Dht.NetDb.{SqlError, Row, Env, NetDb, DbError, entry_of, sql_result, address_result}
use dfi.Dht.NetDb.Reading.{reading, add_seed_to_entry, query_seeds, query_seeding, decode_rows}
use dfi.Dht.NetDb.Inserting.{insert-refused}
use dfi.Dht.NetDb.Start.{new_net_db, latest_entries, query_latest, insert_latest, new_dht}

-- An entry whose address was never set.
abbrev HasNoAddress : Entry → Type 0
HasNoAddress e = e.address ≡ no_address

module _ {S : Type 0} (env : Env S) where
  open env use {sql, codec, sigs}

  refused : (e : Entry) → HasNoAddress e → verify codec sigs e ≡ err address_size
  unfolding verify
  refused e h = rw h refl

  add_seed_to_entry-HasNoAddress :
      (e : Entry) (id : ℤ) → HasNoAddress e → Returns HasNoAddress (add_seed_to_entry env e id)
  unfolding add_seed_to_entry
  add_seed_to_entry-HasNoAddress e id h =
      Returns-after (query_seeds env id)
        λ seeds. Returns-after (query_seeding env id) λ seeding. Returns-pure _ h

  latest_entries-All :
      (rows : List (Outcome SqlError Row)) → Returns (All HasNoAddress) (latest_entries env rows)
  unfolding latest_entries
  latest_entries-All [] = Returns-pure [] tt
  latest_entries-All (scanned ∷ rows) = Returns-after (lift (sql_result scanned)) λ row.
      Returns-bind (add_seed_to_entry-HasNoAddress (entry_of row) row.id refl)
        λ e h. Returns-bind (latest_entries-All rows) λ rest hs. Returns-pure (e ∷ rest) (h, hs)

  insert_latest-same :
      (es : List Entry) (db : NetDb S) → All HasNoAddress es → insert_latest env es db ≡ (ok tt, db)
  unfolding insert_latest
  insert_latest-same [] db h = refl
  insert_latest-same (e ∷ es) db (h, hs) =
      rw (insert-refused env db e address_size (refused e h)) (insert_latest-same es db hs)

  module _ (P : NetDb S → Type 0) where
    reading-Keeps : {A : Type 0} (f : S → Outcome DbError A) → Keeps P (reading env f)
    reading-Keeps f = record { at = λ db h. h }

    decode_rows-Keeps : (rows : List (Outcome SqlError Bytes)) → Keeps P (decode_rows env rows)
    unfolding decode_rows
    decode_rows-Keeps [] = Keeps-pure []
    decode_rows-Keeps (row ∷ rows) = Keeps-bind (Keeps-lift (sql_result row)) λ text.
        Keeps-bind (Keeps-lift (address_result (decode_address codec text)))
          λ a. Keeps-bind (decode_rows-Keeps rows) λ rest. Keeps-pure (a ∷ rest)

    add_seed_to_entry-Keeps : (e : Entry) (id : ℤ) → Keeps P (add_seed_to_entry env e id)
    unfolding add_seed_to_entry query_seeds query_seeding
    add_seed_to_entry-Keeps e id =
        Keeps-bind
          (Keeps-bind (reading-Keeps (λ conn. sql_result (sql.query_seeds conn id)))
            decode_rows-Keeps)
          λ seeds.
            Keeps-bind
              (Keeps-bind (reading-Keeps (λ conn. sql_result (sql.query_seeding conn id)))
                decode_rows-Keeps)
              λ seeding. Keeps-pure _

    latest_entries-Keeps : (rows : List (Outcome SqlError Row)) → Keeps P (latest_entries env rows)
    unfolding latest_entries
    latest_entries-Keeps [] = Keeps-pure []
    latest_entries-Keeps (scanned ∷ rows) = Keeps-bind (Keeps-lift (sql_result scanned)) λ row.
        Keeps-bind (add_seed_to_entry-Keeps (entry_of row) row.id)
          λ e. Keeps-bind (latest_entries-Keeps rows) λ rest. Keeps-pure (e ∷ rest)

    query_latest-Keeps : Keeps P (query_latest env)
    unfolding query_latest
    query_latest-Keeps =
        Keeps-bind (reading-Keeps (λ conn. sql_result (sql.query_latest conn))) latest_entries-Keeps

  query_latest-All : Returns (All HasNoAddress) (query_latest env)
  unfolding query_latest
  query_latest-All =
      Returns-after (reading env (λ conn. sql_result (sql.query_latest conn))) latest_entries-All

  start_same :
      (o : Outcome DbError (List Entry)) (db : NetDb S)
      → OfValue (All HasNoAddress) o
      → (recover o (insert_latest env) (λ _. pure tt) db).1 ≡ db
  start_same (ok es) db h = ap (λ p. p.1) (insert_latest-same es db h)
  start_same (err e) db h = refl
  start_same panic db h = refl

  empty :
      (addr : Address) (conn : S) (table_file : List (List Address))
      → table_len (new_net_db addr conn table_file).table.buckets ≡ 0
  unfolding new_net_db new_table table_len
  empty addr conn table_file = refl

  -- `NewDHT` leaves the new database as `NewNetDB` made it, with an empty table, whatever the
  -- rows are that `QueryLatest` reads: none of them comes into the table.
  pub new_dht-table_len :
      (addr : Address) (conn : S) (table_file : List (List Address))
      → ((new_dht env addr conn table_file).1 ≡ new_net_db addr conn table_file)
        × (table_len (new_dht env addr conn table_file).1.table.buckets ≡ 0)
  unfolding new_dht
  new_dht-table_len addr conn table_file =
      let db : NetDb S = new_net_db addr conn table_file in
      let read : (query_latest env db).1 ≡ db = (query_latest-Keeps (λ s. s ≡ db)).at db refl in
      let same =
        start_same (query_latest env db).0 (query_latest env db).1 (query_latest-All.at db)
        ∙ read in
      (same, ap (λ s. table_len s.table.buckets) same ∙ empty addr conn table_file)
