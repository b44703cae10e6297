-- ===== src/Dht/NetDb/Start.antt =====
-- The start of the table: `NewNetDB` and `QueryLatest` of dht/netdb.go and `NewDHT` of dht/dht.go.
use dfi.Prelude.{List, [], ◌∷◌}
use dfi.Prelude.Outcome.{Outcome}
use dfi.Prelude.Action.{pure, lift, attempt, ◌>>=◌}
use dfi.Dht.Address.{Address}
use dfi.Dht.Table.{new_table}
use dfi.Dht.Entry.{Entry}
use dfi.Dht.NetDb.{SqlError, Row, Env, NetDb, DbError, entry_of, sql_result}
use dfi.Dht.NetDb.Reading.{Db, reading, add_seed_to_entry}
use dfi.Dht.NetDb.Writing.{insert}

-- `NewNetDB` on an open database: the prepared statements are the fields of `Sql`.
unfoldable pub new_net_db : {S : Type 0} → Address → S → List (List Address) → NetDb S
new_net_db addr conn table_file = record {
  table = new_table;
  addr = addr;
  conn = conn;
  table_file = table_file;
}

module _ {S : Type 0} (env : Env S) where
  open env use {sql}

  -- The loop of `QueryLatest`. The column of the address is scanned into a variable that nothing
  -- reads.
  unfoldable pub latest_entries : List (Outcome SqlError Row) → Db env (List Entry)
  unfolding add_seed_to_entry
  latest_entries [] = pure []
  latest_entries (scanned ∷ rows) = do
    row ← lift (sql_result scanned)
    e ← add_seed_to_entry env (entry_of row) row.id
    rest ← latest_entries rows
    pure (e ∷ rest)

  unfoldable pub query_latest : Db env (List Entry)
  unfolding latest_entries
  query_latest = do
    rows ← reading env (λ conn. sql_result (sql.query_latest conn))
    latest_entries rows

  -- The loop of `NewDHT`, which ignores what `Insert` returns.
  unfoldable pub insert_latest : List Entry → Db env (Unit {0})
  unfolding insert
  insert_latest [] = pure tt
  insert_latest (e ∷ es) = attempt (insert env e) (λ _. insert_latest es) (λ _. insert_latest es)

  -- `NewDHT`. Beside an error there are no entries.
  unfoldable pub new_dht : Address → S → List (List Address) → Outcome DbError (Unit {0}) × NetDb S
  unfolding query_latest insert_latest new_net_db
  new_dht addr conn table_file =
      attempt query_latest insert_latest (λ _. pure tt) (new_net_db addr conn table_file)
