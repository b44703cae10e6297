-- ===== src/Dht/NetDb/Writing.antt =====
-- Insertion and update of entries in dht/netdb.go, and the calls of dht/dht.go that pass on to them.
use dfi.Prelude.{ℕ, List, [], ◌∷◌, ltb, ◌==◌, if◌then◌else◌}
use dfi.Prelude.Outcome.{Outcome, ok, err, panic}
use dfi.Prelude.Action.{pure, lift, ◌>>=◌, ◌>>◌}
use dfi.Dht.Address.{Address, AddressError, Bytes, of_raw, string}
use dfi.Dht.Entry.{Entry, verify}
use dfi.Dht.NetDb.{
  SqlError, DbError, ExecResult, Env, no_rows, failed, row_of, address_result, sql_result,
  entry_result,
}
use dfi.Dht.NetDb.Reading.{Db, reading, insert_address}

-- The text of `String`, which is empty beside an error.
abbrev pub text_or_empty : Outcome AddressError (Bytes × Address) → Outcome DbError Bytes
text_or_empty (ok (s, _)) = ok s
text_or_empty (err _) = ok []
text_or_empty panic = panic

module _ {S : Type 0} (env : Env S) where
  open env use {sql, codec, sigs}

  -- The run of a statement that changes the database.
  abbrev pub exec :
      {A : Type 0}
      → (S → Outcome SqlError A × S)
      → (Outcome SqlError A → Outcome DbError A)
      → Db env A
  exec f result db = let (o, conn) = f db.conn in (result o, record db { conn = conn })

  -- `Update`. A statement that finds no row is no error here.
  abbrev updated : Outcome SqlError ExecResult → Outcome DbError ℕ
  updated (ok res) = sql_result res.rows_affected
  updated (err no_rows) = ok 0
  updated (err failed) = err (DbError.sql_error failed)
  updated panic = panic

  abbrev pub run_update : Bytes → Entry → Db env ℕ
  run_update text entry db =
      let (o, conn) = sql.update_entry (row_of text entry) db.conn in
      (updated o, record db { conn = conn })

  unfoldable pub update : Entry → Db env ℕ
  update entry = do
    lift (entry_result (verify codec sigs entry))
    (text, _) ← lift (address_result (string codec entry.address))
    run_update text entry

  -- `insertIntoDB`
  unfoldable pub insert_into_db : Entry → Db env ℕ
  insert_into_db entry = do
    (text, _) ← lift (address_result (string codec entry.address))
    res ← exec (sql.insert_entry (row_of text entry)) sql_result
    affected ← lift (sql_result res.rows_affected)
    if affected == 0 then pure 0 else do
      id ← lift (sql_result res.last_insert_id)
      exec (sql.insert_fts_entry id entry.name entry.desc) sql_result
      pure affected

  -- `InsertSeed`. An error of the first `String` is lost, as the second one assigns the variable.
  unfoldable pub insert_seed : Address → Address → Db env (Unit {0})
  insert_seed entry seed = do
    entry_text ← lift (text_or_empty (string codec entry))
    (seed_text, _) ← lift (address_result (string codec seed))
    entry_id ← reading env (λ conn. sql_result (sql.query_id_by_address conn entry_text))
    seed_id ← reading env (λ conn. sql_result (sql.query_id_by_address conn seed_text))
    exec (sql.insert_seed seed_id entry_id) sql_result
    pure tt

  -- The two loops of `insertEntrySeeds`.
  unfoldable pub insert_seeding : Address → List Bytes → Db env (Unit {0})
  unfolding insert_seed
  insert_seeding address [] = pure tt
  insert_seeding address (raw ∷ rest) = do
    insert_seed (of_raw raw) address
    insert_seeding address rest

  unfoldable pub insert_seeds : Address → List Bytes → Db env (Unit {0})
  unfolding insert_seed
  insert_seeds address [] = pure tt
  insert_seeds address (raw ∷ rest) = do insert_seed address (of_raw raw); insert_seeds address rest

  unfoldable pub insert_entry_seeds : Entry → Db env (Unit {0})
  unfolding insert_seeding insert_seeds
  insert_entry_seeds entry = do
    insert_seeding entry.address entry.seeding
    insert_seeds entry.address entry.seeds

  -- `Insert`: the rows affected. An entry that the update finds is not inserted again.
  unfoldable pub insert : Entry → Db env ℕ
  unfolding update insert_into_db insert_entry_seeds insert_address
  insert entry = do
    lift (entry_result (verify codec sigs entry))
    insert_address env entry.address
    affected ← update entry
    if ltb 0 affected
        then pure affected
        else do inserted ← insert_into_db entry; insert_entry_seeds entry; pure inserted
