-- ===== src/Dht/NetDb/Kept.antt =====
-- What the writing operations keep: a property of the database that does not depend on the state
-- of SQLite.
use dfi.Prelude.{List, [], ◌∷◌, ◌==◌}
use dfi.Prelude.Outcome.{Outcome}
use dfi.Prelude.Action.{Keeps, Keeps-if, Keeps-pure, Keeps-lift, Keeps-bind}
use dfi.Dht.Address.{Address, Bytes, string, of_raw}
use dfi.Dht.Entry.{Entry, verify}
use dfi.Dht.NetDb.{Env, NetDb, SqlError, DbError, row_of, address_result, sql_result, entry_result}
use dfi.Dht.NetDb.Reading.{reading}
use dfi.Dht.NetDb.Writing.{
  update, insert_into_db, insert_seed, insert_seeding, insert_seeds, insert_entry_seeds, exec,
  run_update, text_or_empty,
}

pub record IsStable {S : Type 0} (P : NetDb S → Type 0) : Type 0 where
  pub at : (db : NetDb S) (conn : S) → P db → P (record db { conn = conn })

module _ {S : Type 0} (env : Env S) (P : NetDb S → Type 0) (stable : IsStable P) where
  open env use {sql, codec, sigs}

  reading-Keeps : {A : Type 0} (f : S → Outcome DbError A) → Keeps P (reading env f)
  reading-Keeps f = record { at = λ db h. h }

  exec-Keeps :
      {A : Type 0} (f : S → Outcome SqlError A × S)
      (result : Outcome SqlError A → Outcome DbError A)
      → Keeps P (exec env f result)
  exec-Keeps f result = record { at = λ db h. stable.at db _ h }

  run_update-Keeps : (text : Bytes) (e : Entry) → Keeps P (run_update env text e)
  run_update-Keeps text e = record { at = λ db h. stable.at db _ h }

  pub update-Keeps : (e : Entry) → Keeps P (update env e)
  unfolding update
  update-Keeps e = Keeps-bind (Keeps-lift (entry_result (verify codec sigs e))) λ _.
      Keeps-bind (Keeps-lift (address_result (string codec e.address))) λ t. run_update-Keeps t.0 e

  pub insert_into_db-Keeps : (e : Entry) → Keeps P (insert_into_db env e)
  unfolding insert_into_db
  insert_into_db-Keeps e = Keeps-bind (Keeps-lift (address_result (string codec e.address))) λ t.
      Keeps-bind (exec-Keeps (sql.insert_entry (row_of t.0 e)) sql_result) λ res.
        Keeps-bind (Keeps-lift (sql_result res.rows_affected)) λ affected.
          Keeps-if (affected == 0) (Keeps-pure 0) (
            Keeps-bind (Keeps-lift (sql_result res.last_insert_id)) λ id.
              Keeps-bind (exec-Keeps (sql.insert_fts_entry id e.name e.desc) sql_result)
                λ _. Keeps-pure affected)

  insert_seed-Keeps : (entry seed : Address) → Keeps P (insert_seed env entry seed)
  unfolding insert_seed
  insert_seed-Keeps entry seed =
      Keeps-bind (Keeps-lift (text_or_empty (string codec entry))) λ entry_text.
        Keeps-bind (Keeps-lift (address_result (string codec seed))) λ t.
          Keeps-bind (reading-Keeps (λ conn. sql_result (sql.query_id_by_address conn entry_text)))
            λ id.
              Keeps-bind (reading-Keeps (λ conn. sql_result (sql.query_id_by_address conn t.0)))
                λ seed_id.
                  Keeps-bind (exec-Keeps (sql.insert_seed seed_id id) sql_result) λ _. Keeps-pure tt

  insert_seeding-Keeps : (a : Address) (l : List Bytes) → Keeps P (insert_seeding env a l)
  unfolding insert_seeding
  insert_seeding-Keeps a [] = Keeps-pure tt
  insert_seeding-Keeps a (raw ∷ rest) =
      Keeps-bind (insert_seed-Keeps (of_raw raw) a) λ _. insert_seeding-Keeps a rest

  insert_seeds-Keeps : (a : Address) (l : List Bytes) → Keeps P (insert_seeds env a l)
  unfolding insert_seeds
  insert_seeds-Keeps a [] = Keeps-pure tt
  insert_seeds-Keeps a (raw ∷ rest) =
      Keeps-bind (insert_seed-Keeps a (of_raw raw)) λ _. insert_seeds-Keeps a rest

  pub insert_entry_seeds-Keeps : (e : Entry) → Keeps P (insert_entry_seeds env e)
  unfolding insert_entry_seeds
  insert_entry_seeds-Keeps e =
      Keeps-bind (insert_seeding-Keeps e.address e.seeding)
        λ _. insert_seeds-Keeps e.address e.seeds
