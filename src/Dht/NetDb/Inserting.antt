-- ===== src/Dht/NetDb/Inserting.antt =====
-- What `Insert` does on its branches.
use dfi.Prelude.{ℕ, suc, arith, ◌≡◌, refl, ap, ◌∙◌, true, ltb, if◌then◌else◌}
use dfi.Prelude.Int.{pos}
use dfi.Prelude.Outcome.{ok, err}
use dfi.Prelude.Action.{Action, pure, ◌>>=◌, ◌>>◌, Keeps, Keeps-if, Keeps-pure, Keeps-bind}
use dfi.Dht.Address.{Address, Bytes, string}
use dfi.Dht.Table.{Table, insert_into_table, bucket_index}
use dfi.Dht.Table.Insert.{Refreshed}
use dfi.Dht.Table.Index.{IsNode, insert_into_table-IsTable}
use dfi.Dht.Entry.{Entry, EntryError, verify}
use dfi.Dht.NetDb.{Env, NetDb, DbError, ExecResult, row_of}
use dfi.Dht.NetDb.Reading.{insert_address, save_table}
use dfi.Dht.NetDb.Writing.{update, insert_into_db, insert_entry_seeds, insert}
use dfi.Dht.NetDb.Kept.{IsStable, update-Keeps, insert_into_db-Keeps, insert_entry_seeds-Keeps}
use dfi.Dht.NetDb.Invariant.{IsDb}

module _ {S : Type 0} (env : Env S) where
  open env use {sql, codec, sigs}

  -- An entry that `Verify` refuses is not inserted: neither the table nor the database changes.
  pub insert-refused :
      (db : NetDb S) (e : Entry) (x : EntryError)
      → verify codec sigs e ≡ err x
      → insert env e db ≡ (err (DbError.entry_error x), db)
  unfolding insert
  insert-refused db e x h = rw h refl

  -- What `Insert` does once the entry is in the table.
  abbrev after_table : Entry → Action (NetDb S) DbError ℕ
  after_table e = do
    affected ← update env e
    if ltb 0 affected
        then pure affected
        else do inserted ← insert_into_db env e; insert_entry_seeds env e; pure inserted

  after_table-Keeps : (P : NetDb S → Type 0) → IsStable P → (e : Entry) → Keeps P (after_table e)
  after_table-Keeps P stable e = Keeps-bind (update-Keeps env P stable e) λ affected.
      Keeps-if (ltb 0 affected) (Keeps-pure affected) (
        Keeps-bind (insert_into_db-Keeps env P stable e)
          λ inserted. Keeps-bind (insert_entry_seeds-Keeps env P stable e) λ _. Keeps-pure inserted)

  insert-after_table :
      (db : NetDb S) (e : Entry) (u : Table)
      → verify codec sigs e ≡ ok tt
      → insert_into_table db.addr db.table e.address ≡ ok u
      → insert env e db ≡ after_table e (save_table env (record db { table = u }))
  unfolding insert insert_address
  insert-after_table db e u v t = rw (v, t) refl

  has_table : (u : Table) → IsStable {S = S} (λ db. db.table ≡ u)
  has_table u = record { at = λ db conn h. h }

  -- On a well-formed table, for a node and an entry with addresses of 20 bytes: after the
  -- insertion of an entry that `Verify` accepts its address is at the front of the bucket of its
  -- distance and no other bucket has changed, whatever the database answers and even where the
  -- call ends in an error.
  pub insert-table :
      (db : NetDb S) (e : Entry)
      → IsDb db
      → IsNode db.addr
      → IsNode e.address
      → verify codec sigs e ≡ ok tt
      → (n : ℕ) × (bucket_index db.addr e.address ≡ ok (pos n))
        × Refreshed db.table n e.address (insert env e db).1.table
  unfolding save_table
  insert-table db e is self node v =
      let (n, u, i, t, is', r) =
        insert_into_table-IsTable db.addr db.table e.address is self node in
      let kept : (insert env e db).1.table ≡ u = rw (insert-after_table db e u v t) (
        (after_table-Keeps (λ db. db.table ≡ u) (has_table u) e).at
          (save_table env (record db { table = u })) refl) in
      (n, i, rw kept r)

  known_lem :
      (db : NetDb S) (e : Entry) (text : Bytes × Address) (res : ExecResult) (conn : S) (n : ℕ)
      → verify codec sigs e ≡ ok tt
      → string codec e.address ≡ ok text
      → sql.update_entry (row_of text.0 e) db.conn ≡ (ok res, conn)
      → res.rows_affected ≡ ok (suc n)
      → after_table e db ≡ (ok (suc n), record db { conn = conn })
  unfolding update
  known_lem db e text res conn n v t q r =
      let positive : ltb 0 (suc n) ≡ true = ground arith in rw (v, t, q, r, positive) refl

  -- On a well-formed table, for addresses of 20 bytes and an entry that `Verify` accepts: where
  -- the update finds a row, `Insert` returns what the update affected, and the database is as
  -- the update left it. In particular no seed of the entry is stored.
  pub insert-known :
      (db : NetDb S) (e : Entry) (text : Bytes × Address) (res : ExecResult) (conn : S) (n : ℕ)
      → IsDb db
      → IsNode db.addr
      → IsNode e.address
      → verify codec sigs e ≡ ok tt
      → string codec e.address ≡ ok text
      → sql.update_entry (row_of text.0 e) db.conn ≡ (ok res, conn)
      → res.rows_affected ≡ ok (suc n)
      → ((insert env e db).0 ≡ ok (suc n)) × ((insert env e db).1.conn ≡ conn)
  unfolding save_table
  insert-known db e text res conn n is self node v t q r =
      let (_, u, _, inserted, _, _) =
        insert_into_table-IsTable db.addr db.table e.address is self node in
      let all =
        insert-after_table db e u v inserted
        ∙ known_lem (save_table env (record db { table = u })) e text res conn n v t q r in
      (ap (λ p. p.0) all, ap (λ p. p.1.conn) all)
