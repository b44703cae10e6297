-- ===== src/Proto/Bootstrap.antt =====
-- `Bootstrap` of proto/client.go: the entries that a peer knows come into the table of this node.
use dfi.Prelude.{◌≡◌, refl, true, Option, none, some, List, [], ◌∷◌, if◌then◌else◌}
use dfi.Prelude.Outcome.{Outcome, ok, err, panic}
use dfi.Prelude.Action.{
  Action, Keeps, Keeps-pure, Keeps-lift, Keeps-bind, Keeps-attempt, Keeps-if, Keeps-within, pure,
  lift, attempt, within, deferred, ◌>>=◌, ◌>>◌,
}
use dfi.Dht.Address.{Address, equals}
use dfi.Dht.Entry.{Entry, EntryError, verify}
use dfi.Dht.NetDb.{Env, NetDb, DbError}
use dfi.Dht.NetDb.Writing.{insert}
use dfi.Dht.NetDb.Invariant.{IsDb, insert-IsDb}
use dfi.Proto.Message.{ProtoError, Conn, Net, close}
use dfi.Proto.Handshake.{Party}
use dfi.Proto.Packing.{Packing}
use dfi.Proto.Client.{find_closest}

pub data BootstrapError : Type 0 where
  from_peer : ProtoError → BootstrapError
  from_database : DbError → BootstrapError
  from_entry : EntryError → BootstrapError

module _ {S : Type 0} (env : Env S) (party : Party) (packing : Packing) where
  open env use {codec, sigs}

  abbrev pub Start : Type 0 → Type 0
  Start = Action (NetDb S × Conn) BootstrapError

  abbrev pub on_conn : {A : Type 0} → Net A → Start A
  on_conn = within (λ s. s.1) (λ conn s. (s.0, conn)) from_peer

  abbrev pub on_database : {A : Type 0} → Action (NetDb S) DbError A → Start A
  on_database = within (λ s. s.0) (λ db s. (db, s.1)) from_database

  abbrev pub checked_entry : Entry → Outcome BootstrapError (Unit {0})
  checked_entry e = elim (verify codec sigs e) [
    | ok t ↦ ok t
    | err x ↦ err (BootstrapError.from_entry x)
    | panic ↦ panic
  ]

  -- The loop. The address of a nil pointer is asked for before the pointer is compared with nil.
  unfoldable pub insert_peers : Address → List (Option Entry) → Start (Unit {0})
  unfolding insert
  insert_peers address [] = pure tt
  insert_peers address (none ∷ rest) = lift panic
  insert_peers address (some e ∷ rest) =
      let later = insert_peers address rest in
      if equals e.address address
      then later
      else attempt (lift (checked_entry e)) (λ _. on_database (insert env e) >> later) (λ _. later)

  unfoldable pub bootstrap : Address → Start (Unit {0})
  unfolding find_closest insert_peers
  bootstrap address =
      deferred (do peers ← on_conn (find_closest party packing address); insert_peers address peers)
        (on_conn close)

  IsGood : NetDb S × Conn → Type 0
  IsGood s = IsDb s.0

  insert_peers-Keeps :
      (address : Address) (l : List (Option Entry)) → Keeps IsGood (insert_peers address l)
  unfolding insert_peers IsGood
  insert_peers-Keeps address [] = Keeps-pure tt
  insert_peers-Keeps address (none ∷ rest) = Keeps-lift panic
  insert_peers-Keeps address (some e ∷ rest) =
      let later = insert_peers-Keeps address rest in
      Keeps-if (equals e.address address) later (
        Keeps-attempt (Keeps-lift (checked_entry e))
          (λ _.
            Keeps-bind
              (Keeps-within {P = IsDb} {Q = λ s. IsDb s.0} (λ s. s.0) (λ db s. (db, s.1))
                from_database (insert env e) (λ s h. h) (λ db s h _. h)
                (record { at = insert-IsDb env e }))
              λ _. later)
          (λ _. later))

  -- However `Bootstrap` ends, with an error or a panic too, the connection is closed afterwards
  -- and a table that was well formed still is, whatever entries the peer sent.
  pub bootstrap-IsDb :
      (address : Address) (db : NetDb S) (conn : Conn)
      → IsDb db
      → let (_, (db', conn')) = bootstrap address (db, conn) in IsDb db' × (conn'.closed ≡ true)
  unfolding bootstrap IsGood
  bootstrap-IsDb address db conn h = (
    (Keeps-bind {P = IsGood} {m = on_conn (find_closest party packing address)}
          (record { at = λ s g. g }) (insert_peers-Keeps address)).at
        (db, conn) h,
    refl,
  )
