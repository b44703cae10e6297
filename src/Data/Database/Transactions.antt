-- ===== src/Data/Database/Transactions.antt =====
-- `InsertPieces` of data/database.go, over the transactions of the database. The channel is the list
-- of what is received from it until it is closed, and a nil ends it too.
use dfi.Prelude.{ℕ, ◌+◌, ◌==◌, Bool, true, false, Option, none, some, List, [], ◌∷◌, if◌then◌else◌}
use dfi.Prelude.Outcome.{Outcome, ok, err, panic}
use dfi.Prelude.Action.{Action, pure, lift, attempt, continue, ◌>>◌}
use dfi.Data.Post.{Post}
use dfi.Data.Piece.{Piece}
use dfi.Data.Database.{QueryError}

-- The calls of a database and of its transaction, on the state of both.
pub record TxSql (D : Type 0) : Type 0 where
  pub begin : Action D QueryError (Unit {0})
  pub exec_post : Post → Action D QueryError (Unit {0})
  pub commit : Action D QueryError (Unit {0})
  pub rollback : Action D QueryError (Unit {0})
  pub generate_fts : ℕ → Action D QueryError (Unit {0})
  pub post_count : D → ℕ

-- `tx` is nil after a `Begin` that failed.
pub record Inserting (D : Type 0) : Type 0 where
  pub db : D
  pub tx : Bool

module _ {D : Type 0} (sql : TxSql D) where
  open sql use {begin, exec_post, commit, rollback, generate_fts, post_count}

  abbrev pub Insert : Type 0 → Type 0
  Insert = Action (Inserting D) QueryError

  -- A call on the database.
  abbrev pub on_db : {A : Type 0} → Action D QueryError A → Insert A
  on_db m s = let (o, db) = m s.db in (o, record s { db = db })

  abbrev pub begun : Outcome QueryError (Unit {0}) → Bool
  begun (ok _) = true
  begun (err _) = false
  begun panic = false

  abbrev pub begin_tx : Insert (Unit {0})
  begin_tx s = let (o, db) = begin s.db in (o, record { db = db; tx = begun o })

  unfoldable pub exec_posts : List Post → Insert (Unit {0})
  exec_posts [] = pure tt
  exec_posts (p ∷ ps) = on_db (exec_post p) >> exec_posts ps

  -- The loop over the channel, with the number of pieces in the transaction. It gives whether the
  -- channel was closed.
  unfoldable pub receive_pieces : ℕ → List (Option Piece) → Insert Bool
  unfolding exec_posts
  receive_pieces n [] = pure true
  receive_pieces n (none ∷ rest) = pure false
  receive_pieces n (some p ∷ rest) =
      let first = exec_posts p.posts >> receive_pieces 1 rest in
      let next = exec_posts p.posts >> receive_pieces (n + 1) rest in
      if n == 99 then (on_db commit >> begin_tx >> first) else next

  -- The deferred function: what it returns takes the place of the error of the loop. A channel that
  -- is closed already cannot be closed again, and a nil transaction cannot be committed.
  abbrev pub finish : ℕ → Bool → Insert (Unit {0})
  finish start closed s =
      if s.tx
      then (do
        attempt (on_db commit) pure (λ _. attempt (on_db rollback) pure (λ _. pure tt))
        attempt (on_db (generate_fts start)) (λ _. if closed then lift panic else pure tt)
            (λ e. if closed then lift panic else lift (err e)))
          s
      else (panic, s)

  unfoldable pub insert_pieces : List (Option Piece) → Insert (Unit {0})
  unfolding receive_pieces
  insert_pieces pieces s =
      continue (begin_tx s).0
        (λ _.
          attempt (receive_pieces 0 pieces) (finish (post_count (begin_tx s).1.db))
            (λ _. finish (post_count (begin_tx s).1.db) false))
        (begin_tx s).1
