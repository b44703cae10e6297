-- ===== src/Data/Database/Committed.antt =====
-- What `InsertPieces` commits.
use mathlib.Core.List.{append-nil}
use dfi.Prelude.{
  ℕ, ◌+◌, ◌==◌, ◌≡◌, refl, sym, ap, ◌∙◌, Bool, true, false, Option, none, some, List, [], ◌∷◌, ◌++◌,
  subst, Bool-cases, inl, inr, concat, map, ◌||◌, if◌then◌else◌,
}
use dfi.Prelude.Int.{pos}
use dfi.Prelude.Outcome.{ok}
use dfi.Prelude.Action.{continue, ◌>>=◌, ◌>>◌}
use dfi.Data.Post.{Post, Bytes}
use dfi.Data.Piece.{Piece}
use dfi.Data.Database.Transactions.{
  TxSql, Inserting, Insert, on_db, begin_tx, exec_posts, receive_pieces, finish, insert_pieces,
}

abbrev pub posts_of : List Piece → List Post
posts_of ps = concat (map (λ p. p.posts) ps)

-- `INSERT OR IGNORE` of a post into a table with a unique info hash, where the database decides which
-- values of that column are the same.
unfoldable pub has_hash : (Bytes → Bytes → Bool) → Bytes → List Post → Bool
has_hash same info_hash [] = false
has_hash same info_hash (q ∷ rows) = same q.info_hash info_hash || has_hash same info_hash rows

-- What is inserted of a post: its id is the database's.
abbrev pub columns : Post → Post
columns p = record p { id = pos 0 }

abbrev pub or_ignore : (Bytes → Bytes → Bool) → List Post → Post → List Post
or_ignore same rows p = if has_hash same p.info_hash rows then rows else rows ++ columns p ∷ []

unfoldable pub stored : (Bytes → Bytes → Bool) → List Post → List Post → List Post
stored same rows [] = rows
stored same rows (p ∷ ps) = stored same (or_ignore same rows p) ps

stored-append :
    (same : Bytes → Bytes → Bool) (rows xs ys : List Post)
    → stored same rows (xs ++ ys) ≡ stored same (stored same rows xs) ys
unfolding stored
stored-append same rows [] ys = refl
stored-append same rows (p ∷ xs) ys = stored-append same (or_ignore same rows p) xs ys

-- What transactions are for: what is written is pending until it is committed, and no call fails.
pub record IsTransactional {D : Type 0} (sql : TxSql D) (same : Bytes → Bytes → Bool)
    (committed pending : D → List Post) : Type 0 where
  pub at_begin :
      (db : D)
      → ((sql.begin db).0 ≡ ok tt)
        × (committed (sql.begin db).1 ≡ committed db)
        × (pending (sql.begin db).1 ≡ pending db)
  pub at_exec :
      (p : Post) (db : D)
      → ((sql.exec_post p db).0 ≡ ok tt)
        × (committed (sql.exec_post p db).1 ≡ committed db)
        × (committed (sql.exec_post p db).1 ++ pending (sql.exec_post p db).1
            ≡ or_ignore same (committed db ++ pending db) p)
  pub at_commit :
      (db : D)
      → ((sql.commit db).0 ≡ ok tt)
        × (committed (sql.commit db).1 ≡ committed db ++ pending db)
        × (pending (sql.commit db).1 ≡ [])
  pub at_fts :
      (n : ℕ) (db : D)
      → ((sql.generate_fts n db).0 ≡ ok tt) × (committed (sql.generate_fts n db).1 ≡ committed db)

module _ {D : Type 0} (sql : TxSql D) (same : Bytes → Bytes → Bool)
    (committed pending : D → List Post) (sound : IsTransactional sql same committed pending) where
  abbrev all : D → List Post
  all db = committed db ++ pending db

  -- `m` returns `a` in an open transaction, leaves one open and adds posts.
  record Adds {A : Type 0} (m : Insert sql A) (a : A) (added : List Post) : Type 0 where
    at :
        (s : Inserting D)
        → s.tx ≡ true
        → ((m s).0 ≡ ok a) × ((m s).1.tx ≡ true) × (all (m s).1.db ≡ stored same (all s.db) added)

  Adds-bind :
      {A B : Type 0} (m : Insert sql A) (f : A → Insert sql B) (a : A) (b : B) (xs ys : List Post)
      → Adds m a xs
      → Adds (f a) b ys
      → Adds (m >>= f) b (xs ++ ys)
  Adds-bind m f a b xs ys k l = record {
    at = λ s open_tx.
        let (returned, still, added) = k.at s open_tx in
        let (returned', still', added') = l.at (m s).1 still in
        let whole : all (f a (m s).1).1.db ≡ stored same (all s.db) (xs ++ ys) =
          added' ∙ ap (λ l. stored same l ys) added ∙ sym (stored-append same (all s.db) xs ys) in
        subst
          (λ o.
            ((continue o f (m s).1).0 ≡ ok b)
            × ((continue o f (m s).1).1.tx ≡ true)
            × (all (continue o f (m s).1).1.db ≡ stored same (all s.db) (xs ++ ys)))
          (sym returned) (returned', still', whole);
  }

  exec-Adds : (p : Post) → Adds (on_db sql (sql.exec_post p)) tt (p ∷ [])
  unfolding stored
  exec-Adds p = record {
    at = λ s open_tx.
        let (returned, kept, written) = sound.at_exec p s.db in (returned, open_tx, written);
  }

  commit-Adds : Adds (on_db sql sql.commit) tt []
  unfolding stored
  commit-Adds = record {
    at = λ s open_tx.
        let (returned, kept, emptied) = sound.at_commit s.db in
        (returned, open_tx, rw (kept, emptied) (append-nil (all s.db)));
  }

  begin-Adds : Adds (begin_tx sql) tt []
  unfolding stored
  begin-Adds = record {
    at = λ s open_tx.
        let (returned, kept, unchanged) = sound.at_begin s.db in
        (returned, rw returned refl, rw (kept, unchanged) refl);
  }

  exec_posts-Adds : (ps : List Post) → Adds (exec_posts sql ps) tt ps
  unfolding exec_posts stored
  exec_posts-Adds [] = record { at = λ s open_tx. (refl, open_tx, refl) }
  exec_posts-Adds (p ∷ ps) =
      Adds-bind (on_db sql (sql.exec_post p)) (λ _. exec_posts sql ps) tt tt (p ∷ []) ps
        (exec-Adds p) (exec_posts-Adds ps)

  receive_pieces-Adds :
      (n : ℕ) (ps : List Piece) (rest : List (Option Piece))
      → Adds (receive_pieces sql n (map some ps ++ none ∷ rest)) false (posts_of ps)
  unfolding receive_pieces stored
  receive_pieces-Adds n [] rest = record { at = λ s open_tx. (refl, open_tx, refl) }
  receive_pieces-Adds n (p ∷ ps) rest =
      let executed = exec_posts-Adds p.posts in
      let after : (k : ℕ)
          → Adds (exec_posts sql p.posts >> receive_pieces sql k (map some ps ++ none ∷ rest)) false
              (posts_of (p ∷ ps)) =
        λ k.
          Adds-bind (exec_posts sql p.posts)
            (λ _. receive_pieces sql k (map some ps ++ none ∷ rest)) tt false p.posts (posts_of ps)
            executed (receive_pieces-Adds k ps rest) in
      elim (Bool-cases (n == 99)) [
        | inl full ↦ rw full (
            Adds-bind (on_db sql sql.commit >> begin_tx sql)
              (λ _. exec_posts sql p.posts >> receive_pieces sql 1 (map some ps ++ none ∷ rest)) tt
              false [] (posts_of (p ∷ ps))
              (Adds-bind (on_db sql sql.commit) (λ _. begin_tx sql) tt tt [] [] commit-Adds
                begin-Adds)
              (after 1))
        | inr room ↦ rw room (after (n + 1))
      ]

  finish-committed :
      (start : ℕ) (s : Inserting D)
      → s.tx ≡ true
      → ((finish sql start false s).0 ≡ ok tt)
        × (committed (finish sql start false s).1.db ≡ all s.db)
  finish-committed start s open_tx =
      let (returned, kept, _) = sound.at_commit s.db in
      let (indexed, still) = sound.at_fts start (sql.commit s.db).1 in
      rw (open_tx, returned, indexed) (refl, still ∙ kept)

  -- When no call of the database fails and the channel ends with a nil, however many pieces come
  -- before it and whatever is behind it: `InsertPieces` returns without an error, and has committed
  -- the posts of all of the pieces in their order, over as many transactions as it takes, but for
  -- those whose info hash was there before: `INSERT OR IGNORE` passes over them. The ids are left out.
  pub insert_pieces-posts_of :
      (db : D) (tx : Bool) (ps : List Piece) (rest : List (Option Piece))
      → let (o, s) = insert_pieces sql (map some ps ++ none ∷ rest) (record { db = db; tx = tx }) in
        (o ≡ ok tt) × (committed s.db ≡ stored same (committed db ++ pending db) (posts_of ps))
  unfolding insert_pieces
  insert_pieces-posts_of db tx ps rest =
      let (returned, kept, unchanged) = sound.at_begin db in
      let s : Inserting D = record { db = (sql.begin db).1; tx = true } in
      let (read, still, added) = (receive_pieces-Adds 0 ps rest).at s refl in
      let (done, all_in) =
        finish-committed (sql.post_count s.db)
          (receive_pieces sql 0 (map some ps ++ none ∷ rest) s).1 still in
      let before : stored same (all s.db) (posts_of ps)
          ≡ stored same (committed db ++ pending db) (posts_of ps) =
        rw (kept, unchanged) refl in
      rw (returned, read) (done, all_in ∙ added ∙ before)
