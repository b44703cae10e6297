-- ===== src/Data/Database.antt =====
-- data/database.go: the queries of posts. SQLite is a parameter: each statement of data/sql.go is an
-- operation on a state that only it reads, and a query of several rows gives what each `Scan` comes
-- to.
pub mod Pages
pub mod Transactions
pub mod Committed
use dfi.Prelude.{ℕ, zero, suc, ◌+◌, ◌*◌, ◌%◌, ◌^◌, Bool, true, false, List, [], ◌∷◌, ◌++◌, length}
use dfi.Prelude.Int.{ℤ, pos, negsuc, int_add, int_mul}
use dfi.Prelude.Outcome.{Outcome, ok, err, panic, ◌>>=◌}
use dfi.Data.Post.{Post, Bytes}
use dfi.Data.Piece.{Piece, piece_size, setup, add}

pub data QueryError : Type 0 where
  query_failed scan_failed : QueryError

abbrev pub Rows : Type 0 → Type 0
Rows A = Outcome QueryError (List (Outcome QueryError A))

pub data Listing : Type 0 where
  recent_posts popular_posts paged_posts : Listing

-- The prepared statements. The numbers after the listing are the offset and the limit.
pub record PostSql (D : Type 0) : Type 0 where
  pub query_page : Listing → ℤ → ℤ → D → Rows Post
  pub search_post : Bytes → ℤ → ℤ → D → Rows ℕ
  pub query_post_id : ℕ → D → Rows Post
  pub suggest_posts : Bytes → ℕ → D → Rows Bytes
  pub insert_post : Post → D → Outcome QueryError (Outcome QueryError ℤ) × D
  pub update_seeders : ℕ → ℕ → D → Outcome QueryError (Unit {0}) × D
  pub update_leechers : ℕ → ℕ → D → Outcome QueryError (Unit {0}) × D
  pub attach_meta : Bytes → ℤ → D → Outcome QueryError (Unit {0}) × D
  pub generate_fts : ℤ → D → Outcome QueryError (Unit {0}) × D

abbrev pub page_length : ℤ
page_length = pos 25

-- A loop over rows that ends with the first row that cannot be read.
unfoldable pub scan : {A : Type 0} → List (Outcome QueryError A) → Outcome QueryError (List A)
scan [] = ok []
scan (row ∷ rows) = do a ← row; rest ← scan rows; ok (a ∷ rest)

-- The variable that each row is read into, and that is as declared without a row.
unfoldable pub scan_last : Post → List (Outcome QueryError Post) → Outcome QueryError Post
scan_last post [] = ok post
scan_last post (row ∷ rows) = do p ← row; scan_last p rows

-- `data.Post{}`
abbrev pub no_post : Post
no_post = record {
  id = pos 0;
  info_hash = [];
  title = [];
  size = pos 0;
  file_count = pos 0;
  seeders = pos 0;
  leechers = pos 0;
  upload_date = pos 0;
  tags = [];
  meta = [];
}

-- The posts that are sent before a row cannot be read.
unfoldable pub sent_rows : List (Outcome QueryError Post) → List Post
sent_rows [] = []
sent_rows (ok p ∷ rows) = p ∷ sent_rows rows
sent_rows (err e ∷ rows) = []
sent_rows (panic ∷ rows) = []

abbrev pub sent_posts : Rows Post → List Post
sent_posts (ok rows) = sent_rows rows
sent_posts (err e) = []
sent_posts panic = []

-- The loop of `QueryPiece`, which ignores the error of `Add`.
unfoldable pub add_rows : Bool → Piece → List (Outcome QueryError Post) → Outcome QueryError Piece
add_rows store p [] = ok p
add_rows store p (row ∷ rows) = do post ← row; add_rows store (add post store p).1 rows

module _ {D : Type 0} (sql : PostSql D) where
  unfoldable pub paginated_query : Listing → ℤ → D → Outcome QueryError (List Post)
  unfolding scan
  paginated_query listing page db = do
    rows ← sql.query_page listing (int_mul page_length page) page_length db
    scan rows

  unfoldable pub query_recent : ℤ → D → Outcome QueryError (List Post)
  unfolding paginated_query
  query_recent page db = paginated_query recent_posts page db

  unfoldable pub query_popular : ℤ → D → Outcome QueryError (List Post)
  unfolding paginated_query
  query_popular page db = paginated_query popular_posts page db

  unfoldable pub query_post_id : ℕ → D → Outcome QueryError Post
  unfolding scan_last
  query_post_id id db = do rows ← sql.query_post_id id db; scan_last no_post rows

  -- The loop of `Search` over the rows of ids.
  unfoldable pub query_results : List (Outcome QueryError ℕ) → D → Outcome QueryError (List Post)
  unfolding query_post_id
  query_results [] db = ok []
  query_results (row ∷ rows) db = do
    result ← row
    post ← query_post_id result db
    rest ← query_results rows db
    ok (post ∷ rest)

  unfoldable pub search : Bytes → ℤ → ℤ → D → Outcome QueryError (List Post)
  unfolding query_results
  search query page page_size db = do
    rows ← sql.search_post query (int_mul page page_size) page_size db
    query_results rows db

  unfoldable pub query_piece : ℕ → Bool → D → Outcome QueryError Piece
  unfolding add_rows
  query_piece id store db = do
    rows ← sql.query_page paged_posts (pos (id * piece_size % 2 ^ 64)) (pos piece_size) db
    add_rows store (setup id) rows

  -- `QueryPiecePosts`: what comes through the channel, which is closed at its end.
  unfoldable pub query_piece_posts : ℤ → ℤ → D → List Post
  unfolding sent_rows
  query_piece_posts start length db = sent_posts (
      sql.query_page paged_posts (int_mul start (pos piece_size))
        (int_add start (int_mul (pos piece_size) length)) db)

  -- `InsertPost`, for which an id that cannot be read is no error.
  abbrev pub inserted_id : Outcome QueryError (Outcome QueryError ℤ) → Outcome QueryError ℤ
  inserted_id (ok (ok id)) = ok id
  inserted_id (ok (err e)) = ok (pos 0)
  inserted_id (ok panic) = panic
  inserted_id (err e) = err e
  inserted_id panic = panic

  unfoldable pub insert_post : Post → D → Outcome QueryError ℤ × D
  insert_post post db = let (o, db') = sql.insert_post post db in (inserted_id o, db')

  abbrev pub generate_fts : ℤ → D → Outcome QueryError (Unit {0}) × D
  generate_fts since db = sql.generate_fts since db

  abbrev pub add_meta : ℤ → Bytes → D → Outcome QueryError (Unit {0}) × D
  add_meta pid value db = sql.attach_meta value pid db

  abbrev pub set_seeders : ℕ → ℕ → D → Outcome QueryError (Unit {0}) × D
  set_seeders id seeders db = sql.update_seeders seeders id db

  abbrev pub set_leechers : ℕ → ℕ → D → Outcome QueryError (Unit {0}) × D
  set_leechers id leechers db = sql.update_leechers leechers id db

  unfoldable pub suggest : Bytes → D → Outcome QueryError (List Bytes)
  unfolding scan
  suggest query db = do rows ← sql.suggest_posts query 5 db; scan rows
