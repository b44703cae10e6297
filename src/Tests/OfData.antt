-- ===== src/Tests/OfData.antt =====
-- Posts, pieces and collections.
use dfi.Prelude.{
  ◌≡◌, ◌<◌, refl, sym, bytes_eq, Bool, if◌then◌else◌, arith, true, false, none, some, List, [], ◌∷◌,
  ◌++◌, concat, map, length-replicate, replicate, ◌⊎◌,
}
use dfi.Prelude.Int.{pos, negsuc}
use dfi.Prelude.Outcome.{ok, err, panic}
use dfi.Data.Database.Transactions.{TxSql, insert_pieces}
use mathlib.Core.List.{append_assoc}
use dfi.Data.Database.Committed
use dfi.Data.Database.Committed.{
  has_hash, columns, IsTransactional, posts_of, insert_pieces-posts_of,
}
use dfi.Data.Post.{Post}
use dfi.Data.Piece.{Piece, setup, add_all, rehash, hash_of, piece_full, hashed, piece_size}
use dfi.Data.Piece
use dfi.Data.Hashing.{rehash-add_all, add-full, hash_of-seeders}
use dfi.Data.Reader.{read_pieces, send_posts}
use dfi.Data.RoundTrip.{IsSendable, read_pieces-send_posts}
use dfi.Data.Database.{query_piece, query_piece_posts}
use dfi.Data.Database.Pages.{read_pieces-query_piece_posts}
use dfi.Tests.Nodes.{post_sql, post_sql-IsPaged}
use dfi.Data.Collection.{Collection, Buffer, contents, save, load_collection, hash}
use dfi.Data.Collection
use dfi.Data.Hashes.{rehash-root_hash, load_collection-save, add-lost}

abbrev post : Post
post = record {
  id = pos 3;
  info_hash = 97 ∷ [];
  title = 98 ∷ 99 ∷ [];
  size = pos 12;
  file_count = pos 1;
  seeders = pos 4;
  leechers = negsuc 0;
  upload_date = pos 77;
  tags = [];
  meta = 100 ∷ [];
}

post-IsSendable : IsSendable post
post-IsSendable = record {
  id = omega arith;
  not_last = λ e. cc;
  info_hash = (omega arith, tt);
  title = (omega arith, (omega arith, tt));
  size = omega arith;
  file_count = omega arith;
  seeders = omega arith;
  leechers = omega arith;
  upload_date = omega arith;
  tags = tt;
  meta = (omega arith, tt);
}

read_pieces-send_posts_case :
    (p : Piece) × (read_pieces 1
        (record { input = send_posts (post ∷ post ∷ []) ++ 33 ∷ []; failed = false })
      ≡ p ∷ [])
    × (p.posts ≡ post ∷ post ∷ [])
    × (p.hash ≡ concat (map hashed (post ∷ post ∷ [])))
read_pieces-send_posts_case =
    read_pieces-send_posts (post ∷ post ∷ []) (33 ∷ []) (omega arith)
      (post-IsSendable, (post-IsSendable, tt))

rehash-add_all_case :
    rehash (λ bs. bs) (add_all (post ∷ []) (setup 4))
    ≡ (hash_of (λ bs. bs) (add_all (post ∷ []) (setup 4)), add_all (post ∷ []) (setup 4))
rehash-add_all_case = rehash-add_all (λ bs. bs) 4 (post ∷ [])

add_full_case :
    ((add_all (replicate 1001 post) (setup 4)).posts ≡ replicate 1001 post)
    × (Piece.add post true (add_all (replicate 1001 post) (setup 4))
        ≡ (err piece_full, add_all (replicate 1001 post) (setup 4)))
add_full_case = add-full (replicate 1001 post) post 4 (length-replicate 1001 post)

hash_of_seeders_case :
    hash_of
      (λ bs. bs)
      (Piece.add (record post { seeders = pos 8; leechers = pos 9 }) false (setup 4)).1
    ≡ hash_of (λ bs. bs) (Piece.add post false (setup 4)).1
hash_of_seeders_case = hash_of-seeders (λ bs. bs) post (pos 8) (pos 9) false (setup 4)

abbrev one_hash : Collection
one_hash = record {
  pieces = [];
  hash_list = record { array = replicate 64 6; len = 32 };
  root_hash = replicate 32 6;
}

one_hash_rehashed : hash (λ bs. bs) (Collection.rehash one_hash) ≡ replicate 32 6
one_hash_rehashed = rehash-root_hash (λ bs. bs) one_hash (omega arith) refl

load_collection-save_example :
    (d : Collection) × (load_collection (ok (save one_hash)) ≡ ok d)
    × (save d ≡ save one_hash)
    × (hash (λ bs. bs) d ≡ save one_hash)
load_collection-save_example = load_collection-save (λ bs. bs) one_hash (omega arith) refl

add-lost_case :
    ((Collection.add (λ n. n) (λ bs. replicate 32 1) (setup 1) one_hash ≡ panic) × (64 < 64))
    ⊎ ((d : Collection) × (Collection.add (λ n. n) (λ bs. replicate 32 1) (setup 1) one_hash ≡ ok d)
        × (contents d.hash_list ≡ replicate 32 6)
        × (d.root_hash ≡ replicate 32 6 ++ hash_of (λ bs. replicate 32 1) (setup 1)))
add-lost_case =
    add-lost (λ n. n) (λ bs. replicate 32 1) (setup 1) one_hash refl (omega arith) (omega arith)

abbrev stored : Post
stored = record post { id = pos 1 }

read_pieces-query_piece_posts_example :
    (p : Piece) × (q : Piece) × (query_piece post_sql 0 true (stored ∷ []) ≡ ok p)
    × (read_pieces 1 (record {
      input = send_posts (query_piece_posts post_sql (pos 0) (pos 1) (stored ∷ [])) ++ [];
      failed = false;
    })
        ≡ q ∷ [])
    × (p.posts ≡ stored ∷ [])
    × (q.posts ≡ p.posts)
    × (q.hash ≡ p.hash)
read_pieces-query_piece_posts_example =
    read_pieces-query_piece_posts post_sql (stored ∷ []) (stored ∷ [])
      (post_sql-IsPaged (stored ∷ [])) 0 [] (omega arith) (omega arith) (stored-IsSendable, tt)
  where
    stored-IsSendable : IsSendable stored
    stored-IsSendable = record {
      id = omega arith;
      not_last = λ e. cc;
      info_hash = post-IsSendable.info_hash;
      title = post-IsSendable.title;
      size = post-IsSendable.size;
      file_count = post-IsSendable.file_count;
      seeders = post-IsSendable.seeders;
      leechers = post-IsSendable.leechers;
      upload_date = post-IsSendable.upload_date;
      tags = post-IsSendable.tags;
      meta = post-IsSendable.meta;
    }

-- A database that holds what is committed and what is pending, with unique info hashes.
abbrev with_post : Bool → Post → List Post × List Post → List Post × List Post
with_post there p db = if there then db else (db.0, db.1 ++ columns p ∷ [])

abbrev tx_sql : TxSql (List Post × List Post)
tx_sql = record {
  begin = λ db. (ok tt, db);
  exec_post = λ p db. (ok tt, with_post (has_hash bytes_eq p.info_hash (db.0 ++ db.1)) p db);
  commit = λ db. (ok tt, (db.0 ++ db.1, []));
  rollback = λ db. (ok tt, (db.0, []));
  generate_fts = λ n db. (ok tt, db);
  post_count = λ db. 0;
}

exec_post_with :
    (there : Bool) (p : Post) (db : List Post × List Post)
    → ((with_post there p db).0 ≡ db.0)
      × ((with_post there p db).0 ++ (with_post there p db).1
          ≡ (if there then db.0 ++ db.1 else (db.0 ++ db.1) ++ columns p ∷ []))
exec_post_with true p db = (refl, refl)
exec_post_with false p db = (refl, sym (append_assoc db.0 db.1 (columns p ∷ [])))

tx_sql-IsTransactional : IsTransactional tx_sql bytes_eq (λ db. db.0) (λ db. db.1)
tx_sql-IsTransactional = record {
  at_begin = λ db. (refl, refl, refl);
  at_exec = λ p db.
      let (kept, added) = exec_post_with (has_hash bytes_eq p.info_hash (db.0 ++ db.1)) p db in
      (refl, kept, added);
  at_commit = λ db. (refl, refl, refl);
  at_fts = λ n db. (refl, refl);
}

-- More pieces than a transaction takes.
abbrev many_pieces : List Piece
many_pieces = replicate 150 (record (setup 4) { posts = post ∷ post ∷ [] })

insert_pieces-posts_of_example :
    let (o, s) =
      insert_pieces tx_sql
        (map some many_pieces ++ none ∷ [])
        (record { db = ([], []); tx = false }) in
    (o ≡ ok tt) × (s.db.0 ≡ Committed.stored bytes_eq ([] ++ []) (posts_of many_pieces))
insert_pieces-posts_of_example =
    insert_pieces-posts_of tx_sql bytes_eq (λ db. db.0) (λ db. db.1) tx_sql-IsTransactional ([], [])
      false many_pieces []
