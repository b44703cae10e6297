-- ===== src/Data/Database/Pages.antt =====
-- Pieces of the posts that a database holds, and what a peer gets of them.
use dfi.Prelude.{
  ℕ, zero, suc, ◌+◌, ◌*◌, ◌%◌, ◌^◌, ◌<◌, ◌≤◌, ◌≡◌, refl, sym, ap, ◌∙◌, arith, true, false, List, [],
  ◌∷◌, ◌++◌, All, map, concat, length, length-take, take, drop, take-take, take-All,
}
use dfi.Prelude.Int.{pos, of_word, int_add, int_mul}
use dfi.Prelude.Outcome.{ok}
use dfi.Data.Post.{Post, Bytes}
use dfi.Data.Piece.{Piece, setup, add, add_all, hashed}
use dfi.Data.Hashing.{add_all-posts, add_all-IsHashed}
use dfi.Data.Reader.{send_posts, read_pieces}
use dfi.Data.RoundTrip.{IsSendable, read_pieces-one}
use dfi.Data.Database.{PostSql, paged_posts, sent_rows, add_rows, query_piece, query_piece_posts}

-- What the statement for pages documents of a database with these posts, whose ids count from 1
-- without gaps: the posts behind the id, at most so many.
pub record IsPaged {D : Type 0} (sql : PostSql D) (db : D) (posts : List Post) : Type 0 where
  pub page :
      (start limit : ℕ)
      → sql.query_page paged_posts (pos start) (pos limit) db
        ≡ ok (map ok (take limit (drop start posts)))

of_word-small : (n : ℕ) → n < 2 ^ 63 → of_word (n % 2 ^ 64) ≡ pos n
of_word-small n h = let same : n % 2 ^ 64 ≡ n = omega (arith, h) in rw same (ground (arith, h))

int_mul-small :
    (a b : ℕ) → a < 2 ^ 64 → b < 2 ^ 64 → a * b < 2 ^ 63 → int_mul (pos a) (pos b) ≡ pos (a * b)
int_mul-small a b p q h =
    let first : a % 2 ^ 64 ≡ a = omega (arith, p) in
    let second : b % 2 ^ 64 ≡ b = omega (arith, q) in rw (first, second) (of_word-small (a * b) h)

int_add-small : (a b : ℕ) → a + b < 2 ^ 63 → int_add (pos a) (pos b) ≡ pos (a + b)
int_add-small a b h =
    let first : a % 2 ^ 64 ≡ a = omega (arith, h) in
    let second : b % 2 ^ 64 ≡ b = omega (arith, h) in rw (first, second) (of_word-small (a + b) h)

sent_rows-ok : (posts : List Post) → sent_rows (map ok posts) ≡ posts
unfolding sent_rows
sent_rows-ok [] = refl
sent_rows-ok (p ∷ posts) = ap (λ l. p ∷ l) (sent_rows-ok posts)

add_rows-ok :
    (posts : List Post) (p : Piece) → add_rows true p (map ok posts) ≡ ok (add_all posts p)
unfolding add_rows
add_rows-ok [] p = refl
add_rows-ok (post ∷ posts) p = add_rows-ok posts (add post true p).1

drop-All {κ} : (P : Post → Type κ) (n : ℕ) (posts : List Post) → All P posts → All P (drop n posts)
drop-All P zero posts h = h
drop-All P (suc n) [] h = tt
drop-All P (suc n) (p ∷ posts) h = drop-All P n posts h.1

module _ {D : Type 0} (sql : PostSql D) (db : D) (posts : List Post)
    (paged : IsPaged sql db posts) where
  query_piece-page :
      (id : ℕ)
      → id * 1000 < 2 ^ 64
      → query_piece sql id true db ≡ ok (add_all (take 1000 (drop (id * 1000) posts)) (setup id))
  unfolding query_piece
  query_piece-page id h =
      let same : id * 1000 % 2 ^ 64 ≡ id * 1000 = omega (arith, h) in
      rw (same, paged.page (id * 1000) 1000)
        (add_rows-ok (take 1000 (drop (id * 1000) posts)) (setup id))

  query_piece_posts-page :
      (id n : ℕ)
      → id * 1000 < 2 ^ 63
      → id + 1000 * n < 2 ^ 63
      → query_piece_posts sql (pos id) (pos n) db ≡ take (id + 1000 * n) (drop (id * 1000) posts)
  unfolding query_piece_posts
  query_piece_posts-page id n h k =
      rw
        (
          int_mul-small id 1000 (omega (arith, h)) (omega arith) h,
          int_mul-small 1000 n (omega arith) (omega (arith, k)) (omega (arith, k)),
          int_add-small id (1000 * n) k,
          paged.page (id * 1000) (id + 1000 * n),
        )
        (sent_rows-ok (take (id + 1000 * n) (drop (id * 1000) posts)))

  -- A database holds posts with the ids from 1 on, without the bars and the id -1 that the stream
  -- uses. When a node asks for one piece by its number, what `QueryPiecePosts` and `HandlePiece`
  -- send is read by `Pieces` as one piece with the same posts and the same hash as the piece that
  -- `QueryPiece` makes of the database, although more rows than those of the piece are sent. It is
  -- asked that the numbers of the rows are below 2^63.
  pub read_pieces-query_piece_posts :
      (id : ℕ) (rest : Bytes)
      → id * 1000 < 2 ^ 63
      → id + 1000 < 2 ^ 63
      → All IsSendable posts
      → (p : Piece) × (q : Piece) × (query_piece sql id true db ≡ ok p)
        × (read_pieces 1 (record {
          input = send_posts (query_piece_posts sql (pos id) (pos 1) db) ++ rest;
          failed = false;
        })
            ≡ q ∷ [])
        × (p.posts ≡ take 1000 (drop (id * 1000) posts))
        × (q.posts ≡ p.posts)
        × (q.hash ≡ p.hash)
  read_pieces-query_piece_posts id rest h k s =
      let tail : List Post = drop (id * 1000) posts in
      let page : List Post = take 1000 tail in
      let shorter : take 1000 (take (id + 1000 * 1) tail) ≡ page =
        take-take 1000 (id + 1000 * 1) tail (omega arith) in
      let fits : 0 + length page ≤ 1001 = omega (arith, length-take 1000 tail) in
      let posts_of = λ (n : ℕ). add_all-posts page (setup n) fits in
      let hash_is = λ (n : ℕ).
        add_all-IsHashed page (setup n) refl ∙ ap (λ ps. concat (map hashed ps)) (posts_of n) in
      (
        add_all page (setup id),
        add_all page (setup 0),
        query_piece-page id (omega (arith, h)),
        ap (λ ps. read_pieces 1 (record { input = send_posts ps ++ rest; failed = false }))
              (query_piece_posts-page id 1 h (omega (arith, k)))
            ∙ read_pieces-one (take (id + 1000 * 1) tail) rest
                (take-All IsSendable (id + 1000 * 1) tail (drop-All IsSendable (id * 1000) posts s))
            ∙ ap (λ ps. add_all ps (setup 0) ∷ []) shorter,
        posts_of id,
        posts_of 0 ∙ sym (posts_of id),
        hash_is 0 ∙ sym (hash_is id),
      )
