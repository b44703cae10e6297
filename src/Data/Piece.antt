-- ===== src/Data/Piece.antt =====
-- data/piece.go. SHA3-256 is a parameter: a `hash.Hash` is the bytes written to it, and `Sum`
-- depends on them alone.
use dfi.Prelude.{ℕ, Bool, true, false, List, [], ◌∷◌, ◌++◌, length, ltb, if◌then◌else◌}
use dfi.Prelude.Outcome.{ok, err}
use dfi.Prelude.Action.{Action}
use dfi.Data.Post.{Post, Bytes, bytes}

abbrev pub piece_size : ℕ
piece_size = 1000

pub record Piece : Type 0 where
  pub id : ℕ
  pub posts : List Post
  pub hash : Bytes

pub data PieceError : Type 0 where
  piece_full : PieceError

-- `data.Piece{}` after `Setup`.
abbrev pub setup : ℕ → Piece
setup id = record { id = id; posts = []; hash = [] }

-- The text that stands for a post in a hash.
abbrev pub hashed : Post → Bytes
hashed = bytes (124 ∷ []) [] false

unfoldable pub add : Post → Bool → Action Piece PieceError (Unit {0})
add post store p = if ltb piece_size (length p.posts) then (err piece_full, p) else (
  ok tt,
  record p {
    posts = if store then p.posts ++ post ∷ [] else p.posts;
    hash = p.hash ++ hashed post;
  },
)

-- Calls of `Add` whose errors are ignored.
abbrev pub add_all : List Post → Piece → Piece
add_all [] p = p
add_all (post ∷ posts) p = add_all posts (add post true p).1

unfoldable pub hash_of : (Bytes → Bytes) → Piece → Bytes
hash_of sha3 p = sha3 p.hash

-- The loop of `Rehash`.
unfoldable pub rewrite_posts : List Post → Bytes → Bytes
rewrite_posts [] hash = hash
rewrite_posts (post ∷ posts) hash = rewrite_posts posts (hash ++ hashed post)

-- `Rehash`: the hash, and the piece afterwards.
unfoldable pub rehash : (Bytes → Bytes) → Piece → Bytes × Piece
unfolding rewrite_posts
rehash sha3 p = let hash = rewrite_posts p.posts [] in (sha3 hash, record p { hash = hash })
