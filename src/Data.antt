-- ===== src/Data.antt =====
-- The package data: posts, pieces of posts, the collection of the hashes of pieces, and the reader
-- of posts from a stream.
pub mod Post
pub mod Piece
pub mod Hashing
pub mod Reader
pub mod RoundTrip
pub mod Collection
pub mod Hashes
pub mod Database
