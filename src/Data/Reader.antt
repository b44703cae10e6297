-- ===== src/Data/Reader.antt =====
-- data/errors.go and the reader of pieces in proto/client.go: posts read from a stream up to the
-- post that `HandlePiece` of localpeerhandlers.go ends with. The stream is what the decompression
-- gives.
use dfi.Prelude.{
  ℕ, zero, suc, Bool, true, false, Option, none, some, List, [], ◌∷◌, ◌++◌, map, concat, ◌==◌,
  if◌then◌else◌,
}
use dfi.Prelude.Int.{ℤ, pos, negsuc}
use dfi.Text.Decimal.{atoi}
use dfi.Data.Post.{Post, Bytes, write}
use dfi.Data.Piece.{Piece, piece_size, setup, add}

-- What is left of the stream, and whether `Err` is set.
pub record ErrorReader : Type 0 where
  pub input : Bytes
  pub failed : Bool

-- The text before a delimiter and what follows it.
unfoldable pub cut : ℕ → Bytes → Option (Bytes × Bytes)
cut delim [] = none
cut delim (c ∷ cs) =
    let rest = cut delim cs in
    if c == delim then some ([], cs) else elim rest [ none ↦ none | some (a, b) ↦ some (c ∷ a, b) ]

-- `ReadString`. At the end of the stream all of it is read, and lost.
abbrev pub read_result : Option (Bytes × Bytes) → Bytes × ErrorReader
read_result none = ([], record { input = []; failed = true })
read_result (some (text, rest)) = (text, record { input = rest; failed = false })

unfoldable pub read_string : ℕ → ErrorReader → Bytes × ErrorReader
unfolding cut
read_string delim r = read_result (cut delim r.input)

-- `convert`
unfoldable pub convert : Bytes → ℤ
unfolding atoi
convert val = elim (atoi val) [ none ↦ pos 0 | some z ↦ z ]

pub data PostRead : Type 0 where
  last : ErrorReader → PostRead
  broken : ErrorReader → PostRead
  got : Post → ErrorReader → PostRead

abbrev pub bar : ℕ
bar = 124

-- The fields behind the id.
unfoldable pub read_fields : ℤ → ErrorReader → PostRead
unfolding read_string convert
read_fields id r0 =
    let (ih, r1) = read_string bar r0 in
    let (title, r2) = read_string bar r1 in
    let (size, r3) = read_string bar r2 in
    let (file_count, r4) = read_string bar r3 in
    let (seeders, r5) = read_string bar r4 in
    let (leechers, r6) = read_string bar r5 in
    let (upload_date, r7) = read_string bar r6 in
    let (tags, r8) = read_string bar r7 in
    let (meta, r9) = read_string bar r8 in
    if r9.failed
    then broken r9
    else got
        (record {
          id = id;
          info_hash = ih;
          title = title;
          size = convert size;
          file_count = convert file_count;
          seeders = convert seeders;
          leechers = convert leechers;
          upload_date = convert upload_date;
          tags = tags;
          meta = meta;
        })
        r9

-- `id == -1`
abbrev pub is_last : ℤ → Bool
is_last (pos n) = false
is_last (negsuc n) = n == 0

-- A round of the loop over the posts of a piece, but for `Add`.
unfoldable pub read_post : ErrorReader → PostRead
unfolding read_fields
read_post r0 =
    let (id_s, r1) = read_string bar r0 in
    let id = convert id_s in if is_last id then last r1 else read_fields id r1

-- The loop, with the rounds that are left before the piece has its 1000 posts.
unfoldable pub read_posts : ℕ → ErrorReader → Piece → Piece × ErrorReader
unfolding read_post
read_posts zero r p = (p, r)
read_posts (suc n) r p = elim (read_post r) [
  | last r' ↦ (p, r')
  | broken r' ↦ (p, r')
  | got post r' ↦ read_posts n r' (add post true p).1
]

-- The outer loop of `Pieces`: the pieces it sends to its channel.
unfoldable pub read_pieces : ℕ → ErrorReader → List Piece
unfolding read_posts
read_pieces zero r = []
read_pieces (suc length) r =
    let (p, r') = read_posts piece_size r (setup 0) in p ∷ read_pieces length r'

-- `&data.Post{Id: -1}`
abbrev pub last_post : Post
last_post = record {
  id = negsuc 0;
  info_hash = [];
  title = [];
  size = pos 0;
  file_count = pos 0;
  seeders = pos 0;
  leechers = pos 0;
  upload_date = pos 0;
  tags = [];
  meta = [];
}

-- What `HandlePiece` writes for the posts of a query.
unfoldable pub send_posts : List Post → Bytes
unfolding write
send_posts posts =
    concat (map (write (bar ∷ []) [] true) posts) ++ write (bar ∷ []) [] true last_post
