-- ===== src/Data/RoundTrip.antt =====
-- Posts that are written to a stream are read back from it.
use mathlib.Core.List.{append_assoc}
use dfi.Prelude.{
  ℕ, zero, suc, ◌≤◌, ◌≡◌, ◌≢◌, refl, ap, ◌∙◌, arith, Bool, true, false, some, List, [], ◌∷◌, ◌++◌,
  All, All-of, concat, map, length, take, take_of_length-le, ◌==◌,
}
use dfi.Prelude.Int.{ℤ, pos, negsuc}
use dfi.Text.Decimal.{itoa, atoi-itoa, IsInt, digits-All}
use dfi.Data.Post.{Post, Bytes, write}
use dfi.Data.Piece.{Piece, piece_size, setup, add, add_all, hashed}
use dfi.Data.Hashing.{add_all-posts, add_all-IsHashed}
use dfi.Data.Reader.{
  ErrorReader, cut, read_string, convert, last, got, bar, read_fields, read_post, read_posts,
  read_pieces, last_post, send_posts, is_last,
}

-- A text that the reader does not cut.
abbrev pub IsField : Bytes → Type 0
IsField = All (λ c. c ≢ bar)

-- A post that the format can carry: no `|` in its texts, numbers of Go's `int`, and an id that
-- does not end the stream.
pub record IsSendable (p : Post) : Type 0 where
  pub id : IsInt p.id
  pub not_last : p.id ≢ negsuc 0
  pub info_hash : IsField p.info_hash
  pub title : IsField p.title
  pub size : IsInt p.size
  pub file_count : IsInt p.file_count
  pub seeders : IsInt p.seeders
  pub leechers : IsInt p.leechers
  pub upload_date : IsInt p.upload_date
  pub tags : IsField p.tags
  pub meta : IsField p.meta

abbrev reader : Bytes → ErrorReader
reader input = record { input = input; failed = false }

cut-field : (text rest : Bytes) → IsField text → cut bar (text ++ bar ∷ rest) ≡ some (text, rest)
unfolding cut
cut-field [] rest h = refl
cut-field (c ∷ cs) rest (h, hs) =
    let other : (c == bar) ≡ false = ground arith in rw (other, cut-field cs rest hs) refl

read_string-field :
    (text rest : Bytes) (failed : Bool)
    → IsField text
    → read_string bar (record { input = text ++ bar ∷ rest; failed = failed }) ≡ (text, reader rest)
unfolding read_string
read_string-field text rest failed h = rw (cut-field text rest h) refl

itoa-IsField : (z : ℤ) → IsField (itoa z)
unfolding itoa
itoa-IsField (pos n) = All-of _ (λ c h. ground (arith, h)) (digits-All (suc n) n [] tt)
itoa-IsField (negsuc n) =
    (ground arith, All-of _ (λ c h. ground (arith, h)) (digits-All (suc (suc n)) (suc n) [] tt))

convert-itoa : (z : ℤ) → IsInt z → convert (itoa z) ≡ z
unfolding convert
convert-itoa z h = rw (convert, atoi-itoa z h) refl

-- The text of a post in front of what follows it.
abbrev after_id : Post → Bytes → Bytes
after_id p rest =
    p.info_hash
    ++ bar
      ∷ (p.title
          ++ bar
            ∷ (itoa p.size
                ++ bar
                  ∷ (itoa p.file_count
                      ++ bar
                        ∷ (itoa p.seeders
                            ++ bar
                              ∷ (itoa p.leechers
                                  ++ bar
                                    ∷ (itoa p.upload_date
                                        ++ bar ∷ (p.tags ++ bar ∷ (p.meta ++ bar ∷ rest))))))))

write-after_id :
    (p : Post) (rest : Bytes)
    → write (bar ∷ []) [] true p ++ rest ≡ itoa p.id ++ bar ∷ after_id p rest
unfolding write
write-after_id p rest = simp (append_assoc)

read_fields-after_id :
    (p : Post) (rest : Bytes)
    → IsSendable p
    → read_fields p.id (reader (after_id p rest)) ≡ got p (reader rest)
unfolding read_fields
read_fields-after_id p rest h =
    rw
      (
        read_string-field p.info_hash _ false h.info_hash,
        read_string-field p.title _ false h.title,
        read_string-field (itoa p.size) _ false (itoa-IsField p.size),
        read_string-field (itoa p.file_count) _ false (itoa-IsField p.file_count),
        read_string-field (itoa p.seeders) _ false (itoa-IsField p.seeders),
        read_string-field (itoa p.leechers) _ false (itoa-IsField p.leechers),
        read_string-field (itoa p.upload_date) _ false (itoa-IsField p.upload_date),
        read_string-field p.tags _ false h.tags,
        read_string-field p.meta _ false h.meta,
        convert-itoa p.size h.size,
        convert-itoa p.file_count h.file_count,
        convert-itoa p.seeders h.seeders,
        convert-itoa p.leechers h.leechers,
        convert-itoa p.upload_date h.upload_date,
      )
      refl

is_last-false : (z : ℤ) → z ≢ negsuc 0 → is_last z ≡ false
is_last-false (pos n) h = refl
is_last-false (negsuc zero) h = absurd (h refl)
is_last-false (negsuc (suc n)) h = ground arith

read_post-write :
    (p : Post) (rest : Bytes)
    → IsSendable p
    → read_post (reader (write (bar ∷ []) [] true p ++ rest)) ≡ got p (reader rest)
unfolding read_post
read_post-write p rest h =
    rw
      (
        write-after_id p rest,
        read_string-field (itoa p.id) (after_id p rest) false (itoa-IsField p.id),
        convert-itoa p.id h.id,
        is_last-false p.id h.not_last,
      )
      (read_fields-after_id p rest h)

read_post-last :
    (rest : Bytes)
    → read_post (reader (write (bar ∷ []) [] true last_post ++ rest))
      ≡ last (reader (after_id last_post rest))
unfolding read_post
read_post-last rest =
    rw
      (
        write-after_id last_post rest,
        read_string-field (itoa (negsuc 0)) (after_id last_post rest) false
            (itoa-IsField (negsuc 0)),
        convert-itoa (negsuc 0) (ground arith),
      )
      refl

abbrev sent : List Post → Bytes → Bytes
sent posts rest =
    concat (map (write (bar ∷ []) [] true) posts) ++ (write (bar ∷ []) [] true last_post ++ rest)

-- What is read is the posts that there is room for.
pub read_posts-sent :
    (posts : List Post) (n : ℕ) (p : Piece) (rest : Bytes)
    → All IsSendable posts
    → (read_posts n (reader (sent posts rest)) p).0 ≡ add_all (take n posts) p
unfolding read_posts
read_posts-sent [] zero p rest s = refl
read_posts-sent [] (suc n) p rest s = rw (read_posts, read_post-last rest) refl
read_posts-sent (post ∷ posts) zero p rest s = refl
read_posts-sent (post ∷ posts) (suc n) p rest (s, ss) =
    rw
      (
        read_posts,
        append_assoc (write (bar ∷ []) [] true post) (concat (map (write (bar ∷ []) [] true) posts))
            (write (bar ∷ []) [] true last_post ++ rest),
        read_post-write post (sent posts rest) s,
      )
      (read_posts-sent posts n (add post true p).1 rest ss)

-- The piece that one round of `Pieces` makes of what `HandlePiece` writes.
pub read_pieces-one :
    (posts : List Post) (rest : Bytes)
    → All IsSendable posts
    → read_pieces 1 (record { input = send_posts posts ++ rest; failed = false })
      ≡ add_all (take piece_size posts) (setup 0) ∷ []
unfolding read_pieces send_posts
read_pieces-one posts rest s =
    rw
      (append_assoc (concat (map (write (bar ∷ []) [] true) posts))
        (write (bar ∷ []) [] true last_post) rest)
      (ap (λ q. q ∷ []) (read_posts-sent posts piece_size (setup 0) rest s))

-- A request of one piece: from what `HandlePiece` writes for at most 1000 posts, `Pieces` reads
-- one piece with the same posts in order and with the hash of their texts, whatever follows in the
-- stream.
pub read_pieces-send_posts :
    (posts : List Post) (rest : Bytes)
    → length posts ≤ piece_size
    → All IsSendable posts
    → (p : Piece) × (read_pieces 1 (record { input = send_posts posts ++ rest; failed = false })
        ≡ p ∷ [])
      × (p.posts ≡ posts)
      × (p.hash ≡ concat (map hashed posts))
read_pieces-send_posts posts rest h s =
    let p : Piece = add_all posts (setup 0) in
    let kept : p.posts ≡ posts = add_all-posts posts (setup 0) (omega (arith, h)) in
    let all = take_of_length-le piece_size posts h in
    (
      p,
      read_pieces-one posts rest s ∙ ap (λ ps. add_all ps (setup 0) ∷ []) all,
      kept,
      add_all-IsHashed posts (setup 0) refl ∙ ap (λ ps. concat (map hashed ps)) kept,
    )
