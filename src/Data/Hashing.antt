-- ===== src/Data/Hashing.antt =====
-- What the hash of a piece stands for.
use mathlib.Core.List.{append_assoc, append-nil}
use dfi.Prelude.{
  ℕ, ◌+◌, ◌<◌, ◌≤◌, ◌≡◌, refl, sym, ap, ◌∙◌, arith, Bool, true, List, [], ◌∷◌, ◌++◌, concat, map,
  length, length-append, ltb, Bool-cases, inl, inr, ◌⊎◌,
}
use dfi.Prelude.Int.{ℤ}
use dfi.Prelude.Outcome.{ok, err}
use dfi.Data.Post.{Post, Bytes, write}
use dfi.Data.Piece.{
  Piece, piece_size, setup, add, add_all, hashed, rehash, rewrite_posts, hash_of, piece_full,
}

-- The hash of a piece that keeps its posts is that of their texts in order.
abbrev pub IsHashed : Piece → Type 0
IsHashed p = p.hash ≡ concat (map hashed p.posts)

concat-map_append :
    (posts : List Post) (post : Post)
    → concat (map hashed (posts ++ post ∷ [])) ≡ concat (map hashed posts) ++ hashed post
concat-map_append [] post = append-nil (hashed post)
concat-map_append (p ∷ posts) post =
    ap (λ bs. hashed p ++ bs) (concat-map_append posts post)
    ∙ sym (append_assoc (hashed p) (concat (map hashed posts)) (hashed post))

add_cases :
    (post : Post) (p : Piece)
    → ((piece_size < length p.posts) × (add post true p ≡ (err piece_full, p)))
      ⊎ ((length p.posts ≤ piece_size)
          × (add post true p
              ≡ (ok tt, record p { posts = p.posts ++ post ∷ []; hash = p.hash ++ hashed post })))
unfolding add
add_cases post p = elim (Bool-cases (ltb piece_size (length p.posts))) [
  | inl full ↦ inl (ground arith, rw full refl)
  | inr room ↦ inr (ground arith, rw room refl)
]

add-IsHashed : (post : Post) (p : Piece) → IsHashed p → IsHashed (add post true p).1
add-IsHashed post p h = elim (add_cases post p) [
  | inl (_, e) ↦ rw e h
  | inr (_, e) ↦ rw e (ap (λ bs. bs ++ hashed post) h ∙ sym (concat-map_append p.posts post))
]

pub add_all-IsHashed : (posts : List Post) (p : Piece) → IsHashed p → IsHashed (add_all posts p)
add_all-IsHashed [] p h = h
add_all-IsHashed (post ∷ posts) p h =
    add_all-IsHashed posts (add post true p).1 (add-IsHashed post p h)

-- As long as there is room every post is stored, in order.
pub add_all-posts :
    (posts : List Post) (p : Piece)
    → length p.posts + length posts ≤ piece_size + 1
    → (add_all posts p).posts ≡ p.posts ++ posts
add_all-posts [] p h = sym (append-nil p.posts)
add_all-posts (post ∷ posts) p h = elim (add_cases post p) [
  | inl (full, e) ↦ absurd (omega (arith, full, h))
  | inr (room, e) ↦
      rw (add_all, e)
        (add_all-posts posts
            (record p { posts = p.posts ++ post ∷ []; hash = p.hash ++ hashed post })
            (omega (arith, h, length-append p.posts (post ∷ [])))
          ∙ append_assoc p.posts (post ∷ []) posts)
]

add_all-id : (posts : List Post) (p : Piece) → (add_all posts p).id ≡ p.id
add_all-id [] p = refl
add_all-id (post ∷ posts) p = add_all-id posts (add post true p).1 ∙ kept
  where
    kept : (add post true p).1.id ≡ p.id
    kept = elim (add_cases post p) [ inl (_, e) ↦ rw e refl | inr (_, e) ↦ rw e refl ]

rewrite_posts_lem :
    (posts : List Post) (bs : Bytes) → rewrite_posts posts bs ≡ bs ++ concat (map hashed posts)
unfolding rewrite_posts
rewrite_posts_lem [] bs = sym (append-nil bs)
rewrite_posts_lem (p ∷ posts) bs =
    rewrite_posts_lem posts (bs ++ hashed p)
    ∙ append_assoc bs (hashed p) (concat (map hashed posts))

-- `Rehash` of a piece that was filled by `Add` with its posts stored gives the hash that `Hash`
-- gives, and leaves the piece as it was, also where `Add` refused posts.
pub rehash-add_all :
    (sha3 : Bytes → Bytes) (id : ℕ) (posts : List Post)
    → rehash sha3 (add_all posts (setup id))
      ≡ (hash_of sha3 (add_all posts (setup id)), add_all posts (setup id))
unfolding rehash hash_of
rehash-add_all sha3 id posts =
    let p : Piece = add_all posts (setup id) in
    let same : rewrite_posts p.posts [] ≡ p.hash =
      rewrite_posts_lem p.posts [] ∙ sym (add_all-IsHashed posts (setup id) refl) in
    rw same refl

-- A piece stores 1001 posts, one more than `PieceSize`, and refuses a post after those.
pub add-full :
    (posts : List Post) (post : Post) (id : ℕ)
    → length posts ≡ piece_size + 1
    → ((add_all posts (setup id)).posts ≡ posts)
      × (add post true (add_all posts (setup id)) ≡ (err piece_full, add_all posts (setup id)))
add-full posts post id h =
    let all = add_all-posts posts (setup id) (omega (arith, h)) in
    (
      all,
      elim (add_cases post (add_all posts (setup id))) [
        | inl (_, e) ↦ e
        | inr (room, _) ↦ absurd (omega (arith, room, h, ap length all))
      ],
    )

-- The hash of a piece does not depend on the seeders and leechers of its posts.
pub hash_of-seeders :
    (sha3 : Bytes → Bytes) (post : Post) (seeders leechers : ℤ) (store : Bool) (p : Piece)
    → hash_of sha3 (add (record post { seeders = seeders; leechers = leechers }) store p).1
      ≡ hash_of sha3 (add post store p).1
unfolding hash_of add write
hash_of-seeders sha3 post seeders leechers store p =
    elim (Bool-cases (ltb piece_size (length p.posts))) [
      | inl full ↦ rw full refl
      | inr room ↦ rw room refl
    ]
