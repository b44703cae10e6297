-- ===== src/Local/Node.antt =====
-- localpeer.go: the node with its own entry, and what it does with it. The files under ./data, JSON
-- and the clock are parameters.
use dfi.Prelude.{ℕ, ◌/◌, false, Option, none, some, [], ◌∷◌, ◌++◌, if◌then◌else◌}
use dfi.Prelude.Int.{ℤ, pos, negsuc, word, int_add}
use dfi.Prelude.Outcome.{Outcome, ok, err, panic}
use dfi.Prelude.Action.{Action, map_err, within, pure, lift, attempt, ◌>>=◌, ◌>>◌}
use dfi.Dht.Address.{Address, Bytes, equals}
use dfi.Dht.Entry.{Entry, EntryError}
use dfi.Dht.NetDb.{Env, NetDb, DbError}
use dfi.Dht.NetDb.Reading.{query}
use dfi.Dht.NetDb.Writing.{insert}
use dfi.Data.Post.{Post, PostError, valid}
use dfi.Data.Piece.{Piece}
use dfi.Data.Collection.{Collection, CollectionError, add, rehash, hash, save}
use dfi.Data.Database.{PostSql, QueryError, query_piece, insert_post}
use dfi.Proto.Message.{ProtoError}
use dfi.Local.{sign_entry}

pub data LocalError : Type 0 where
  db_error : DbError → LocalError
  entry_error : EntryError → LocalError
  proto_error : ProtoError → LocalError
  query_error : QueryError → LocalError
  post_error : PostError → LocalError
  collection_error : CollectionError → LocalError
  file_error json_error no_entry no_hash_list not_saved no_piece no_peer_entry : LocalError

pub record LocalPeer (S D : Type 0) : Type 0 where
  pub dht : NetDb S
  pub address : Address
  pub entry : Entry
  pub private_key : Bytes
  pub collection : Collection
  pub posts : D
  pub databases : Bytes → Option D
  pub entry_file : Bytes
  pub collection_file : Bytes

-- What the node reaches outside of it. A write of a file gives the file afterwards, and an error
-- if there was one. The collection of another peer is read by the text of its address.
pub record Outside (S D : Type 0) : Type 0 where
  pub env : Env S
  pub posts : PostSql D
  pub encode_entry : Entry → Outcome LocalError Bytes
  pub write_file : Bytes → Bytes → Outcome LocalError (Unit {0}) × Bytes
  pub read_collection : Bytes → Outcome LocalError Bytes
  pub now : ℕ
  pub capacity : ℕ → ℕ

module _ {S D : Type 0} (outside : Outside S D) where
  open outside use {env, posts, encode_entry, write_file, now, capacity}

  abbrev pub Node : Type 0 → Type 0
  Node = Action (LocalPeer S D) LocalError

  abbrev pub on_dht : {A : Type 0} → Action (NetDb S) DbError A → Node A
  on_dht = within (λ lp. lp.dht) (λ db lp. record lp { dht = db }) db_error

  abbrev pub on_posts : {A : Type 0} → Action D QueryError A → Node A
  on_posts = within (λ lp. lp.posts) (λ db lp. record lp { posts = db }) query_error

  abbrev pub get_peer : Node (LocalPeer S D)
  get_peer lp = (ok lp, lp)

  abbrev pub set_entry : Entry → Node (Unit {0})
  set_entry e lp = (ok tt, record lp { entry = e })

  abbrev pub write_entry : Bytes → Node (Unit {0})
  write_entry text lp =
      let (o, file) = write_file lp.entry_file text in (o, record lp { entry_file = file })

  abbrev pub set_collection : Collection → Node (Unit {0})
  set_collection c lp = (ok tt, record lp { collection = c })

  -- `Collection.Save`, whose error is ignored.
  abbrev pub write_collection : Collection → Node (Unit {0})
  write_collection c lp =
      let (o, file) = write_file lp.collection_file (save c) in
      (ok tt, record lp { collection_file = file })

  -- `SignEntry`
  unfoldable pub sign : Node (Unit {0})
  sign = do
    lp ← get_peer
    signed ← lift (map_err entry_error (sign_entry env.codec env.sigs lp.private_key now lp.entry))
    set_entry signed

  -- `SaveEntry`
  unfoldable pub save_entry : Node (Unit {0})
  unfolding sign
  save_entry = do
    sign
    lp ← get_peer
    text ← lift (encode_entry lp.entry)
    on_dht (insert env lp.entry)
    write_entry text

  -- `AddEntry`
  unfoldable pub add_entry : Entry → Node (Unit {0})
  add_entry e = do on_dht (insert env e); pure tt

  -- `AddSeeding`
  unfoldable pub add_seeding : Entry → Node (Unit {0})
  unfolding sign add_entry save_entry
  add_seeding e = do
    lp ← get_peer
    set_entry (record lp.entry { seeding = lp.entry.seeding ++ e.address.raw ∷ [] })
    sign
    add_entry (record e { seeds = e.seeds ++ lp.address.raw ∷ [] })
    save_entry

  -- `QueryEntry`
  unfoldable pub query_entry : Address → Node Entry
  query_entry addr = do
    lp ← get_peer
    if equals addr lp.address then pure lp.entry else do
      (kv, _) ← on_dht (query env addr)
      elim kv [ none ↦ lift (err no_entry) | some e ↦ pure e ]

  -- `int(math.Floor(float64(id) / float64(data.PieceSize)))`, exact below 2^53.
  abbrev pub piece_index : ℤ → ℤ
  piece_index (pos id) = pos (id / 1000)
  piece_index (negsuc n) = negsuc (n / 1000)

  -- The id that is left beside an error of `InsertPost`.
  abbrev pub inserted_post : Post → Node ℤ
  inserted_post p = attempt (on_posts (insert_post posts p)) pure (λ _. pure (negsuc 0))

  -- The outcome of `QueryPiece`: without a piece `Add` panics.
  abbrev pub piece_of : {A : Type 0} → Outcome QueryError A → Outcome LocalError A
  piece_of (ok p) = ok p
  piece_of (err e) = panic
  piece_of panic = panic

  abbrev pub piece_to_add : ℤ → Node Piece
  piece_to_add id lp = (piece_of (query_piece posts (word (piece_index id)) false lp.posts), lp)

  abbrev pub collection_result : {A : Type 0} → Outcome CollectionError A → Outcome LocalError A
  collection_result = map_err collection_error

  -- `AddPost`: the id of the post.
  unfoldable pub add_post : Post → Node ℤ
  unfolding sign save_entry
  add_post p = do
    lift (map_err post_error (valid (pos now) p))
    lp ← get_peer
    set_entry (record lp.entry { post_count = int_add lp.entry.post_count (pos 1) })
    id ← inserted_post p
    piece ← piece_to_add id
    lp ← get_peer
    added ← lift (collection_result (add capacity env.codec.sha3 piece lp.collection))
    let c = rehash added
    set_collection c
    write_collection c
    lp ← get_peer
    set_entry (record lp.entry { collection_hash = hash env.codec.sha3 c })
    sign
    save_entry
    pure id
