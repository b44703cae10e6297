-- ===== src/Local/Kept.antt =====
-- What the node does keeps its routing table well formed.
use dfi.Prelude.{◌∷◌, [], ◌++◌}
use dfi.Prelude.Int.{ℤ, pos, int_add}
use dfi.Prelude.Action.{
  Action, Keeps, Keeps-pure, Keeps-lift, Keeps-bind, Keeps-attempt, Keeps-within, map_err, pure,
  ◌>>=◌, ◌>>◌,
}
use dfi.Dht.Address.{Bytes}
use dfi.Dht.Entry.{Entry}
use dfi.Dht.NetDb.{NetDb, DbError}
use dfi.Dht.NetDb.Writing.{insert}
use dfi.Dht.NetDb.Invariant.{IsDb, insert-IsDb}
use dfi.Data.Post.{Post, valid}
use dfi.Data.Collection.{Collection, rehash, add, hash}
use dfi.Data.Database.{QueryError, insert_post}
use dfi.Local.{sign_entry}
use dfi.Local.Node.{
  LocalPeer, Outside, on_dht, on_posts, get_peer, set_entry, write_entry, write_collection,
  set_collection, piece_to_add, sign, save_entry, add_entry, add_seeding, add_post, inserted_post,
  collection_result, db_error, entry_error, post_error,
}

abbrev pub HasTable : {S D : Type 0} → LocalPeer S D → Type 0
HasTable lp = IsDb lp.dht

module _ {S D : Type 0} (outside : Outside S D) where
  open outside use {env, posts, encode_entry, now, capacity}

  pub on_dht-Keeps :
      {A : Type 0} (m : Action (NetDb S) DbError A)
      → Keeps IsDb m
      → Keeps HasTable (on_dht outside m)
  on_dht-Keeps m k =
      Keeps-within (λ lp. lp.dht) (λ db lp. record lp { dht = db }) db_error m (λ lp h. h)
        (λ db lp h _. h) k

  on_posts-Keeps : {A : Type 0} (m : Action D QueryError A) → Keeps HasTable (on_posts outside m)
  on_posts-Keeps m = record { at = λ lp h. h }

  pub get_peer-Keeps : Keeps HasTable (get_peer outside)
  get_peer-Keeps = record { at = λ lp h. h }

  pub set_entry-Keeps : (e : Entry) → Keeps HasTable (set_entry outside e)
  set_entry-Keeps e = record { at = λ lp h. h }

  write_entry-Keeps : (text : Bytes) → Keeps HasTable (write_entry outside text)
  write_entry-Keeps text = record { at = λ lp h. h }

  write_collection-Keeps : (c : Collection) → Keeps HasTable (write_collection outside c)
  write_collection-Keeps c = record { at = λ lp h. h }

  pub insert-Keeps : (e : Entry) → Keeps HasTable (on_dht outside (insert env e))
  insert-Keeps e = on_dht-Keeps (insert env e) (record { at = insert-IsDb env e })

  pub sign-Keeps : Keeps HasTable (sign outside)
  unfolding sign
  sign-Keeps = Keeps-bind get_peer-Keeps λ lp.
      Keeps-bind
        (Keeps-lift
          (map_err entry_error (sign_entry env.codec env.sigs lp.private_key now lp.entry)))
        set_entry-Keeps

  pub save_entry-Keeps : Keeps HasTable (save_entry outside)
  unfolding save_entry
  save_entry-Keeps = Keeps-bind sign-Keeps λ _. Keeps-bind get_peer-Keeps λ lp.
      Keeps-bind (Keeps-lift (encode_entry lp.entry))
        λ text. Keeps-bind (insert-Keeps lp.entry) λ _. write_entry-Keeps text

  pub add_entry-Keeps : (e : Entry) → Keeps HasTable (add_entry outside e)
  unfolding add_entry
  add_entry-Keeps e = Keeps-bind (insert-Keeps e) λ _. Keeps-pure tt

  pub add_seeding-Keeps : (e : Entry) → Keeps HasTable (add_seeding outside e)
  unfolding add_seeding
  add_seeding-Keeps e = Keeps-bind get_peer-Keeps λ lp.
      Keeps-bind
        (set_entry-Keeps (record lp.entry { seeding = lp.entry.seeding ++ e.address.raw ∷ [] }))
        λ _. Keeps-bind sign-Keeps λ _.
          Keeps-bind (add_entry-Keeps (record e { seeds = e.seeds ++ lp.address.raw ∷ [] }))
            λ _. save_entry-Keeps

  inserted_post-Keeps : (p : Post) → Keeps HasTable (inserted_post outside p)
  inserted_post-Keeps p =
      Keeps-attempt (on_posts-Keeps (insert_post posts p)) Keeps-pure λ _. Keeps-pure _

  set_collection-Keeps : (c : Collection) → Keeps HasTable (set_collection outside c)
  set_collection-Keeps c = record { at = λ lp h. h }

  -- `AddPost` behind the change of the collection.
  added_piece-Keeps :
      (id : ℤ) (added : Collection)
      → Keeps HasTable (do
        set_collection outside (rehash added)
        write_collection outside (rehash added)
        lp ← get_peer outside
        set_entry outside (record lp.entry { collection_hash = hash env.codec.sha3 (rehash added) })
        sign outside
        save_entry outside
        pure id)
  added_piece-Keeps id added = Keeps-bind (set_collection-Keeps (rehash added)) λ _.
      Keeps-bind (write_collection-Keeps (rehash added)) λ _. Keeps-bind get_peer-Keeps λ lp.
        Keeps-bind
          (set_entry-Keeps
            (record lp.entry { collection_hash = hash env.codec.sha3 (rehash added) }))
          λ _. Keeps-bind sign-Keeps λ _. Keeps-bind save_entry-Keeps λ _. Keeps-pure id

  piece_to_add-Keeps : (id : ℤ) → Keeps HasTable (piece_to_add outside id)
  piece_to_add-Keeps id = record { at = λ lp h. h }

  pub add_post-Keeps : (p : Post) → Keeps HasTable (add_post outside p)
  unfolding add_post
  add_post-Keeps p = Keeps-bind (Keeps-lift (map_err post_error (valid (pos now) p))) λ _.
      Keeps-bind get_peer-Keeps λ lp.
        Keeps-bind
          (set_entry-Keeps (record lp.entry { post_count = int_add lp.entry.post_count (pos 1) }))
          λ _. Keeps-bind (inserted_post-Keeps p) λ id. Keeps-bind (piece_to_add-Keeps id) λ piece.
            Keeps-bind get_peer-Keeps λ lp.
              Keeps-bind
                (Keeps-lift
                  (collection_result outside (add capacity env.codec.sha3 piece lp.collection)))
                (added_piece-Keeps id)
