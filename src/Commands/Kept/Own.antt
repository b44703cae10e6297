-- ===== src/Commands/Kept/Own.antt =====
-- What the commands about the node itself keep.
use dfi.Prelude.{[], ℕ, Bool, true, Option, none, some}
use dfi.Prelude.Int.{ℤ, pos, negsuc, int_add}
use dfi.Prelude.Outcome.{Outcome, err}
use dfi.Prelude.Action.{
  Keeps, Keeps-pure, Keeps-lift, Keeps-bind, Keeps-attempt, Keeps-if, map_err, pure, lift, ◌>>=◌,
  ◌>>◌,
}
use dfi.Proto.Client.{text_of}
use dfi.Commands.Remote.{sourced}
use dfi.Dht.Address.{string_or, Bytes, string, of_raw}
use dfi.Dht.Entry.{Entry}
use dfi.Data.Post.{Post}
use dfi.Data.Database.{
  QueryError, search, query_recent, query_popular, generate_fts, add_meta, set_seeders,
  set_leechers,
}
use dfi.Local.Node.{add_post, sign, save_entry, set_entry}
use dfi.Local.Kept.{HasTable, add_post-Keeps, set_entry-Keeps, sign-Keeps, save_entry-Keeps}
use dfi.Peers.{Setting}
use dfi.Commands.{
  Command, CommandResult, Value, on_node, from_posts, from_address, result, a_text, a_number,
  own_posts, completions, nothing, unknown_key, database_not_loaded, not_mirrored,
}
use dfi.Commands.Own.{
  Key, key_of, assigned, value_of, add_post_and_index, self_index, change_database, peer_index,
  self_search, self_recent, self_popular, add_meta_to, save_collection, set_seed_leech, local_set,
  local_get, address_encode,
}
use dfi.Commands.Suggest
use dfi.Commands.Suggest.{Unicode, self_suggest, peer_suggest}
use dfi.Commands.Kept.Calls.{
  IsServing, on_node-Keeps, the_server-Keeps, on_posts-Keeps, change_posts-Keeps, result-Keeps,
  done-Keeps,
}

module _ {W S D : Type 0} (setting : Setting W S D) (to_lower : Bytes → Bytes)
    (unicode : Unicode) where
  open setting use {outside}

  pub add_post_and_index-Keeps :
      (post : Post) (index : Bool)
      → Keeps IsServing (add_post_and_index setting to_lower post index)
  unfolding add_post_and_index
  add_post_and_index-Keeps post index = result-Keeps setting _ (
      Keeps-bind (on_node-Keeps setting (add_post outside post) (add_post-Keeps outside post)) λ id.
        Keeps-bind
          (Keeps-if index
            (Keeps-attempt
              (change_posts-Keeps setting (generate_fts outside.posts (int_add id (negsuc 0))))
              Keeps-pure λ _. Keeps-pure tt)
            (Keeps-pure tt))
          λ _. Keeps-pure (a_number id))

  pub self_index-Keeps : (since : ℤ) → Keeps IsServing (self_index setting to_lower since)
  unfolding self_index
  self_index-Keeps since =
      done-Keeps setting _ (change_posts-Keeps setting (generate_fts outside.posts since))

  change_database-Keeps :
      (address : Bytes) (db : D) (f : D → Outcome QueryError (Unit {0}) × D)
      → Keeps IsServing (change_database setting to_lower address db f)
  change_database-Keeps address db f = record { at = λ s h. h }

  pub peer_index-Keeps :
      (address : Bytes) (since : ℤ) → Keeps IsServing (peer_index setting to_lower address since)
  unfolding peer_index
  peer_index-Keeps address since =
      result-Keeps setting _
        (Keeps-bind (the_server-Keeps setting) λ s. indexed (s.peers.lp.databases address))
    where
      indexed :
          (o : Option D)
          → Keeps IsServing (elim o as (λ _. Command setting Value) [
            | none ↦ lift (err database_not_loaded)
            | some db ↦
                change_database setting to_lower address db (generate_fts outside.posts since)
                >> pure nothing
          ])
      indexed none = Keeps-lift (err database_not_loaded)
      indexed (some db) =
          Keeps-bind (change_database-Keeps address db (generate_fts outside.posts since))
            λ _. Keeps-pure nothing

  pub self_search-Keeps :
      (query : Bytes) (page : ℤ) → Keeps IsServing (self_search setting to_lower query page)
  unfolding self_search
  self_search-Keeps query page = result-Keeps setting _ (
      Keeps-bind (the_server-Keeps setting) λ s.
        Keeps-bind (Keeps-lift (text_of (string_or outside.env.codec s.peers.lp.address [])))
          λ source.
            Keeps-bind (on_posts-Keeps setting (search outside.posts query page (pos 25)))
              λ posts. Keeps-pure (sourced source posts))

  pub self_recent-Keeps : (page : ℤ) → Keeps IsServing (self_recent setting to_lower page)
  unfolding self_recent
  self_recent-Keeps page = result-Keeps setting _ (
      Keeps-bind (on_posts-Keeps setting (query_recent outside.posts page))
        λ posts. Keeps-pure (own_posts posts))

  pub self_popular-Keeps : (page : ℤ) → Keeps IsServing (self_popular setting to_lower page)
  unfolding self_popular
  self_popular-Keeps page = result-Keeps setting _ (
      Keeps-bind (on_posts-Keeps setting (query_popular outside.posts page))
        λ posts. Keeps-pure (own_posts posts))

  pub add_meta_to-Keeps :
      (pid : ℤ) (value : Bytes) → Keeps IsServing (add_meta_to setting to_lower pid value)
  unfolding add_meta_to
  add_meta_to-Keeps pid value =
      done-Keeps setting _ (change_posts-Keeps setting (add_meta outside.posts pid value))

  pub save_collection-Keeps : Keeps IsServing (save_collection setting to_lower)
  unfolding save_collection
  save_collection-Keeps = record { at = λ s h. h }

  pub set_seed_leech-Keeps :
      (id seeders leechers : ℕ)
      → Keeps IsServing (set_seed_leech setting to_lower id seeders leechers)
  unfolding set_seed_leech
  set_seed_leech-Keeps id seeders leechers = result-Keeps setting _ (
      Keeps-bind (change_posts-Keeps setting (set_leechers outside.posts id leechers)) λ _.
        Keeps-bind (change_posts-Keeps setting (set_seeders outside.posts id seeders))
          λ _. Keeps-pure nothing)

  set_and_saved-Keeps :
      (e : Entry) → Keeps HasTable (do set_entry outside e; sign outside; save_entry outside)
  set_and_saved-Keeps e =
      Keeps-bind (set_entry-Keeps outside e)
        λ _. Keeps-bind (sign-Keeps outside) λ _. save_entry-Keeps outside

  pub local_set-Keeps : (key value : Bytes) → Keeps IsServing (local_set setting to_lower key value)
  unfolding local_set
  local_set-Keeps key value = result-Keeps setting _ (
      Keeps-bind (the_server-Keeps setting)
        λ s. set_to (assigned (key_of (to_lower key)) value s.peers.lp.entry))
    where
      set_to :
          (o : Option Entry)
          → Keeps IsServing (elim o as (λ _. Command setting Value) [
            | none ↦ lift (err unknown_key)
            | some e ↦
                on_node setting (do set_entry outside e; sign outside; save_entry outside)
                >> pure nothing
          ])
      set_to none = Keeps-lift (err unknown_key)
      set_to (some e) =
          Keeps-bind (on_node-Keeps setting _ (set_and_saved-Keeps e)) λ _. Keeps-pure nothing

  pub local_get-Keeps : (key : Bytes) → Keeps IsServing (local_get setting to_lower key)
  unfolding local_get
  local_get-Keeps key =
      result-Keeps setting _
        (Keeps-bind (the_server-Keeps setting) λ s. got s.peers.lp.entry (key_of (to_lower key)))
    where
      got :
          (e : Entry) (o : Option Key)
          → Keeps IsServing (elim o as (λ _. Command setting Value) [
            | none ↦ lift (err unknown_key)
            | some k ↦ do value ← lift (value_of setting to_lower k e); pure (a_text value)
          ])
      got e none = Keeps-lift (err unknown_key)
      got e (some k) =
          Keeps-bind (Keeps-lift (value_of setting to_lower k e)) λ value. Keeps-pure (a_text value)

  pub address_encode-Keeps : (raw : Bytes) → Keeps IsServing (address_encode setting to_lower raw)
  unfolding address_encode
  address_encode-Keeps raw = result-Keeps setting _ (
      Keeps-bind (Keeps-lift (map_err from_address (string outside.env.codec (of_raw raw))))
        λ t. Keeps-pure (a_text t.0))

  pub self_suggest-Keeps : (query : Bytes) → Keeps IsServing (self_suggest setting unicode query)
  unfolding self_suggest
  self_suggest-Keeps query = result-Keeps setting _ (
      Keeps-bind (on_posts-Keeps setting (Suggest.suggest unicode outside.posts query))
        λ found. Keeps-pure (completions found))

  pub peer_suggest-Keeps :
      (address query : Bytes) → Keeps IsServing (peer_suggest setting unicode address query)
  unfolding peer_suggest
  peer_suggest-Keeps address query =
      Keeps-bind (the_server-Keeps setting) λ s. suggested (s.peers.lp.databases address)
    where
      suggested :
          (o : Option D)
          → Keeps IsServing (elim o as (λ _. Command setting CommandResult) [
            | none ↦ pure (record { is_ok = true; value = nothing; error = some not_mirrored })
            | some db ↦ result setting (do
              found ← lift (map_err from_posts (Suggest.suggest unicode outside.posts query db))
              pure (completions found))
          ])
      suggested none = Keeps-pure _
      suggested (some db) = result-Keeps setting _ (
          Keeps-bind
            (Keeps-lift (map_err from_posts (Suggest.suggest unicode outside.posts query db)))
            λ found. Keeps-pure (completions found))
