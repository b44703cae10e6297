-- ===== src/Commands/Own.antt =====
-- The commands of commandserver.go about the node itself. `strings.ToLower` is a parameter.
use dfi.Prelude.{ℕ, Bool, Option, none, some, [], ◌∷◌, bytes_eq, if◌then◌else◌}
use dfi.Prelude.Int.{ℤ, pos, negsuc, int_add}
use dfi.Prelude.Outcome.{Outcome, ok, err, panic}
use dfi.Prelude.Action.{map_err, pure, lift, attempt, ◌>>=◌, ◌>>◌}
use dfi.Text.Decimal.{itoa}
use dfi.Dht.Address.{Bytes, of_raw, string, string_or}
use dfi.Dht.Entry.{Entry}
use dfi.Data.Post.{Post}
use dfi.Data.Database.{
  QueryError, search, query_recent, query_popular, generate_fts, add_meta, set_seeders,
  set_leechers,
}
use dfi.Proto.Client.{text_of}
use dfi.Local.Node
use dfi.Local.Node.{LocalError, add_post, sign, save_entry, set_entry}
use dfi.Peers.{Setting}
use dfi.Commands.Remote.{sourced}
use dfi.Commands.{
  Command, CommandResult, CommandError, on_node, on_posts, change_posts, the_server, result,
  nothing, a_text, a_number, own_posts, from_address, from_posts, unknown_key, database_not_loaded,
}

-- The keys of `LocalSet` and `LocalGet`.
pub data Key : Type 0 where
  name desc public dfi_address post_count whole_entry : Key

-- The `switch` over the text of a key.
unfoldable pub key_of : Bytes → Option Key
key_of k =
    if bytes_eq k (110 ∷ 97 ∷ 109 ∷ 101 ∷ [])
    then some name
    else if bytes_eq k (100 ∷ 101 ∷ 115 ∷ 99 ∷ [])
    then some desc
    else if bytes_eq k (112 ∷ 117 ∷ 98 ∷ 108 ∷ 105 ∷ 99 ∷ [])
    then some public
    else if bytes_eq k (100 ∷ 102 ∷ 105 ∷ [])
    then some dfi_address
    else if bytes_eq k (112 ∷ 111 ∷ 115 ∷ 116 ∷ 99 ∷ 111 ∷ 117 ∷ 110 ∷ 116 ∷ [])
    then some post_count
    else if bytes_eq k (101 ∷ 110 ∷ 116 ∷ 114 ∷ 121 ∷ [])
    then some whole_entry
    else none

-- The assignments of `LocalSet`, which has no other keys.
abbrev pub assigned : Option Key → Bytes → Entry → Option Entry
assigned (some name) value e = some (record e { name = value })
assigned (some desc) value e = some (record e { desc = value })
assigned (some public) value e = some (record e { public_address = value })
assigned _ value e = none

module _ {W S D : Type 0} (setting : Setting W S D) (to_lower : Bytes → Bytes) where
  open setting use {outside}

  unfoldable pub add_post_and_index : Post → Bool → Command setting CommandResult
  unfolding add_post
  add_post_and_index post index = result setting (do
    id ← on_node setting (add_post outside post)
    if index
        then attempt (change_posts setting (generate_fts outside.posts (int_add id (negsuc 0))))
            pure (λ _. pure tt)
        else pure tt
    pure (a_number id))

  unfoldable pub self_index : ℤ → Command setting CommandResult
  self_index since =
      result setting (change_posts setting (generate_fts outside.posts since) >> pure nothing)

  -- The database of another peer is indexed where it is kept.
  abbrev pub change_database :
      Bytes → D → (D → Outcome QueryError (Unit {0}) × D) → Command setting (Unit {0})
  change_database address db f s =
      let (o, db') = f db in
      let lp = s.peers.lp in
      let databases = λ (t : Bytes). if bytes_eq t address then some db' else lp.databases t in
      (
        map_err from_posts o,
        record s { peers = record s.peers { lp = record lp { databases = databases } } },
      )

  unfoldable pub peer_index : Bytes → ℤ → Command setting CommandResult
  peer_index address since = result setting (do
    s ← the_server setting
    elim (s.peers.lp.databases address) [
      | none ↦ lift (err database_not_loaded)
      | some db ↦ change_database address db (generate_fts outside.posts since) >> pure nothing
    ])

  unfoldable pub self_search : Bytes → ℤ → Command setting CommandResult
  unfolding search
  self_search query page = result setting (do
    s ← the_server setting
    source ← lift (text_of (string_or outside.env.codec s.peers.lp.address []))
    posts ← on_posts setting (search outside.posts query page (pos 25))
    pure (sourced source posts))

  unfoldable pub self_recent : ℤ → Command setting CommandResult
  unfolding query_recent
  self_recent page =
      result setting
        (do posts ← on_posts setting (query_recent outside.posts page); pure (own_posts posts))

  unfoldable pub self_popular : ℤ → Command setting CommandResult
  unfolding query_popular
  self_popular page =
      result setting
        (do posts ← on_posts setting (query_popular outside.posts page); pure (own_posts posts))

  unfoldable pub add_meta_to : ℤ → Bytes → Command setting CommandResult
  add_meta_to pid value =
      result setting (change_posts setting (add_meta outside.posts pid value) >> pure nothing)

  -- `SaveCollection`, whose error is ignored.
  unfoldable pub save_collection : Command setting CommandResult
  save_collection = result setting (do
    s ← the_server setting
    on_node setting (Node.write_collection outside s.peers.lp.collection)
    pure nothing)

  unfoldable pub set_seed_leech : ℕ → ℕ → ℕ → Command setting CommandResult
  set_seed_leech id seeders leechers = result setting (do
    change_posts setting (set_leechers outside.posts id leechers)
    change_posts setting (set_seeders outside.posts id seeders)
    pure nothing)

  unfoldable pub local_set : Bytes → Bytes → Command setting CommandResult
  unfolding key_of sign save_entry
  local_set key value = result setting (do
    s ← the_server setting
    elim (assigned (key_of (to_lower key)) value s.peers.lp.entry) [
      | none ↦ lift (err unknown_key)
      | some e ↦ do
        on_node setting (do set_entry outside e; sign outside; save_entry outside)
        pure nothing
    ])

  -- A text whose error is ignored.
  abbrev pub text_or_empty : Outcome LocalError Bytes → Outcome CommandError Bytes
  text_or_empty (ok t) = ok t
  text_or_empty (err _) = ok []
  text_or_empty panic = panic

  abbrev pub value_of : Key → Entry → Outcome CommandError Bytes
  value_of name e = ok e.name
  value_of desc e = ok e.desc
  value_of public e = ok e.public_address
  value_of dfi_address e = text_of (string_or outside.env.codec e.address [])
  value_of post_count e = ok (itoa e.post_count)
  value_of whole_entry e = text_or_empty (outside.encode_entry e)

  unfoldable pub local_get : Bytes → Command setting CommandResult
  unfolding key_of
  local_get key = result setting (do
    s ← the_server setting
    elim (key_of (to_lower key)) [
      | none ↦ lift (err unknown_key)
      | some k ↦ do value ← lift (value_of k s.peers.lp.entry); pure (a_text value)
    ])

  unfoldable pub address_encode : Bytes → Command setting CommandResult
  unfolding string
  address_encode raw = result setting (do
    (encoded, _) ← lift (map_err from_address (string outside.env.codec (of_raw raw)))
    pure (a_text encoded))
