-- ===== src/Commands/Remote.antt =====
-- The commands of commandserver.go that reach other peers.
use dfi.Prelude.{
  ℕ, ◌==◌, Bool, true, Option, none, some, List, [], ◌∷◌, ◌++◌, map, bytes_eq, if◌then◌else◌,
}
use dfi.Prelude.Int.{ℤ, pos}
use dfi.Prelude.Outcome.{Outcome, ok, err, panic}
use dfi.Prelude.Action.{map_err, pure, lift, attempt, ◌>>=◌, ◌>>◌}
use dfi.Dht.Address.{Address, Bytes, string_or}
use dfi.Dht.NetDb.Reading.{search_peer}
use dfi.Dht.Entry.{Entry}
use dfi.Data.Post.{Post}
use dfi.Data.Database.{search, query_recent, query_popular}
use dfi.Proto.Client.{text_of}
use dfi.Util.Maps.{Map, get, put}
use dfi.Local.Node.{query_entry, on_dht}
use dfi.Peers.{Peer, Setting, Pm, entry_of, get_peer, on_world}
use dfi.Peers.Requests
use dfi.Peers.Requests.{SearchResult}
use dfi.Peers.Connecting.{connect_peer_direct, keep_peer}
use dfi.Peers.Resolving.{connect_peer, resolve}
use dfi.Commands.{
  Command, CommandResult, Value, on_peers, on_node, on_posts, the_server, decoded, result, nothing,
  a_duration, a_number, found, peer_posts, own_posts, an_entry, entries, addresses, from_posts,
  mirror_not_in_progress,
}

-- `strings.Split` with a separator of one byte.
abbrev pub prepend : ℕ → List Bytes → List Bytes
prepend c [] = (c ∷ []) ∷ []
prepend c (w ∷ ws) = (c ∷ w) ∷ ws

unfoldable pub split : ℕ → Bytes → List Bytes
split sep [] = [] ∷ []
split sep (c ∷ cs) = let rest = split sep cs in if c == sep then [] ∷ rest else prepend c rest

-- The host and the port of `Bootstrap`, with the port 5050 where none is given.
abbrev pub host_and_port : {E : Type 0} → List Bytes → Outcome E Bytes
host_and_port [] = panic
host_and_port (host ∷ []) = ok (host ++ 58 ∷ 53 ∷ 48 ∷ 53 ∷ 48 ∷ [])
host_and_port (host ∷ port ∷ rest) = ok (host ++ 58 ∷ port)

-- The result of `Search` of data/search.go, whose posts are not nil.
abbrev pub sourced : Bytes → List Post → Value
sourced source posts = found (record { posts = map some posts; source = source })

module _ {W S D : Type 0} (setting : Setting W S D) where
  open setting use {outside, world}

  -- A peer that is connected, or that is connected now.
  abbrev pub or_connect_to : Address → Option Peer → Pm setting Peer
  or_connect_to address (some p) = pure p
  or_connect_to address none = do (p, _) ← connect_peer setting address; pure p

  abbrev pub peer_at : Bytes → Command setting Peer
  peer_at text = do
    address ← decoded setting text
    on_peers setting (get_peer setting address >>= or_connect_to address)

  unfoldable pub ping : Bytes → Command setting CommandResult
  unfolding connect_peer
  ping text = result setting (do
    address ← decoded setting text
    (p, _) ← on_peers setting (connect_peer setting address)
    on_peers setting (on_world setting (world.ping p))
    pure a_duration)

  unfoldable pub announce : Bytes → Command setting CommandResult
  unfolding connect_peer Requests.announce
  announce text =
      result setting
        (do p ← peer_at text; on_peers setting (Requests.announce setting p); pure nothing)

  unfoldable pub r_search : Bytes → Bytes → ℤ → Command setting CommandResult
  unfolding connect_peer Requests.search
  r_search text query page = result setting (do
    p ← peer_at text
    posts ← on_peers setting (Requests.search setting p query page)
    pure (found posts))

  -- A database of another peer that is mirrored is searched here.
  unfoldable pub peer_search : Bytes → Bytes → ℤ → Command setting CommandResult
  unfolding r_search
  peer_search text query page = do
    s ← the_server setting
    elim (s.peers.lp.databases text) [
      | none ↦ r_search text query page
      | some db ↦ result setting (do
        posts ← lift (map_err from_posts (search outside.posts query page (pos 25) db))
        pure (sourced text posts))
    ]

  -- `String` on each address, whose error is ignored.
  abbrev pub with_encoding : List Address → Command setting (List Address)
  with_encoding [] = pure []
  with_encoding (a ∷ rest) = do
    encoded ← lift (text_of (string_or outside.env.codec a a.encoded))
    others ← with_encoding rest
    pure (record a { encoded = encoded } ∷ others)

  unfoldable pub entry_search : Bytes → Bytes → ℤ → Command setting CommandResult
  unfolding search_peer
  entry_search name desc page = result setting (do
    found_addresses ← on_node setting (on_dht outside (search_peer outside.env name desc page))
    encoded ← with_encoding found_addresses
    pure (addresses encoded))

  -- Whether the text is that of the node's own address.
  abbrev pub is_own : Bytes → Command setting Bool
  is_own address = do
    s ← the_server setting
    own ← lift (text_of (string_or outside.env.codec s.peers.lp.address []))
    pure (bytes_eq address own)

  unfoldable pub peer_recent : Bytes → ℤ → Command setting CommandResult
  unfolding connect_peer Requests.recent query_recent
  peer_recent text page = result setting (do
    own ← is_own text
    if own
        then (do posts ← on_posts setting (query_recent outside.posts page); pure (own_posts posts))
        else (do
          p ← peer_at text
          posts ← on_peers setting (Requests.recent setting p page)
          pure (peer_posts posts)))

  unfoldable pub peer_popular : Bytes → ℤ → Command setting CommandResult
  unfolding connect_peer Requests.popular query_popular
  peer_popular text page = result setting (do
    own ← is_own text
    if own
        then (do
          posts ← on_posts setting (query_popular outside.posts page)
          pure (own_posts posts))
        else (do
          p ← peer_at text
          posts ← on_peers setting (Requests.popular setting p page)
          pure (peer_posts posts)))

  unfoldable pub get_mirror_progress : Bytes → Command setting CommandResult
  unfolding get
  get_mirror_progress address = result setting (do
    s ← the_server setting
    elim (get address s.mirror_progress) [
      | none ↦ lift (err mirror_not_in_progress)
      | some n ↦ pure (a_number n)
    ])

  -- `Resolve`, which forces the text of the entry's address.
  unfoldable pub resolve_entry : Bytes → Command setting CommandResult
  unfolding resolve
  resolve_entry text = result setting (do
    address ← decoded setting text
    e ← on_peers setting (resolve setting address)
    encoded ← lift (text_of (string_or outside.env.codec e.address e.address.encoded))
    pure (an_entry (record e { address = record e.address { encoded = encoded } })))

  unfoldable pub bootstrap : Bytes → Command setting CommandResult
  unfolding split connect_peer_direct Requests.bootstrap
  bootstrap address = result setting (do
    target ← lift (host_and_port (split 58 address))
    p ← on_peers setting (connect_peer_direct setting target)
    on_peers setting (Requests.bootstrap setting p)
    pure nothing)

  -- The loop of `Peers`. Each peer keeps the entry that it is asked for.
  unfoldable pub peer_entries : Map Peer → Pm setting (List Entry)
  unfolding entry_of put
  peer_entries [] = pure []
  peer_entries ((key, p) ∷ rest) = do
    (e, q) ← entry_of setting p
    keep_peer setting q
    others ← peer_entries rest
    pure (e ∷ others)

  unfoldable pub list_peers : Command setting CommandResult
  unfolding peer_entries
  list_peers = result setting (do
    s ← the_server setting
    others ← on_peers setting (peer_entries s.peers.peers)
    pure (entries (s.peers.lp.entry ∷ others)))

  -- `RequestAddPeer`: the remote peer of the command is not used, and the errors before the request
  -- are given with an ok.
  unfoldable pub request_add_peer : Bytes → Bytes → Command setting CommandResult
  unfolding connect_peer query_entry Requests.request_add_peer
  request_add_peer remote peer_text =
      attempt
        (do
          address ← decoded setting peer_text
          (p, _) ← on_peers setting (connect_peer setting address)
          e ← on_node setting (query_entry outside address)
          pure (p, e))
        (λ (p, e).
          result setting
            (do on_peers setting (Requests.request_add_peer setting p e); pure nothing))
        (λ e. pure (record { is_ok = true; value = nothing; error = some e }))
