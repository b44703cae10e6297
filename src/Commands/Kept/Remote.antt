-- ===== src/Commands/Kept/Remote.antt =====
-- What the commands that reach other peers keep.
use dfi.Prelude.{Option, none, some, List, [], ◌∷◌}
use dfi.Prelude.Int.{ℤ, pos}
use dfi.Prelude.Outcome.{err}
use dfi.Prelude.Action.{
  Keeps, Keeps-pure, Keeps-lift, Keeps-bind, Keeps-attempt, Keeps-if, map_err, pure, lift, ◌>>=◌,
}
use dfi.Dht.Address.{Address, Bytes, string_or}
use dfi.Dht.NetDb.Reading.{search_peer}
use dfi.Dht.NetDb.Invariant.{search_peer-IsDb}
use dfi.Data.Database.{search, query_recent, query_popular}
use dfi.Proto.Client.{text_of}
use dfi.Util.Maps.{Map, get}
use dfi.Local.Kept.{on_dht-Keeps}
use dfi.Peers.{Peer, Setting}
use dfi.Peers.Connecting.{keep_peer}
use dfi.Peers.Stable.{on_world-Keeps, entry_of-Keeps, connect_peer_direct-Keeps}
use dfi.Peers.Reaching.{resolve-Keeps}
use dfi.Peers.Requested
use dfi.Peers.Requested.{entry_queried-Keeps}
use dfi.Commands.{
  Command, CommandResult, Value, result, nothing, a_duration, a_number, found, peer_posts,
  own_posts, entries, addresses, from_posts, mirror_not_in_progress,
}
use dfi.Commands.Remote.{
  sourced, split, host_and_port, ping, announce, r_search, peer_search, with_encoding, entry_search,
  peer_recent, peer_popular, get_mirror_progress, resolve_entry, bootstrap, peer_entries,
  list_peers, request_add_peer,
}
use dfi.Commands.Kept.Calls.{
  Good, Good-IsStable, IsServing, on_peers-Keeps, on_node-Keeps, the_server-Keeps, on_posts-Keeps,
  decoded-Keeps, result-Keeps, reached-Keeps, peer_at-Keeps, is_own-Keeps,
}

module _ {W S D : Type 0} (setting : Setting W S D) where
  open setting use {outside, world}

  pub ping-Keeps : (text : Bytes) → Keeps IsServing (ping setting text)
  unfolding ping
  ping-Keeps text = result-Keeps setting _ (
      Keeps-bind (decoded-Keeps setting text) λ address.
        Keeps-bind (reached-Keeps setting address) λ (p, e).
          Keeps-bind
            (on_peers-Keeps setting _ (on_world-Keeps setting Good Good-IsStable (world.ping p)))
            λ _. Keeps-pure a_duration)

  pub announce-Keeps : (text : Bytes) → Keeps IsServing (announce setting text)
  unfolding announce
  announce-Keeps text = result-Keeps setting _ (
      Keeps-bind (peer_at-Keeps setting text) λ p.
        Keeps-bind
          (on_peers-Keeps setting _ (Requested.announce-Keeps setting Good Good-IsStable p))
          λ _. Keeps-pure nothing)

  pub r_search-Keeps :
      (text query : Bytes) (page : ℤ) → Keeps IsServing (r_search setting text query page)
  unfolding r_search
  r_search-Keeps text query page = result-Keeps setting _ (
      Keeps-bind (peer_at-Keeps setting text) λ p.
        Keeps-bind
          (on_peers-Keeps setting _
            (Requested.search-Keeps setting Good Good-IsStable p query page))
          λ posts. Keeps-pure (found posts))

  pub peer_search-Keeps :
      (text query : Bytes) (page : ℤ) → Keeps IsServing (peer_search setting text query page)
  unfolding peer_search
  peer_search-Keeps text query page =
      Keeps-bind (the_server-Keeps setting) λ s. searched (s.peers.lp.databases text)
    where
      searched :
          (o : Option D)
          → Keeps IsServing (elim o as (λ _. Command setting CommandResult) [
            | none ↦ r_search setting text query page
            | some db ↦ result setting (do
              posts ← lift (map_err from_posts (search outside.posts query page (pos 25) db))
              pure (sourced text posts))
          ])
      searched none = r_search-Keeps text query page
      searched (some db) = result-Keeps setting _ (
          Keeps-bind (Keeps-lift (map_err from_posts (search outside.posts query page (pos 25) db)))
            λ posts. Keeps-pure (sourced text posts))

  with_encoding-Keeps : (l : List Address) → Keeps IsServing (with_encoding setting l)
  with_encoding-Keeps [] = Keeps-pure []
  with_encoding-Keeps (a ∷ rest) =
      Keeps-bind (Keeps-lift (text_of (string_or outside.env.codec a a.encoded)))
        λ encoded. Keeps-bind (with_encoding-Keeps rest) λ others. Keeps-pure _

  pub entry_search-Keeps :
      (name desc : Bytes) (page : ℤ) → Keeps IsServing (entry_search setting name desc page)
  unfolding entry_search
  entry_search-Keeps name desc page = result-Keeps setting _ (
      Keeps-bind
        (on_node-Keeps setting _ (
          on_dht-Keeps outside (search_peer outside.env name desc page)
            (search_peer-IsDb outside.env name desc page)))
        λ found_addresses.
          Keeps-bind (with_encoding-Keeps found_addresses)
            λ encoded. Keeps-pure (addresses encoded))

  pub peer_recent-Keeps :
      (text : Bytes) (page : ℤ) → Keeps IsServing (peer_recent setting text page)
  unfolding peer_recent
  peer_recent-Keeps text page = result-Keeps setting _ (
      Keeps-bind (is_own-Keeps setting text) λ own.
        Keeps-if own
          (Keeps-bind (on_posts-Keeps setting (query_recent outside.posts page))
            λ posts. Keeps-pure (own_posts posts))
          (Keeps-bind (peer_at-Keeps setting text) λ p.
            Keeps-bind
              (on_peers-Keeps setting _ (Requested.recent-Keeps setting Good Good-IsStable p page))
              λ posts. Keeps-pure (peer_posts posts)))

  pub peer_popular-Keeps :
      (text : Bytes) (page : ℤ) → Keeps IsServing (peer_popular setting text page)
  unfolding peer_popular
  peer_popular-Keeps text page = result-Keeps setting _ (
      Keeps-bind (is_own-Keeps setting text) λ own.
        Keeps-if own
          (Keeps-bind (on_posts-Keeps setting (query_popular outside.posts page))
            λ posts. Keeps-pure (own_posts posts))
          (Keeps-bind (peer_at-Keeps setting text) λ p.
            Keeps-bind
              (on_peers-Keeps setting _ (Requested.popular-Keeps setting Good Good-IsStable p page))
              λ posts. Keeps-pure (peer_posts posts)))

  pub get_mirror_progress-Keeps :
      (address : Bytes) → Keeps IsServing (get_mirror_progress setting address)
  unfolding get_mirror_progress
  get_mirror_progress-Keeps address =
      result-Keeps setting _
        (Keeps-bind (the_server-Keeps setting) λ s. progress (get address s.mirror_progress))
    where
      progress :
          (o : Option ℤ)
          → Keeps IsServing (elim o as (λ _. Command setting Value) [
            | none ↦ lift (err mirror_not_in_progress)
            | some n ↦ pure (a_number n)
          ])
      progress none = Keeps-lift (err mirror_not_in_progress)
      progress (some n) = Keeps-pure (a_number n)

  pub resolve_entry-Keeps : (text : Bytes) → Keeps IsServing (resolve_entry setting text)
  unfolding resolve_entry
  resolve_entry-Keeps text = result-Keeps setting _ (
      Keeps-bind (decoded-Keeps setting text) λ address.
        Keeps-bind (on_peers-Keeps setting _ (resolve-Keeps setting Good Good-IsStable address))
          λ e.
            Keeps-bind
              (Keeps-lift (text_of (string_or outside.env.codec e.address e.address.encoded)))
              λ encoded. Keeps-pure _)

  pub bootstrap-Keeps : (address : Bytes) → Keeps IsServing (bootstrap setting address)
  unfolding bootstrap
  bootstrap-Keeps address = result-Keeps setting _ (
      Keeps-bind (Keeps-lift (host_and_port (split 58 address))) λ target.
        Keeps-bind
          (on_peers-Keeps setting _ (connect_peer_direct-Keeps setting Good Good-IsStable target))
          λ p.
            Keeps-bind
              (on_peers-Keeps setting _ (Requested.bootstrap-Keeps setting Good Good-IsStable p))
              λ _. Keeps-pure nothing)

  peer_entries-Keeps : (m : Map Peer) → Keeps Good (peer_entries setting m)
  unfolding peer_entries
  peer_entries-Keeps [] = Keeps-pure []
  peer_entries-Keeps ((key, p) ∷ rest) =
      Keeps-bind (entry_of-Keeps setting Good Good-IsStable p) λ (e, q).
        Keeps-bind {m = keep_peer setting q} (record { at = λ pm h. Good-IsStable.is_put pm q h })
          λ _. Keeps-bind (peer_entries-Keeps rest) λ others. Keeps-pure (e ∷ others)

  pub list_peers-Keeps : Keeps IsServing (list_peers setting)
  unfolding list_peers
  list_peers-Keeps = result-Keeps setting _ (
      Keeps-bind (the_server-Keeps setting) λ s.
        Keeps-bind (on_peers-Keeps setting _ (peer_entries-Keeps s.peers.peers))
          λ others. Keeps-pure (entries (s.peers.lp.entry ∷ others)))

  pub request_add_peer-Keeps :
      (remote text : Bytes) → Keeps IsServing (request_add_peer setting remote text)
  unfolding request_add_peer
  request_add_peer-Keeps remote text =
      Keeps-attempt
        (Keeps-bind (decoded-Keeps setting text) λ address.
          Keeps-bind (reached-Keeps setting address) λ (p, unused).
            Keeps-bind
              (on_peers-Keeps setting _ (entry_queried-Keeps setting Good Good-IsStable address))
              λ e. Keeps-pure (p, e))
        (λ (p, e). result-Keeps setting _ (
          Keeps-bind
            (on_peers-Keeps setting _
              (Requested.request_add_peer-Keeps setting Good Good-IsStable p e))
            λ _. Keeps-pure nothing))
        (λ e. Keeps-pure _)
