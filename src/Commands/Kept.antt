-- ===== src/Commands/Kept.antt =====
-- What every request of httpserver.go keeps of a node.
pub mod Calls
pub mod Own
pub mod Remote
use dfi.Prelude.{Bool, Option, none, some}
use dfi.Prelude.Int.{ℤ, word}
use dfi.Prelude.Action.{Keeps, Keeps-pure, Keeps-bind}
use dfi.Text.Decimal.{atoi}
use dfi.Dht.Address.{Bytes}
use dfi.Data.Post.{Post}
use dfi.Peers.{Setting}
use dfi.Commands.{Command, CommandResult, CommandServer}
use dfi.Commands.Suggest.{Unicode}
use dfi.Commands.Routes.{
  Request, refused, with_number, with_decoded, is_true, command_of, handle_request,
  write_http_response, ping_peer, announce_to, mirror_progress_of, resolve_address, bootstrap_from,
  search_remotely, search_peer, suggest_of, recent_of, popular_of, index_of, post_added, index_from,
  suggest_own, recent_own, popular_own, get_own, encode_raw, search_own, meta_added, add_peer_at,
  set_own, search_entries, seed_leech, collection_saved, peers_listed,
}
use dfi.Commands.Kept.Calls.{IsServing}
use dfi.Commands.Kept.Own.{
  add_post_and_index-Keeps, self_index-Keeps, peer_index-Keeps, self_search-Keeps,
  self_recent-Keeps, self_popular-Keeps, add_meta_to-Keeps, save_collection-Keeps,
  set_seed_leech-Keeps, local_set-Keeps, local_get-Keeps, address_encode-Keeps, self_suggest-Keeps,
  peer_suggest-Keeps,
}
use dfi.Commands.Kept.Remote.{
  ping-Keeps, announce-Keeps, r_search-Keeps, peer_search-Keeps, entry_search-Keeps,
  peer_recent-Keeps, peer_popular-Keeps, get_mirror_progress-Keeps, resolve_entry-Keeps,
  bootstrap-Keeps, list_peers-Keeps, request_add_peer-Keeps,
}

module _ {W S D : Type 0} (setting : Setting W S D) (to_lower : Bytes → Bytes) (unicode : Unicode)
    (decode_post : Bytes → Option Post) (base64 : Bytes → Option Bytes) where
  with_number-Keeps :
      (text : Bytes) (f : ℤ → Command setting CommandResult)
      → ((n : ℤ) → Keeps IsServing (f n))
      → Keeps IsServing (with_number setting to_lower unicode decode_post base64 text f)
  with_number-Keeps text f k =
      elim (atoi text)
        as (λ o. Keeps IsServing (elim o as (λ _. Command setting CommandResult) [
          | none ↦ refused setting to_lower unicode decode_post base64
          | some n ↦ f n
        ])) [ none ↦ Keeps-pure _ | some n ↦ k n ]

  with_decoded-Keeps :
      {A : Type 0} (o : Option A) (f : A → Command setting CommandResult)
      → ((a : A) → Keeps IsServing (f a))
      → Keeps IsServing (with_decoded setting to_lower unicode decode_post base64 o f)
  with_decoded-Keeps none f k = Keeps-pure _
  with_decoded-Keeps (some a) f k = k a

  command_of-Keeps :
      (r : Request) → Keeps IsServing (command_of setting to_lower unicode decode_post base64 r)
  unfolding command_of
  command_of-Keeps (ping_peer a) = ping-Keeps setting a
  command_of-Keeps (announce_to a) = announce-Keeps setting a
  command_of-Keeps (mirror_progress_of a) = get_mirror_progress-Keeps setting a
  command_of-Keeps (resolve_address a) = resolve_entry-Keeps setting a
  command_of-Keeps (bootstrap_from a) = bootstrap-Keeps setting a
  command_of-Keeps (search_remotely a query page) =
      with_number-Keeps page _ (r_search-Keeps setting a query)
  command_of-Keeps (search_peer a query page) =
      with_number-Keeps page _ (peer_search-Keeps setting a query)
  command_of-Keeps (suggest_of a query) = peer_suggest-Keeps setting to_lower unicode a query
  command_of-Keeps (recent_of a page) = with_number-Keeps page _ (peer_recent-Keeps setting a)
  command_of-Keeps (popular_of a page) = with_number-Keeps page _ (peer_popular-Keeps setting a)
  command_of-Keeps (index_of a since) =
      with_number-Keeps since _ (peer_index-Keeps setting to_lower unicode a)
  command_of-Keeps (post_added post index) = with_decoded-Keeps (decode_post post) _ λ p.
      add_post_and_index-Keeps setting to_lower unicode p
        (is_true setting to_lower unicode decode_post base64 index)
  command_of-Keeps (index_from since) =
      with_number-Keeps since _ (self_index-Keeps setting to_lower unicode)
  command_of-Keeps (suggest_own query) = self_suggest-Keeps setting to_lower unicode query
  command_of-Keeps (recent_own page) =
      with_number-Keeps page _ (self_recent-Keeps setting to_lower unicode)
  command_of-Keeps (popular_own page) =
      with_number-Keeps page _ (self_popular-Keeps setting to_lower unicode)
  command_of-Keeps (get_own key) = local_get-Keeps setting to_lower unicode key
  command_of-Keeps (encode_raw raw) =
      with_decoded-Keeps (base64 raw) _ (address_encode-Keeps setting to_lower unicode)
  command_of-Keeps (search_own query page) =
      with_number-Keeps page _ (self_search-Keeps setting to_lower unicode query)
  command_of-Keeps (meta_added pid meta) =
      with_number-Keeps pid _ λ n. add_meta_to-Keeps setting to_lower unicode n meta
  command_of-Keeps (add_peer_at remote peer) = request_add_peer-Keeps setting remote peer
  command_of-Keeps (set_own key value) = local_set-Keeps setting to_lower unicode key value
  command_of-Keeps (search_entries name desc page) =
      with_number-Keeps page _ (entry_search-Keeps setting name desc)
  command_of-Keeps (seed_leech id seed leech) = with_number-Keeps id _ λ i.
      with_number-Keeps seed _ λ s.
        with_number-Keeps leech _
          λ l. set_seed_leech-Keeps setting to_lower unicode (word i) (word s) (word l)
  command_of-Keeps collection_saved = save_collection-Keeps setting to_lower unicode
  command_of-Keeps peers_listed = list_peers-Keeps setting

  -- On a node whose routing table is well formed, and which keeps each peer under its own address,
  -- both still hold after any request to the HTTP server on the routes that are modelled, however the
  -- request ends. Those are all but mirror, explore, rebuild, map, the two profiles and the index.
  pub handle_request-IsServing :
      (r : Request) (s : CommandServer W S D)
      → IsServing s
      → IsServing (handle_request setting to_lower unicode decode_post base64 r s).1
  unfolding handle_request
  handle_request-IsServing r s h =
      (Keeps-bind (command_of-Keeps r) λ answer. Keeps-pure (write_http_response answer)).at s h
