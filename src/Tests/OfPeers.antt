-- ===== src/Tests/OfPeers.antt =====
-- The peers of a node.
use dfi.Prelude.{ℕ, ◌≡◌, refl, arith, true, some, List, [], ◌∷◌, replicate, bytes_eq}
use dfi.Prelude.Int.{pos}
use dfi.Prelude.Outcome.{ok, err, panic}
use dfi.Dht.Address.{equals, string}
use dfi.Dht.NetDb.Reading
use dfi.Util.Maps.{put, get}
use dfi.Local.Node.{query_entry}
use dfi.Proto.Client
use dfi.Proto.Message.{proto_dht_query, read_message, write_message}
use dfi.Proto.Honest.{opened, carrying}
use dfi.Peers.{Peer, PeerManager, Setting, get_entry, query, open_stream}
use dfi.Peers.Incoming.{handle_handshake, HasEntry, handle_handshake-HasEntry}
use dfi.Peers.Requests.{add_seed_manager}
use dfi.Peers.Managed.{IsManaged, add_seed_manager-again}
use dfi.Peers.Connecting.{evict, oldest, connect_peer_direct}
use dfi.Peers.Evicting.{AreKeyed, put-AreKeyed}
use dfi.Peers.Keyed.{Keyed, connect_peer_direct-Keyed}
use dfi.Peers.Resolving.{resolve, resolve_step, resolve_among}
use dfi.Peers.Depth.{resolve_step-one, ask_first, resolve_among-ask_first}
use dfi.Peers.Resolved.{Resolved, resolve-Resolved}
use dfi.Dht.NetDb.{failed}
use dfi.Peers.Seeds.{judge_seed, linked, unresolved, Seeds, prune}
use dfi.Peers.Seeds.Pruned.{none_left, next_linked, prune-panic}
use dfi.Tests.Fixtures.{sql, env, node, self, signed, signed_verified}
use dfi.Tests.OfDatabase.{insert_known_case}
use dfi.Tests.Nodes.{world, setting, outside, manager, peer, local}

resolve_step-one_case :
    resolve_step setting 7 (node 3) (some signed) ≡ resolve_step setting 1 (node 3) (some signed)
resolve_step-one_case = resolve_step-one setting 6 (node 3) (some signed)

resolve_among-ask_first_example :
    resolve_among setting (node 3) (replicate 20 (some signed)) (manager 0)
    ≡ ask_first setting 6 (node 3) (replicate 20 (some signed)) (manager 0)
resolve_among-ask_first_example =
    resolve_among-ask_first setting (node 3) (replicate 20 (some signed)) (manager 0)

self_resolved : (resolve setting self (manager 1)).0 ≡ ok signed
unfolding resolve equals bytes_eq
self_resolved = refl

resolve-Resolved_example : Resolved setting self (manager 1) signed
resolve-Resolved_example = resolve-Resolved setting self (manager 1) signed self_resolved

empty-AreKeyed : AreKeyed []
unfolding get
empty-AreKeyed k p e = cc

abbrev pub two_peers : PeerManager ℕ ℕ (List dfi.Data.Post.Post)
two_peers = record (manager 1) {
  peers = put (node 4).raw (peer 4) (put (node 3).raw (peer 3) []);
  seen = ((node 3).raw, pos 1) ∷ ((node 4).raw, pos 2) ∷ [];
}

pub two_peers-AreKeyed : AreKeyed two_peers.peers
two_peers-AreKeyed =
    put-AreKeyed (peer 4) (put (node 3).raw (peer 3) []) (put-AreKeyed (peer 3) [] empty-AreKeyed)

connect_peer_direct-Keyed_example : Keyed (connect_peer_direct setting (49 ∷ []) two_peers).1
connect_peer_direct-Keyed_example =
    connect_peer_direct-Keyed setting (49 ∷ []) two_peers two_peers-AreKeyed

-- A node that seeds the tracked peer, with a database that fails on every address.
abbrev failing : Setting ℕ ℕ (List dfi.Data.Post.Post)
failing = record setting {
  outside = record outside {
    env = record env { sql = record sql { query_address = λ n t. err failed } };
  };
}

abbrev seeding_node : PeerManager ℕ ℕ (List dfi.Data.Post.Post)
seeding_node = record (manager 0) {
  lp = record (local 0) { entry = record signed { seeding = (node 7).raw ∷ [] } };
}

-- The node itself is the first of the new seeds, and the second has no entry.
abbrev two_seeds : Seeds
two_seeds = record { array = self.raw ∷ (node 6).raw ∷ [] ∷ []; len = 2 }

self_linked : judge_seed failing (node 7) self.raw seeding_node ≡ (ok linked, seeding_node)
unfolding resolve equals bytes_eq
self_linked = refl

second_unresolved :
    judge_seed failing (node 7) (node 6).raw seeding_node ≡ (ok unresolved, seeding_node)
unfolding resolve equals bytes_eq Reading.query string
second_unresolved = refl

prune-panic_example : (prune (judge_seed failing (node 7)) 2 0 two_seeds seeding_node).0 ≡ panic
prune-panic_example =
    prune-panic (judge_seed failing (node 7)) two_seeds 1 seeding_node seeding_node seeding_node
      refl (omega arith) (next_linked self_linked none_left) second_unresolved

-- Each peer answers with the signed entry.
abbrev answering : Setting ℕ ℕ (List dfi.Data.Post.Post)
answering = record setting {
  world = record world {
    open_stream = λ p n. (ok (opened (carrying proto_dht_query (1 ∷ []) ∷ [])), n);
  };
}

abbrev came_in : Peer
came_in = record { address = signed.address; entry = some signed; followed = true }

handshake_handled : (handle_handshake answering signed (manager 1)).0 ≡ ok came_in
unfolding handle_handshake get_entry query open_stream Client.query read_message write_message evict
    oldest put get equals bytes_eq
handshake_handled = rw (signed_verified, insert_known_case.0) refl

handle_handshake-HasEntry_example : HasEntry answering signed.address came_in
handle_handshake-HasEntry_example =
    handle_handshake-HasEntry answering signed (manager 1) came_in handshake_handled

self_managed : (add_seed_manager setting self (manager 1)).0 ≡ ok tt
unfolding add_seed_manager query_entry equals bytes_eq get
self_managed = refl

self_kept_again :
    let (_, pm) = add_seed_manager setting self (manager 1) in
    IsManaged setting self.raw pm × (add_seed_manager setting self pm ≡ (ok tt, pm))
self_kept_again = add_seed_manager-again setting self (manager 1) self_managed
