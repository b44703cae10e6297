-- ===== src/Peers.antt =====
-- peer.go and peermanager.go: the peers that a node is connected to. The sessions, the streams on
-- them, the clock and the configuration are parameters: a stream is opened with all that the peer
-- will answer on it, so that a peer may answer anything.
pub mod Connecting
pub mod Resolving
pub mod Depth
pub mod Resolved
pub mod Mirror
pub mod Evicting
pub mod Stable
pub mod Reaching
pub mod Requested
pub mod Keyed
pub mod Seeds
pub mod Exploring
pub mod Requests
pub mod Managed
pub mod Incoming
use dfi.Prelude.{
  ℕ, zero, suc, Bool, true, false, Option, none, some, List, [], ◌∷◌, length, leb, not,
  if◌then◌else◌,
}
use dfi.Prelude.Int.{ℤ}
use dfi.Prelude.Outcome.{Outcome, ok, err, panic}
use dfi.Prelude.Action.{Action, map_err, within, pure, lift, attempt, ◌>>=◌, ◌>>◌}
use dfi.Dht.Address.{Address, Bytes, equals}
use dfi.Dht.Entry.{Entry}
use dfi.Dht.NetDb.{NetDb, DbError}
use dfi.Proto.Message.{ProtoError, Conn, Net}
use dfi.Proto.Handshake.{Party}
use dfi.Proto.Packing.{Packing}
use dfi.Proto.Client
use dfi.Proto.Bootstrap.{BootstrapError}
use dfi.Util.Maps.{Map, get, has, put, remove}
use dfi.Local.Node.{LocalPeer, LocalError, Outside}

pub data PeerError : Type 0 where
  from_proto : ProtoError → PeerError
  from_database : DbError → PeerError
  from_local : LocalError → PeerError
  from_bootstrap : BootstrapError → PeerError
  no_session unreachable recursion_limit unresolved no_entries is_self wrong_entry unresolved_text :
      PeerError

-- A peer with the entry that it was asked for, and whether the manager follows when it is seen.
pub record Peer : Type 0 where
  pub address : Address
  pub entry : Option Entry
  pub followed : Bool

-- What `Ping`, `OpenTCP`, `OpenStream`, `ConnectClient`, `ConnectServer`, `Terminate`, the clock and
-- `ExternalIp` do. `OpenTCP`
-- gives the entry of the handshake.
pub record World (W : Type 0) : Type 0 where
  pub ping : Peer → W → Outcome PeerError (Unit {0}) × W
  pub dial : Bytes → W → Outcome PeerError Entry × W
  pub open_stream : Peer → W → Outcome PeerError Conn × W
  pub connect_client : Peer → W → W
  pub connect_server : Peer → W → Outcome PeerError (Unit {0}) × W
  pub terminate : Peer → W → W
  pub now : W → ℤ × W
  pub external_ip : W → Bytes × W
  pub max_peers : ℕ

pub record PeerManager (W S D : Type 0) : Type 0 where
  pub peers : Map Peer
  pub seen : Map ℤ
  pub public_to_dfi : Map Address
  pub seed_managers : Map Entry
  pub lp : LocalPeer S D
  pub world : W

-- A node among the others.
pub record Setting (W S D : Type 0) : Type 0 where
  pub world : World W
  pub outside : Outside S D
  pub party : Party
  pub packing : Packing

module _ {W S D : Type 0} (setting : Setting W S D) where
  open setting use {world, party, packing}

  abbrev pub Pm : Type 0 → Type 0
  Pm = Action (PeerManager W S D) PeerError

  abbrev pub on_world : {A : Type 0} → Action W PeerError A → Pm A
  on_world = within (λ pm. pm.world) (λ w pm. record pm { world = w }) (λ e. e)

  -- A call of the world that has no outcome.
  abbrev pub tell : (W → W) → Pm (Unit {0})
  tell f pm = (ok tt, record pm { world = f pm.world })

  abbrev pub clock : Pm ℤ
  clock pm = let (t, w) = world.now pm.world in (ok t, record pm { world = w })

  abbrev pub the_manager : Pm (PeerManager W S D)
  the_manager pm = (ok pm, pm)

  abbrev pub see : Bytes → Pm (Unit {0})
  see key = do t ← clock; λ pm. (ok tt, record pm { seen = put key t pm.seen })

  -- `UpdateSeen`
  abbrev pub update_seen : Peer → Pm (Unit {0})
  update_seen p = if p.followed then see p.address.raw else pure tt

  -- `OpenStream` of a peer
  unfoldable pub open_stream : Peer → Pm Conn
  open_stream p = do on_world (world.ping p); update_seen p; on_world (world.open_stream p)

  -- A request on a stream of its own, behind a ping.
  abbrev pub request : {A : Type 0} → Peer → Net A → Pm A
  request p m = do
    on_world (world.ping p)
    conn ← open_stream p
    lift (map_err from_proto (m conn).0)

  -- `Query` and `FindClosest` of a peer
  unfoldable pub query : Peer → Address → Pm Entry
  unfolding open_stream
  query p address = request p (Client.query party packing address)

  unfoldable pub find_closest : Peer → Address → Pm (List (Option Entry))
  unfolding open_stream
  find_closest p address = request p (Client.find_closest party packing address)

  -- `GetEntry`: the entry, and the peer that keeps it.
  unfoldable pub get_entry : Peer → Pm (Entry × Peer)
  unfolding query
  get_entry p = do
    on_world (world.ping p)
    e ← query p p.address
    if not (equals e.address p.address)
        then lift (err wrong_entry)
        else pure (e, record p { entry = some e })

  -- `Entry`
  unfoldable pub entry_of : Peer → Pm (Entry × Peer)
  unfolding get_entry
  entry_of p = elim p.entry [ some e ↦ pure (e, p) | none ↦ get_entry p ]

  -- `GetPeer`
  abbrev pub get_peer : Address → Pm (Option Peer)
  get_peer addr pm = (ok (get addr.raw pm.peers), pm)

  -- The two removals of `HandleCloseConnection`.
  abbrev pub drop_peer : Bytes → Pm (Unit {0})
  drop_peer key pm = (ok tt, record pm { peers = remove key pm.peers; seen = remove key pm.seen })
