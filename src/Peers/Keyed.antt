-- ===== src/Peers/Keyed.antt =====
-- Every call keeps each peer under its own address.
use dfi.Dht.Address.{Bytes}
use dfi.Peers.{Setting, PeerManager}
use dfi.Peers.Connecting.{connect_peer_direct}
use dfi.Peers.Evicting.{AreKeyed, remove-AreKeyed, put-AreKeyed}
use dfi.Peers.Stable.{IsStable, connect_peer_direct-Keeps}

abbrev pub Keyed : {W S D : Type 0} → PeerManager W S D → Type 0
Keyed pm = AreKeyed pm.peers

pub Keyed-IsStable : {W S D : Type 0} → IsStable {W = W} {S = S} {D = D} Keyed
Keyed-IsStable = record {
  world_changes = λ pm w h. h;
  is_seen = λ pm m h. h;
  is_public = λ pm m h. h;
  is_managed = λ pm m h. h;
  is_put = λ pm p h. put-AreKeyed p pm.peers h;
  is_dropped = λ pm key h. remove-AreKeyed key pm.peers h;
  local_changes = λ pm lp t h. h;
}

module _ {W S D : Type 0} (setting : Setting W S D) where
  -- `ConnectPeerDirect` leaves each peer under its own address if each was, whatever the peer
  -- answers and however the call ends.
  pub connect_peer_direct-Keyed :
      (addr : Bytes) (pm : PeerManager W S D)
      → Keyed pm
      → Keyed (connect_peer_direct setting addr pm).1
  connect_peer_direct-Keyed addr pm h =
      (connect_peer_direct-Keeps setting Keyed Keyed-IsStable addr).at pm h
