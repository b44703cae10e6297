-- ===== src/Commands/Kept/Calls.antt =====
-- What the calls of the commands keep: the routing table stays well formed, and each peer stays
-- under its own address.
use dfi.Prelude.{Option, none, some, [], bytes_eq}
use dfi.Prelude.Outcome.{Outcome}
use dfi.Prelude.Action.{
  Keeps, Keeps-pure, Keeps-lift, Keeps-bind, Keeps-attempt, map_err, pure, ◌>>=◌, ◌>>◌,
}
use dfi.Dht.Address.{Address, Bytes, decode_address, string_or}
use dfi.Data.Database.{QueryError}
use dfi.Proto.Client.{text_of}
use dfi.Local.Kept.{HasTable}
use dfi.Local.Node.{Node}
use dfi.Peers.{Peer, Setting, PeerManager, Pm, get_peer}
use dfi.Peers.Evicting.{AreKeyed, put-AreKeyed, remove-AreKeyed}
use dfi.Peers.Resolving.{connect_peer}
use dfi.Peers.Stable.{IsStable, on_local-Keeps}
use dfi.Peers.Reaching.{get_peer-Keeps, connect_peer-Keeps}
use dfi.Commands.{
  Command, CommandServer, Value, on_peers, on_node, on_posts, change_posts, the_server, decoded,
  result, from_address, nothing,
}
use dfi.Commands.Remote.{or_connect_to, peer_at, is_own}

abbrev pub Good : {W S D : Type 0} → PeerManager W S D → Type 0
Good pm = HasTable pm.lp × AreKeyed pm.peers

pub Good-IsStable : {W S D : Type 0} → IsStable {W = W} {S = S} {D = D} Good
Good-IsStable = record {
  world_changes = λ pm w h. h;
  is_seen = λ pm m h. h;
  is_public = λ pm m h. h;
  is_managed = λ pm m h. h;
  is_put = λ pm p h. (h.0, put-AreKeyed p pm.peers h.1);
  is_dropped = λ pm key h. (h.0, remove-AreKeyed key pm.peers h.1);
  local_changes = λ pm lp t h. (t h.0, h.1);
}

-- A command server whose node is well formed.
abbrev pub IsServing : {W S D : Type 0} → CommandServer W S D → Type 0
IsServing s = Good s.peers

module _ {W S D : Type 0} (setting : Setting W S D) where
  open setting use {outside}

  pub on_peers-Keeps :
      {A : Type 0} (m : Pm setting A) → Keeps Good m → Keeps IsServing (on_peers setting m)
  on_peers-Keeps m k = record { at = λ s h. k.at s.peers h }

  pub on_node-Keeps :
      {A : Type 0} (m : Node outside A) → Keeps HasTable m → Keeps IsServing (on_node setting m)
  on_node-Keeps m k = on_peers-Keeps _ (on_local-Keeps setting Good Good-IsStable m k)

  pub the_server-Keeps : Keeps IsServing (the_server setting)
  the_server-Keeps = record { at = λ s h. h }

  pub on_posts-Keeps :
      {A : Type 0} (f : D → Outcome QueryError A) → Keeps IsServing (on_posts setting f)
  on_posts-Keeps f = record { at = λ s h. h }

  pub change_posts-Keeps :
      (f : D → Outcome QueryError (Unit {0}) × D) → Keeps IsServing (change_posts setting f)
  change_posts-Keeps f = record { at = λ s h. h }

  pub decoded-Keeps : (address : Bytes) → Keeps IsServing (decoded setting address)
  decoded-Keeps address =
      Keeps-lift (map_err from_address (decode_address outside.env.codec address))

  pub result-Keeps :
      (m : Command setting Value) → Keeps IsServing m → Keeps IsServing (result setting m)
  result-Keeps m k = Keeps-attempt k (λ v. record { at = λ s h. h }) (λ e. record { at = λ s h. h })

  -- A call that gives no value.
  pub done-Keeps :
      {A : Type 0} (m : Command setting A)
      → Keeps IsServing m
      → Keeps IsServing (result setting (m >> pure nothing))
  done-Keeps m k = result-Keeps (m >> pure nothing) (Keeps-bind k λ _. Keeps-pure nothing)

  pub reached-Keeps :
      (address : Address) → Keeps IsServing (on_peers setting (connect_peer setting address))
  reached-Keeps address =
      on_peers-Keeps (connect_peer setting address)
        (connect_peer-Keeps setting Good Good-IsStable address)

  or_connect_to-Keeps :
      (address : Address) (o : Option Peer) → Keeps Good (or_connect_to setting address o)
  or_connect_to-Keeps address (some p) = Keeps-pure p
  or_connect_to-Keeps address none =
      Keeps-bind (connect_peer-Keeps setting Good Good-IsStable address) λ (p, e). Keeps-pure p

  pub peer_at-Keeps : (address : Bytes) → Keeps IsServing (peer_at setting address)
  peer_at-Keeps address = Keeps-bind (decoded-Keeps address) λ a.
      on_peers-Keeps (get_peer setting a >>= or_connect_to setting a)
        (Keeps-bind (get_peer-Keeps setting Good Good-IsStable a) (or_connect_to-Keeps a))

  pub is_own-Keeps : (address : Bytes) → Keeps IsServing (is_own setting address)
  is_own-Keeps address = Keeps-bind the_server-Keeps λ s.
      Keeps-bind (Keeps-lift (text_of (string_or outside.env.codec s.peers.lp.address [])))
        λ own. Keeps-pure (bytes_eq address own)
