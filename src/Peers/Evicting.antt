-- ===== src/Peers/Evicting.antt =====
-- The loop at the end of `SetPeer` that makes room for a new peer.
use dfi.Prelude.{
  ◌≤◌, ◌≡◌, refl, sym, true, none, some, [], ◌∷◌, ◌++◌, length, ◌⊎◌, inl, inr, if◌then◌else◌,
}
use dfi.Prelude.Int.{ℤ}
use dfi.Dht.Address.{Bytes}
use dfi.Data.Post.{later}
use dfi.Util.Maps.{Map, get, put, remove, get-remove, get-put}
use dfi.Peers.{Peer, Setting, PeerManager}
use dfi.Peers.Connecting.{oldest}

oldest_cons-append :
    (now : ℤ) (m : Map ℤ) (k key : Bytes) (t : ℤ)
    → later now t ≡ true
    → oldest now (m ++ (k, t) ∷ []) key ≡ k
unfolding oldest
oldest_cons-append now [] k key t h = rw h refl
oldest_cons-append now ((j, u) ∷ m) k key t h =
    oldest_cons-append now m k (if later now u then j else key) t h

-- Each peer is kept under its own address.
abbrev pub AreKeyed : Map Peer → Type 0
AreKeyed m = (k : Bytes) (p : Peer) → get k m ≡ some p → p.address.raw ≡ k

pub remove-AreKeyed : (k : Bytes) (m : Map Peer) → AreKeyed m → AreKeyed (remove k m)
remove-AreKeyed k m h j p e = h j p (get-remove j k m p e)

pub put-AreKeyed : (p : Peer) (m : Map Peer) → AreKeyed m → AreKeyed (put p.address.raw p m)
put-AreKeyed p m h k q e = elim (get-put k p.address.raw m p q e) [
  | inl (same, it) ↦ rw it (sym same)
  | inr there ↦ h k q there
]

module _ {W S D : Type 0} (setting : Setting W S D) where
  open setting use {world}

  -- The loop ended by its condition, or by its `break` at the time of the last reading of the clock.
  abbrev pub Stopped : PeerManager W S D → Type 0
  Stopped pm =
      (length pm.peers ≤ world.max_peers)
      ⊎ ((w : W) × (now : ℤ) × (world.now w ≡ (now, pm.world))
          × (get (oldest now pm.seen []) pm.peers ≡ none))

  -- The key that is picked to be removed is the last one of the iteration with a time before now,
  -- whenever the others were seen: it need not be the one that was seen least recently.
  pub oldest-append :
      (now : ℤ) (m : Map ℤ) (k : Bytes) (t : ℤ)
      → later now t ≡ true
      → oldest now (m ++ (k, t) ∷ []) [] ≡ k
  oldest-append now m k t h = oldest_cons-append now m k [] t h
