-- ===== src/Peers/Incoming.antt =====
-- `HandleHandshake` of localpeerhandlers.go: a peer that connected to the node, with the entry that
-- it proved to be its own.
use dfi.Prelude.{◌≡◌, refl, subst, true, false, Option, none, some, inl, inr, Bool-cases}
use dfi.Prelude.Outcome.{ok}
use dfi.Prelude.Action.{pure, ◌>>=◌, ◌>>◌}
use dfi.Prelude.Returns.{
  Returns, Returns-pure, Returns-if, Returns-after, Returns-bind, Returns-caught, Returns-ok,
}
use dfi.Dht.Address.{Address, equals}
use dfi.Dht.Entry.{Entry}
use dfi.Util.Maps.{has}
use dfi.Peers.{Peer, Setting, PeerManager, Pm, on_world, the_manager, get_entry, entry_of, see}
use dfi.Peers.Connecting.{set_peer, keep_public, keep_peer, evict_all, insert_ignored}
use dfi.Peers.Resolved.{GivenBy, answered}

module _ {W S D : Type 0} (setting : Setting W S D) where
  open setting use {world, outside, party, packing}

  -- `SetTCP`: the peer of an entry that was received in a handshake.
  abbrev pub incoming : Entry → Peer
  incoming e = record { address = e.address; entry = none; followed = false }

  -- `HandleHandshake`. That the peer is kept may fail without an error.
  unfoldable pub handle_handshake : Entry → Pm setting Peer
  unfolding set_peer entry_of
  handle_handshake proved = do
    on_world setting (world.connect_server (incoming proved))
    p ← set_peer setting (incoming proved)
    (e, q) ← entry_of setting p
    insert_ignored setting e
    pure q

  -- An entry of the address that a peer at the address sent when it was asked for it.
  abbrev pub OwnSent : Address → Entry → Type 0
  OwnSent addr e =
      (q : Peer) × (q.address ≡ addr) × GivenBy setting q addr e × (equals e.address addr ≡ true)

  -- A peer at the address, with such an entry.
  abbrev pub HasEntry : Address → Peer → Type 0
  HasEntry addr p = (p.address ≡ addr) × ((e : Entry) × (p.entry ≡ some e) × OwnSent addr e)

  abbrev HasNoOther : Address → Peer → Type 0
  HasNoOther addr p = (p.address ≡ addr) × ((e : Entry) → p.entry ≡ some e → OwnSent addr e)

  get_entry-HasEntry : (p : Peer) → Returns (λ t. HasEntry p.address t.1) (get_entry setting p)
  unfolding get_entry
  get_entry-HasEntry p = Returns-after (on_world setting (world.ping p)) λ _.
      Returns-bind (answered setting p p.address) λ e accepted.
        elim (Bool-cases (equals e.address p.address)) [
          | inl same ↦ rw same (
              Returns-pure (e, record p { entry = some e })
                (refl, (e, refl, (p, refl, accepted, same))))
          | inr other ↦ rw other (record { at = λ pm. tt })
        ]

  kept_or_asked :
      (addr : Address) (p : Peer) (o : Option Entry)
      → p.address ≡ addr
      → ((e : Entry) → o ≡ some e → HasEntry addr p)
      → Returns
          (λ t. HasEntry addr t.1)
          (elim o as (λ _. Pm setting (Entry × Peer)) [
            | some e ↦ pure (e, p)
            | none ↦ get_entry setting p
          ])
  kept_or_asked addr p (some e) at h = Returns-pure (e, p) (h e refl)
  kept_or_asked addr p none at h =
      subst (λ a. Returns (λ t. HasEntry a t.1) (get_entry setting p)) at (get_entry-HasEntry p)

  entry_of-HasEntry :
      (addr : Address) (p : Peer)
      → HasNoOther addr p
      → Returns (λ t. HasEntry addr t.1) (entry_of setting p)
  unfolding entry_of
  entry_of-HasEntry addr p (at, sent) =
      kept_or_asked addr p p.entry at λ e kept. (at, (e, kept, sent e kept))

  entry-HasNoOther : (addr : Address) (p : Peer) → HasEntry addr p → HasNoOther addr p
  entry-HasNoOther addr p (at, (e, kept, sent)) =
      (at, λ x other. let same : e ≡ x = cc (kept, other) in subst (OwnSent addr) same sent)

  set_peer-HasNoOther :
      (addr : Address) (p : Peer)
      → HasNoOther addr p
      → Returns (HasNoOther addr) (set_peer setting p)
  unfolding set_peer
  set_peer-HasNoOther addr p h = Returns-after (the_manager setting) λ pm.
      Returns-if (has p.address.raw pm.peers) (Returns-pure p h) (
        Returns-caught (entry_of-HasEntry addr p h)
          (λ (e, q) known. Returns-after (keep_public setting e.public_address q.address) λ _.
            Returns-after (keep_peer setting (record q { followed = true })) λ _.
              Returns-after (see setting q.address.raw) λ _. Returns-after (evict_all setting) λ _.
                let p' : Peer = record q { followed = true } in
                Returns-pure p' (entry-HasNoOther addr p' known))
          (λ _. Returns-pure p h))

  -- A peer that `HandleHandshake` returns is at the address that was proved in the handshake, and
  -- has an entry that a request for that address brought from a peer at that address, on a stream that
  -- was opened to it: `Verify` accepts that entry, and it is of the same address.
  pub handle_handshake-HasEntry :
      (proved : Entry) (pm : PeerManager W S D) (p : Peer)
      → (handle_handshake proved pm).0 ≡ ok p
      → HasEntry proved.address p
  unfolding handle_handshake
  handle_handshake-HasEntry proved pm p returned =
      let addr = proved.address in
      Returns-ok
        (Returns-after (on_world setting (world.connect_server (incoming proved))) λ _.
          Returns-bind (set_peer-HasNoOther addr (incoming proved) (refl, λ e h. cc h)) λ q h.
            Returns-bind (entry_of-HasEntry addr q h)
              λ (e, r) known. Returns-after (insert_ignored setting e) λ _. Returns-pure r known)
        pm p returned
