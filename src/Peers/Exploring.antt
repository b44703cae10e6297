-- ===== src/Peers/Exploring.antt =====
-- jobs/explore.go, and the loop of `StartExploring` in localpeer.go: entries that other peers know
-- come into the database of the node.
use dfi.Prelude.{
  ◌≡◌, false, Option, none, some, List, [], ◌∷◌, ◌++◌, length, ltb, All, if◌then◌else◌,
}
use dfi.Prelude.Outcome.{Outcome, ok, err, panic}
use dfi.Prelude.Action.{Action, within, pure, lift, attempt, ◌>>=◌, ◌>>◌}
use dfi.Dht.Address.{Address, AddressError, Bytes, equals, string}
use dfi.Dht.Entry.{Entry}
use dfi.Dht.NetDb.Reading
use dfi.Dht.NetDb.Writing.{insert}
use dfi.Local.Node.{Outside, Node, on_dht, get_peer}
use dfi.Util.Merge.{merge_seeds}
use dfi.Peers.{Setting, PeerManager, PeerError, Pm, find_closest}
use dfi.Peers.Resolving.{connect_peer}

module _ {W S D : Type 0} (setting : Setting W S D) where
  -- What was sent to the channel is part of the state.
  abbrev pub Explore : Type 0 → Type 0
  Explore = Action (PeerManager W S D × List Entry) PeerError

  abbrev pub by_manager : {A : Type 0} → Pm setting A → Explore A
  by_manager = within (λ s. s.0) (λ pm s. (pm, s.1)) (λ e. e)

  abbrev pub emit : Entry → Explore (Unit {0})
  emit e s = (ok tt, (s.0, s.1 ++ e ∷ []))

  -- The entries but for the node's own. A nil entry has no address.
  unfoldable pub emit_others : Address → List (Option Entry) → Explore (Unit {0})
  emit_others me [] = pure tt
  emit_others me (none ∷ rest) = lift panic
  emit_others me (some e ∷ rest) =
      let next = emit_others me rest in if equals e.address me then next else emit e >> next

  -- `explorePeer`, with the random address that it draws.
  unfoldable pub explore_peer : Outcome PeerError Address → Address → Address → Explore (Unit {0})
  unfolding emit_others
  explore_peer random addr me = do
    (p, _) ← by_manager (connect_peer setting addr)
    rand_addr ← lift random
    closest ← by_manager (find_closest setting p rand_addr)
    emit_others me closest
    closest_to_me ← by_manager (find_closest setting p me)
    emit_others me closest_to_me

  AreOthers : Address → PeerManager W S D × List Entry → Type 0
  AreOthers me s = All (λ e. equals e.address me ≡ false) s.1

-- `keys` is the order in which `MergeSeeds` ranges over its map.
module _ {S D : Type 0} (outside : Outside S D) (keys : List Bytes → List Bytes) where
  open outside use {env}

  -- The entries that are to be explored next.
  abbrev pub explored_new : Entry → Node outside (List Entry)
  explored_new i =
      attempt (on_dht outside (insert env i))
        (λ affected. pure (if ltb 0 affected then i ∷ [] else [])) (λ _. pure [])

  abbrev pub insert_found : Entry → Node outside (List Entry)
  insert_found i = attempt (on_dht outside (insert env i)) (λ _. pure []) (λ _. pure [])

  -- A known entry is replaced by a newer one, and by one with more seeds: the seeds that are merged
  -- are those of the entry that was read, which is not written back.
  abbrev pub explored_known : Entry → Entry → Node outside (List Entry)
  explored_known i current =
      if ltb current.updated i.updated
      then insert_found i
      else if ltb (length current.seeds) (length i.seeds)
      then (do
        let merged = record current { seeds = merge_seeds keys current.seeds i.seeds }
        insert_found i)
      else pure []

  abbrev pub explored_entry : Entry → Option Entry → Node outside (List Entry)
  explored_entry i none = explored_new i
  explored_entry i (some current) = explored_known i current

  -- An entry whose address has no text is passed over.
  abbrev pub if_named :
      Outcome AddressError (Bytes × Address) → Node outside (List Entry) → Node outside (List Entry)
  if_named (ok t) next = next
  if_named (err x) next = pure []
  if_named panic next = lift panic

  -- The body of the loop.
  unfoldable pub explored : Entry → Node outside (List Entry)
  unfolding merge_seeds
  explored i =
      attempt (on_dht outside (Reading.query env i.address))
        (λ (current, _). do
          lp ← get_peer outside
          if equals i.address lp.address
              then pure []
              else if_named (string env.codec i.address) (explored_entry i current))
        (λ _. pure [])
