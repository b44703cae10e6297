-- ===== src/NetMap.antt =====
-- netmap.go: the map of the network that is drawn from the seeds of a node. What `Query` of the DHT
-- gives is a parameter.
pub mod Drawn
pub mod Counted
pub mod Linked
use dfi.Prelude.{ℕ, zero, suc, Bool, Option, none, some, List, [], ◌∷◌, ◌++◌, if◌then◌else◌}
use dfi.Prelude.Outcome.{Outcome, ok, err, panic}
use dfi.Prelude.Action.{Action, pure, lift, ◌>>=◌, ◌>>◌}
use dfi.Dht.Address.{Address, Bytes, Codec, of_raw, string_or}
use dfi.Dht.Entry.{Entry}
use dfi.Proto.Client.{text_of}
use dfi.Util.Slices.{has_key}

pub record MapNode : Type 0 where
  pub address : Bytes
  pub name : Bytes

pub record MapLink : Type 0 where
  pub source : Bytes
  pub target : Bytes

-- What the recursion runs on: the maps `currentNodes` and `currentLinks`, as their keys, and the
-- database.
pub record Drawing (Db : Type 0) : Type 0 where
  pub nodes : List Bytes
  pub links : List Bytes
  pub db : Db

-- Out of rounds: the recursion is counted here, and not in the code.
pub data MapError : Type 0 where
  out_of_rounds : MapError

abbrev pub Graph : Type 0
Graph = List MapNode × List MapLink

-- A node that is new, and what is drawn from it.
abbrev pub joined : Entry → Bytes → Graph → Graph → Graph
joined e address (nodes, links) (n, l) =
    ((nodes ++ record { address = address; name = e.name } ∷ []) ++ n, links ++ l)

module _ {Db E : Type 0} (codec : Codec) (query : Address → Action Db E (Option Entry)) where
  abbrev pub Draw : Type 0 → Type 0
  Draw = Action (Drawing Db) MapError

  abbrev pub the_drawing : Draw (Drawing Db)
  the_drawing s = (ok s, s)

  abbrev pub add_link : Bytes → Draw (Unit {0})
  add_link key s = (ok tt, record s { links = key ∷ s.links })

  abbrev pub add_node : Bytes → Draw (Unit {0})
  add_node key s = (ok tt, record s { nodes = key ∷ s.nodes })

  -- The entry that is found, if the query does not fail.
  abbrev pub unless_err : Outcome E (Option Entry) → Outcome MapError (Option (Option Entry))
  unless_err (ok e) = ok (some e)
  unless_err (err _) = ok none
  unless_err panic = panic

  abbrev pub queried : Address → Draw (Option (Option Entry))
  queried a s = let (o, db) = query a s.db in (unless_err o, record s { db = db })

  abbrev pub text : Address → Draw Bytes
  text a = lift (text_of (string_or codec a []))

  module _ (draw : Entry → Draw Graph) where
    -- An entry that is on the map already is not drawn again.
    unfoldable pub draw_node : Entry → Graph → Draw Graph
    draw_node e (nodes, links) = do
      s ← the_drawing
      if has_key e.address.raw s.nodes then pure (nodes, links) else (do
        add_node e.address.raw
        address ← text e.address
        drawn ← draw e
        pure (joined e address (nodes, links) drawn))

    unfoldable pub draw_link : Entry → Entry → Graph → Draw Graph
    unfolding draw_node
    draw_link entry e (nodes, links) = do
      s ← the_drawing
      let key = e.address.raw ++ entry.address.raw
      if has_key key s.links then pure (nodes, links) else (do
        add_link key
        source ← text e.address
        target ← text entry.address
        draw_node e (nodes, links ++ record { source = source; target = target } ∷ []))

    -- `createMap` on a seed. Without a row the entry is nil and its address is read.
    abbrev pub draw_found : Entry → Graph → Option (Option Entry) → Draw Graph
    draw_found entry g none = pure g
    draw_found entry g (some none) = lift panic
    draw_found entry g (some (some e)) = draw_link entry e g

    -- The loop over the peers that the entry seeds.
    unfoldable pub draw_seeding : Entry → List Bytes → Graph → Draw Graph
    unfolding draw_link
    draw_seeding entry [] g = pure g
    draw_seeding entry (i ∷ rest) g = do
      found ← queried (of_raw i)
      g' ← draw_found entry g found
      draw_seeding entry rest g'

  -- `CreateNetMap`, which calls itself at most `rounds` deep.
  unfoldable pub create_net_map : ℕ → Entry → Draw Graph
  unfolding draw_seeding
  create_net_map zero entry = lift (err out_of_rounds)
  create_net_map (suc rounds) entry = do
    s ← the_drawing
    if has_key entry.address.raw s.nodes
        then draw_seeding (create_net_map rounds) entry entry.seeding ([], [])
        else (do
          address ← text entry.address
          draw_seeding (create_net_map rounds) entry entry.seeding
              (record { address = address; name = entry.name } ∷ [], []))
