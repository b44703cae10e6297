-- ===== src/Tests/OfMaps.antt =====
-- The map of a network of one node that seeds itself.
use dfi.Prelude.{
  ℕ, ◌+◌, ◌≡◌, ◌≢◌, refl, ap, subst, true, Option, none, some, [], ◌∷◌, ◌++◌, bytes_eq, replicate,
}
use dfi.Prelude.Outcome.{Outcome, ok, err, panic}
use dfi.Prelude.Action.{Action}
use dfi.Dht.Address.{Address, Bytes, string, string_or}
use dfi.Dht.Entry.{Entry}
use dfi.Util.Slices.{has_key}
use dfi.NetMap.{
  MapNode, MapLink, Drawing, MapError, out_of_rounds, create_net_map, draw_seeding, draw_link,
  draw_node,
}
use dfi.NetMap.Drawn.{missing, create_net_map-Drawn}
use dfi.NetMap.Linked.{IsDistinct, create_net_map-IsDistinct}
use dfi.Tests.Fixtures.{codec, node, unsigned}

abbrev looped : Entry
looped = record unsigned { seeding = (node 7).raw ∷ [] }

-- Every query finds the one entry. The state counts the queries.
abbrev query : Address → Action ℕ MapError (Option Entry)
query a n = (ok (some looped), n + 1)

abbrev found_or : Outcome MapError (Option Entry) → Entry
found_or (ok (some e)) = e
found_or (ok none) = unsigned
found_or (err e) = unsigned
found_or panic = unsigned

looped_known :
    (a : Address) (n : ℕ) (e : Entry)
    → (query a n).0 ≡ ok (some e)
    → has_key e.address.raw ((node 7).raw ∷ []) ≡ true
unfolding bytes_eq
looped_known a n e h =
    subst (λ x. has_key x.address.raw ((node 7).raw ∷ []) ≡ true) (ap found_or h) refl

abbrev blank : Drawing ℕ
blank = record { nodes = []; links = []; db = 0 }

create_net_map-Drawn_example :
    (create_net_map codec query (missing ((node 7).raw ∷ []) [] + 1) looped blank).0
    ≢ err out_of_rounds
create_net_map-Drawn_example =
    create_net_map-Drawn codec query ((node 7).raw ∷ []) looped blank looped_known

abbrev encoded : Bytes
encoded = 81 ∷ replicate 20 7

abbrev one_node : MapNode
one_node = record { address = encoded; name = unsigned.name }

abbrev one_link : MapLink
one_link = record { source = encoded; target = encoded }

abbrev drawn : Drawing ℕ
drawn = record { nodes = (node 7).raw ∷ []; links = ((node 7).raw ++ (node 7).raw) ∷ []; db = 2 }

drawn_twice :
    create_net_map codec query 2 looped blank
    ≡ (ok (one_node ∷ one_node ∷ [], one_link ∷ []), drawn)
unfolding create_net_map draw_seeding draw_link draw_node string bytes_eq string_or
drawn_twice = refl

nothing_yet : IsDistinct []
unfolding IsDistinct
nothing_yet = tt

create_net_map-IsDistinct_example :
    IsDistinct drawn.links × IsDistinct drawn.nodes × (1 ≡ 0 + 1) × (1 + 1 ≡ 0 + 2)
create_net_map-IsDistinct_example =
    create_net_map-IsDistinct codec query 2 looped blank drawn (one_node ∷ one_node ∷ [])
      (one_link ∷ []) nothing_yet nothing_yet drawn_twice
