-- ===== src/NetMap/Linked.antt =====
-- The nodes and the links of the map are entered once.
use dfi.Prelude.{
  ℕ, zero, suc, ◌+◌, ◌≡◌, false, Option, none, some, List, [], ◌∷◌, ◌++◌, length, if◌then◌else◌,
  Bool-cases, inl, inr, subst,
}
use dfi.Prelude.Outcome.{ok, err, panic}
use dfi.Prelude.Action.{Action, Keeps, Keeps-pure, Keeps-lift, Keeps-bind}
use dfi.Dht.Address.{Address, Bytes, Codec, of_raw, string_or}
use dfi.Dht.Entry.{Entry}
use dfi.Proto.Client.{text_of}
use dfi.Util.Slices.{has_key}
use dfi.NetMap.{
  MapNode, MapLink, Drawing, Graph, Draw, joined, queried, text, draw_node, draw_link, draw_found,
  draw_seeding, create_net_map,
}
use dfi.NetMap.Counted.{Counted, create_net_map-Counted}

unfoldable pub IsDistinct : List Bytes → Type 0
IsDistinct [] = Unit
IsDistinct (k ∷ ks) = (has_key k ks ≡ false) × IsDistinct ks

module _ {Db E : Type 0} (codec : Codec) (query : Address → Action Db E (Option Entry)) where
  abbrev Apart : Drawing Db → Type 0
  Apart s = IsDistinct s.nodes × IsDistinct s.links

  text-Apart : (a : Address) → Keeps Apart (text codec query a)
  text-Apart a = Keeps-lift (text_of (string_or codec a []))

  module _ (draw : Entry → Draw codec query Graph)
      (drawn : (e : Entry) → Keeps Apart (draw e)) where
    draw_node-Apart : (e : Entry) (g : Graph) → Keeps Apart (draw_node codec query draw e g)
    unfolding draw_node IsDistinct
    draw_node-Apart e (nodes, links) = record {
      at = λ s (n, l). elim (Bool-cases (has_key e.address.raw s.nodes)) [
        | inl old ↦ rw old (n, l)
        | inr new ↦ rw new (
            (Keeps-bind (text-Apart e.address) λ address.
                Keeps-bind (drawn e) λ d. Keeps-pure (joined e address (nodes, links) d)).at
              (record s { nodes = e.address.raw ∷ s.nodes }) ((new, n), l))
      ];
    }

    draw_link-Apart :
        (entry e : Entry) (g : Graph) → Keeps Apart (draw_link codec query draw entry e g)
    unfolding draw_link IsDistinct
    draw_link-Apart entry e (nodes, links) = record {
      at = λ s (n, l). elim (Bool-cases (has_key (e.address.raw ++ entry.address.raw) s.links)) [
        | inl old ↦ rw old (n, l)
        | inr new ↦ rw new (
            (Keeps-bind (text-Apart e.address)
                λ source. Keeps-bind (text-Apart entry.address) λ target. draw_node-Apart e _).at
              (record s { links = (e.address.raw ++ entry.address.raw) ∷ s.links }) (n, (new, l)))
      ];
    }

    found-Apart :
        (entry : Entry) (g : Graph) (o : Option (Option Entry))
        → Keeps Apart (draw_found codec query draw entry g o)
    found-Apart entry g none = Keeps-pure g
    found-Apart entry g (some none) = Keeps-lift panic
    found-Apart entry g (some (some e)) = draw_link-Apart entry e g

    draw_seeding-Apart :
        (entry : Entry) (l : List Bytes) (g : Graph)
        → Keeps Apart (draw_seeding codec query draw entry l g)
    unfolding draw_seeding
    draw_seeding-Apart entry [] g = Keeps-pure g
    draw_seeding-Apart entry (i ∷ rest) g =
        Keeps-bind {m = queried codec query (of_raw i)} (record { at = λ s h. h })
          λ found. Keeps-bind (found-Apart entry g found) λ g'. draw_seeding-Apart entry rest g'

  create_net_map-Apart :
      (rounds : ℕ) (entry : Entry) → Keeps Apart (create_net_map codec query rounds entry)
  unfolding create_net_map
  create_net_map-Apart zero entry = Keeps-lift (err _)
  create_net_map-Apart (suc rounds) entry =
      let loop =
        draw_seeding-Apart (create_net_map codec query rounds) (create_net_map-Apart rounds) in
      record {
        at = λ s h. elim (Bool-cases (has_key entry.address.raw s.nodes)) [
          | inl old ↦ rw old ((loop entry entry.seeding ([], [])).at s h)
          | inr new ↦
              rw new (
                (Keeps-bind (text-Apart entry.address) λ address. loop entry entry.seeding _).at s
                  h)
        ];
      }

  -- The map that is drawn has as many links as pairs of addresses were entered into the map of the
  -- links, and no pair is entered twice. It has as many nodes as addresses were entered, none
  -- twice, and one more if the entry that it starts from was not entered before.
  pub create_net_map-IsDistinct :
      (rounds : ℕ) (entry : Entry) (s s' : Drawing Db) (nodes : List MapNode) (links : List MapLink)
      → IsDistinct s.nodes
      → IsDistinct s.links
      → create_net_map codec query rounds entry s ≡ (ok (nodes, links), s')
      → IsDistinct s'.links
        × IsDistinct s'.nodes
        × (length s'.links ≡ length s.links + length links)
        × (length s'.nodes + (if has_key entry.address.raw s.nodes then 0 else 1)
            ≡ length s.nodes + length nodes)
  create_net_map-IsDistinct rounds entry s s' nodes links n l h =
      let (nodes_apart, links_apart) =
        subst (λ x. Apart x.1) h ((create_net_map-Apart rounds entry).at s (n, l)) in
      let (more_links, more_nodes) =
        subst (λ x. Counted codec query s (has_key entry.address.raw s.nodes) x.0 x.1) h
          (create_net_map-Counted codec query rounds entry s) in
      (links_apart, nodes_apart, more_links, more_nodes)
