-- ===== src/NetMap/Counted.antt =====
-- How many nodes and links `CreateNetMap` draws.
use dfi.Prelude.{
  ℕ, zero, suc, ◌+◌, ◌≡◌, refl, arith, Bool, true, false, Option, none, some, List, [], ◌∷◌, ◌++◌,
  length, length-append, bytes_eq_refl, if◌then◌else◌, Bool-cases, inl, inr,
}
use dfi.Prelude.Outcome.{Outcome, ok, err, panic}
use dfi.Prelude.Action.{Action, continue, pure}
use dfi.Dht.Address.{Address, Bytes, Codec, of_raw, string_or}
use dfi.Dht.Entry.{Entry}
use dfi.Proto.Client.{text_of}
use dfi.Util.Slices.{has_key}
use dfi.NetMap.{
  MapNode, MapLink, Drawing, MapError, Graph, Draw, joined, unless_err, draw_node, draw_link,
  draw_found, draw_seeding, create_net_map,
}

-- From `g` as many nodes and links are drawn as there are new on the map.
abbrev Balanced : {Db : Type 0} → Graph → Drawing Db → Outcome MapError Graph → Drawing Db → Type 0
Balanced g s (ok g') s' =
    (length s'.links + length g.1 ≡ length s.links + length g'.1)
    × (length s'.nodes + length g.0 ≡ length s.nodes + length g'.0)
Balanced g s (err e) s' = Unit
Balanced g s panic s' = Unit

module _ {Db E : Type 0} (codec : Codec) (query : Address → Action Db E (Option Entry)) where
  Balanced-after :
      {A : Type 0} (g : Graph) (s : Drawing Db) (o : Outcome MapError A)
      (f : A → Draw codec query Graph) (s' : Drawing Db)
      → ((a : A) → Balanced g s (f a s').0 (f a s').1)
      → Balanced g s (continue o f s').0 (continue o f s').1
  Balanced-after g s (ok a) f s' h = h a
  Balanced-after g s (err e) f s' h = tt
  Balanced-after g s panic f s' h = tt

  Balanced-trans :
      (g g' : Graph) (s s' s'' : Drawing Db) (o : Outcome MapError Graph)
      → Balanced g s (ok g') s'
      → Balanced g' s' o s''
      → Balanced g s o s''
  Balanced-trans g g' s s' s'' (ok g'') (l, n) (l', n') =
      (omega (arith, l, l'), omega (arith, n, n'))
  Balanced-trans g g' s s' s'' (err e) h h' = tt
  Balanced-trans g g' s s' s'' panic h h' = tt

  Balanced-bind :
      (g : Graph) (s : Drawing Db) (o : Outcome MapError Graph)
      (next : Graph → Draw codec query Graph) (s' : Drawing Db)
      → Balanced g s o s'
      → ((g : Graph) (s : Drawing Db) → Balanced g s (next g s).0 (next g s).1)
      → Balanced g s (continue o next s').0 (continue o next s').1
  Balanced-bind g s (ok g') next s' h k =
      Balanced-trans g g' s s' (next g' s').1 (next g' s').0 h (k g' s')
  Balanced-bind g s (err e) next s' h k = tt
  Balanced-bind g s panic next s' h k = tt

  joined-Balanced :
      (e : Entry) (address key : Bytes) (g : Graph) (s : Drawing Db) (o : Outcome MapError Graph)
      (s' : Drawing Db)
      → Balanced ([], []) (record s { nodes = key ∷ s.nodes }) o s'
      → let last = continue o (λ drawn. pure (joined e address g drawn)) s' in
        Balanced g s last.0 last.1
  joined-Balanced e address key (nodes, links) s (ok (n, l)) s' (more_l, more_n) = (
    omega (arith, more_l, length-append links l),
    omega (
      arith,
      more_n,
      length-append (nodes ++ record { address = address; name = e.name } ∷ []) n,
      length-append nodes (record { address = address; name = e.name } ∷ []),
    ),
  )
  joined-Balanced e address key g s (err x) s' h = tt
  joined-Balanced e address key g s panic s' h = tt

  module _ (draw : Entry → Draw codec query Graph)
      (drawn : (e : Entry) (s : Drawing Db)
        → has_key e.address.raw s.nodes ≡ true
        → Balanced ([], []) s (draw e s).0 (draw e s).1) where
    draw_node-Balanced :
        (e : Entry) (g : Graph) (s : Drawing Db)
        → let last = draw_node codec query draw e g s in Balanced g s last.0 last.1
    unfolding draw_node
    draw_node-Balanced e (nodes, links) s = elim (Bool-cases (has_key e.address.raw s.nodes)) [
      | inl old ↦ rw old (refl, refl)
      | inr new ↦
          let s1 = record s { nodes = e.address.raw ∷ s.nodes } in
          rw new (
            Balanced-after (nodes, links) s (text_of (string_or codec e.address [])) _ s1
              λ address.
                joined-Balanced e address e.address.raw (nodes, links) s (draw e s1).0 (draw e s1).1
                  (drawn e s1 (rw (bytes_eq_refl e.address.raw) refl)))
    ]

    draw_link-Balanced :
        (entry e : Entry) (g : Graph) (s : Drawing Db)
        → let last = draw_link codec query draw entry e g s in Balanced g s last.0 last.1
    unfolding draw_link
    draw_link-Balanced entry e (nodes, links) s =
        let key = e.address.raw ++ entry.address.raw in
        elim (Bool-cases (has_key key s.links)) [
          | inl old ↦ rw old (refl, refl)
          | inr new ↦
              let s1 = record s { links = key ∷ s.links } in
              rw new (
                Balanced-after (nodes, links) s (text_of (string_or codec e.address [])) _ s1
                  λ source.
                    Balanced-after (nodes, links) s (text_of (string_or codec entry.address [])) _
                      s1
                      λ target.
                        let link : MapLink = record { source = source; target = target } in
                        let g1 : Graph = (nodes, links ++ link ∷ []) in
                        Balanced-trans (nodes, links) g1 s s1 (draw_node codec query draw e g1 s1).1
                          (draw_node codec query draw e g1 s1).0
                          (omega (arith, length-append links (link ∷ [])), refl)
                          (draw_node-Balanced e g1 s1))
        ]

    found-Balanced :
        (entry : Entry) (g : Graph) (o : Option (Option Entry)) (s : Drawing Db)
        → let last = draw_found codec query draw entry g o s in Balanced g s last.0 last.1
    found-Balanced entry g none s = (refl, refl)
    found-Balanced entry g (some none) s = tt
    found-Balanced entry g (some (some e)) s = draw_link-Balanced entry e g s

    draw_seeding-Balanced :
        (entry : Entry) (l : List Bytes) (g : Graph) (s : Drawing Db)
        → let last = draw_seeding codec query draw entry l g s in Balanced g s last.0 last.1
    unfolding draw_seeding
    draw_seeding-Balanced entry [] g s = (refl, refl)
    draw_seeding-Balanced entry (i ∷ rest) g s =
        let (o, db) = query (of_raw i) s.db in
        let s1 = record s { db = db } in
        Balanced-after g s (unless_err codec query o) _ s1 λ found.
          Balanced-bind g s (draw_found codec query draw entry g found s1).0
            (draw_seeding codec query draw entry rest)
            (draw_found codec query draw entry g found s1).1 (found-Balanced entry g found s1)
            (draw_seeding-Balanced entry rest)

  registered-Balanced :
      (rounds : ℕ) (entry : Entry) (s : Drawing Db)
      → has_key entry.address.raw s.nodes ≡ true
      → let last = create_net_map codec query rounds entry s in Balanced ([], []) s last.0 last.1
  unfolding create_net_map
  registered-Balanced zero entry s h = tt
  registered-Balanced (suc rounds) entry s h = rw h (
      draw_seeding-Balanced (create_net_map codec query rounds) (registered-Balanced rounds) entry
        entry.seeding ([], []) s)

  abbrev pub Counted : Drawing Db → Bool → Outcome MapError Graph → Drawing Db → Type 0
  Counted s known (ok (nodes, links)) s' =
      (length s'.links ≡ length s.links + length links)
      × (length s'.nodes + (if known then 0 else 1) ≡ length s.nodes + length nodes)
  Counted s known (err e) s' = Unit
  Counted s known panic s' = Unit

  Counted-known :
      (s : Drawing Db) (o : Outcome MapError Graph) (s' : Drawing Db)
      → Balanced ([], []) s o s'
      → Counted s true o s'
  Counted-known s (ok (nodes, links)) s' (l, n) = (omega (arith, l), omega (arith, n))
  Counted-known s (err e) s' h = tt
  Counted-known s panic s' h = tt

  Counted-new :
      (s : Drawing Db) (start : MapNode) (o : Outcome MapError Graph) (s' : Drawing Db)
      → Balanced (start ∷ [], []) s o s'
      → Counted s false o s'
  Counted-new s start (ok (nodes, links)) s' (l, n) = (omega (arith, l), omega (arith, n))
  Counted-new s start (err e) s' h = tt
  Counted-new s start panic s' h = tt

  started-Counted :
      (entry : Entry) (o : Outcome MapError Bytes) (f : Graph → Draw codec query Graph)
      (s : Drawing Db)
      → ((g : Graph) → Balanced g s (f g s).0 (f g s).1)
      → let last =
          continue o (λ address. f (record { address = address; name = entry.name } ∷ [], [])) s in
        Counted s false last.0 last.1
  started-Counted entry (ok address) f s h =
      let start : MapNode = record { address = address; name = entry.name } in
      Counted-new s start (f (start ∷ [], []) s).0 (f (start ∷ [], []) s).1 (h (start ∷ [], []))
  started-Counted entry (err e) f s h = tt
  started-Counted entry panic f s h = tt

  -- Counted by what is entered into the maps of the recursion.
  pub create_net_map-Counted :
      (rounds : ℕ) (entry : Entry) (s : Drawing Db)
      → let last = create_net_map codec query rounds entry s in
        Counted s (has_key entry.address.raw s.nodes) last.0 last.1
  unfolding create_net_map
  create_net_map-Counted zero entry s = tt
  create_net_map-Counted (suc rounds) entry s =
      let draw = create_net_map codec query rounds in
      let balanced = draw_seeding-Balanced draw (registered-Balanced rounds) entry entry.seeding in
      let loop = draw_seeding codec query draw entry entry.seeding in
      elim (Bool-cases (has_key entry.address.raw s.nodes)) [
        | inl old ↦
            rw old (Counted-known s (loop ([], []) s).0 (loop ([], []) s).1 (balanced ([], []) s))
        | inr new ↦ rw new (
            started-Counted entry (text_of (string_or codec entry.address [])) loop s
              λ g. balanced g s)
      ]
