-- ===== src/NetMap/Drawn.antt =====
-- The recursion of `CreateNetMap` ends: it goes no deeper than there are addresses to find.
use dfi.Prelude.{
  ℕ, zero, suc, ◌+◌, ◌≤◌, ◌<◌, ◌≡◌, ◌≢◌, refl, subst, arith, true, false, Option, none, some, List,
  [], ◌∷◌, ◌++◌, bytes_eq, bytes_eq_sound, bytes_eq_refl, if◌then◌else◌, Bool-cases, inl, inr,
}
use dfi.Prelude.Outcome.{Outcome, ok, err, panic}
use dfi.Prelude.Action.{Action, continue, pure, lift, ◌>>=◌}
use dfi.Dht.Address.{Address, AddressError, Bytes, Codec, of_raw, string_or}
use dfi.Dht.Entry.{Entry}
use dfi.Proto.Client.{text_of}
use dfi.Util.Slices.{has_key}
use dfi.NetMap.{
  Drawing, MapError, out_of_rounds, Graph, Draw, joined, unless_err, text, draw_node, draw_link,
  draw_found, draw_seeding, create_net_map,
}

-- How many of the addresses are not on the map.
unfoldable pub missing : List Bytes → List Bytes → ℕ
missing [] nodes = 0
missing (u ∷ us) nodes = let rest = missing us nodes in if has_key u nodes then rest else suc rest

missing_more : (us nodes : List Bytes) (k : Bytes) → missing us (k ∷ nodes) ≤ missing us nodes
unfolding missing
missing_more [] nodes k = omega arith
missing_more (u ∷ us) nodes k =
    let h = missing_more us nodes k in
    elim (Bool-cases (bytes_eq u k)) [
      | inl same ↦ elim (Bool-cases (has_key u nodes)) [
        | inl old ↦ rw (same, old) h
        | inr new ↦ rw (same, new) (omega (arith, h))
      ]
      | inr other ↦ elim (Bool-cases (has_key u nodes)) [
        | inl old ↦ rw (other, old) h
        | inr new ↦ rw (other, new) (omega (arith, h))
      ]
    ]

missing_less :
    (us nodes : List Bytes) (k : Bytes)
    → has_key k us ≡ true
    → has_key k nodes ≡ false
    → missing us (k ∷ nodes) < missing us nodes
unfolding missing
missing_less [] nodes k within new = cc within
missing_less (u ∷ us) nodes k within new = elim (Bool-cases (bytes_eq k u)) [
  | inl same ↦
      let at_u = bytes_eq_sound k u same in
      subst (λ x. missing (x ∷ us) (k ∷ nodes) < missing (x ∷ us) nodes) at_u
        (rw (bytes_eq_refl k, new) (omega (arith, missing_more us nodes k)))
  | inr other ↦
      let h = missing_less us nodes k (rw other at within) new in
      elim (Bool-cases (has_key u nodes)) [
        | inl old ↦ elim (Bool-cases (bytes_eq u k)) [
          | inl same ↦ rw (same, old) h
          | inr differs ↦ rw (differs, old) h
        ]
        | inr fresh ↦ elim (Bool-cases (bytes_eq u k)) [
          | inl same ↦ rw (same, fresh) (omega (arith, h))
          | inr differs ↦ rw (differs, fresh) (omega (arith, h))
        ]
      ]
]

-- `m` does not run out of rounds, and keeps `P`.
record Ends {Db A : Type 0} (P : Drawing Db → Type 0) (m : Action (Drawing Db) MapError A)
    : Type 0 where
  at : (s : Drawing Db) → P s → ((m s).0 ≢ err out_of_rounds) × P (m s).1

module _ {Db : Type 0} {P : Drawing Db → Type 0} where
  Ends-pure : {A : Type 0} (a : A) → Ends P (pure a)
  Ends-pure a = record { at = λ s h. (cc, h) }

  after :
      {A B : Type 0} (o : Outcome MapError A) (f : A → Action (Drawing Db) MapError B)
      (s : Drawing Db)
      → o ≢ err out_of_rounds
      → P s
      → ((a : A) → Ends P (f a))
      → ((continue o f s).0 ≢ err out_of_rounds) × P (continue o f s).1
  after (ok a) f s quiet h k = (k a).at s h
  after (err out_of_rounds) f s quiet h k = absurd (quiet refl)
  after panic f s quiet h k = (cc, h)

  Ends-bind :
      {A B : Type 0} {m : Action (Drawing Db) MapError A} {f : A → Action (Drawing Db) MapError B}
      → Ends P m
      → ((a : A) → Ends P (f a))
      → Ends P (m >>= f)
  Ends-bind {m = m} {f = f} k l = record {
    at = λ s h. let (quiet, h') = k.at s h in after (m s).0 f (m s).1 quiet h' l;
  }

  Ends-text : (codec : Codec) (a : Address) → Ends P (lift (text_of (string_or codec a [])))
  Ends-text codec a = record { at = λ s h. (no_rounds (string_or codec a []), h) }
    where
      no_rounds : (o : Outcome AddressError Bytes) → text_of o ≢ err out_of_rounds
      no_rounds (ok t) = cc
      no_rounds (err e) = cc
      no_rounds panic = cc

module _ {Db E : Type 0} (codec : Codec) (query : Address → Action Db E (Option Entry))
    (us : List Bytes)
    (known : (a : Address) (db : Db) (e : Entry)
      → (query a db).0 ≡ ok (some e)
      → has_key e.address.raw us ≡ true) where
  abbrev Room : ℕ → Drawing Db → Type 0
  Room b s = missing us s.nodes ≤ b

  module _ (b : ℕ) (draw : Entry → Draw codec query Graph)
      (deeper : (b' : ℕ) → b' < b → (e : Entry) → Ends (Room b') (draw e)) where
    draw_node-Ends :
        (e : Entry) (g : Graph)
        → has_key e.address.raw us ≡ true
        → Ends (Room b) (draw_node codec query draw e g)
    unfolding draw_node
    draw_node-Ends e (nodes, links) within = record {
      at = λ s h. elim (Bool-cases (has_key e.address.raw s.nodes)) [
        | inl old ↦ rw old (cc, h)
        | inr new ↦
            let less = missing_less us s.nodes e.address.raw within new in
            let b' = missing us (e.address.raw ∷ s.nodes) in
            let rest : Ends (Room b') (do
              address ← text codec query e.address
              drawn ← draw e
              pure (joined e address (nodes, links) drawn)) =
              Ends-bind (Ends-text codec e.address)
                λ address. Ends-bind (deeper b' (omega (arith, less, h)) e) λ drawn. Ends-pure _ in
            let (quiet, room) =
              rest.at (record s { nodes = e.address.raw ∷ s.nodes }) (omega arith) in
            rw new (quiet, omega (arith, room, less, h))
      ];
    }

    draw_link-Ends :
        (entry e : Entry) (g : Graph)
        → has_key e.address.raw us ≡ true
        → Ends (Room b) (draw_link codec query draw entry e g)
    unfolding draw_link
    draw_link-Ends entry e (nodes, links) within = record {
      at = λ s h. elim (Bool-cases (has_key (e.address.raw ++ entry.address.raw) s.links)) [
        | inl old ↦ rw old (cc, h)
        | inr new ↦ rw new (
            (Ends-bind (Ends-text codec e.address) λ source.
                Ends-bind (Ends-text codec entry.address) λ target. draw_node-Ends e _ within).at
              (record s { links = (e.address.raw ++ entry.address.raw) ∷ s.links }) h)
      ];
    }

    found-Ends :
        (entry : Entry) (g : Graph) (next : Graph → Draw codec query Graph)
        (o : Outcome E (Option Entry)) (s : Drawing Db)
        → ((g : Graph) → Ends (Room b) (next g))
        → ((e : Entry) → o ≡ ok (some e) → has_key e.address.raw us ≡ true)
        → Room b s
        → let last =
            continue
              (unless_err codec query o)
              (λ found. draw_found codec query draw entry g found >>= next)
              s in
          (last.0 ≢ err out_of_rounds) × Room b last.1
    found-Ends entry g next (ok none) s later at_o h = (cc, h)
    found-Ends entry g next (ok (some e)) s later at_o h =
        (Ends-bind (draw_link-Ends entry e g (at_o e refl)) later).at s h
    found-Ends entry g next (err e) s later at_o h = (later g).at s h
    found-Ends entry g next panic s later at_o h = (cc, h)

    draw_seeding-Ends :
        (entry : Entry) (l : List Bytes) (g : Graph)
        → Ends (Room b) (draw_seeding codec query draw entry l g)
    unfolding draw_seeding
    draw_seeding-Ends entry [] g = Ends-pure g
    draw_seeding-Ends entry (i ∷ rest) g = record {
      at = λ s h.
          let (o, db) = query (of_raw i) s.db in
          found-Ends entry g (draw_seeding codec query draw entry rest) o (record s { db = db })
            (draw_seeding-Ends entry rest) (known (of_raw i) s.db) h;
    }

  create_net_map-Ends :
      (rounds b : ℕ)
      → b < rounds
      → (entry : Entry) → Ends (Room b) (create_net_map codec query rounds entry)
  unfolding create_net_map
  create_net_map-Ends zero b lt entry = absurd (omega arith)
  create_net_map-Ends (suc rounds) b lt entry =
      let loop =
        draw_seeding-Ends b (create_net_map codec query rounds)
          (λ b' less e. create_net_map-Ends rounds b' (omega arith) e) in
      record {
        at = λ s h. elim (Bool-cases (has_key entry.address.raw s.nodes)) [
          | inl old ↦ rw old ((loop entry entry.seeding ([], [])).at s h)
          | inr new ↦ rw new (
              (Ends-bind (Ends-text codec entry.address) λ address. loop entry entry.seeding _).at s
                h)
        ];
      }

-- However the seeds of the peers refer to each other: where every entry that the database gives has
-- one of the given addresses, drawing the map goes no deeper than there are of those that are not
-- on it, so with one round more it ends, with a map or with a panic.
pub create_net_map-Drawn :
    {Db E : Type 0} (codec : Codec) (query : Address → Action Db E (Option Entry)) (us : List Bytes)
    (entry : Entry) (s : Drawing Db)
    → ((a : Address) (db : Db) (e : Entry)
        → (query a db).0 ≡ ok (some e)
        → has_key e.address.raw us ≡ true)
    → (create_net_map codec query (missing us s.nodes + 1) entry s).0 ≢ err out_of_rounds
create_net_map-Drawn codec query us entry s known =
    let ends =
      create_net_map-Ends codec query us known (missing us s.nodes + 1) (missing us s.nodes)
        (omega arith) entry in
    (ends.at s (omega arith)).0
