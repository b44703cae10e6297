-- ===== src/Peers/Resolving.antt =====
-- `Resolve` and `resolveStep` of peermanager.go: the entry of an address, from the node's own
-- database or from the peers that are closest to it.
use dfi.Prelude.{ℕ, zero, suc, Option, none, some, List, [], ◌∷◌, ◌++◌, if◌then◌else◌}
use dfi.Prelude.Int.{ℤ, negsuc}
use dfi.Prelude.Outcome.{Outcome, ok, err, panic}
use dfi.Prelude.Action.{Action, within, pure, lift, attempt, ◌>>=◌, ◌>>◌}
use dfi.Text.Decimal.{itoa}
use dfi.Dht.Address.{Address, Bytes, equals}
use dfi.Dht.Entry.{Entry}
use dfi.Dht.NetDb.{sql_error, no_rows}
use dfi.Dht.NetDb.Reading
use dfi.Dht.NetDb.Closest
use dfi.Local.Node.{LocalError, Node, on_dht, db_error}
use dfi.Peers.{
  Peer, PeerError, Setting, PeerManager, Pm, the_manager, get_peer, query, find_closest, from_local,
  recursion_limit, no_entries, unresolved, is_self,
}
use dfi.Peers.Connecting.{connect_peer_direct, insert_ignored}

-- `fmt.Sprintf("%s:%d", …)`
abbrev pub dial_text : Entry → Bytes
dial_text e = e.public_address ++ 58 ∷ itoa e.port

abbrev pub the_depth : ℕ
the_depth = 6

module _ {W S D : Type 0} (setting : Setting W S D) where
  open setting use {outside}

  -- The counter `depth` is shared by all steps.
  abbrev pub Resolve : Type 0 → Type 0
  Resolve = Action (ℕ × PeerManager W S D) PeerError

  abbrev pub on_manager : {A : Type 0} → Pm setting A → Resolve A
  on_manager = within (λ s. s.1) (λ pm s. (s.0, pm)) (λ e. e)

  abbrev pub spend : Resolve (Unit {0})
  spend (zero, pm) = (err recursion_limit, (zero, pm))
  spend (suc depth, pm) = (ok tt, (depth, pm))

  abbrev pub or_connect : Entry → Option Peer → Pm setting Peer
  or_connect e (some p) = pure p
  or_connect e none = connect_peer_direct setting (dial_text e)

  -- The peer of an entry, connected if it was not.
  abbrev pub peer_for : Entry → Pm setting Peer
  peer_for e = get_peer setting e.address >>= or_connect e

  -- The loop over the closest entries of a peer.
  unfoldable pub step_all :
      (Option Entry → Resolve (Option Entry)) → List (Option Entry) → Resolve (Option Entry)
  step_all step [] = lift (err no_entries)
  step_all step (i ∷ rest) =
      step i >>= λ result. elim result [ some e ↦ pure (some e) | none ↦ step_all step rest ]

  -- What is done with the pointer that `Query` returns beside no error.
  abbrev pub found_or_closest :
      (Option Entry → Resolve (Option Entry))
      → Peer
      → Address
      → Option Entry
      → Resolve (Option Entry)
  found_or_closest step p addr (some e) = pure (some e)
  found_or_closest step p addr none = do
    closest ← on_manager (find_closest setting p addr)
    step_all step closest

  -- The address of a nil entry is asked for.
  abbrev pub step_from :
      (Option Entry → Resolve (Option Entry)) → Address → Option Entry → Resolve (Option Entry)
  step_from step addr none = lift panic
  step_from step addr (some e) = do
    p ← on_manager (peer_for e)
    kv ← on_manager (query setting p addr)
    found_or_closest step p addr (some kv)

  -- `resolveStep`, on rounds of the recursion.
  unfoldable pub resolve_step : ℕ → Address → Option Entry → Resolve (Option Entry)
  unfolding step_all
  resolve_step zero addr e = lift (err recursion_limit)
  resolve_step (suc rounds) addr e = spend >> step_from (resolve_step rounds addr) addr e

  -- An error other than the limit goes to the next entry.
  abbrev pub next_or_limit : Resolve Entry → PeerError → Resolve Entry
  next_or_limit next recursion_limit = lift (err recursion_limit)
  next_or_limit next _ = next

  abbrev pub take_if_equal : Address → Resolve Entry → Option Entry → Resolve Entry
  take_if_equal addr next none = next
  take_if_equal addr next (some e) =
      if equals e.address addr then on_manager (insert_ignored setting e) >> pure e else next

  -- The loop of `Resolve`. There are as many rounds as the counter allows, and one more.
  unfoldable pub resolve_loop : Address → List (Option Entry) → Resolve Entry
  unfolding resolve_step
  resolve_loop addr [] = lift (err unresolved)
  resolve_loop addr (i ∷ rest) =
      let next = resolve_loop addr rest in
      attempt (resolve_step (suc the_depth) addr i) (take_if_equal addr next) (next_or_limit next)

  abbrev pub none_of_no_rows : LocalError → Outcome LocalError (Option Entry × ℤ)
  none_of_no_rows (db_error (sql_error no_rows)) = ok (none, negsuc 0)
  none_of_no_rows e = err e

  -- A call of the local peer.
  abbrev pub on_local : {A : Type 0} → Node outside A → Pm setting A
  on_local = within (λ pm. pm.lp) (λ lp pm. record pm { lp = lp }) from_local

  -- `err == sql.ErrNoRows` is no error, and there is no entry.
  abbrev pub query_local : Address → Pm setting (Option Entry × ℤ)
  query_local addr = on_local (
      attempt (on_dht outside (Reading.query outside.env addr)) pure
        (λ e. lift (none_of_no_rows e)))

  -- The loop with a counter of its own.
  abbrev pub resolve_among : Address → List (Option Entry) → Pm setting Entry
  resolve_among addr closest pm =
      let (o, (_, pm')) = resolve_loop addr closest (the_depth, pm) in (o, pm')

  abbrev pub or_resolve : Address → Option Entry → Pm setting Entry
  or_resolve addr (some e) = pure e
  or_resolve addr none = do
    closest ← on_local (on_dht outside (Closest.find_closest outside.env addr))
    resolve_among addr closest

  unfoldable pub resolve : Address → Pm setting Entry
  unfolding resolve_loop
  resolve addr = do
    pm ← the_manager setting
    if equals addr pm.lp.address
        then pure pm.lp.entry
        else do (kv, _) ← query_local addr; or_resolve addr kv

  abbrev pub peer_or_direct : Entry → Option Peer → Pm setting (Peer × Entry)
  peer_or_direct e (some p) = pure (p, e)
  peer_or_direct e none = do p ← connect_peer_direct setting (dial_text e); pure (p, e)

  -- `ConnectPeer`
  unfoldable pub connect_peer : Address → Pm setting (Peer × Entry)
  unfolding resolve
  connect_peer addr = do
    e ← resolve addr
    pm ← the_manager setting
    if equals e.address pm.lp.address
        then lift (err is_self)
        else (get_peer setting e.address >>= peer_or_direct e)
