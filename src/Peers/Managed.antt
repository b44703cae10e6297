-- ===== src/Peers/Managed.antt =====
-- The seed managers that are kept.
use dfi.Prelude.{
  ℕ, zero, suc, ◌+◌, ◌*◌, ◌/◌, true, ◌≡◌, refl, some, length, take, drop, Bool-cases, Option-cases,
  inl, inr,
}
use dfi.Prelude.Outcome.{Outcome, ok, err, panic}
use dfi.Prelude.Action.{
  lift, continue, Keeps, Keeps-pure, Keeps-lift, Keeps-bind, Keeps-attempt, Keeps-if,
}
use dfi.Dht.Address.{Address, Bytes, of_raw}
use dfi.Dht.Entry.{Entry}
use dfi.Util.Maps.{get, has, get-put_self, get-put_there}
use dfi.Peers.{PeerError, Setting, PeerManager, the_manager}
use dfi.Peers.Requests.{new_seed_manager, set_manager, add_seed_manager, load_from, load_seeds}

module _ {W S D : Type 0} (setting : Setting W S D) where
  open setting use {outside}

  -- The address of a seed manager.
  abbrev pub IsManaged : Bytes → PeerManager W S D → Type 0
  IsManaged key pm = (e : Entry) × (get key pm.seed_managers ≡ some e)

  known :
      (key : Bytes) (pm : PeerManager W S D) → has key pm.seed_managers ≡ true → IsManaged key pm
  known key pm h = elim (Option-cases (get key pm.seed_managers)) [
    | inr (e, found) ↦ (e, found)
    | inl nothing ↦ cc (rw (has, nothing) at h)
  ]

  started :
      (addr : Address) (o : Outcome PeerError Entry) (pm : PeerManager W S D)
      → (continue o (set_manager setting addr) pm).0 ≡ ok tt
      → IsManaged addr.raw (continue o (set_manager setting addr) pm).1
  started addr (ok e) pm h = (e, get-put_self addr.raw e pm.seed_managers)
  started addr (err x) pm h = cc h
  started addr panic pm h = cc h

  add_seed_manager-IsManaged :
      (addr : Address) (pm : PeerManager W S D)
      → (add_seed_manager setting addr pm).0 ≡ ok tt
      → IsManaged addr.raw (add_seed_manager setting addr pm).1
  unfolding add_seed_manager
  add_seed_manager-IsManaged addr pm h = elim (Bool-cases (has addr.raw pm.seed_managers)) [
    | inl there ↦ rw there (known addr.raw pm there)
    | inr other ↦
        let (o, pm') = new_seed_manager setting addr pm in
        rw other (started addr o pm' (rw other at h))
  ]

  -- When `AddSeedManager` returns without an error, the address has a seed manager, and a further
  -- call for it does nothing.
  pub add_seed_manager-again :
      (addr : Address) (pm : PeerManager W S D)
      → (add_seed_manager setting addr pm).0 ≡ ok tt
      → let (_, pm') = add_seed_manager setting addr pm in
        IsManaged addr.raw pm' × (add_seed_manager setting addr pm' ≡ (ok tt, pm'))
  unfolding add_seed_manager
  add_seed_manager-again addr pm h =
      let (e, found) = add_seed_manager-IsManaged addr pm h in ((e, found), rw (has, found) refl)

  set_manager-Keeps :
      (key : Bytes) (addr : Address) (e : Entry)
      → Keeps (IsManaged key) (set_manager setting addr e)
  set_manager-Keeps key addr e = record {
    at = λ pm h. get-put_there key addr.raw e h.0 pm.seed_managers h.1;
  }

  add_seed_manager-Keeps :
      (key : Bytes) (addr : Address) → Keeps (IsManaged key) (add_seed_manager setting addr)
  unfolding add_seed_manager
  add_seed_manager-Keeps key addr =
      Keeps-bind {m = the_manager setting} (record { at = λ pm h. h })
        λ pm. Keeps-if (has addr.raw pm.seed_managers) (Keeps-pure tt) (
          Keeps-bind {m = new_seed_manager setting addr} (record { at = λ pm h. h })
            (set_manager-Keeps key addr))

  load_from-Keeps :
      (key : Bytes) (rounds i : ℕ) (file : Bytes)
      → Keeps (IsManaged key) (load_from setting rounds i file)
  unfolding load_from
  load_from-Keeps key zero i file = Keeps-pure tt
  load_from-Keeps key (suc rounds) i file =
      Keeps-bind
        (Keeps-attempt (add_seed_manager-Keeps key (of_raw (take 20 (drop (i * 20) file))))
          Keeps-pure (λ _. Keeps-pure tt))
        λ _. load_from-Keeps key rounds (i + 1) file

  -- However `LoadSeeds` ends, the addresses that had a seed manager still have one.
  pub load_seeds-IsManaged :
      (key : Bytes) (read : Outcome PeerError Bytes) (pm : PeerManager W S D)
      → IsManaged key pm
      → IsManaged key (load_seeds setting read pm).1
  unfolding load_seeds
  load_seeds-IsManaged key read pm h =
      (Keeps-bind {m = lift read} (Keeps-lift read)
          λ file. load_from-Keeps key (length file / 20) 0 file).at
        pm h
