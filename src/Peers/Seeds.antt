-- ===== src/Peers/Seeds.antt =====
-- `findSeeds` of seedmanager.go: the seeds that another seed knows are added once they link back.
pub mod Pruned
use dfi.Prelude.{
  ℕ, zero, suc, ◌+◌, ◌-◌, Bool, true, false, Option, none, some, List, [], ◌∷◌, ◌++◌, length, take,
  drop, replicate, get_or, leb, ltb, bytes_eq, ◌==◌, if◌then◌else◌,
}
use dfi.Prelude.Int.{ℤ}
use dfi.Prelude.Outcome.{Outcome, ok, err, panic}
use dfi.Prelude.Action.{Action, within, pure, lift, attempt, ◌>>=◌, ◌>>◌}
use dfi.Dht.Address.{Address, Bytes, equals, of_raw, string}
use dfi.Dht.Entry.{Entry}
use dfi.Dht.NetDb.Writing.{insert}
use dfi.Util.Slices.{slice_diff}
use dfi.Local.Node.{query_entry, on_dht}
use dfi.Peers.{Setting, PeerManager, PeerError, Pm, the_manager, query, unresolved_text}
use dfi.Peers.Connecting.{insert_ignored}
use dfi.Peers.Resolving.{resolve, connect_peer, on_local}

-- What becomes of a seed: its entry is not found, does not name the tracked peer, or does.
pub data Verdict : Type 0 where
  unresolved unlinked linked : Verdict

-- A slice of seeds in its array, up to the capacity.
pub record Seeds : Type 0 where
  pub array : List Bytes
  pub len : ℕ

-- `append(result[:n], result[n+1:]...)`, which shifts the array in place.
unfoldable pub cut_out : {E : Type 0} → ℕ → Seeds → Outcome E Seeds
cut_out n s =
    if leb (n + 1) s.len
    then ok (record {
      array = (take n s.array ++ drop (n + 1) (take s.len s.array)) ++ drop (s.len - 1) s.array;
      len = s.len - 1;
    })
    else panic

-- `result[:n]`, bounded by the capacity.
abbrev pub cut_off : {E : Type 0} → ℕ → Seeds → Outcome E Seeds
cut_off n s = if leb n (length s.array) then ok (record s { len = n }) else panic

abbrev pub take_out : {E : Type 0} → ℕ → Seeds → Outcome E Seeds
take_out n s = if leb s.len (n + 1) then cut_off n s else cut_out n s

module _ {T E : Type 0} (judge : Bytes → Action T E Verdict) where
  abbrev pub judged : ℕ → Seeds → Verdict → Action T E Seeds
  judged n s unresolved = do s' ← lift (take_out n s); lift (cut_out n s')
  judged n s unlinked = lift (take_out n s)
  judged n s linked = pure s

  -- The loop over the seeds. The range is that of the slice as it was at first, and the elements
  -- are those of the array as it is.
  unfoldable pub prune : ℕ → ℕ → Seeds → Action T E Seeds
  unfolding cut_out
  prune zero n s = pure s
  prune (suc rounds) n s = do
    v ← judge (get_or s.array n [])
    s' ← judged n s v
    prune rounds (n + 1) s'

abbrev pub names : Bytes → List Bytes → Bool
names raw [] = false
names raw (j ∷ js) = if bytes_eq raw j then true else names raw js

module _ {W S D : Type 0} (setting : Setting W S D) where
  open setting use {outside}

  abbrev pub judge_seed : Address → Bytes → Pm setting Verdict
  judge_seed track raw =
      attempt (resolve setting (of_raw raw))
        (λ e. pure (if names track.raw e.seeding then linked else unlinked)) (λ _. pure unresolved)

  -- `SliceDiff` makes a slice with room for both lists.
  abbrev pub with_room : List Bytes → List Bytes → Seeds
  with_room one two =
      let new = slice_diff one two in
      record {
        array = new ++ replicate (length one + length two - length new) [];
        len = length new;
      }

  -- `String` of an address, for its error.
  abbrev pub has_text : Address → Outcome PeerError (Unit {0})
  has_text a = elim (string outside.env.codec a) [
    | ok _ ↦ ok tt
    | err _ ↦ err unresolved_text
    | panic ↦ panic
  ]

  -- The entry of the node itself is the one that the node holds.
  abbrev pub share : Address → Entry → Pm setting (Unit {0})
  share track e pm = (
    ok tt,
    if equals track pm.lp.address then record pm { lp = record pm.lp { entry = e } } else pm,
  )

  -- The body of the loop over the seeds of the entry, which gives the entry as it is afterwards.
  -- An error goes on with the next seed.
  unfoldable pub ask_seed : Address → Entry → Bytes → Pm setting Entry
  unfolding prune
  ask_seed track e raw = do
    pm ← the_manager setting
    if equals (of_raw raw) pm.lp.address
        then pure e
        else attempt
            (do
              lift (has_text (of_raw raw))
              (p, known) ← connect_peer setting (of_raw raw)
              lift (has_text known.address)
              query setting p e.address)
            (λ answer. do
              let found = with_room e.seeds answer.seeds
              new ← prune (judge_seed track) found.len 0 found
              let seeded = record e { seeds = e.seeds ++ take new.len new.array }
              if ltb 0 new.len
                  then (do share track seeded; insert_ignored setting seeded; pure seeded)
                  else pure e)
            (λ _. pure e)

  -- The range is that of the seeds as they were at first.
  unfoldable pub ask_seeds : Address → Entry → List Bytes → Pm setting Entry
  unfolding ask_seed
  ask_seeds track e [] = pure e
  ask_seeds track e (raw ∷ rest) = do e' ← ask_seed track e raw; ask_seeds track e' rest

  -- One round of `findSeeds`: the entry of the tracked peer as it is kept afterwards.
  unfoldable pub find_seeds : Address → Pm setting Entry
  unfolding ask_seeds
  find_seeds track = do e ← on_local setting (query_entry outside track); ask_seeds track e e.seeds
