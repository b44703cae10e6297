-- ===== src/Dht/NetDb/Closest.antt =====
-- `FindClosest` of dht/netdb.go: the entries of the bucket of an address, and of the buckets around
-- it if that bucket is not full.
use dfi.Prelude.{
  ℕ, zero, suc, ◌+◌, ◌-◌, ◌*◌, Bool, Option, List, [], ◌∷◌, ◌++◌, length, ltb, leb, ◌==◌, ◌&&◌,
  ◌||◌, if◌then◌else◌,
}
use dfi.Prelude.Int.{ℤ, pos}
use dfi.Prelude.Action.{pure, attempt, ◌>>=◌}
use dfi.Dht.Address.{Address}
use dfi.Dht.Table.{Slice, bucket_size, bucket_index, table_at}
use dfi.Dht.Entry.{Entry}
use dfi.Dht.NetDb.{Env, address_result}
use dfi.Dht.NetDb.Reading.{Db, element, query, query_addresses}

-- Rounds that are sure to be enough for the outer loop: it runs to the farther end of the table.
abbrev pub outer_rounds : ℕ → ℕ → ℕ
outer_rounds index bits = index + bits + 1

module _ {S : Type 0} (env : Env S) where
  -- `ndb.table[i]`
  abbrev pub bucket_at : ℤ → Db env (ℕ × Slice)
  bucket_at i db = (address_result (table_at db.table.buckets i), db)

  -- The inner loop over a bucket, which stops at 20 entries.
  unfoldable pub query_bucket : ℕ → ℕ → Slice → List (Option Entry) → Db env (List (Option Entry))
  unfolding query
  query_bucket zero k s ret = pure ret
  query_bucket (suc rounds) k s ret = if leb bucket_size (length ret) then pure ret else do
    addr ← element env s k
    attempt (query env addr) (λ (kv, _). query_bucket rounds (k + 1) s (ret ++ kv ∷ []))
        (λ _. query_bucket rounds (k + 1) s ret)

  -- `if index-i >= 0`
  unfoldable pub look_left : ℕ → ℕ → List (Option Entry) → Db env (List (Option Entry))
  unfolding query_bucket
  look_left index i ret =
      if leb i index
      then (do (_, s) ← bucket_at (pos (index - i)); query_bucket s.len 0 s ret)
      else pure ret

  -- `if index+i < len(addr.Raw)*8`
  unfoldable pub look_right : ℕ → ℕ → ℕ → List (Option Entry) → Db env (List (Option Entry))
  unfolding query_bucket
  look_right index bits i ret =
      if ltb (index + i) bits
      then (do (_, s) ← bucket_at (pos (index + i)); query_bucket s.len 0 s ret)
      else pure ret

  -- The condition of the outer loop.
  abbrev pub goes_on : ℕ → ℕ → ℕ → List (Option Entry) → Bool
  goes_on index bits i ret = (leb i index || leb (index + i) bits) && ltb (length ret) bucket_size

  unfoldable pub closest_loop : ℕ → ℕ → ℕ → ℕ → List (Option Entry) → Db env (List (Option Entry))
  unfolding look_left look_right
  closest_loop zero index bits i ret = pure ret
  closest_loop (suc rounds) index bits i ret =
      if goes_on index bits i ret
      then (do
        left ← look_left index i ret
        right ← look_right index bits i left
        closest_loop rounds index bits (i + 1) right)
      else pure ret

  unfoldable pub find_closest : Address → Db env (List (Option Entry))
  unfolding query_addresses closest_loop
  find_closest addr = do
    i ← λ db. (address_result (bucket_index db.addr addr), db)
    (index, s) ← bucket_at i
    if s.len == bucket_size
        then query_addresses env s.len 0 s []
        else closest_loop (outer_rounds index (length addr.raw * 8)) index (length addr.raw * 8) 0
            []
