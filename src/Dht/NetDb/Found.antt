-- ===== src/Dht/NetDb/Found.antt =====
-- How much `FindClosest` returns, and that its loops end.
use std.Path.{fun_ext}
use dfi.Prelude.{
  ℕ, zero, suc, ◌+◌, ◌-◌, ◌*◌, ◌≤◌, ◌<◌, ◌≡◌, refl, ap, arith, false, Option, List, [], ◌∷◌, ◌++◌,
  length, length-append, ltb, leb, ◌==◌, if◌then◌else◌, Bool-cases, inl, inr,
}
use dfi.Prelude.Int.{pos}
use dfi.Prelude.Outcome.{ok, panic}
use dfi.Prelude.Action.{Action, pure, ◌>>=◌}
use dfi.Prelude.Returns.{
  Returns, Returns-pure, Returns-if, Returns-ok, Returns-after, Returns-bind, Returns-attempt,
}
use dfi.Dht.Address.{Address}
use dfi.Dht.Address.Distance.{xor-panic}
use dfi.Dht.Table.{Slice, bucket_size, bucket_index}
use dfi.Dht.Entry.{Entry}
use dfi.Dht.NetDb.{Env, NetDb, DbError, address_result}
use dfi.Dht.NetDb.Reading.{query, query_addresses, element}
use dfi.Dht.NetDb.Closest.{
  query_bucket, look_left, look_right, closest_loop, find_closest, goes_on, bucket_at, outer_rounds,
}

-- At most `n` entries.
abbrev AtMost : ℕ → List (Option Entry) → Type 0
AtMost n l = length l ≤ n

module _ {S : Type 0} (env : Env S) where
  query_addresses-length :
      (rounds k : ℕ) (s : Slice) (ret : List (Option Entry)) (n : ℕ)
      → length ret + rounds ≤ n
      → Returns (AtMost n) (query_addresses env rounds k s ret)
  unfolding query_addresses
  query_addresses-length zero k s ret n h = Returns-pure ret (omega arith)
  query_addresses-length (suc rounds) k s ret n h = Returns-after (element env s k) λ addr.
      Returns-attempt (query env addr)
        (λ t.
          query_addresses-length rounds (k + 1) s (ret ++ t.0 ∷ []) n
            (omega (arith, length-append ret (t.0 ∷ []), h)))
        (λ _. query_addresses-length rounds (k + 1) s ret n (omega arith))

  query_bucket-length :
      (rounds k : ℕ) (s : Slice) (ret : List (Option Entry))
      → AtMost 20 ret
      → Returns (AtMost 20) (query_bucket env rounds k s ret)
  unfolding query_bucket
  query_bucket-length zero k s ret h = Returns-pure ret h
  query_bucket-length (suc rounds) k s ret h = elim (Bool-cases (leb bucket_size (length ret))) [
    | inl full ↦ rw full (Returns-pure ret h)
    | inr room ↦
        let below : length ret < 20 = ground arith in
        rw room (
          Returns-after (element env s k) λ addr.
            Returns-attempt (query env addr)
              (λ t.
                query_bucket-length rounds (k + 1) s (ret ++ t.0 ∷ [])
                  (omega (arith, length-append ret (t.0 ∷ []), below)))
              (λ _. query_bucket-length rounds (k + 1) s ret h))
  ]

  look_left-length :
      (index i : ℕ) (ret : List (Option Entry))
      → AtMost 20 ret
      → Returns (AtMost 20) (look_left env index i ret)
  unfolding look_left
  look_left-length index i ret h =
      Returns-if (leb i index)
        (Returns-after (bucket_at env (pos (index - i)))
          λ t. query_bucket-length t.1.len 0 t.1 ret h)
        (Returns-pure ret h)

  look_right-length :
      (index bits i : ℕ) (ret : List (Option Entry))
      → AtMost 20 ret
      → Returns (AtMost 20) (look_right env index bits i ret)
  unfolding look_right
  look_right-length index bits i ret h =
      Returns-if (ltb (index + i) bits)
        (Returns-after (bucket_at env (pos (index + i)))
          λ t. query_bucket-length t.1.len 0 t.1 ret h)
        (Returns-pure ret h)

  closest_loop-length :
      (rounds index bits i : ℕ) (ret : List (Option Entry))
      → AtMost 20 ret
      → Returns (AtMost 20) (closest_loop env rounds index bits i ret)
  unfolding closest_loop
  closest_loop-length zero index bits i ret h = Returns-pure ret h
  closest_loop-length (suc rounds) index bits i ret h =
      Returns-if (goes_on env index bits i ret)
        (Returns-bind (look_left-length index i ret h) λ left h'.
          Returns-bind (look_right-length index bits i left h')
            λ right h''. closest_loop-length rounds index bits (i + 1) right h'')
        (Returns-pure ret h)

  -- `FindClosest` returns at most 20 entries, whatever the table and the database hold.
  pub find_closest-length :
      (addr : Address) (db : NetDb S) (l : List (Option Entry))
      → (find_closest env addr db).0 ≡ ok l
      → length l ≤ 20
  unfolding find_closest
  find_closest-length addr db l e =
      Returns-ok {P = AtMost 20}
        (Returns-after (λ db. (address_result (bucket_index db.addr addr), db))
          λ i. Returns-after (bucket_at env i) λ t. elim (Bool-cases (t.1.len == bucket_size)) [
            | inl full ↦ rw full (query_addresses-length t.1.len 0 t.1 [] 20 (ground arith))
            | inr room ↦ rw room (
                closest_loop-length (outer_rounds t.0 (length addr.raw * 8)) t.0
                  (length addr.raw * 8) 0 [] (omega arith))
          ])
        db l e

  stops :
      (index bits i : ℕ) (ret : List (Option Entry))
      → index + bits < i
      → goes_on env index bits i ret ≡ false
  stops index bits i ret h = ground arith

  closest_loop-stopped :
      (rounds index bits i : ℕ) (ret : List (Option Entry)) (db : NetDb S)
      → index + bits < i
      → closest_loop env rounds index bits i ret db ≡ (ok ret, db)
  unfolding closest_loop
  closest_loop-stopped zero index bits i ret db h = refl
  closest_loop-stopped (suc rounds) index bits i ret db h = rw (stops index bits i ret h) refl

  -- More rounds than `outer_rounds` has left change nothing, so the loop ends within them.
  closest_loop-more :
      (rounds more index bits i : ℕ) (ret : List (Option Entry))
      → index + bits < rounds + i
      → closest_loop env (rounds + more) index bits i ret ≡ closest_loop env rounds index bits i ret
  unfolding closest_loop
  closest_loop-more zero more index bits i ret h =
      let all : zero + more ≡ more = omega arith in
      rw all (fun_ext λ db. closest_loop-stopped more index bits i ret db (omega (arith, h)))
  closest_loop-more (suc rounds) more index bits i ret h =
      let further : (right : List (Option Entry))
          → closest_loop env (rounds + more) index bits (i + 1) right
            ≡ closest_loop env rounds index bits (i + 1) right =
        λ right. closest_loop-more rounds more index bits (i + 1) right (omega (arith, h)) in
      let one : suc rounds + more ≡ suc (rounds + more) = omega arith in
      rw one (
        ap
          (λ (f : List (Option Entry) → Action (NetDb S) DbError (List (Option Entry))).
            if goes_on env index bits i ret
            then (do
              left ← look_left env index i ret
              right ← look_right env index bits i left
              f right)
            else pure ret)
          (fun_ext further))

  -- The rounds that `find_closest` takes are enough: with any number of further rounds the loop
  -- of `FindClosest` ends alike.
  pub closest_loop-outer_rounds :
      (more index bits : ℕ) (ret : List (Option Entry)) (db : NetDb S)
      → closest_loop env (outer_rounds index bits + more) index bits 0 ret db
        ≡ closest_loop env (outer_rounds index bits) index bits 0 ret db
  closest_loop-outer_rounds more index bits ret db =
      ap (λ m. m db)
        (closest_loop-more (outer_rounds index bits) more index bits 0 ret (omega arith))

  -- An address that is longer than the node's own makes `FindClosest` panic.
  pub find_closest-panic :
      (addr : Address) (db : NetDb S)
      → length db.addr.raw < length addr.raw
      → find_closest env addr db ≡ (panic, db)
  unfolding find_closest bucket_index
  find_closest-panic addr db h = rw (xor-panic addr db.addr h) refl
