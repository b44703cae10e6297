-- ===== src/Dht/Table/Index.antt =====
-- Which bucket an address belongs to, and for which addresses there is one.
use dfi.Prelude.{ℕ, ◌*◌, ◌^◌, ◌<◌, ◌≤◌, ◌≡◌, ap, subst, ◌∙◌, [], length, arith, ◌⊎◌, inl, inr}
use dfi.Prelude.Int.{pos}
use dfi.Prelude.Outcome.{ok, panic}
use dfi.Dht.Address.{Address, of_raw, xor, leading_zeroes, first_one, xor_bytes}
use dfi.Dht.Address.Order.{value, AllBytes}
use dfi.Dht.Address.Distance.{xor_list, xor-ok, xor-panic, length-xor_list, xor_list-AllBytes}
use dfi.Dht.Address.Zeroes.{leading_zeroes_lem, leading_zeroes-lt}
use dfi.Dht.Table.{Table, bucket_index, insert_into_table}
use dfi.Dht.Table.Insert.{IsTable, Refreshed, insert_into_table_lem}

-- An address as a node has it: 20 bytes.
pub record IsNode (a : Address) : Type 0 where
  pub size : length a.raw ≡ 20
  pub bytes : AllBytes a.raw

bucket_index-xor :
    (self addr : Address)
    → length addr.raw ≤ length self.raw
    → bucket_index self addr ≡ ok (leading_zeroes (of_raw (xor_list addr.raw self.raw)))
unfolding bucket_index
bucket_index-xor self addr h = rw (xor-ok addr self h)

-- Any two addresses of 20 bytes have a bucket.
pub bucket_index-lt :
    (self addr : Address)
    → IsNode self
    → IsNode addr
    → (n : ℕ) × (bucket_index self addr ≡ ok (pos n)) × (n < 160)
bucket_index-lt self addr s a =
    let size = length-xor_list addr.raw self.raw (omega (arith, s.size, a.size)) in
    let (n, e, below) =
      leading_zeroes-lt (of_raw (xor_list addr.raw self.raw))
        (xor_list-AllBytes addr.raw self.raw a.bytes s.bytes) (omega (arith, size, a.size)) in
    (
      n,
      bucket_index-xor self addr (omega (arith, s.size, a.size)) ∙ ap ok e,
      omega (arith, below, size, a.size),
    )

-- Among addresses of 20 bytes, the bucket of an address other than the node's own is the number
-- of leading zero bits of its distance `d` to the node: `d * 2 ^ n` is below 2^160 and not below
-- half of it.
pub bucket_index-distance :
    (self addr d : Address)
    → IsNode self
    → IsNode addr
    → xor addr self ≡ ok d
    → 0 < value d.raw
    → (n : ℕ) × (bucket_index self addr ≡ ok (pos n))
      × (n < 160)
      × (value d.raw * 2 ^ n < 2 ^ 160)
      × (2 ^ 160 ≤ value d.raw * 2 ^ n * 2)
bucket_index-distance self addr d s a x h =
    let le : length addr.raw ≤ length self.raw = omega (arith, s.size, a.size) in
    let e : d ≡ of_raw (xor_list addr.raw self.raw) = cc (x, xor-ok addr self le) in
    let size = length-xor_list addr.raw self.raw le ∙ a.size in
    let (n, z, below, fits, top) =
      (leading_zeroes_lem (of_raw (xor_list addr.raw self.raw))
          (xor_list-AllBytes addr.raw self.raw a.bytes s.bytes)).0
        (rw e at h) in
    rw e (
      n,
      bucket_index-xor self addr le ∙ ap ok z,
      omega (arith, below, size),
      subst (λ k. value (xor_list addr.raw self.raw) * 2 ^ n < 256 ^ k) size fits,
      subst (λ k. 256 ^ k ≤ value (xor_list addr.raw self.raw) * 2 ^ n * 2) size top,
    )

-- On a well-formed table every address of 20 bytes is inserted, and comes to the front of the
-- bucket of its distance.
pub insert_into_table-IsTable :
    (self : Address) (t : Table) (addr : Address)
    → IsTable self t
    → IsNode self
    → IsNode addr
    → (n : ℕ) × (u : Table) × (bucket_index self addr ≡ ok (pos n))
      × (insert_into_table self t addr ≡ ok u)
      × IsTable self u
      × Refreshed t n addr u
insert_into_table-IsTable self t addr is s a =
    let (n, i, below) = bucket_index-lt self addr s a in
    let (u, e, is', r) = insert_into_table_lem self t addr n is i below in (n, u, i, e, is', r)

-- An address that is longer than the node's own, or that has no bytes, has no bucket: the
-- insertion panics.
pub insert_into_table-panic :
    (self : Address) (t : Table) (addr : Address)
    → (length self.raw < length addr.raw) ⊎ (addr.raw ≡ [])
    → insert_into_table self t addr ≡ panic
unfolding insert_into_table bucket_index xor xor_bytes leading_zeroes first_one
insert_into_table-panic self t addr (inl h) = rw (xor-panic addr self h)
insert_into_table-panic self t addr (inr e) = rw (e, insert_into_table)
