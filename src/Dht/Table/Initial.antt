-- ===== src/Dht/Table/Initial.antt =====
-- The table that a node starts with, and the size of a table.
use dfi.Prelude.{
  ℕ, zero, suc, ◌+◌, ◌*◌, ◌<◌, ◌≤◌, ◌≡◌, refl, sym, ap, ◌∙◌, some, List, [], ◌∷◌, length, get_elem?,
  replicate, arith, length-replicate, Option-cases, inl, inr, get_or_of_none, get_or_of_get_elem?,
}
use dfi.Dht.Address.{Address, no_address}
use dfi.Dht.Table.{Arrays, Slice, Table, new_table, empty_buckets, make_table, view, table_len}
use dfi.Dht.Table.Heap.{Fits}
use dfi.Dht.Table.Insert.{IsTable, bucket_view}

length-empty_buckets : (k i : ℕ) → length (empty_buckets k i) ≡ k
unfolding empty_buckets
length-empty_buckets zero i = refl
length-empty_buckets (suc k) i = ap suc (length-empty_buckets k (i + 1))

empty_slot :
    (k i n : ℕ) (s : Slice)
    → get_elem? (empty_buckets k i) n ≡ some s
    → (s.array ≡ i + n) × (s.len ≡ 0) × (n < k)
unfolding empty_buckets
empty_slot zero i n s h = cc
empty_slot (suc k) i zero s h = (ground arith, ground arith, omega arith)
empty_slot (suc k) i (suc n) s h =
    let (a, l, below) = empty_slot k (i + 1) n s h in (omega arith, l, omega arith)

slot_of_make :
    (k n : ℕ) (s : Slice)
    → get_elem? (make_table k).buckets n ≡ some s
    → (s.array ≡ n) × (s.len ≡ 0) × (n < k)
unfolding make_table
slot_of_make k n s h = let (a, l, below) = empty_slot k 0 n s h in (omega arith, l, below)

empty_view : (arrays : Arrays) (s : Slice) → s.len ≡ 0 → view arrays s ≡ []
empty_view arrays s e = rw e refl

make_table-IsTable : (self : Address) (k : ℕ) → k ≡ 160 → IsTable self (make_table k)
make_table-IsTable self k size = record {
  count = unfold make_table in length-empty_buckets k 0 ∙ size;
  fits = λ n s h.
      let (a, l, below) = slot_of_make k n s h in
      record {
        known =
            unfold make_table in omega (arith, length-replicate {0} k (replicate 20 no_address));
        inside = omega arith;
        bounded = omega arith;
      };
  separate = λ m n s u h g ne p. ne (sym (slot_of_make k m s h).0 ∙ p ∙ (slot_of_make k n u g).0);
  distinct = λ n s h. rw (empty_view (make_table k).arrays s (slot_of_make k n s h).1) tt;
  belongs = λ n s h. rw (empty_view (make_table k).arrays s (slot_of_make k n s h).1) tt;
}

bucket_of_slot :
    (t : Table)
    → ((n : ℕ) (s : Slice) → get_elem? t.buckets n ≡ some s → s.len ≡ 0)
    → (n : ℕ) → bucket_view t n ≡ []
bucket_of_slot t h n = elim (Option-cases (get_elem? t.buckets n)) [
  | inl e ↦ rw (get_or_of_none t.buckets n _ e) refl
  | inr (s, e) ↦ rw (get_or_of_get_elem? t.buckets n s _ e) (empty_view t.arrays s (h n s e))
]

-- A new table is well formed for any node, and every bucket of it is empty.
pub new_table-IsTable :
    (self : Address) → IsTable self new_table × ((n : ℕ) → bucket_view new_table n ≡ [])
new_table-IsTable self =
    unfold new_table in
    (
      make_table-IsTable self 160 refl,
      bucket_of_slot (make_table 160) (λ n s h. (slot_of_make 160 n s h).1),
    )

table_len-bound :
    (arrays : Arrays) (buckets : List Slice)
    → ((n : ℕ) (s : Slice) → get_elem? buckets n ≡ some s → Fits arrays s)
    → table_len buckets ≤ 20 * length buckets
unfolding table_len
table_len-bound arrays [] h = omega arith
table_len-bound arrays (s ∷ rest) h =
    omega (arith, (h 0 s refl).bounded, table_len-bound arrays rest (λ n u e. h (suc n) u e))

-- `TableLen` of a well-formed table is at most 3200, the 160 buckets of 20.
pub table_len-le : (self : Address) (t : Table) → IsTable self t → table_len t.buckets ≤ 3200
table_len-le self t is = omega (arith, table_len-bound t.arrays t.buckets is.fits, is.count)
