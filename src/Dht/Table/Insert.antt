-- ===== src/Dht/Table/Insert.antt =====
-- The table as a whole: its invariant, and `insertIntoTable` against the contract of a bucket.
use dfi.Prelude.{
  ℕ, ◌<◌, ◌≡◌, ◌≢◌, refl, sym, ap, ◌∙◌, subst, some, List, length, get_elem?, get_or, set, take,
  All, arith, ◌⊎◌, inl, inr, Option-cases, length-set, get_elem?-set_self, get_elem?-set_ne,
  get_elem?_below, get_elem?-lt, get_or_of_get_elem?,
}
use native.Mathlib.Decide.{ℕ_discrete}
use dfi.Prelude.Int.{ℤ, pos, negsuc}
use dfi.Prelude.Outcome.{Outcome, ok, err, panic}
use dfi.Dht.Address.{Address, AddressError}
use dfi.Dht.Table.{Slice, Table, array_at, view, insert_bucket, insert_into_table, bucket_index}
use dfi.Dht.Table.Bucket.{refreshed, AreDistinct, refreshed-AreDistinct, refreshed-All}
use dfi.Dht.Table.Heap.{Fits, Inserted, insert_bucket-Inserted}

-- The addresses that the table shows at an index.
abbrev pub bucket_view : Table → ℕ → List Address
bucket_view t n = view t.arrays (get_or t.buckets n (record { array = 0; len = 0 }))

-- The table of a node: 160 buckets in arrays of their own, each with distinct addresses that
-- belong to it by their distance from the node.
pub record IsTable (self : Address) (t : Table) : Type 0 where
  pub count : length t.buckets ≡ 160
  pub fits : (n : ℕ) (s : Slice) → get_elem? t.buckets n ≡ some s → Fits t.arrays s
  pub separate :
      (m n : ℕ) (s u : Slice)
      → get_elem? t.buckets m ≡ some s
      → get_elem? t.buckets n ≡ some u
      → m ≢ n
      → s.array ≢ u.array
  pub distinct :
      (n : ℕ) (s : Slice) → get_elem? t.buckets n ≡ some s → AreDistinct (view t.arrays s)
  pub belongs :
      (n : ℕ) (s : Slice)
      → get_elem? t.buckets n ≡ some s
      → All (λ a. bucket_index self a ≡ ok (pos n)) (view t.arrays s)

-- What an insertion at an index leaves.
pub record Refreshed (t : Table) (n : ℕ) (addr : Address) (u : Table) : Type 0 where
  pub here : bucket_view u n ≡ refreshed addr (bucket_view t n)
  pub elsewhere : (m : ℕ) → m < 160 → m ≢ n → bucket_view u m ≡ bucket_view t m

insert_at : Table → ℕ → Slice → Address → Table
insert_at t n s addr =
    let (arrays, new) = insert_bucket t.arrays s addr in
    record { arrays = arrays; buckets = set t.buckets n new }

insert_into_table-insert_at :
    (self : Address) (t : Table) (addr : Address) (n : ℕ) (s : Slice)
    → bucket_index self addr ≡ ok (pos n)
    → get_elem? t.buckets n ≡ some s
    → insert_into_table self t addr ≡ ok (insert_at t n s addr)
unfolding insert_into_table insert_at
insert_into_table-insert_at self t addr n s i e = rw (i, e)

-- A slot of the table after the write is the new bucket, or one of the others.
slot_cases :
    (xs : List Slice) (n m : ℕ) (new u : Slice)
    → n < length xs
    → get_elem? (set xs n new) m ≡ some u
    → ((m ≡ n) × (u ≡ new)) ⊎ ((m ≢ n) × (get_elem? xs m ≡ some u))
slot_cases xs n m new u below h = elim (ℕ_discrete m n) [
  | yes e ↦
      let here : get_elem? (set xs n new) m ≡ some new = rw e (get_elem?-set_self xs n new below) in
      inl (e, cc (h, here))
  | no ne ↦ inr (ne, sym (get_elem?-set_ne xs n m new (λ e. ne (sym e))) ∙ h)
]

module _ (self : Address) (t : Table) (addr : Address) (n : ℕ) (s : Slice) (is : IsTable self t)
    (at_n : get_elem? t.buckets n ≡ some s) where
  inserted : Inserted t.arrays s addr (insert_bucket t.arrays s addr)
  inserted = insert_bucket-Inserted t.arrays s addr (is.fits n s at_n)

  slots :
      (m : ℕ) (u : Slice)
      → get_elem? (insert_at t n s addr).buckets m ≡ some u
      → ((m ≡ n) × (u ≡ (insert_bucket t.arrays s addr).1))
        ⊎ ((m ≢ n) × (get_elem? t.buckets m ≡ some u))
  unfolding insert_at
  slots m u h = slot_cases t.buckets n m _ u (get_elem?-lt t.buckets n s at_n) h

  -- The other buckets keep their arrays and what they show.
  kept_array :
      (m : ℕ) (u : Slice)
      → m ≢ n
      → get_elem? t.buckets m ≡ some u
      → array_at (insert_bucket t.arrays s addr).0 u.array ≡ array_at t.arrays u.array
  kept_array m u ne e =
      inserted.others u.array (is.fits m u e).known (is.separate m n u s e at_n ne)

  insert_at-Refreshed : Refreshed t n addr (insert_at t n s addr)
  unfolding insert_at
  insert_at-Refreshed = record {
    here =
        ap (view (insert_bucket t.arrays s addr).0) (
          get_or_of_get_elem? _ n _ _
            (get_elem?-set_self t.buckets n _ (get_elem?-lt t.buckets n s at_n)))
        ∙ inserted.shown
        ∙ ap (λ u. refreshed addr (view t.arrays u))
            (sym (get_or_of_get_elem? t.buckets n s _ at_n));
    elsewhere = λ m below ne.
        let (u, e) = get_elem?_below t.buckets m (omega (arith, is.count)) in
        ap (view (insert_bucket t.arrays s addr).0)
          (get_or_of_get_elem? _ m u _ (get_elem?-set_ne t.buckets n m _ (λ p. ne (sym p)) ∙ e))
        ∙ ap (take u.len) (kept_array m u ne e)
        ∙ ap (view t.arrays) (sym (get_or_of_get_elem? t.buckets m u _ e));
  }

  insert_at-Fits :
      (m : ℕ) (u : Slice)
      → get_elem? (insert_at t n s addr).buckets m ≡ some u
      → Fits (insert_at t n s addr).arrays u
  unfolding insert_at
  insert_at-Fits m u h = elim (slots m u h) [
    | inl (_, e) ↦ rw e inserted.fits
    | inr (ne, e) ↦
        let old = is.fits m u e in
        record {
          known = omega (arith, old.known, inserted.grown);
          inside = rw (kept_array m u ne e) old.inside;
          bounded = old.bounded;
        }
  ]

  insert_at-separate :
      (l m : ℕ) (u v : Slice)
      → get_elem? (insert_at t n s addr).buckets l ≡ some u
      → get_elem? (insert_at t n s addr).buckets m ≡ some v
      → l ≢ m
      → u.array ≢ v.array
  insert_at-separate l m u v h k ne = elim (slots l u h) [
    | inl (p, e) ↦ elim (slots m v k) [
      | inl (q, _) ↦ absurd (ne (p ∙ sym q))
      | inr (_, f) ↦ rw (e, inserted.fresh) (omega (arith, (is.fits m v f).known))
    ]
    | inr (_, e) ↦ elim (slots m v k) [
      | inl (_, f) ↦ rw (f, inserted.fresh) (omega (arith, (is.fits l u e).known))
      | inr (_, f) ↦ is.separate l m u v e f ne
    ]
  ]

  -- A property of every bucket, kept by the refreshed bucket, is kept by the table.
  insert_at-buckets {κ} :
      (P : ℕ → List Address → Type κ)
      → ((m : ℕ) (u : Slice) → get_elem? t.buckets m ≡ some u → P m (view t.arrays u))
      → P n (refreshed addr (view t.arrays s))
      → (m : ℕ) (u : Slice) → get_elem? (insert_at t n s addr).buckets m ≡ some u
      → P m (view (insert_at t n s addr).arrays u)
  unfolding insert_at
  insert_at-buckets P old new m u h = elim (slots m u h) [
    | inl (p, e) ↦ rw (p, e) (subst (P n) (sym inserted.shown) new)
    | inr (ne, e) ↦ subst (P m) (ap (take u.len) (sym (kept_array m u ne e))) (old m u e)
  ]

  insert_at-IsTable : bucket_index self addr ≡ ok (pos n) → IsTable self (insert_at t n s addr)
  insert_at-IsTable i = record {
    count = unfold insert_at in length-set t.buckets n _ ∙ is.count;
    fits = insert_at-Fits;
    separate = insert_at-separate;
    distinct =
        insert_at-buckets (λ _ bs. AreDistinct bs) is.distinct
          (refreshed-AreDistinct addr (view t.arrays s) (is.distinct n s at_n));
    belongs =
        insert_at-buckets (λ m bs. All (λ a. bucket_index self a ≡ ok (pos m)) bs) is.belongs
          (refreshed-All (λ a. bucket_index self a ≡ ok (pos n)) addr (view t.arrays s) i
            (is.belongs n s at_n));
  }

-- Inserting an address with a distance from the node succeeds. It puts the address at the front
-- of the bucket of its distance, keeps the newest 19 others there, leaves the other 159 buckets
-- as they were, and keeps the invariant.
pub insert_into_table_lem :
    (self : Address) (t : Table) (addr : Address) (n : ℕ)
    → IsTable self t
    → bucket_index self addr ≡ ok (pos n)
    → n < 160
    → (u : Table) × (insert_into_table self t addr ≡ ok u) × IsTable self u × Refreshed t n addr u
insert_into_table_lem self t addr n is i below =
    let (s, e) = get_elem?_below t.buckets n (omega (arith, is.count)) in
    (
      insert_at t n s addr,
      insert_into_table-insert_at self t addr n s i e,
      insert_at-IsTable self t addr n s is e i,
      insert_at-Refreshed self t addr n s is e,
    )

table_at-inversion :
    (self : Address) (t u : Table) (addr : Address) (i : Outcome AddressError ℤ)
    → bucket_index self addr ≡ i
    → insert_into_table self t addr ≡ ok u
    → (n : ℕ) × (s : Slice) × (bucket_index self addr ≡ ok (pos n))
      × (get_elem? t.buckets n ≡ some s)
unfolding insert_into_table
table_at-inversion self t u addr (err e) i h = absurd (cc (rw (i, insert_into_table) at h))
table_at-inversion self t u addr panic i h = absurd (cc (rw (i, insert_into_table) at h))
table_at-inversion self t u addr (ok (negsuc n)) i h = absurd (cc (rw (i, insert_into_table) at h))
table_at-inversion self t u addr (ok (pos n)) i h = elim (Option-cases (get_elem? t.buckets n)) [
  | inl e ↦ absurd (cc (rw (i, e, insert_into_table) at h))
  | inr (s, e) ↦ (n, s, i, e)
]

-- Whatever the address, an insertion that does not panic keeps the invariant.
pub insert_into_table-keeps :
    (self : Address) (t u : Table) (addr : Address)
    → IsTable self t
    → insert_into_table self t addr ≡ ok u
    → IsTable self u
insert_into_table-keeps self t u addr is h =
    let (n, s, i, e) = table_at-inversion self t u addr (bucket_index self addr) refl h in
    let done = insert_into_table-insert_at self t addr n s i e in
    let same : insert_at t n s addr ≡ u = cc (done, h) in
    subst (IsTable self) same (insert_at-IsTable self t addr n s is e i)
