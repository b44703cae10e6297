-- ===== src/Dht/Table/Heap.antt =====
-- An insertion on the store of arrays: what the new slice shows, and which arrays it writes.
use dfi.Prelude.{
  ℕ, ◌+◌, ◌-◌, ◌<◌, ◌≤◌, ◌≡◌, ◌≢◌, refl, sym, ap, ◌∙◌, false, none, some, [], ◌∷◌, length, take,
  set, ◌==◌, arith, inl, inr, ==_iff, Bool-cases, Option-cases, length-take, length-append,
  length-set, get_or-append_left, get_or-append_last, get_or-set_self, get_or-set_ne,
  take-append_length, take-take, take_of_length-le,
}
use dfi.Dht.Address.{Address}
use dfi.Dht.Table.{
  Arrays, Slice, array_at, view, push_front, insert_bucket, shift_array, remove_at, find_equal,
  bucket_size,
}
use dfi.Dht.Table.Bucket.{refreshed, remove, find_equal-none, find_equal-some, length-remove_at}

-- A slice lies inside its array, and shows at most a bucket.
pub record Fits (arrays : Arrays) (s : Slice) : Type 0 where
  pub known : s.array < length arrays
  pub inside : s.len ≤ length (array_at arrays s.array)
  pub bounded : s.len ≤ bucket_size

-- What one insertion leaves: a fresh array for the new bucket, and every array but the old
-- bucket's as it was.
pub record Inserted (arrays : Arrays) (bucket : Slice) (addr : Address) (r : Arrays × Slice)
    : Type 0 where
  pub shown : view r.0 r.1 ≡ refreshed addr (view arrays bucket)
  pub fresh : r.1.array ≡ length arrays
  pub grown : length r.0 ≡ length arrays + 1
  pub fits : Fits r.0 r.1
  pub others : (i : ℕ) → i < length arrays → i ≢ bucket.array → array_at r.0 i ≡ array_at arrays i

pub length-view : (arrays : Arrays) (s : Slice) → Fits arrays s → length (view arrays s) ≡ s.len
length-view arrays s f = omega (arith, f.inside, length-take s.len (array_at arrays s.array))

-- The new slice shows what the array under it holds.
push_front-view :
    (arrays : Arrays) (s : Slice) (addr : Address)
    → length (view arrays s) ≡ s.len
    → view (push_front arrays s addr).0 (push_front arrays s addr).1 ≡ addr ∷ view arrays s
push_front-view arrays s addr h =
    ap (take (s.len + 1)) (get_or-append_last arrays (addr ∷ view arrays s) [])
    ∙ take_of_length-le (s.len + 1) (addr ∷ view arrays s) (omega arith)

push_front-Inserted :
    (old arrays : Arrays) (bucket s : Slice) (addr : Address)
    → length arrays ≡ length old
    → length (view arrays s) ≡ s.len
    → s.len ≤ 19
    → addr ∷ view arrays s ≡ refreshed addr (view old bucket)
    → ((i : ℕ) → i ≢ bucket.array → array_at arrays i ≡ array_at old i)
    → Inserted old bucket addr (push_front arrays s addr)
push_front-Inserted old arrays bucket s addr same whole room e others = record {
  shown = push_front-view arrays s addr whole ∙ e;
  fresh = same;
  grown = omega (arith, length-append arrays ((addr ∷ view arrays s) ∷ []));
  fits = record {
    known = omega (arith, length-append arrays ((addr ∷ view arrays s) ∷ []));
    inside = rw (get_or-append_last arrays (addr ∷ view arrays s) []) (omega arith);
    bounded = omega arith;
  };
  others = λ i below ne.
      get_or-append_left arrays ((addr ∷ view arrays s) ∷ []) i [] (omega arith) ∙ others i ne;
}

-- After the shift, the slice that is one shorter shows the bucket without the removed address.
shifted-view :
    (arrays : Arrays) (bucket : Slice) (n : ℕ)
    → Fits arrays bucket
    → n < bucket.len
    → view
        (set arrays bucket.array (shift_array n bucket.len (array_at arrays bucket.array)))
        (record bucket { len = bucket.len - 1 })
      ≡ remove_at n (view arrays bucket)
shifted-view arrays bucket n f h =
    ap (take (bucket.len - 1)) (get_or-set_self arrays bucket.array _ [] f.known)
    ∙ take-append_length (remove_at n (view arrays bucket)) _ (bucket.len - 1) (
        omega (
          arith,
          length-view arrays bucket f,
          length-remove_at n (view arrays bucket) (omega (arith, length-view arrays bucket f)),
        ))

insert_found :
    (arrays : Arrays) (bucket : Slice) (addr : Address) (n : ℕ)
    → Fits arrays bucket
    → find_equal addr (view arrays bucket) ≡ some n
    → Inserted arrays bucket addr (insert_bucket arrays bucket addr)
unfolding insert_bucket
insert_found arrays bucket addr n f e =
    let whole = length-view arrays bucket f in
    let (below, removed) = find_equal-some addr (view arrays bucket) n e in
    let cut = length-remove_at n (view arrays bucket) below in
    let shown = shifted-view arrays bucket n f (omega arith) in
    rw (e, insert_bucket)
      (push_front-Inserted arrays _ bucket (record bucket { len = bucket.len - 1 }) addr
        (length-set arrays bucket.array _) (rw shown (omega (arith, f.bounded)))
        (omega (arith, f.bounded))
        (ap (◌∷◌ addr) (
          shown
          ∙ removed
          ∙ sym (
              take_of_length-le 19 (remove addr.raw (view arrays bucket))
                (rw (← removed) (omega (arith, f.bounded))))))
        (λ i ne. get_or-set_ne arrays bucket.array i _ [] (λ p. ne (sym p))))

room_left : (n : ℕ) → n ≤ 20 → (n == 20) ≡ false → n ≤ 19
room_left n h e = ground arith

insert_new :
    (arrays : Arrays) (bucket : Slice) (addr : Address)
    → Fits arrays bucket
    → find_equal addr (view arrays bucket) ≡ none
    → Inserted arrays bucket addr (insert_bucket arrays bucket addr)
unfolding insert_bucket
insert_new arrays bucket addr f e =
    let whole = length-view arrays bucket f in
    let (removed, _) = find_equal-none addr (view arrays bucket) e in
    elim (Bool-cases (bucket.len == bucket_size)) [
      | inl full ↦
          let is_full : bucket.len ≡ 20 = (==_iff bucket.len 20).0 full in
          let cut =
            take-take (bucket.len - 1) bucket.len (array_at arrays bucket.array) (omega arith) in
          rw (e, insert_bucket, full)
            (push_front-Inserted arrays arrays bucket (record bucket { len = bucket.len - 1 }) addr
              refl
              (omega (arith, f.inside, length-take (bucket.len - 1) (array_at arrays bucket.array)))
              (omega arith)
              (rw removed (
                ap (◌∷◌ addr)
                  (sym cut ∙ ap (λ (k : ℕ). take k (view arrays bucket)) {y = 19} (omega arith))))
              (λ i ne. refl))
      | inr room ↦
          let few = room_left bucket.len f.bounded room in
          rw (e, insert_bucket, room)
            (push_front-Inserted arrays arrays bucket bucket addr refl whole few
              (rw removed
                (ap (◌∷◌ addr) (sym (take_of_length-le 19 (view arrays bucket) (omega arith)))))
              (λ i ne. refl))
    ]

-- An insertion into a bucket that fits its array, whichever of its three branches is taken,
-- leaves a bucket in a new array that shows the address first and behind it the newest 19 of the
-- others, and leaves every array but the old bucket's as it was.
pub insert_bucket-Inserted :
    (arrays : Arrays) (bucket : Slice) (addr : Address)
    → Fits arrays bucket
    → Inserted arrays bucket addr (insert_bucket arrays bucket addr)
insert_bucket-Inserted arrays bucket addr f =
    elim (Option-cases (find_equal addr (view arrays bucket))) [
      | inl e ↦ insert_new arrays bucket addr f e
      | inr (n, e) ↦ insert_found arrays bucket addr n f e
    ]
