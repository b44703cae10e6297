-- ===== src/Dht/Table/Refinement.antt =====
-- The table as an abstract object: what each bucket shows after any insertions, told by the
-- insertions alone, without buckets, arrays or evictions.
use dfi.Prelude.{
  ℕ, ◌<◌, ◌≡◌, refl, sym, ap, ◌∙◌, Bool, true, false, List, [], ◌∷◌, take, All, arith, ◌==◌,
  if◌then◌else◌,
}
use native.Mathlib.Decide.{ℕ_discrete}
use dfi.Prelude.Int.{ℤ, pos, negsuc}
use dfi.Prelude.Outcome.{Outcome, ok, err, panic, ◌>>=◌}
use dfi.Dht.Address.{Address, AddressError}
use dfi.Dht.Table.{Table, bucket_size, bucket_index, insert_into_table, new_table}
use dfi.Dht.Table.Bucket.{remove, refreshed, take-remove}
use dfi.Dht.Table.Insert.{IsTable, Refreshed, bucket_view}
use dfi.Dht.Table.Index.{IsNode, insert_into_table-IsTable}
use dfi.Dht.Table.Initial.{new_table-IsTable}

-- Calls of `insertIntoTable`, one after the other.
unfoldable pub insert_all : Address → Table → List Address → Outcome AddressError Table
insert_all self t [] = ok t
insert_all self t (a ∷ later) = insert_into_table self t a >>= λ u. insert_all self u later

abbrev is_index : ℕ → Outcome AddressError ℤ → Bool
is_index n (ok (pos m)) = m == n
is_index n (ok (negsuc m)) = false
is_index n (err e) = false
is_index n panic = false

-- The different addresses of a bucket, however many, the last to come first.
unfoldable pub recent : Address → ℕ → List Address → List Address → List Address
recent self n [] before = before
recent self n (a ∷ later) before =
    recent self n later
      (if is_index n (bucket_index self a) then a ∷ remove a.raw before else before)

-- What a bucket shows is the bound of what came to it.
abbrev Shows : Address → Table → (ℕ → List Address) → Type 0
Shows self t before = (n : ℕ) → n < 160 → bucket_view t n ≡ take bucket_size (before n)

abbrev seen : Address → Address → (ℕ → List Address) → ℕ → List Address
seen self a before n =
    if is_index n (bucket_index self a) then a ∷ remove a.raw (before n) else before n

insertion-Shows :
    (self a : Address) (t u : Table) (m : ℕ) (before : ℕ → List Address)
    → bucket_index self a ≡ ok (pos m)
    → Refreshed t m a u
    → Shows self t before
    → Shows self u (seen self a before)
insertion-Shows self a t u m before i r shows n below = elim (ℕ_discrete m n) [
  | yes e ↦
      let this : (m == n) ≡ true = ground arith in
      let shown : bucket_view t m ≡ take bucket_size (before m) =
        shows m (omega (arith, e, below)) in
      rw (i, this)
        (ap (bucket_view u) (sym e)
          ∙ r.here
          ∙ ap (refreshed a) shown
          ∙ ap (λ l. a ∷ l) (take-remove 19 a.raw (before m))
          ∙ ap (λ k. a ∷ take 19 (remove a.raw (before k))) e)
  | no ne ↦
      let other : (m == n) ≡ false = ground arith in
      rw (i, other) (r.elsewhere n below (λ e. ne (sym e)) ∙ shows n below)
]

insert_all-Shows :
    (self : Address) (t : Table) (addrs : List Address) (before : ℕ → List Address)
    → IsNode self
    → All IsNode addrs
    → IsTable self t
    → Shows self t before
    → (u : Table) × (insert_all self t addrs ≡ ok u)
      × IsTable self u
      × Shows self u (λ n. recent self n addrs (before n))
unfolding insert_all recent
insert_all-Shows self t [] before node h is shows = (t, refl, is, shows)
insert_all-Shows self t (a ∷ addrs) before node (h, hs) is shows =
    let (m, u, i, e, is', r) = insert_into_table-IsTable self t a is node h in
    let (v, e', is'', shows') =
      insert_all-Shows self u addrs (seen self a before) node hs is'
        (insertion-Shows self a t u m before i r shows) in
    (v, rw e e', is'', shows')

-- Starting from a new table, any insertions of addresses of 20 bytes succeed, and each of the 160
-- buckets then shows the 20 different addresses that came to it last, the latest first.
pub insert_all-recent :
    (self : Address) (addrs : List Address)
    → IsNode self
    → All IsNode addrs
    → (u : Table) × (insert_all self new_table addrs ≡ ok u)
      × IsTable self u
      × ((n : ℕ) → n < 160 → bucket_view u n ≡ take bucket_size (recent self n addrs []))
insert_all-recent self addrs node h =
    let (is, empty) = new_table-IsTable self in
    insert_all-Shows self new_table addrs (λ n. []) node h is (λ n below. empty n)
