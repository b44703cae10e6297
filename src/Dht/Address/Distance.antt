-- ===== src/Dht/Address/Distance.antt =====
-- The exclusive or of two addresses is a metric on the numbers that they write.
use native.Mathlib.Nat.{mul-le-mul_right}
use dfi.Prelude.{ℕ, ◌+◌, ◌*◌, ◌^◌, ◌<◌, ◌≤◌, ◌≡◌, refl, bit_xor, [], ◌∷◌, length, arith}
use dfi.Prelude.Outcome.{ok, panic}
use dfi.Prelude.Xor.{bit_xor_self, bit_xor_comm, bit_xor_cancel, bit_xor_triangle, bit_xor-byte}
use dfi.Dht.Address.{Address, Bytes, of_raw, xor, xor_bytes}
use dfi.Dht.Address.Order.{value, AllBytes}

-- The bytes of a distance, the shorter operand deciding the length.
pub xor_list : Bytes → Bytes → Bytes
xor_list [] ys = []
xor_list (x ∷ xs) [] = []
xor_list (x ∷ xs) (y ∷ ys) = bit_xor x y ∷ xor_list xs ys

pub length-xor_list : (xs ys : Bytes) → length xs ≤ length ys → length (xor_list xs ys) ≡ length xs
unfolding xor_list
length-xor_list [] ys h = refl
length-xor_list (x ∷ xs) [] h = absurd (omega arith)
length-xor_list (x ∷ xs) (y ∷ ys) h = omega (arith, length-xor_list xs ys)

pub xor_list-AllBytes : (xs ys : Bytes) → AllBytes xs → AllBytes ys → AllBytes (xor_list xs ys)
unfolding xor_list
xor_list-AllBytes [] ys p q = tt
xor_list-AllBytes (x ∷ xs) [] p q = tt
xor_list-AllBytes (x ∷ xs) (y ∷ ys) p q =
    (bit_xor-byte x y p.0 q.0, xor_list-AllBytes xs ys p.1 q.1)

pub xor_bytes-ok : (xs ys : Bytes) → length xs ≤ length ys → xor_bytes xs ys ≡ ok (xor_list xs ys)
unfolding xor_bytes xor_list
xor_bytes-ok [] ys h = refl
xor_bytes-ok (x ∷ xs) [] h = absurd (omega arith)
xor_bytes-ok (x ∷ xs) (y ∷ ys) h = rw (xor_bytes-ok xs ys (omega arith))

pub xor_bytes-panic : (xs ys : Bytes) → length ys < length xs → xor_bytes xs ys ≡ panic
unfolding xor_bytes
xor_bytes-panic [] ys h = absurd (omega arith)
xor_bytes-panic (x ∷ xs) [] h = refl
xor_bytes-panic (x ∷ xs) (y ∷ ys) h = rw (xor_bytes-panic xs ys (omega arith))

-- A receiver that is not the longer one has a distance.
pub xor-ok :
    (a b : Address) → length a.raw ≤ length b.raw → xor a b ≡ ok (of_raw (xor_list a.raw b.raw))
unfolding xor
xor-ok a b h = rw (xor_bytes-ok a.raw b.raw h)

pub xor-panic : (a b : Address) → length b.raw < length a.raw → xor a b ≡ panic
unfolding xor
xor-panic a b h = rw (xor_bytes-panic a.raw b.raw h)

pub xor_list_self : (xs : Bytes) → value (xor_list xs xs) ≡ 0
unfolding xor_list
xor_list_self [] = refl
xor_list_self (x ∷ xs) = rw (bit_xor_self x) (omega (arith, xor_list_self xs))

xor_list_comm : (xs ys : Bytes) → length xs ≡ length ys → xor_list xs ys ≡ xor_list ys xs
unfolding xor_list
xor_list_comm [] [] h = refl
xor_list_comm [] (y ∷ ys) h = absurd (omega arith)
xor_list_comm (x ∷ xs) [] h = absurd (omega arith)
xor_list_comm (x ∷ xs) (y ∷ ys) h = cc (bit_xor_comm x y, xor_list_comm xs ys (omega arith))

-- From one address and a distance the other address can be read back.
xor_list_cancel : (xs ys : Bytes) → length xs ≡ length ys → xor_list xs (xor_list xs ys) ≡ ys
unfolding xor_list
xor_list_cancel [] [] h = refl
xor_list_cancel [] (y ∷ ys) h = absurd (omega arith)
xor_list_cancel (x ∷ xs) [] h = absurd (omega arith)
xor_list_cancel (x ∷ xs) (y ∷ ys) h = cc (bit_xor_cancel x y, xor_list_cancel xs ys (omega arith))

xor_list_triangle :
    (xs ys zs : Bytes)
    → length xs ≡ length ys
    → length ys ≡ length zs
    → value (xor_list xs zs) ≤ value (xor_list xs ys) + value (xor_list ys zs)
unfolding xor_list
xor_list_triangle [] [] [] h k = omega arith
xor_list_triangle [] (y ∷ ys) zs h k = absurd (omega arith)
xor_list_triangle (x ∷ xs) [] zs h k = absurd (omega arith)
xor_list_triangle (x ∷ xs) (y ∷ ys) [] h k = absurd (omega arith)
xor_list_triangle [] [] (z ∷ zs) h k = absurd (omega arith)
xor_list_triangle (x ∷ xs) (y ∷ ys) (z ∷ zs) h k =
    let ih = xor_list_triangle xs ys zs (omega arith) (omega arith) in
    let p = length-xor_list xs zs (omega arith) in
    let q = length-xor_list xs ys (omega arith) in
    let r = length-xor_list ys zs (omega arith) in
    let e : length ys ≡ length xs = omega arith in
    rw (p, q, r, e)
      (weigh (bit_xor x z) (bit_xor x y) (bit_xor y z) (256 ^ length xs) _ _ _
        (bit_xor_triangle x y z) ih)
  where
    weigh : (a b c m u v w : ℕ) → a ≤ b + c → u ≤ v + w → a * m + u ≤ b * m + v + (c * m + w)
    weigh a b c m u v w s t = omega (arith, mul-le-mul_right m s)

-- An address is at distance 0 from itself, and of two addresses of one length either is at the
-- same distance from the other.
pub xor_metric :
    (a b : Address)
    → length a.raw ≡ length b.raw
    → ((d : Address) × (xor a a ≡ ok d) × (value d.raw ≡ 0)) × (xor a b ≡ xor b a)
xor_metric a b h =
    let same = xor-ok a a (omega arith) in
    let left = xor-ok a b (omega arith) in
    let right = xor-ok b a (omega arith) in
    (
      (of_raw (xor_list a.raw a.raw), same, xor_list_self a.raw),
      rw (left, right, xor_list_comm a.raw b.raw h),
    )

-- Of addresses of one length, two at the same distance from a third have the same bytes.
pub xor-injective :
    (a b c : Address)
    → length a.raw ≡ length b.raw
    → length a.raw ≡ length c.raw
    → xor a b ≡ xor a c
    → b.raw ≡ c.raw
xor-injective a b c h k e =
    let left = xor-ok a b (omega arith) in
    let other = xor-ok a c (omega arith) in
    cc (e, left, other, xor_list_cancel a.raw b.raw h, xor_list_cancel a.raw c.raw k)

-- Of three addresses of one length, the distance that the code computes from the first to the
-- third is at most the sum of those over the second.
pub xor_triangle :
    (a b c p q r : Address)
    → length a.raw ≡ length b.raw
    → length b.raw ≡ length c.raw
    → xor a b ≡ ok p
    → xor b c ≡ ok q
    → xor a c ≡ ok r
    → value r.raw ≤ value p.raw + value q.raw
xor_triangle a b c p q r h k x y z =
    let e : p.raw ≡ xor_list a.raw b.raw = cc (x, xor-ok a b (omega arith)) in
    let f : q.raw ≡ xor_list b.raw c.raw = cc (y, xor-ok b c (omega arith)) in
    let g : r.raw ≡ xor_list a.raw c.raw = cc (z, xor-ok a c (omega arith)) in
    rw (e, f, g) (xor_list_triangle a.raw b.raw c.raw h k)
