-- ===== src/Dht/Address.antt =====
-- dht/address.go: addresses, their order, the distance between two of them, and the bucket index.
-- A byte slice is a list of numbers below 256. SHA3, BLAKE2 and base58check are parameters.
pub mod Order
pub mod Distance
pub mod Zeroes
pub mod Encoding
use dfi.Prelude.{
  ℕ, zero, suc, ◌+◌, ◌-◌, ◌*◌, ◌/◌, ◌%◌, ◌^◌, bit_xor, Bool, false, Option, none, some, List, [],
  ◌∷◌, length, ltb, ◌==◌, bytes_eq, if◌then◌else◌,
}
use dfi.Prelude.Int.{ℤ, pos, negsuc}
use dfi.Prelude.Outcome.{Outcome, ok, err, panic, ◌>>=◌}

abbrev pub Bytes : Type 0
Bytes = List ℕ

pub record Address : Type 0 where
  pub raw : Bytes
  pub encoded : Bytes

abbrev pub address_binary_size : ℕ
address_binary_size = 20

pub data AddressError : Type 0 where
  encode_error decode_error blake_error rand_error key_size : AddressError

-- What the program calls in other packages: `sha3.Sum256`, `blake2.New` with the digest size, and
-- `base58check` with the version byte 0x51.
pub record Codec : Type 0 where
  pub sha3 : Bytes → Bytes
  pub blake2 : ℕ → Option (Bytes → Bytes)
  pub encode : Bytes → Outcome AddressError Bytes
  pub decode : Bytes → Outcome AddressError Bytes

-- `var addr Address`
abbrev pub no_address : Address
no_address = record { raw = []; encoded = [] }

-- An address with its bytes alone, `Address{Raw: i}`.
abbrev pub of_raw : Bytes → Address
of_raw bs = record { raw = bs; encoded = [] }

module _ (codec : Codec) where
  open codec use {sha3, blake2, encode, decode}

  -- The address is a pointer receiver: the encoding is kept for the next call.
  unfoldable pub string : Address → Outcome AddressError (Bytes × Address)
  string a =
      if ltb 0 (length a.encoded)
      then ok (a.encoded, a)
      else do encoded ← encode a.raw; ok (encoded, record a { encoded = encoded })

  unfoldable pub string_or : Address → Bytes → Outcome AddressError Bytes
  unfolding string
  string_or a or = elim (string a) [ ok (s, _) ↦ ok s | err _ ↦ ok or | panic ↦ panic ]

  -- The error of `String` is dropped, and the string is then empty.
  abbrev generated : Address → Outcome AddressError Bytes × Address
  generated a = elim (string a) [
    | ok (s, a') ↦ (ok s, a')
    | err _ ↦ (ok [], a)
    | panic ↦ (panic, a)
  ]

  -- `Generate` writes the receiver, so the address comes back beside the result.
  unfoldable pub generate : Address → Bytes → Outcome AddressError Bytes × Address
  unfolding string
  generate a key = elim (blake2 address_binary_size) [
    | none ↦ (err blake_error, a)
    | some blake ↦
        if length key == 32
        then generated (record a { raw = blake (sha3 key) })
        else (err key_size, a)
  ]

  -- The error of `Generate` is dropped.
  abbrev named : Outcome AddressError Bytes × Address → Outcome AddressError Address
  named (panic, a) = panic
  named (ok _, a) = do (_, a') ← string a; ok a'
  named (err _, a) = do (_, a') ← string a; ok a'

  unfoldable pub new_address : Bytes → Outcome AddressError Address
  unfolding generate
  new_address key = named (generate no_address key)

  unfoldable pub decode_address : Bytes → Outcome AddressError Address
  decode_address value = do raw ← decode value; ok (of_raw raw)

-- The loop of `Less` over the bytes of the receiver; an index past the end of the other panics.
unfoldable pub less_bytes : Bytes → Bytes → Outcome AddressError Bool
less_bytes [] bs = ok false
less_bytes (x ∷ xs) [] = panic
less_bytes (x ∷ xs) (y ∷ ys) = let rest = less_bytes xs ys in if x == y then rest else ok (ltb x y)

unfoldable pub less : Address → Address → Outcome AddressError Bool
unfolding less_bytes
less a other = less_bytes a.raw other.raw

unfoldable pub xor_bytes : Bytes → Bytes → Outcome AddressError Bytes
xor_bytes [] bs = ok []
xor_bytes (x ∷ xs) [] = panic
xor_bytes (x ∷ xs) (y ∷ ys) = do rest ← xor_bytes xs ys; ok (bit_xor x y ∷ rest)

unfoldable pub xor : Address → Address → Outcome AddressError Address
unfolding xor_bytes
xor a other = do raw ← xor_bytes a.raw other.raw; ok (of_raw raw)

-- `(x >> uint8(7-j)) & 0x1`
abbrev pub bit_at : ℕ → ℕ → ℕ
bit_at x j = (x / 2 ^ (7 - j)) % 2

-- The inner loop of `LeadingZeroes`, with the rounds that are left.
unfoldable pub first_bit : ℕ → ℕ → ℕ → Option ℕ
first_bit zero x j = none
first_bit (suc rounds) x j =
    let rest = first_bit rounds x (j + 1) in if bit_at x j == 0 then rest else some j

-- The early `return i*8 + j`, or the rest of the outer loop.
abbrev pub return_at : ℕ → Option ℕ → Option ℕ → Option ℕ
return_at i (some j) rest = some (i * 8 + j)
return_at i none rest = rest

unfoldable pub first_one : ℕ → Bytes → Option ℕ
first_one i [] = none
first_one i (x ∷ xs) = return_at i (first_bit 8 x 0) (first_one (i + 1) xs)

-- `len * 8 - 1`, in Go's `int`.
abbrev pub last_bit : ℕ → ℤ
last_bit zero = negsuc 0
last_bit (suc n) = pos (n * 8 + 7)

unfoldable pub leading_zeroes : Address → ℤ
leading_zeroes a = elim (first_one 0 a.raw) [ some n ↦ pos n | none ↦ last_bit (length a.raw) ]

unfoldable pub equals : Address → Address → Bool
equals a other = bytes_eq a.raw other.raw
