-- ===== src/Dht/Address/Encoding.antt =====
-- Making addresses of public keys, and writing and reading them as text.
use dfi.Prelude.{Bool-cases, inl, inr, ltb, ◌<◌, ◌≡◌, ◌≢◌, refl, some, [], length, arith}
use dfi.Prelude.Outcome.{ok, err}
use dfi.Dht.Address.{
  Address, Address, Bytes, Codec, of_raw, no_address, address_binary_size, key_size, string,
  generate, new_address, decode_address,
}

-- What the other packages promise: BLAKE2 of the configured size gives that many bytes, a text
-- that base58check writes is not empty, and it is read back as it was.
pub record IsSound (codec : Codec) : Type 0 where
  pub blake : Bytes → Bytes
  pub blake_known : codec.blake2 address_binary_size ≡ some blake
  pub length-blake : (bs : Bytes) → length (blake bs) ≡ address_binary_size
  pub written : Bytes → Bytes
  pub encode_written : (bs : Bytes) → codec.encode bs ≡ ok (written bs)
  pub length-written : (bs : Bytes) → 0 < length (written bs)
  pub decode_written : (bs : Bytes) → codec.decode (written bs) ≡ ok bs

module _ (codec : Codec) (sound : IsSound codec) where
  open sound use {
    blake, blake_known, length-blake, written, encode_written, length-written, decode_written,
  }

  -- The text of an address without one is the text of its bytes, and it is read back.
  pub string-of_raw :
      (raw : Bytes)
      → string codec (of_raw raw) ≡ ok (written raw, record { raw = raw; encoded = written raw })
  unfolding string
  string-of_raw raw = rw (encode_written raw)

  -- A key of 32 bytes gives an address of 20 bytes with its text, where BLAKE2 and base58check
  -- work as documented.
  pub new_address-generated :
      (key : Bytes)
      → length key ≡ 32
      → (a : Address) × (new_address codec key ≡ ok a)
        × (length a.raw ≡ address_binary_size)
        × (a.encoded ≡ written a.raw)
  unfolding new_address
  new_address-generated key h =
      let raw : Bytes = blake (codec.sha3 key) in
      (
        record { raw = raw; encoded = written raw },
        ground (arith, blake_known, encode_written raw, length-written raw),
        length-blake (codec.sha3 key),
        refl,
      )

  -- A key that has not 32 bytes is refused by `Generate`, but `NewAddress` then returns an
  -- address of no bytes, with a text and no error, where BLAKE2 and base58check work as
  -- documented.
  pub new_address-bad_key :
      (key : Bytes)
      → length key ≢ 32
      → ((generate codec no_address key).0 ≡ err key_size)
        × (new_address codec key ≡ ok (record { raw = []; encoded = written [] }))
  unfolding generate new_address
  new_address-bad_key key h =
      (ground (arith, blake_known), ground (arith, blake_known, encode_written []))

  -- The text that `String` gives an address made of bytes decodes to an address with those
  -- bytes, where base58check reads back what it wrote.
  pub decode_address-string :
      (raw : Bytes) (text : Bytes) (a : Address)
      → string codec (of_raw raw) ≡ ok (text, a)
      → decode_address codec text ≡ ok (of_raw raw)
  unfolding decode_address
  decode_address-string raw text a h =
      let e : text ≡ written raw = cc (h, string-of_raw raw) in rw (e, decode_written raw)

  -- Every address has a text.
  pub string-ok : (a : Address) → (text : Bytes) × (a' : Address) × (string codec a ≡ ok (text, a'))
  unfolding string
  string-ok a = elim (Bool-cases (ltb 0 (length a.encoded))) [
    | inl known ↦ (a.encoded, a, rw known refl)
    | inr fresh ↦
        (written a.raw, record a { encoded = written a.raw }, rw (fresh, encode_written a.raw) refl)
  ]
