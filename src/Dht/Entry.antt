-- ===== src/Dht/Entry.antt =====
-- dht/entry.go: the entry of a peer, the bytes that its owner signs, and `Verify`.
-- Ed25519 is a parameter. Encoding as msgpack and JSON is not modelled.
pub mod Verify
pub mod Signing
use dfi.Prelude.{
  concat, ℕ, ◌+◌, ◌-◌, ◌^◌, ◌<◌, ◌≤◌, ◌≡◌, Bool, true, false, Option, none, some, List, [], ◌∷◌,
  ◌++◌, length, ltb, leb, ◌==◌, not, if◌then◌else◌,
}
use dfi.Prelude.Int.{ℤ, pos, negsuc}
use dfi.Prelude.Outcome.{Outcome, ok, err, panic, return_if, ◌>>=◌, ◌>>◌}
use dfi.Text.Decimal.{itoa}
use dfi.Text.Utf8.{rune_string}
use dfi.Dht.Address.{Address, AddressError, Bytes, Codec, string}

abbrev pub max_entry_name_length : ℕ
max_entry_name_length = 32

abbrev pub max_entry_desc_length : ℕ
max_entry_desc_length = 160

abbrev pub max_entry_public_address_length : ℕ
max_entry_public_address_length = 253

abbrev pub max_entry_seeds : ℕ
max_entry_seeds = 100000

-- `ed25519.PublicKeySize` and `ed25519.SignatureSize`
abbrev pub public_key_size : ℕ
public_key_size = 32

abbrev pub signature_size : ℕ
signature_size = 64

pub record Entry : Type 0 where
  pub address : Address
  pub name : Bytes
  pub desc : Bytes
  pub public_address : Bytes
  pub public_key : Bytes
  pub post_count : ℤ
  pub updated : ℕ
  pub signature : Bytes
  pub collection_hash : Bytes
  pub port : ℤ
  pub seeds : List Bytes
  pub seeding : List Bytes
  pub seen : ℤ
  pub distance : Address

pub data EntryError : Type 0 where
  entry_nil address_size name_too_long desc_too_long too_many_seeds : EntryError
  key_too_small signature_too_small not_verified : EntryError
  no_public_address public_address_too_large port_too_large : EntryError

-- `int(x)` of a uint64.
abbrev pub to_int : ℕ → ℤ
to_int x = if ltb x (2 ^ 63) then pos x else negsuc (2 ^ 64 - 1 - x)

-- `z > n` on a signed number.
abbrev pub greater : ℤ → ℕ → Bool
greater (pos m) n = ltb n m
greater (negsuc m) n = false

-- The text that `String` builds up behind the address.
unfoldable pub signed_text : Bytes → Entry → Bytes
signed_text address e =
    address
    ++ (e.name
        ++ (e.desc
            ++ (e.public_address
                ++ (e.public_key
                    ++ (rune_string e.port
                        ++ (itoa e.post_count
                            ++ (itoa (to_int e.updated)
                                ++ (e.collection_hash ++ concat e.seeding))))))))

-- `String`, and `Bytes`, which is the same bytes: what the owner of the entry signs.
unfoldable pub signed_bytes : Codec → Entry → Outcome AddressError Bytes
unfolding signed_text
signed_bytes codec e = do (address, _) ← string codec e.address; ok (signed_text address e)

-- `data, _ := entry.Bytes()`: an error leaves no bytes.
abbrev pub bytes_or_none : Outcome AddressError Bytes → Outcome EntryError Bytes
bytes_or_none (ok bs) = ok bs
bytes_or_none (err _) = ok []
bytes_or_none panic = panic

-- `ed25519.Verify` and `ed25519.Sign` with a private key. The former may panic.
pub record Signatures : Type 0 where
  pub check : Bytes → Bytes → Bytes → Outcome EntryError Bool
  pub sign : Bytes → Bytes → Bytes

-- The tests before the signature, in the order of the code.
abbrev pub check_sizes : Entry → Outcome EntryError (Unit {0})
check_sizes e = do
  return_if (not (length e.address.raw == 20)) address_size
  return_if (ltb max_entry_name_length (length e.name)) name_too_long
  return_if (ltb max_entry_desc_length (length e.desc)) desc_too_long
  return_if (ltb max_entry_seeds (length e.seeds)) too_many_seeds
  return_if (ltb (length e.public_key) public_key_size) key_too_small
  return_if (ltb (length e.signature) signature_size) signature_too_small

abbrev pub check_signature : Codec → Signatures → Entry → Outcome EntryError (Unit {0})
check_signature codec sigs e = do
  text ← bytes_or_none (signed_bytes codec e)
  verified ← sigs.check e.public_key text e.signature
  return_if (not verified) not_verified

abbrev pub check_location : Entry → Outcome EntryError (Unit {0})
check_location e = do
  return_if (length e.public_address == 0) no_public_address
  return_if (leb max_entry_public_address_length (length e.public_address)) public_address_too_large
  return_if (greater e.port 65535) port_too_large

unfoldable pub verify : Codec → Signatures → Entry → Outcome EntryError (Unit {0})
verify codec sigs e = do check_sizes e; check_signature codec sigs e; check_location e

-- `Verify` of a pointer, which may be nil.
abbrev pub verify_pointer : Codec → Signatures → Option Entry → Outcome EntryError (Unit {0})
verify_pointer codec sigs p = elim p [ none ↦ err entry_nil | some e ↦ verify codec sigs e ]
