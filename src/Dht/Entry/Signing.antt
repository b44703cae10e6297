-- ===== src/Dht/Entry/Signing.antt =====
-- What the signature of an entry binds, and what it leaves open.
use mathlib.Core.List.{append_assoc}
use dfi.Prelude.{
  ◌<◌, ◌≤◌, ◌≡◌, ◌≢◌, refl, sym, ap, ◌∙◌, Bool, true, false, List, [], ◌++◌, length, not, arith,
  length-append,
}
use dfi.Prelude.Int.{ℤ, pos, negsuc}
use dfi.Prelude.Outcome.{Outcome, ok, err, panic, return_if, ◌>>=◌}
use dfi.Text.Utf8.{rune_string, replacement, rune_string_surrogate}
use dfi.Dht.Address.{AddressError, Bytes, Codec}
use dfi.Dht.Entry.{
  Entry, EntryError, Signatures, signed_bytes, bytes_or_none, verify, greater, not_verified,
}
use dfi.Dht.Entry.Verify.{AreSizes, IsPort, check_sizes_iff, verify_iff}

-- What the package ed25519 documents: a signature has 64 bytes and is accepted under the public
-- key of its private key, and a public key that has not 32 bytes makes `Verify` panic.
pub record AreSignatures (sigs : Signatures) (public_key private_key : Bytes) : Type 0 where
  pub key_size : length public_key ≡ 32
  pub length-sign : (text : Bytes) → length (sigs.sign private_key text) ≡ 64
  pub check-sign :
      (text : Bytes) → sigs.check public_key text (sigs.sign private_key text) ≡ ok true
  pub check-panic : (key text sig : Bytes) → length key ≢ 32 → sigs.check key text sig ≡ panic

-- A number that is no code point: `string(port)` is the same for all of them.
abbrev pub IsNoRune : ℤ → Type 0
IsNoRune (pos n) = (0xD800 ≤ n) × (n ≤ 0xDFFF)
IsNoRune (negsuc n) = Unit

rune_string-IsNoRune : (z : ℤ) → IsNoRune z → rune_string z ≡ replacement
rune_string-IsNoRune (pos n) (h, k) = rune_string_surrogate n h k
rune_string-IsNoRune (negsuc n) h = unfold rune_string in refl

-- The seeds and the time last seen are not signed.
pub signed_bytes-unsigned :
    (codec : Codec) (e : Entry) (seeds : List Bytes) (seen : ℤ)
    → signed_bytes codec (record e { seeds = seeds; seen = seen }) ≡ signed_bytes codec e
unfolding signed_bytes
signed_bytes-unsigned codec e seeds seen = refl

-- Of two ports that are no code points, negative ones among them, either may stand in an entry:
-- `Verify` answers the same, so the signature does not bind the port.
pub verify-port :
    (codec : Codec) (sigs : Signatures) (e : Entry) (p q : ℤ)
    → IsNoRune p
    → IsNoRune q
    → IsPort p
    → IsPort q
    → verify codec sigs (record e { port = p }) ≡ verify codec sigs (record e { port = q })
unfolding verify signed_bytes
verify-port codec sigs e p q h k a b =
    rw (rune_string-IsNoRune p h, rune_string-IsNoRune q k, greater_false p a, greater_false q b)
  where
    greater_false : (z : ℤ) → IsPort z → greater z 65535 ≡ false
    greater_false (pos n) h = ground arith
    greater_false (negsuc n) h = refl

-- The fields are signed without a separator: bytes may move from the end of the name to the front
-- of the description, and the signed text stays the same.
pub signed_bytes-shift :
    (codec : Codec) (e : Entry) (xs ys zs : Bytes)
    → signed_bytes codec (record e { name = xs ++ ys; desc = zs })
      ≡ signed_bytes codec (record e { name = xs; desc = ys ++ zs })
unfolding signed_bytes
signed_bytes-shift codec e xs ys zs = simp append_assoc

-- An entry that `Verify` accepts may be altered by anybody: with the last bytes of its name
-- moved to the front of its description it is accepted again, if the description stays within
-- its bound.
pub verify-shift :
    (codec : Codec) (sigs : Signatures) (e : Entry) (xs ys zs : Bytes)
    → length (ys ++ zs) ≤ 160
    → verify codec sigs (record e { name = xs ++ ys; desc = zs }) ≡ ok tt
    → verify codec sigs (record e { name = xs; desc = ys ++ zs }) ≡ ok tt
verify-shift codec sigs e xs ys zs fits h =
    let (sizes, (text, p, q), located) = (verify_iff codec sigs _).0 h in
    (verify_iff codec sigs _).1 (
      record {
        address = sizes.address;
        name = omega (arith, sizes.name, length-append xs ys);
        desc = fits;
        seeds = sizes.seeds;
        public_key = sizes.public_key;
        signature = sizes.signature;
      },
      (text, ap bytes_or_none (sym (signed_bytes-shift codec e xs ys zs)) ∙ p, q),
      record {
        some_address = located.some_address;
        address = located.address;
        port = located.port;
      },
    )

check_signature-panic :
    (text : Outcome AddressError Bytes) (check : Bytes → Outcome EntryError Bool)
    → ((t : Bytes) → check t ≡ panic)
    → (do t ← bytes_or_none text; v ← check t; return_if (not v) not_verified) ≡ panic
check_signature-panic (ok t) check h = rw (h t) refl
check_signature-panic (err e) check h = rw (h []) refl
check_signature-panic panic check h = refl

-- An entry of the right lengths whose public key has more than 32 bytes makes `Verify` panic, as
-- `ed25519.Verify` panics for a key of any other length than 32.
pub verify-long_key :
    (codec : Codec) (sigs : Signatures) (public_key private_key : Bytes) (e : Entry)
    → AreSignatures sigs public_key private_key
    → AreSizes e
    → 32 < length e.public_key
    → verify codec sigs e ≡ panic
unfolding verify
verify-long_key codec sigs public_key private_key e keys sizes long =
    let stops =
      check_signature-panic (signed_bytes codec e) (λ t. sigs.check e.public_key t e.signature)
        (λ t. keys.check-panic e.public_key t e.signature (omega arith)) in
    rw ((check_sizes_iff e).1 sizes, stops) refl
