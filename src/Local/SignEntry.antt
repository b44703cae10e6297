-- ===== src/Local/SignEntry.antt =====
-- A signed entry is one that `Verify` accepts.
use mathlib.Core.List.{append-nil}
use dfi.Prelude.{
  ℕ, zero, suc, ◌≤◌, ◌≡◌, refl, sym, ap, ◌∙◌, [], ◌∷◌, length, drop, arith, take_of_length-le,
}
use dfi.Prelude.Outcome.{ok}
use dfi.Dht.Address.{Bytes, Codec}
use dfi.Dht.Address.Encoding.{IsSound, string-ok}
use dfi.Dht.Entry.{Entry, Signatures, signed_bytes, signed_text, bytes_or_none, verify}
use dfi.Dht.Entry.Verify.{AreSizes, IsLocated, verify_iff}
use dfi.Dht.Entry.Signing.{AreSignatures}
use dfi.Local.{copy, sign_entry}

drop_all : (n : ℕ) (bs : Bytes) → length bs ≤ n → drop n bs ≡ []
drop_all zero [] h = refl
drop_all zero (b ∷ bs) h = absurd (omega arith)
drop_all (suc n) [] h = refl
drop_all (suc n) (b ∷ bs) h = drop_all n bs (omega arith)

copy_same : (dst src : Bytes) → length src ≡ length dst → copy dst src ≡ src
copy_same dst src h =
    rw (take_of_length-le (length dst) src (omega arith), drop_all (length src) dst (omega arith))
      (append-nil src)

-- The signature itself is not part of the signed text.
signed_bytes-signature :
    (codec : Codec) (e : Entry) (sig : Bytes)
    → signed_bytes codec (record e { signature = sig }) ≡ signed_bytes codec e
unfolding signed_bytes
signed_bytes-signature codec e sig = refl

signed_bytes-ok :
    (codec : Codec) (e : Entry) → IsSound codec → (text : Bytes) × (signed_bytes codec e ≡ ok text)
unfolding signed_bytes
signed_bytes-ok codec e sound =
    let (text, a, h) = string-ok codec sound e.address in
    (signed_text text e, rw (h, signed_bytes) refl)

-- Signing an entry of a node succeeds and `Verify` accepts the result, where the entry has room
-- for a signature of 64 bytes, its lengths are in bounds, it has an address and a port, and the
-- key that signs belongs to its public key. Nothing is asked of the entry's DFI address but its 20
-- bytes: it need not be made of the public key.
pub verify-sign_entry :
    (codec : Codec) (sigs : Signatures) (private_key : Bytes) (now : ℕ) (e : Entry)
    → IsSound codec
    → AreSignatures sigs e.public_key private_key
    → AreSizes e
    → IsLocated e
    → length e.signature ≡ 64
    → (signed : Entry) × (sign_entry codec sigs private_key now e ≡ ok signed)
      × (verify codec sigs signed ≡ ok tt)
unfolding sign_entry
verify-sign_entry codec sigs private_key now e sound keys sizes located room =
    let updated = record e { updated = now } in
    let (text, t) = signed_bytes-ok codec updated sound in
    let sig = sigs.sign private_key text in
    let same = copy_same e.signature sig (keys.length-sign text ∙ sym room) in
    let signed = record updated { signature = sig } in
    let again = signed_bytes-signature codec updated sig ∙ t in
    (
      signed,
      rw (t, same) refl,
      (verify_iff codec sigs signed).1 (
        record {
          address = sizes.address;
          name = sizes.name;
          desc = sizes.desc;
          seeds = sizes.seeds;
          public_key = sizes.public_key;
          signature = omega (arith, keys.length-sign text);
        },
        (text, ap bytes_or_none again, keys.check-sign text),
        record {
          some_address = located.some_address;
          address = located.address;
          port = located.port;
        },
      ),
    )
