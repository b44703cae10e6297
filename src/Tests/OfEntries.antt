-- ===== src/Tests/OfEntries.antt =====
-- Entries and their signatures.
use dfi.Prelude.{◌≡◌, ◌↔◌, refl, arith, [], ◌∷◌, replicate}
use dfi.Prelude.Int.{pos, negsuc}
use dfi.Prelude.Outcome.{ok, panic}
use dfi.Dht.Entry.{Entry, verify}
use dfi.Dht.Entry.Verify.{AreSizes, IsSigned, IsLocated, verify_iff}
use dfi.Dht.Entry.Signing.{verify-port, verify-shift, verify-long_key}
use dfi.Local.{sign_entry}
use dfi.Local.SignEntry.{verify-sign_entry}
use dfi.Tests.Fixtures.{
  codec, codec-IsSound, sigs, sigs-AreSignatures, unsigned, signed, signed_verified, public_key,
  private_key,
}

sizes : AreSizes unsigned
sizes = record {
  address = refl;
  name = omega arith;
  desc = omega arith;
  seeds = omega arith;
  public_key = omega arith;
  signature = omega arith;
}

located : IsLocated unsigned
located = record { some_address = omega arith; address = omega arith; port = omega arith }

verify_iff_example :
    (verify codec sigs signed ≡ ok tt)
    ↔ (AreSizes signed × IsSigned codec sigs signed × IsLocated signed)
verify_iff_example = verify_iff codec sigs signed

verify-sign_entry_case :
    (e : Entry) × (sign_entry codec sigs private_key 9 unsigned ≡ ok e)
    × (verify codec sigs e ≡ ok tt)
verify-sign_entry_case =
    verify-sign_entry codec sigs private_key 9 unsigned codec-IsSound sigs-AreSignatures sizes
      located refl

verify_port_case :
    verify codec sigs (record signed { port = negsuc 4 })
    ≡ verify codec sigs (record signed { port = pos 0xD800 })
verify_port_case =
    verify-port codec sigs signed (negsuc 4) (pos 0xD800) tt (omega arith, omega arith) tt
      (omega arith)

verify-shift_case :
    verify codec sigs (record signed { name = 110 ∷ []; desc = 97 ∷ 100 ∷ [] }) ≡ ok tt
verify-shift_case =
    verify-shift codec sigs signed (110 ∷ []) (97 ∷ []) (100 ∷ []) (omega arith) signed_verified

abbrev long_key : Entry
long_key = record unsigned { public_key = replicate 33 5 }

long_sizes : AreSizes long_key
long_sizes = record {
  address = refl;
  name = omega arith;
  desc = omega arith;
  seeds = omega arith;
  public_key = omega arith;
  signature = omega arith;
}

verify-long_key_case : verify codec sigs long_key ≡ panic
verify-long_key_case =
    verify-long_key codec sigs public_key private_key long_key sigs-AreSignatures long_sizes
      (omega arith)
