-- ===== src/Dht/Entry/Verify.antt =====
-- What `Verify` accepts.
use dfi.Prelude.{◌<◌, ◌≤◌, ◌≡◌, ◌↔◌, refl, ap, Bool, true, false, length, not, arith}
use dfi.Prelude.Int.{ℤ, pos, negsuc}
use dfi.Prelude.Outcome.{Outcome, ok, err, panic, return_if, ◌>>=◌, ◌>>◌}
use dfi.Dht.Address.{Bytes, Codec}
use dfi.Dht.Entry.{
  Entry, EntryError, Signatures, signed_bytes, bytes_or_none, check_sizes, check_signature,
  check_location, verify, greater, not_verified,
}

-- The lengths that are tested before the signature.
pub record AreSizes (e : Entry) : Type 0 where
  pub address : length e.address.raw ≡ 20
  pub name : length e.name ≤ 32
  pub desc : length e.desc ≤ 160
  pub seeds : length e.seeds ≤ 100000
  pub public_key : 32 ≤ length e.public_key
  pub signature : 64 ≤ length e.signature

-- A port is not tested against 0.
abbrev pub IsPort : ℤ → Type 0
IsPort (pos n) = n ≤ 65535
IsPort (negsuc n) = Unit

pub record IsLocated (e : Entry) : Type 0 where
  pub some_address : 0 < length e.public_address
  pub address : length e.public_address < 253
  pub port : IsPort e.port

abbrev pub IsSigned : Codec → Signatures → Entry → Type 0
IsSigned codec sigs e =
    (text : Bytes) × (bytes_or_none (signed_bytes codec e) ≡ ok text)
    × (sigs.check e.public_key text e.signature ≡ ok true)

return_if_iff :
    {E : Type 0} (b : Bool) (e : E) (m : Outcome E (Unit {0}))
    → ((return_if b e >> m) ≡ ok tt) ↔ ((b ≡ false) × (m ≡ ok tt))
return_if_iff true e m = (λ h. cc, λ h. cc)
return_if_iff false e m = (λ h. (refl, h), λ h. h.1)

seq_iff :
    {E : Type 0} (m n : Outcome E (Unit {0})) → ((m >> n) ≡ ok tt) ↔ ((m ≡ ok tt) × (n ≡ ok tt))
seq_iff (ok tt) n = (λ h. (refl, h), λ h. h.1)
seq_iff (err e) n = (λ h. cc, λ h. cc)
seq_iff panic n = (λ h. cc, λ h. cc)

pub check_sizes_iff : (e : Entry) → (check_sizes e ≡ ok tt) ↔ AreSizes e
check_sizes_iff e = (λ h. ground arith, λ h. ground arith)

greater_iff : (z : ℤ) → (greater z 65535 ≡ false) ↔ IsPort z
greater_iff (pos n) = (λ h. ground arith, λ h. ground arith)
greater_iff (negsuc n) = (λ h. tt, λ h. refl)

check_location_iff : (e : Entry) → (check_location e ≡ ok tt) ↔ IsLocated e
check_location_iff e = (
  λ h. record {
    some_address = ground arith;
    address = ground arith;
    port = (greater_iff e.port).0 (ground arith);
  },
  λ h. let p = (greater_iff e.port).1 h.port in ground (arith, h.some_address, h.address),
)

not-false : (b : Bool) → not b ≡ false → b ≡ true
not-false true h = refl
not-false false h = cc

return_if_last : (b : Bool) (e : EntryError) → return_if b e ≡ ok tt → b ≡ false
return_if_last true e h = cc
return_if_last false e h = refl

signed_of_check :
    (text : Outcome EntryError Bytes) (check : Bytes → Outcome EntryError Bool)
    → (do t ← text; v ← check t; return_if (not v) not_verified) ≡ ok tt
    → (t : Bytes) × (text ≡ ok t) × (check t ≡ ok true)
signed_of_check (err e) check h = cc
signed_of_check panic check h = cc
signed_of_check (ok t) check h = (t, refl, checked (check t) h)
  where
    checked :
        (o : Outcome EntryError Bool)
        → (do v ← o; return_if (not v) not_verified) ≡ ok tt
        → o ≡ ok true
    checked (err e) k = cc
    checked panic k = cc
    checked (ok v) k = ap ok (not-false v (return_if_last (not v) not_verified k))

check_signature_iff :
    (codec : Codec) (sigs : Signatures) (e : Entry)
    → (check_signature codec sigs e ≡ ok tt) ↔ IsSigned codec sigs e
check_signature_iff codec sigs e = (
  signed_of_check (bytes_or_none (signed_bytes codec e))
      (λ t. sigs.check e.public_key t e.signature),
  λ (text, p, q). rw (p, q) refl,
)

-- `Verify` accepts an entry exactly when its lengths are in bounds, the signature checks out
-- against the entry's own key, and it has a public address under 253 bytes and a port of at most
-- 65535.
pub verify_iff :
    (codec : Codec) (sigs : Signatures) (e : Entry)
    → (verify codec sigs e ≡ ok tt) ↔ (AreSizes e × IsSigned codec sigs e × IsLocated e)
unfolding verify
verify_iff codec sigs e = (
  λ h.
      let (sizes, rest) = (seq_iff (check_sizes e) _).0 h in
      let (signed, located) = (seq_iff (check_signature codec sigs e) _).0 rest in
      (
        (check_sizes_iff e).0 sizes,
        (check_signature_iff codec sigs e).0 signed,
        (check_location_iff e).0 located,
      ),
  λ h.
      rw
        (
          (check_sizes_iff e).1 h.0,
          (check_signature_iff codec sigs e).1 h.1,
          (check_location_iff e).1 h.2,
        )
        refl,
)
