-- ===== src/Local.antt =====
-- localpeer.go: what the node does with its own entry.
pub mod SignEntry
pub mod Node
pub mod Kept
pub mod Saved
pub mod Handlers
use dfi.Prelude.{ℕ, List, ◌++◌, length, take, drop}
use dfi.Prelude.Outcome.{Outcome, ok, err, panic, ◌>>=◌}
use dfi.Dht.Address.{Bytes, Codec}
use dfi.Dht.Entry.{Entry, EntryError, Signatures, signed_bytes, bytes_or_none}

-- Go's `copy(dst, src)`.
abbrev pub copy : Bytes → Bytes → Bytes
copy dst src = take (length dst) src ++ drop (length src) dst

-- `SignEntry` at the time `now`, in seconds.
unfoldable pub sign_entry : Codec → Signatures → Bytes → ℕ → Entry → Outcome EntryError Entry
sign_entry codec sigs private_key now e = do
  let updated = record e { updated = now }
  text ← bytes_or_none (signed_bytes codec updated)
  ok (record updated { signature = copy e.signature (sigs.sign private_key text) })
