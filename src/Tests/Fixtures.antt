-- ===== src/Tests/Fixtures.antt =====
-- Concrete packages, a concrete database and concrete values.
use dfi.Prelude.{
  ℕ, zero, suc, ◌+◌, ◌≡◌, ◌≢◌, ◌<◌, refl, ap, arith, some, [], ◌∷◌, ◌++◌, length, length-take,
  length-append, length-replicate, take, drop, replicate, ◌==◌, ltb, bytes_eq, bytes_eq_refl,
  if◌then◌else◌,
}
use dfi.Prelude.Int.{pos}
use dfi.Prelude.Outcome.{ok, err, panic}
use dfi.Dht.Address.{Address, Bytes, Codec, of_raw, no_address}
use dfi.Dht.Address.Order.{AllBytes}
use dfi.Dht.Address.Encoding.{IsSound}
use dfi.Dht.Table.{new_table}
use dfi.Dht.Table.Index.{IsNode}
use dfi.Dht.Address.{string}
use dfi.Text.Decimal.{itoa, digits}
use dfi.Text.Utf8.{rune_string}
use dfi.Dht.Entry.{Entry, Signatures, verify, signed_text, signed_bytes}
use dfi.Dht.Entry.Signing.{AreSignatures}
use dfi.Dht.NetDb.{Sql, Env, NetDb, no_rows, row_of}

abbrev pub codec : Codec
codec = record {
  sha3 = λ bs. bs;
  blake2 = λ n. some (λ bs. replicate 20 7);
  encode = λ bs. ok (81 ∷ bs);
  decode = λ text. ok (drop 1 text);
}

abbrev pub codec-IsSound : IsSound codec
codec-IsSound = record {
  blake = λ bs. replicate 20 7;
  blake_known = refl;
  length-blake = λ bs. refl;
  written = λ bs. 81 ∷ bs;
  encode_written = λ bs. refl;
  length-written = λ bs. omega arith;
  decode_written = λ bs. refl;
}

abbrev pub public_key : Bytes
public_key = replicate 32 5

abbrev pub private_key : Bytes
private_key = replicate 64 9

abbrev pub padded : Bytes → Bytes
padded text = take 64 (text ++ replicate 64 0)

abbrev pub sigs : Signatures
sigs = record {
  check = λ key text sig. if length key == 32 then ok (bytes_eq (padded text) sig) else panic;
  sign = λ key text. padded text;
}

check_panic : (key text sig : Bytes) → length key ≢ 32 → sigs.check key text sig ≡ panic
check_panic key text sig h = ground arith

pub sigs-AreSignatures : AreSignatures sigs public_key private_key
sigs-AreSignatures = record {
  key_size = refl;
  length-sign = λ text. omega (
    arith,
    length-take 64 (text ++ replicate 64 0),
    length-append text (replicate 64 0),
    length-replicate {A = ℕ} 64 0,
  );
  check-sign = λ text. ap ok (bytes_eq_refl (padded text));
  check-panic = λ key text sig h. check_panic key text sig h;
}

pub replicate-AllBytes : (n b : ℕ) → b < 256 → AllBytes (replicate n b)
replicate-AllBytes zero b h = tt
replicate-AllBytes (suc n) b h = (h, replicate-AllBytes n b h)

abbrev pub node : ℕ → Address
node b = of_raw (replicate 20 b)

pub node-IsNode : (b : ℕ) → b < 256 → IsNode (node b)
node-IsNode b h = record { size = length-replicate 20 b; bytes = replicate-AllBytes 20 b h }

abbrev pub self : Address
self = node 0

-- An entry that its owner has signed.
abbrev pub unsigned : Entry
unsigned = record {
  address = node 7;
  name = 110 ∷ 97 ∷ [];
  desc = 100 ∷ [];
  public_address = 49 ∷ [];
  public_key = public_key;
  post_count = pos 2;
  updated = 3;
  signature = replicate 64 0;
  collection_hash = replicate 32 4;
  port = pos 5050;
  seeds = [];
  seeding = [];
  seen = pos 0;
  distance = no_address;
}

-- A database with `n` rows for every address. Its state is that number.
abbrev pub sql : Sql ℕ
sql = record {
  insert_entry =
      λ row n. (ok (record { rows_affected = ok 1; last_insert_id = ok (pos 1) }), n + 1);
  insert_fts_entry =
      λ id name desc n. (ok (record { rows_affected = ok 1; last_insert_id = ok id }), n);
  update_entry = λ row n. (ok (record { rows_affected = ok n; last_insert_id = ok (pos 1) }), n);
  insert_seed = λ a b n. (ok (record { rows_affected = ok 1; last_insert_id = ok a }), n);
  entry_len = λ n. ok (pos n);
  query_address = λ n text. if ltb 0 n then ok (row_of text unsigned) else err no_rows;
  query_id_by_address = λ n text. ok (pos 1);
  query_seeds = λ n id. ok [];
  query_seeding = λ n id. ok [];
  query_latest = λ n. ok (ok (row_of (81 ∷ replicate 20 7) unsigned) ∷ []);
  search_peer = λ n name desc page size. ok [];
}

abbrev pub env : Env ℕ
env = record { sql = sql; codec = codec; sigs = sigs; write_file = λ old new. new }

abbrev pub net_db : ℕ → NetDb ℕ
net_db n = record { table = new_table; addr = self; conn = n; table_file = [] }

unfoldable pub owner_signature : Bytes
unfolding signed_text
owner_signature = padded (signed_text (81 ∷ replicate 20 7) unsigned)

abbrev pub signed : Entry
signed = record unsigned { signature = owner_signature }

-- The owner's entry passes `Verify`.
pub signed_verified : verify codec sigs signed ≡ ok tt
unfolding owner_signature verify signed_bytes signed_text string itoa digits rune_string bytes_eq
signed_verified = refl
