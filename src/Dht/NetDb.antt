-- ===== src/Dht/NetDb.antt =====
-- dht/netdb.go: the routing table together with the database of entries. SQLite is a parameter:
-- each prepared statement of dht/sql.go is an operation on a state that only it reads. The copy of
-- the table on disk is what `SaveTable` last left there.
pub mod Reading
pub mod Writing
pub mod Closest
pub mod Kept
pub mod Invariant
pub mod Inserting
pub mod Found
pub mod Start
pub mod Startup
use mathlib.Core.Option
use dfi.Prelude.{
  ℕ, zero, suc, ◌+◌, ◌-◌, ◌*◌, Bool, Option, none, some, List, [], ◌∷◌, ◌++◌, length, get_elem?,
  get_or, map, ltb, leb, ◌==◌, ◌&&◌, ◌||◌, if◌then◌else◌,
}
use dfi.Prelude.Int.{ℤ, pos, negsuc}
use dfi.Prelude.Outcome.{Outcome, ok, err, panic, or_panic}
use dfi.Prelude.Action.{Action, pure, lift, attempt, ◌>>=◌, ◌>>◌}
use dfi.Dht.Address.{
  Address, AddressError, Bytes, Codec, no_address, of_raw, string, decode_address,
}
use dfi.Dht.Table.{
  Slice, Table, array_at, view, bucket_size, bucket_index, insert_into_table, new_table, table_at,
}
use dfi.Dht.Entry.{Entry, EntryError, Signatures, verify}

-- What a query of the database may end with besides its result.
pub data SqlError : Type 0 where
  no_rows failed : SqlError

pub data DbError : Type 0 where
  address_error : AddressError → DbError
  entry_error : EntryError → DbError
  sql_error : SqlError → DbError

-- A row of the table `entry`, in the order of its columns.
pub record Row : Type 0 where
  pub id : ℤ
  pub address : Bytes
  pub name : Bytes
  pub desc : Bytes
  pub public_address : Bytes
  pub port : ℤ
  pub public_key : Bytes
  pub signature : Bytes
  pub collection_hash : Bytes
  pub post_count : ℤ
  pub seed_count : ℕ
  pub seeding_count : ℕ
  pub updated : ℕ
  pub seen : ℤ

-- `sql.Result`
pub record ExecResult : Type 0 where
  pub rows_affected : Outcome SqlError ℕ
  pub last_insert_id : Outcome SqlError ℤ

-- The prepared statements. A query of several rows gives what each `Scan` comes to. The id of the
-- row that is passed to an insertion or an update means nothing.
pub record Sql (S : Type 0) : Type 0 where
  pub insert_entry : Row → S → Outcome SqlError ExecResult × S
  pub insert_fts_entry : ℤ → Bytes → Bytes → S → Outcome SqlError ExecResult × S
  pub update_entry : Row → S → Outcome SqlError ExecResult × S
  pub insert_seed : ℤ → ℤ → S → Outcome SqlError ExecResult × S
  pub entry_len : S → Outcome SqlError ℤ
  pub query_address : S → Bytes → Outcome SqlError Row
  pub query_id_by_address : S → Bytes → Outcome SqlError ℤ
  pub query_seeds : S → ℤ → Outcome SqlError (List (Outcome SqlError Bytes))
  pub query_seeding : S → ℤ → Outcome SqlError (List (Outcome SqlError Bytes))
  pub query_latest : S → Outcome SqlError (List (Outcome SqlError Row))
  pub search_peer : S → Bytes → Bytes → ℤ → ℕ → Outcome SqlError (List (Outcome SqlError Bytes))

-- What the code reaches outside of it: the database, the packages for addresses and signatures,
-- and `ioutil.WriteFile`, which from a file and what is written gives the file afterwards.
pub record Env (S : Type 0) : Type 0 where
  pub sql : Sql S
  pub codec : Codec
  pub sigs : Signatures
  pub write_file : List (List Address) → List (List Address) → List (List Address)

pub record NetDb (S : Type 0) : Type 0 where
  pub table : Table
  pub addr : Address
  pub conn : S
  pub table_file : List (List Address)

-- The columns of an entry under the text of its address.
abbrev pub row_of : Bytes → Entry → Row
row_of address_string e = record {
  id = pos 0;
  address = address_string;
  name = e.name;
  desc = e.desc;
  public_address = e.public_address;
  port = e.port;
  public_key = e.public_key;
  signature = e.signature;
  collection_hash = e.collection_hash;
  post_count = e.post_count;
  seed_count = length e.seeds;
  seeding_count = length e.seeding;
  updated = e.updated;
  seen = e.seen;
}

-- What `Scan` puts into a new entry: its address stays as it is in `Entry{}`.
abbrev pub entry_of : Row → Entry
entry_of r = record {
  address = no_address;
  name = r.name;
  desc = r.desc;
  public_address = r.public_address;
  public_key = r.public_key;
  post_count = r.post_count;
  updated = r.updated;
  signature = r.signature;
  collection_hash = r.collection_hash;
  port = r.port;
  seeds = [];
  seeding = [];
  seen = r.seen;
  distance = no_address;
}

abbrev pub address_result : {A : Type 0} → Outcome AddressError A → Outcome DbError A
address_result (ok a) = ok a
address_result (err e) = err (address_error e)
address_result panic = panic

abbrev pub sql_result : {A : Type 0} → Outcome SqlError A → Outcome DbError A
sql_result (ok a) = ok a
sql_result (err e) = err (sql_error e)
sql_result panic = panic

abbrev pub entry_result : {A : Type 0} → Outcome EntryError A → Outcome DbError A
entry_result (ok a) = ok a
entry_result (err e) = err (entry_error e)
entry_result panic = panic

-- `err == sql.ErrNoRows` is no error.
abbrev pub found_row : Outcome SqlError Row → Outcome DbError (Option Row)
found_row (ok r) = ok (some r)
found_row (err no_rows) = ok none
found_row (err failed) = err (sql_error failed)
found_row panic = panic
