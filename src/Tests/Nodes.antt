-- ===== src/Tests/Nodes.antt =====
-- Concrete nodes with their databases of posts, and the encodings of what they send.
use dfi.Prelude.{
  ℕ, refl, true, false, none, some, List, [], ◌∷◌, ◌++◌, map, take, drop, length, replicate,
}
use dfi.Prelude.Int.{ℤ, pos, negsuc}
use dfi.Prelude.Outcome.{ok}
use dfi.Dht.Address.{Bytes, of_raw}
use dfi.Data.Post.{Post}
use dfi.Data.Database.{Listing, recent_posts, popular_posts, paged_posts, PostSql, Rows}
use dfi.Data.Database.Pages.{IsPaged}
use dfi.Proto.HashList.{MessageCollection}
use dfi.Proto.Handshake.{Wire, Party}
use dfi.Proto.Packing.{Packing}
use dfi.Local.Node.{LocalPeer, Outside}
use dfi.Peers.{Peer, World, Setting, PeerManager}
use dfi.Tests.Fixtures.{codec, sigs, env, net_db, node, self, signed, private_key}

abbrev pub wire : Wire
wire = record {
  encode_entry = λ e. ok (1 ∷ []);
  decode_entry = λ bs. ok signed;
  encode_caps = λ c. ok (2 ∷ []);
  decode_caps = λ bs. ok [];
  encode_bytes = λ bs. ok bs;
  fill = λ a bs. (ok tt, bs);
}

abbrev pub party : Party
party = record { wire = wire; codec = codec; sigs = sigs; fails = λ n. false }

-- Two hashes.
abbrev pub sixes : Bytes
sixes = replicate 64 6

abbrev pub list : MessageCollection
list = record {
  hash = [];
  hash_list = record { array = sixes; len = 64 };
  size = pos 2;
  signature = [];
}

abbrev pub packing : Packing
packing = record {
  address = record { encode = λ a. ok a.raw; decode = λ bs. ok (of_raw bs) };
  entry = record { encode = λ e. ok (1 ∷ []); decode = λ bs. ok signed };
  entries = record { encode = λ es. ok []; decode = λ bs. ok (some signed ∷ []) };
  search = record {
    encode = λ q. ok q.query;
    decode = λ bs. ok (record { query = bs; page = pos 0 });
  };
  page = record { encode = λ p. ok []; decode = λ bs. ok (pos 0) };
  posts = record { encode = λ ps. ok []; decode = λ bs. ok [] };
  collection = record { encode = λ c. ok (2 ∷ []); decode = λ bs. ok list };
  piece = record {
    encode = λ r. ok r.address;
    decode = λ bs. ok (record { address = bs; id = pos 0; length = pos 1 });
  };
}

-- A page of a list of posts.
abbrev pub page_of : Listing → ℤ → ℤ → List Post → Rows Post
page_of paged_posts (pos start) (pos limit) ps = ok (map ok (take limit (drop start ps)))
page_of paged_posts (pos start) (negsuc n) ps = ok []
page_of paged_posts (negsuc n) limit ps = ok []
page_of recent_posts start limit ps = ok []
page_of popular_posts start limit ps = ok []

abbrev pub post_sql : PostSql (List Post)
post_sql = record {
  query_page = page_of;
  search_post = λ text start limit ps. ok [];
  query_post_id = λ id ps. ok [];
  suggest_posts = λ text limit ps. ok [];
  insert_post = λ p ps. (ok (ok (pos (length ps))), ps ++ p ∷ []);
  update_seeders = λ id n ps. (ok tt, ps);
  update_leechers = λ id n ps. (ok tt, ps);
  attach_meta = λ text id ps. (ok tt, ps);
  generate_fts = λ since ps. (ok tt, ps);
}

pub post_sql-IsPaged : (ps : List Post) → IsPaged post_sql ps ps
post_sql-IsPaged ps = record { page = λ start limit. refl }

abbrev pub outside : Outside ℕ (List Post)
outside = record {
  env = env;
  posts = post_sql;
  encode_entry = λ e. ok (1 ∷ []);
  write_file = λ old new. (ok tt, new);
  read_collection = λ text. ok sixes;
  now = 9;
  capacity = λ n. n;
}

-- A node whose database has `n` rows for every address.
abbrev pub local : ℕ → LocalPeer ℕ (List Post)
local n = record {
  dht = net_db n;
  address = self;
  entry = signed;
  private_key = private_key;
  collection = record {
    pieces = [];
    hash_list = record { array = sixes; len = 64 };
    root_hash = sixes;
  };
  posts = [];
  databases = λ text. none;
  entry_file = [];
  collection_file = [];
}

-- A world in which every peer is there and answers nothing. Its clock counts.
abbrev pub world : World ℕ
world = record {
  ping = λ p n. (ok tt, n);
  dial = λ text n. (ok signed, n);
  open_stream = λ p n. (ok (record { incoming = []; sent = []; closed = false }), n);
  connect_client = λ p n. n;
  connect_server = λ p n. (ok tt, n);
  terminate = λ p n. n;
  now = λ n. (pos n, n);
  external_ip = λ n. ([], n);
  max_peers = 1;
}

abbrev pub setting : Setting ℕ ℕ (List Post)
setting = record { world = world; outside = outside; party = party; packing = packing }

abbrev pub peer : ℕ → Peer
peer b = record { address = node b; entry = some signed; followed = true }

-- A node that is connected to no peer yet.
abbrev pub manager : ℕ → PeerManager ℕ ℕ (List Post)
manager n = record {
  peers = [];
  seen = [];
  public_to_dfi = [];
  seed_managers = [];
  lp = local n;
  world = 5;
}
