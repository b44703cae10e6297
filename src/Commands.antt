-- ===== src/Commands.antt =====
-- commandserver.go and commands.go: the commands that control a node, and their results.
pub mod Remote
pub mod Own
pub mod Suggest
pub mod Routes
pub mod Kept
pub mod Stored
pub mod Targets
use dfi.Prelude.{ℕ, Bool, true, false, Option, none, some, List}
use dfi.Prelude.Int.{ℤ}
use dfi.Prelude.Outcome.{Outcome, ok, err, panic}
use dfi.Prelude.Action.{Action, map_err, within, pure, lift, attempt, ◌>>=◌}
use dfi.Dht.Address.{Address, Bytes, AddressError, decode_address}
use dfi.Dht.Entry.{Entry}
use dfi.Data.Post.{Post}
use dfi.Data.Database.{QueryError}
use dfi.Util.Maps.{Map}
use dfi.Local.Node.{Node}
use dfi.Peers.{PeerError, Setting, PeerManager, Pm}
use dfi.Peers.Requests.{SearchResult}
use dfi.Peers.Resolving.{on_local}

pub data CommandError : Type 0 where
  from_address : AddressError → CommandError
  from_peers : PeerError → CommandError
  from_posts : QueryError → CommandError
  bad_number unknown_key mirror_not_in_progress database_not_loaded not_mirrored : CommandError

-- What a command may give. How many seconds a ping took is left out.
pub data Value : Type 0 where
  nothing : Value
  a_duration : Value
  a_text : Bytes → Value
  a_number : ℤ → Value
  found : SearchResult → Value
  peer_posts : List (Option Post) → Value
  own_posts : List Post → Value
  an_entry : Entry → Value
  entries : List Entry → Value
  addresses : List Address → Value
  completions : List Bytes → Value

-- The value of a result that is not ok, which nothing reads, is left out.
pub record CommandResult : Type 0 where
  pub is_ok : Bool
  pub value : Value
  pub error : Option CommandError

pub record CommandServer (W S D : Type 0) : Type 0 where
  pub peers : PeerManager W S D
  pub mirror_progress : Map ℤ

module _ {W S D : Type 0} (setting : Setting W S D) where
  open setting use {outside}

  abbrev pub Command : Type 0 → Type 0
  Command = Action (CommandServer W S D) CommandError

  abbrev pub on_peers : {A : Type 0} → Pm setting A → Command A
  on_peers = within (λ s. s.peers) (λ pm s. record s { peers = pm }) from_peers

  abbrev pub on_node : {A : Type 0} → Node outside A → Command A
  on_node m = on_peers (on_local setting m)

  abbrev pub the_server : Command (CommandServer W S D)
  the_server s = (ok s, s)

  -- A query of a database of posts.
  abbrev pub on_posts : {A : Type 0} → (D → Outcome QueryError A) → Command A
  on_posts f s = (map_err from_posts (f s.peers.lp.posts), s)

  -- A statement that changes the node's own database.
  abbrev pub change_posts : (D → Outcome QueryError (Unit {0}) × D) → Command (Unit {0})
  change_posts f s =
      let (o, db) = f s.peers.lp.posts in
      (
        map_err from_posts o,
        record s { peers = record s.peers { lp = record s.peers.lp { posts = db } } },
      )

  abbrev pub decoded : Bytes → Command Address
  decoded address = lift (map_err from_address (decode_address outside.env.codec address))

  -- `CommandResult{err == nil, value, err}`
  abbrev pub result : Command Value → Command CommandResult
  result m =
      attempt m (λ v. pure (record { is_ok = true; value = v; error = none }))
        (λ e. pure (record { is_ok = false; value = nothing; error = some e }))
