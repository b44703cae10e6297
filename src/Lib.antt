-- ===== src/Lib.antt =====
-- The node of a peer-to-peer index of posts: each peer signs an entry about itself, entries are
-- found in a Kademlia-like table with a database behind it, peers prove who they are in a
-- handshake, and send each other their posts in pieces that a signed list of hashes covers.
--
-- Prelude has what the other modules share: lists over the native numbers, integers, the outcome
-- of a call (a value, an error or a run-time panic), methods as functions of a state (Action),
-- what a method keeps (Action.Keeps) and what holds of the value it returns (Returns). Text has
-- Go's conversions: Itoa and Atoi (Text/Decimal) and string(n) (Text/Utf8).
--
-- Dht/Address is dht/address.go: String, Generate, NewAddress, DecodeAddress, Less, Xor,
-- LeadingZeroes, Equals. A byte slice is a list of numbers; where a theorem needs bytes it says so
-- (AllBytes). SHA3, BLAKE2, base58check are the parameter Codec, and what is documented of them is
-- IsSound. Dht/Table is the routing table of dht/netdb.go: insertIntoTable with the Go slices
-- written out, as arrays in a store and slices on them, since the code shifts an array that a loop
-- may still read. Dht/Entry is dht/entry.go: the signed text (String) and Verify; Ed25519 is the
-- parameter Signatures. Dht/NetDb is the database of dht/netdb.go: Reading has the queries,
-- Writing Update, Insert and what they call, Closest FindClosest, Start NewNetDB, QueryLatest and
-- NewDHT of dht/dht.go. SQLite is the parameter Sql, an operation on a state of its own for each
-- statement of dht/sql.go. The outer loop of FindClosest runs on fuel, outer_rounds: it cannot run
-- past the sum of the index and the bits. Local/SignEntry is SignEntry of localpeer.go.
--
-- Data/Post, Data/Piece and Data/Collection are data/post.go, data/piece.go and
-- data/collection.go. A hash.Hash is the bytes written to it. The hash list of a collection is an
-- array with a length, as Add cuts it by its capacity. Data/Reader is data/errors.go with the
-- goroutine of Client.Pieces in proto/client.go and the writer of HandlePiece in
-- localpeerhandlers.go.
--
-- Proto/Message and Proto/Handshake are proto/message.go, the reads and writes of proto/client.go
-- and proto/handshake.go: a connection is the list of what its reads come to, so a peer may send
-- anything, and the list of what was written; msgpack, the random cookie and the failure of writes
-- are parameters. Proto/Capabilities and Proto/HashList are proto/capabilities.go and Verify of
-- proto/messages.go, Proto/Sessions the sessions of proto/streammanager.go, Proto/Opening the
-- opening of connections there, with the dialing as a parameter, and Opened and Agreed what is
-- proved of it. Proto/Client has the
-- requests of proto/client.go over a connection, with the encodings of their contents in
-- Proto/Packing, and Proto/Bootstrap the request that fills the table. Data/Database is
-- data/database.go: a statement that is read is a parameter, a list of rows for each argument
-- (Listing), and the pages, the scans and the limits are the code's. Data/Database/Transactions is
-- InsertPieces, its channel the list of what comes before it is closed.
--
-- Local/Node is the node's own part of localpeer.go: the entry, its files and the databases, with
-- what is written outside as a parameter (Outside). Local/Handlers is localpeerhandlers.go, each
-- handler over the node, the connection of the message and the stream of a piece, and
-- Local/Handlers/Routing RouteMessage and HandleStream of proto/server.go, the latter over the list
-- of what its reads come to: a stream that was closed may still be read. Peers is peer.go and
-- peermanager.go: the concurrent maps are association lists (Util/Maps) in the order in which they are ranged over,
-- and what is beyond the node, the dialing of peers with the handshake and what a request of a
-- peer answers, is the parameter Setting on a world of its own. Connecting has the connections and
-- the eviction, on as many rounds as there are peers; Resolving Resolve and resolveStep, the
-- latter on seven rounds, one more than its counter allows; Mirror the loop of Mirror, Seeds
-- findSeeds of seedmanager.go with its slices written out, and Exploring explorePeer of
-- jobs/explore.go and what StartExploring of localpeer.go does with an entry. Requests has the
-- other requests of peer.go and the seed managers that are kept, Managed what is proved of them,
-- and Incoming is HandleHandshake of localpeerhandlers.go. Util/Limiter is util/limiter.go as a
-- relation of steps; Util/Slices, Util/Merge and Util/Shuffle are SliceDiff, MergeSeeds and the
-- shuffles of util/util.go, with the random numbers as a parameter.
--
-- Commands is commandserver.go and commands.go over the manager of peers: Remote has the commands
-- that reach other peers, Own those about the node, Suggest the suggestions of data/search.go, and
-- Routes the handlers of httpserver.go, for which a request is the route that it took with the
-- texts of its variables and form values. Commands/Kept goes through every command for what is
-- kept of the node, from what the calls of the manager keep (Peers/Stable, Reaching, Requested);
-- Stored and Targets have what is proved of LocalSet and of Bootstrap.
--
-- NetMap is CreateNetMap of netmap.go, with the query of the database as a parameter. Its recursion
-- is counted, and one round more than there are addresses to find is enough (NetMap/Drawn).
--
-- Tests runs the theorems on concrete values.
--
-- Not modelled: the list of streams, the listening and the timers of proto, what
-- HandleCloseConnection tells a seed manager, the goroutines of Mirror, of the seeds and of the
-- exploring, the pings of peer.go, the commands Mirror, RebuildCollection, Explore, NetMap and the
-- profiles, the routes of the HTTP server and the start of the node. Numbers are unbounded where
-- Go's int cannot overflow; where it can, in the ids of pieces and the pages, the wrap-around is
-- written out.
pub mod Prelude
pub mod Text
pub mod Dht
pub mod Data
pub mod Proto
pub mod Peers
pub mod Commands
pub mod NetMap
pub mod Util
pub mod Local
pub mod Tests
