-- ===== src/Local/Handlers/Kept/Calls.antt =====
-- What the calls of the handlers keep: those of the node, of its connection and of its databases.
use dfi.Prelude.Outcome.{Outcome}
use dfi.Prelude.Action.{Keeps, Keeps-lift, Keeps-within, map_err}
use dfi.Dht.Address.{Address, Bytes}
use dfi.Dht.Entry.{Entry}
use dfi.Dht.NetDb.Reading.{query}
use dfi.Dht.NetDb.Writing.{insert}
use dfi.Dht.NetDb.Invariant.{query-IsDb, insert-IsDb}
use dfi.Data.Database.{QueryError}
use dfi.Proto.Message.{Header, Message, NetError, Net, net_result, write_ignored, read_content}
use dfi.Proto.Handshake.{Party}
use dfi.Proto.Packing.{Packing}
use dfi.Proto.Client.{send}
use dfi.Local.Node.{Outside, Node, on_dht, proto_error}
use dfi.Local.Kept.{HasTable, on_dht-Keeps}
use dfi.Local.Handlers.{
  Serving, on_peer, on_client, the_peer, content_of, reply, reply_ignored, own_posts,
}

abbrev pub ServesTable : {S D : Type 0} → Serving S D → Type 0
ServesTable s = HasTable s.peer

module _ {S D : Type 0} (outside : Outside S D) (party : Party) (packing : Packing) where
  open outside use {env, posts}
  open party use {fails}

  pub on_peer-Keeps :
      {A : Type 0} (m : Node outside A)
      → Keeps HasTable m
      → Keeps ServesTable (on_peer outside party packing m)
  on_peer-Keeps m k =
      Keeps-within (λ s. s.peer) (λ lp s. record s { peer = lp }) (λ e. e) m (λ s h. h)
        (λ lp s h _. h) k

  pub on_client-Keeps :
      {A : Type 0} (m : Net A) → Keeps ServesTable (on_client outside party packing m)
  on_client-Keeps m = record { at = λ s h. h }

  pub content_of-Keeps :
      {A : Type 0} (decode : Bytes → Outcome NetError A) (m : Message)
      → Keeps ServesTable (content_of outside party packing decode m)
  content_of-Keeps decode m = Keeps-lift (map_err proto_error (net_result (read_content decode m)))

  pub reply-Keeps :
      (header : Header) (encoded : Outcome NetError Bytes)
      → Keeps ServesTable (reply outside party packing header encoded)
  reply-Keeps header encoded = on_client-Keeps (send party packing header encoded)

  pub reply_ignored-Keeps :
      (m : Message) → Keeps ServesTable (reply_ignored outside party packing m)
  reply_ignored-Keeps m = on_client-Keeps (write_ignored fails m)

  pub the_peer-Keeps : Keeps ServesTable (the_peer outside party packing)
  the_peer-Keeps = record { at = λ s h. h }

  pub query-Keeps :
      (a : Address)
      → Keeps ServesTable (on_peer outside party packing (on_dht outside (query env a)))
  query-Keeps a =
      on_peer-Keeps (on_dht outside (query env a))
        (on_dht-Keeps outside (query env a) (query-IsDb env a))

  pub insert-Keeps : (e : Entry) → Keeps HasTable (on_dht outside (insert env e))
  insert-Keeps e = on_dht-Keeps outside (insert env e) (record { at = insert-IsDb env e })

  pub own_posts-Keeps :
      {A : Type 0} (f : D → Outcome QueryError A)
      → Keeps ServesTable (own_posts outside party packing f)
  own_posts-Keeps f = record { at = λ s h. h }
