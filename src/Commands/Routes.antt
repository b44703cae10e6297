-- ===== src/Commands/Routes.antt =====
-- The handlers of httpserver.go: what a request carries is passed on to a command, and its result
-- is written as a response. The routes of gorilla/mux, base64 and JSON are parameters: a request is
-- the route it took, with the texts of its variables and form values.
use dfi.Prelude.{ℕ, Bool, false, Option, none, some, [], ◌∷◌, bytes_eq, if◌then◌else◌}
use dfi.Prelude.Int.{ℤ, word}
use dfi.Prelude.Action.{pure, ◌>>=◌}
use dfi.Text.Decimal.{atoi}
use dfi.Dht.Address.{Bytes}
use dfi.Data.Post.{Post}
use dfi.Peers.{Setting}
use dfi.Commands.{Command, CommandResult, CommandError, Value, nothing, bad_number}
use dfi.Commands.Remote.{
  ping, announce, r_search, peer_search, peer_recent, peer_popular, get_mirror_progress,
  resolve_entry, bootstrap, entry_search, list_peers, request_add_peer,
}
use dfi.Commands.Own.{
  add_post_and_index, self_index, peer_index, self_search, self_recent, self_popular, add_meta_to,
  save_collection, set_seed_leech, local_set, local_get, address_encode,
}
use dfi.Commands.Suggest.{Unicode, self_suggest, peer_suggest}

pub data Request : Type 0 where
  ping_peer announce_to mirror_progress_of resolve_address bootstrap_from : Bytes → Request
  search_remotely search_peer : Bytes → Bytes → Bytes → Request
  recent_of popular_of index_of suggest_of : Bytes → Bytes → Request
  post_added : Bytes → Bytes → Request
  index_from suggest_own recent_own popular_own get_own encode_raw : Bytes → Request
  search_own meta_added add_peer_at set_own : Bytes → Bytes → Request
  search_entries seed_leech : Bytes → Bytes → Bytes → Request
  collection_saved peers_listed : Request

-- What is written: `WriteJSON` leaves out a value that is nil.
pub data Body : Type 0 where
  ok_only : Body
  ok_with : Value → Body
  err_with : Option CommandError → Body

pub record Response : Type 0 where
  pub status : ℕ
  pub body : Body

abbrev pub value_body : Value → Body
value_body nothing = ok_only
value_body v = ok_with v

-- `write_http_response`
unfoldable pub write_http_response : CommandResult → Response
write_http_response r =
    if r.is_ok
    then record { status = 200; body = value_body r.value }
    else record { status = 500; body = err_with r.error }

module _ {W S D : Type 0} (setting : Setting W S D) (to_lower : Bytes → Bytes) (unicode : Unicode)
    (decode_post : Bytes → Option Post) (base64 : Bytes → Option Bytes) where
  abbrev pub refused : Command setting CommandResult
  refused = pure (record { is_ok = false; value = nothing; error = some bad_number })

  -- `strconv.Atoi`, with the result of its error.
  abbrev pub with_number :
      Bytes → (ℤ → Command setting CommandResult) → Command setting CommandResult
  with_number text f = elim (atoi text) [ none ↦ refused | some n ↦ f n ]

  -- A value that is decoded, with the result of the error.
  abbrev pub with_decoded :
      {A : Type 0} → Option A → (A → Command setting CommandResult) → Command setting CommandResult
  with_decoded none f = refused
  with_decoded (some a) f = f a

  abbrev pub is_true : Bytes → Bool
  is_true text = bytes_eq text (116 ∷ 114 ∷ 117 ∷ 101 ∷ [])

  -- The command of a request.
  unfoldable pub command_of : Request → Command setting CommandResult
  unfolding atoi
  command_of (ping_peer a) = ping setting a
  command_of (announce_to a) = announce setting a
  command_of (mirror_progress_of a) = get_mirror_progress setting a
  command_of (resolve_address a) = resolve_entry setting a
  command_of (bootstrap_from a) = bootstrap setting a
  command_of (search_remotely a query page) = with_number page (r_search setting a query)
  command_of (search_peer a query page) = with_number page (peer_search setting a query)
  command_of (suggest_of a query) = peer_suggest setting unicode a query
  command_of (recent_of a page) = with_number page (peer_recent setting a)
  command_of (popular_of a page) = with_number page (peer_popular setting a)
  command_of (index_of a since) = with_number since (peer_index setting to_lower a)
  command_of (post_added post index) =
      with_decoded (decode_post post) λ p. add_post_and_index setting to_lower p (is_true index)
  command_of (index_from since) = with_number since (self_index setting to_lower)
  command_of (suggest_own query) = self_suggest setting unicode query
  command_of (recent_own page) = with_number page (self_recent setting to_lower)
  command_of (popular_own page) = with_number page (self_popular setting to_lower)
  command_of (get_own key) = local_get setting to_lower key
  command_of (encode_raw raw) = with_decoded (base64 raw) (address_encode setting to_lower)
  command_of (search_own query page) = with_number page (self_search setting to_lower query)
  command_of (meta_added pid meta) = with_number pid λ n. add_meta_to setting to_lower n meta
  command_of (add_peer_at remote peer) = request_add_peer setting remote peer
  command_of (set_own key value) = local_set setting to_lower key value
  command_of (search_entries name desc page) = with_number page (entry_search setting name desc)
  command_of (seed_leech id seed leech) = with_number id λ i.
      with_number seed
        λ s. with_number leech λ l. set_seed_leech setting to_lower (word i) (word s) (word l)
  command_of collection_saved = save_collection setting to_lower
  command_of peers_listed = list_peers setting

  unfoldable pub handle_request : Request → Command setting Response
  unfolding command_of write_http_response
  handle_request r = do answer ← command_of r; pure (write_http_response answer)
