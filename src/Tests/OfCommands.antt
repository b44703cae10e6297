-- ===== src/Tests/OfCommands.antt =====
-- Requests to the HTTP server of a node.
use dfi.Prelude.{ℕ, ◌≡◌, refl, true, false, none, some, Option, List, [], ◌∷◌, bytes_eq}
use dfi.Prelude.Outcome.{ok}
use dfi.Dht.Address.{Bytes}
use dfi.Data.Post.{Post}
use dfi.Commands.{CommandServer, a_text}
use dfi.Commands.Own.{key_of, desc, local_set, local_get}
use dfi.Commands.Suggest.{Unicode}
use dfi.Commands.Routes.{handle_request, bootstrap_from}
use dfi.Commands.Kept.Calls.{IsServing}
use dfi.Commands.Kept.{handle_request-IsServing}
use dfi.Commands.Stored.{local_get-local_set}
use dfi.Dht.Table.Initial.{new_table-IsTable}
use dfi.Tests.Fixtures.{self}
use dfi.Tests.Nodes.{setting}
use dfi.Tests.OfPeers.{two_peers, two_peers-AreKeyed}

abbrev server : CommandServer ℕ ℕ (List Post)
server = record { peers = two_peers; mirror_progress = [] }

abbrev unicode : Unicode
unicode = record {
  scan_words = λ text. text ∷ [];
  runes = λ text. text;
  is_letter = λ r. true;
  is_number = λ r. false;
}

abbrev no_post : Bytes → Option Post
no_post text = none

abbrev as_it_is : Bytes → Option Bytes
as_it_is text = some text

server-IsServing : IsServing server
server-IsServing = ((new_table-IsTable self).0, two_peers-AreKeyed)

handle_request-IsServing_example :
    IsServing
      (handle_request setting (λ t. t) unicode no_post as_it_is (bootstrap_from (49 ∷ [])) server).1
handle_request-IsServing_example =
    handle_request-IsServing setting (λ t. t) unicode no_post as_it_is (bootstrap_from (49 ∷ []))
      server server-IsServing

abbrev desc_key : Bytes
desc_key = 100 ∷ 101 ∷ 115 ∷ 99 ∷ []

named_desc : key_of desc_key ≡ some desc
unfolding key_of bytes_eq
named_desc = refl

local_get-local_set_example :
    (local_get setting
      (λ t. t)
      desc_key
      (local_set setting (λ t. t) desc_key (104 ∷ 105 ∷ []) server).1).0
    ≡ ok (record { is_ok = true; value = a_text (104 ∷ 105 ∷ []); error = none })
local_get-local_set_example =
    local_get-local_set setting (λ t. t) desc_key (104 ∷ 105 ∷ []) desc server named_desc refl
