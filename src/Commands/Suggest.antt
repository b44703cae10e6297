-- ===== src/Commands/Suggest.antt =====
-- The suggestions of data/search.go, and the commands for them. What `bufio.ScanWords`, the runes of
-- a text and the tables of the package unicode come to is a parameter.
use mathlib.Core.List.{append_assoc, append-nil}
use dfi.Prelude.{
  ℕ, Bool, true, false, ◌||◌, none, some, List, [], ◌∷◌, ◌++◌, ◌≡◌, sym, ap, ◌∙◌, length, replicate,
  map, if◌then◌else◌,
}
use dfi.Prelude.Outcome.{Outcome, ok, err, panic}
use dfi.Prelude.Action.{map_err, pure, lift, ◌>>=◌}
use dfi.Dht.Address.{Bytes}
use dfi.Data.Database.{PostSql, QueryError}
use dfi.Data.Database
use dfi.Peers.{Setting}
use dfi.Commands.{
  Command, CommandResult, on_posts, the_server, result, completions, nothing, from_posts,
  not_mirrored,
}

pub record Unicode : Type 0 where
  pub scan_words : Bytes → List Bytes
  pub runes : Bytes → List ℕ
  pub is_letter : ℕ → Bool
  pub is_number : ℕ → Bool

module _ (unicode : Unicode) where
  open unicode use {scan_words, runes, is_letter, is_number}

  -- The loop of `IsAlnumWord`.
  unfoldable pub are_alnum : List ℕ → Bool
  are_alnum [] = true
  are_alnum (i ∷ rest) =
      let others = are_alnum rest in if is_letter i || is_number i then others else false

  -- The loop of `SanitiseForAuto`, with what is in its buffer.
  unfoldable pub write_words : List Bytes → Bytes → Bytes
  unfolding are_alnum
  write_words [] buffer = buffer
  write_words (w ∷ rest) buffer =
      write_words rest (if are_alnum (runes w) then buffer ++ (w ++ 32 ∷ []) else buffer)

  unfoldable pub sanitise_for_auto : Bytes → Bytes
  unfolding write_words
  sanitise_for_auto text = write_words (scan_words text) []

  -- The loop of `Suggest`, which appends to a list that is made with its length.
  unfoldable pub append_sanitised : List Bytes → List Bytes → List Bytes
  unfolding sanitise_for_auto
  append_sanitised [] ret = ret
  append_sanitised (i ∷ rest) ret = append_sanitised rest (ret ++ sanitise_for_auto i ∷ [])

  abbrev pub suggestions : Outcome QueryError (List Bytes) → Outcome QueryError (List Bytes)
  suggestions (ok checked) = ok (append_sanitised checked (replicate (length checked) []))
  suggestions (err e) = err e
  suggestions panic = panic

  unfoldable pub suggest : {D : Type 0} → PostSql D → Bytes → D → Outcome QueryError (List Bytes)
  unfolding append_sanitised Database.suggest
  suggest sql query db = suggestions (Database.suggest sql (query ++ 37 ∷ []) db)

  append_sanitised_lem :
      (l ret : List Bytes) → append_sanitised l ret ≡ ret ++ map sanitise_for_auto l
  unfolding append_sanitised
  append_sanitised_lem [] ret = sym (append-nil ret)
  append_sanitised_lem (i ∷ rest) ret =
      append_sanitised_lem rest (ret ++ sanitise_for_auto i ∷ [])
      ∙ append_assoc ret (sanitise_for_auto i ∷ []) (map sanitise_for_auto rest)

  -- The suggestions are as many empty texts as the database finds, and behind them what it finds
  -- without the words that have other characters than letters and numbers.
  pub suggest-sanitise_for_auto :
      {D : Type 0} (sql : PostSql D) (query : Bytes) (db : D) (checked : List Bytes)
      → Database.suggest sql (query ++ 37 ∷ []) db ≡ ok checked
      → suggest sql query db ≡ ok (replicate (length checked) [] ++ map sanitise_for_auto checked)
  unfolding suggest
  suggest-sanitise_for_auto sql query db checked h =
      ap suggestions h ∙ ap ok (append_sanitised_lem checked (replicate (length checked) []))

module _ {W S D : Type 0} (setting : Setting W S D) (unicode : Unicode) where
  open setting use {outside}

  unfoldable pub self_suggest : Bytes → Command setting CommandResult
  unfolding suggest
  self_suggest query =
      result setting (do
        found ← on_posts setting (suggest unicode outside.posts query)
        pure (completions found))

  -- For a peer that is not mirrored the error comes with an ok.
  unfoldable pub peer_suggest : Bytes → Bytes → Command setting CommandResult
  unfolding suggest
  peer_suggest address query = do
    s ← the_server setting
    elim (s.peers.lp.databases address) [
      | none ↦ pure (record { is_ok = true; value = nothing; error = some not_mirrored })
      | some db ↦ result setting (do
        found ← lift (map_err from_posts (suggest unicode outside.posts query db))
        pure (completions found))
    ]
