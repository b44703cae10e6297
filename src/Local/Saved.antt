-- ===== src/Local/Saved.antt =====
-- What `SaveEntry` leaves, and which piece `AddPost` hashes.
use dfi.Prelude.{
  ℕ, zero, suc, ◌*◌, ◌/◌, ◌%◌, ◌^◌, ◌<◌, ◌≡◌, refl, sym, ap, ◌∙◌, subst, arith, List, [], ◌∷◌,
  length, drop,
}
use dfi.Prelude.Int.{pos}
use dfi.Prelude.Outcome.{Outcome, ok, err, panic}
use dfi.Prelude.Action.{continue-ok, map_err, lift, ◌>>=◌, ◌>>◌}
use dfi.Dht.Entry.{Entry, EntryError, verify}
use dfi.Dht.NetDb.{NetDb, entry_result}
use dfi.Dht.NetDb.Writing.{insert}
use dfi.Data.Post.{Post}
use dfi.Data.Piece.{setup}
use dfi.Data.Database.{add_rows, query_piece}
use dfi.Data.Database.Pages.{IsPaged}
use dfi.Local.Node.{
  piece_to_add, LocalPeer, LocalError, Outside, Node, on_dht, get_peer, write_entry, sign,
  save_entry, db_error,
}

module _ {S D : Type 0} (outside : Outside S D) where
  open outside use {env, encode_entry, posts}

  entry_result_inv :
      {A : Type 0} (o : Outcome EntryError A) (a : A) → entry_result o ≡ ok a → o ≡ ok a
  entry_result_inv (ok b) a h = cc
  entry_result_inv (err e) a h = cc
  entry_result_inv panic a h = cc

  map_err_inv :
      {X Y A : Type 0} (f : X → Y) (o : Outcome X A) (a : A) → map_err f o ≡ ok a → o ≡ ok a
  map_err_inv f (ok b) a h = cc
  map_err_inv f (err e) a h = cc
  map_err_inv f panic a h = cc

  insert-verified :
      (e : Entry) (db : NetDb S) (n : ℕ)
      → (insert env e db).0 ≡ ok n
      → verify env.codec env.sigs e ≡ ok tt
  unfolding insert
  insert-verified e db n h =
      let (t, v, _, _) = continue-ok (entry_result (verify env.codec env.sigs e)) _ db n h in
      entry_result_inv (verify env.codec env.sigs e) tt v

  -- `SaveEntry` behind `SignEntry`.
  abbrev saving : Node outside (Unit {0})
  saving = do
    lp ← get_peer outside
    text ← lift (encode_entry lp.entry)
    on_dht outside (insert env lp.entry)
    write_entry outside text

  saving-verified :
      (lp : LocalPeer S D)
      → (saving lp).0 ≡ ok tt
      → (verify env.codec env.sigs lp.entry ≡ ok tt) × ((saving lp).1.entry ≡ lp.entry)
  saving-verified lp h =
      let (text, t, h', e) = continue-ok (encode_entry lp.entry) _ lp tt h in
      let (n, i, _, e') =
        continue-ok (on_dht outside (insert env lp.entry) lp).0 (λ _. write_entry outside text)
          (on_dht outside (insert env lp.entry) lp).1 tt h' in
      (
        insert-verified lp.entry lp.dht n (map_err_inv db_error (insert env lp.entry lp.dht).0 n i),
        ap (λ (r : Outcome LocalError (Unit {0}) × LocalPeer S D). r.1.entry) (e ∙ e'),
      )

  -- When `SaveEntry` returns without an error, the node's own entry as it is then, with the new
  -- signature, is one that `Verify` accepts.
  pub save_entry-verified :
      (lp : LocalPeer S D)
      → (save_entry outside lp).0 ≡ ok tt
      → verify env.codec env.sigs (save_entry outside lp).1.entry ≡ ok tt
  unfolding save_entry
  save_entry-verified lp h =
      let signed = sign outside lp in
      let (t, _, h', e) = continue-ok signed.0 (λ _. saving) signed.1 tt h in
      let (v, same) = saving-verified signed.1 h' in
      subst (λ x. verify env.codec env.sigs x ≡ ok tt)
        (sym (ap (λ (r : Outcome LocalError (Unit {0}) × LocalPeer S D). r.1.entry) e ∙ same)) v

  drop_all : (n : ℕ) (ps : List Post) → length ps ≡ n → drop n ps ≡ []
  drop_all zero [] h = refl
  drop_all zero (p ∷ ps) h = absurd (omega arith)
  drop_all (suc n) [] h = refl
  drop_all (suc n) (p ∷ ps) h = drop_all n ps (omega arith)

  -- When the database holds posts with the ids from 1 on, and the last one was given the id
  -- 1000 * k, the piece that `AddPost` hashes and puts into the collection is an empty one with
  -- the number k: the post is not in it.
  pub piece_to_add-setup :
      (lp : LocalPeer S D) (ps : List Post) (k : ℕ)
      → IsPaged posts lp.posts ps
      → length ps ≡ 1000 * k
      → 1000 * k < 2 ^ 63
      → piece_to_add outside (pos (1000 * k)) lp ≡ (ok (setup k), lp)
  unfolding query_piece add_rows
  piece_to_add-setup lp ps k paged size below =
      let index : 1000 * k / 1000 ≡ k = omega arith in
      let small : k % 2 ^ 64 ≡ k = omega (arith, below) in
      let start : k * 1000 % 2 ^ 64 ≡ 1000 * k = omega (arith, below) in
      rw index (
        rw small
          (rw start (rw (paged.page (1000 * k) 1000) (rw (drop_all (1000 * k) ps size) refl))))
