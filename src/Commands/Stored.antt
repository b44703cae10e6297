-- ===== src/Commands/Stored.antt =====
-- What `LocalSet` stores and `LocalGet` gives.
use dfi.Prelude.{ℕ, Bool, true, false, none, some, ◌≡◌, refl, ◌∙◌}
use dfi.Prelude.Outcome.{Outcome, ok, err, panic}
use dfi.Prelude.Outcome
use dfi.Prelude.Action.{
  Keeps, Keeps-pure, Keeps-lift, Keeps-bind, recover-keeps, continue, continue-keeps, map_err, ◌>>◌,
}
use dfi.Dht.Address.{Bytes}
use dfi.Dht.Entry.{Entry, EntryError, bytes_or_none, signed_bytes}
use dfi.Dht.NetDb.Writing.{insert}
use dfi.Local.{copy, sign_entry}
use dfi.Local.Node.{LocalPeer, Outside, on_dht, set_entry, sign, save_entry, get_peer, entry_error}
use dfi.Peers.{Setting}
use dfi.Commands.{CommandServer, nothing, a_text}
use dfi.Commands.Own.{
  Key, name, desc, public, dfi_address, post_count, whole_entry, key_of, assigned, value_of,
  local_set, local_get,
}

-- The keys that `LocalSet` has.
abbrev pub is_settable : Key → Bool
is_settable name = true
is_settable desc = true
is_settable public = true
is_settable _ = false

-- The field of an entry that a key names.
abbrev pub field : Key → Entry → Bytes
field desc e = e.desc
field public e = e.public_address
field _ e = e.name

field_stamped :
    (k : Key) (e : Entry) (now : ℕ) (sig : Bytes)
    → field k (record e { updated = now; signature = sig }) ≡ field k e
field_stamped name e now sig = refl
field_stamped desc e now sig = refl
field_stamped public e now sig = refl
field_stamped dfi_address e now sig = refl
field_stamped post_count e now sig = refl
field_stamped whole_entry e now sig = refl

module _ {S D : Type 0} (outside : Outside S D) (k : Key) (value : Bytes) where
  open outside use {env, encode_entry, now}

  abbrev pub HasValue : LocalPeer S D → Type 0
  HasValue lp = field k lp.entry ≡ value

  signed-HasValue :
      (o : Outcome EntryError Bytes) (seal : Bytes → Bytes) (lp : LocalPeer S D)
      → HasValue lp
      → HasValue
          (continue
            (map_err entry_error (
              Outcome.◌>>=◌ o
                λ text. ok (record lp.entry { updated = now; signature = seal text })))
            (set_entry outside)
            lp).1
  signed-HasValue (ok text) seal lp h = field_stamped k lp.entry now (seal text) ∙ h
  signed-HasValue (err e) seal lp h = h
  signed-HasValue panic seal lp h = h

  sign-HasValue : Keeps HasValue (sign outside)
  unfolding sign sign_entry
  sign-HasValue = record {
    at = λ lp h.
        signed-HasValue (bytes_or_none (signed_bytes env.codec (record lp.entry { updated = now })))
          (λ text. copy lp.entry.signature (env.sigs.sign lp.private_key text)) lp h;
  }

  pub save_entry-HasValue : Keeps HasValue (save_entry outside)
  unfolding save_entry
  save_entry-HasValue = Keeps-bind sign-HasValue λ _.
      Keeps-bind {m = get_peer outside} (record { at = λ lp h. h })
        λ lp. Keeps-bind (Keeps-lift (encode_entry lp.entry)) λ text.
          Keeps-bind {m = on_dht outside (insert env lp.entry)} (record { at = λ lp h. h })
            λ _. record { at = λ lp h. h }

  pub set_entry-HasValue :
      (e : Entry) (lp : LocalPeer S D)
      → field k e ≡ value
      → HasValue ((do set_entry outside e; sign outside; save_entry outside) lp).1
  set_entry-HasValue e lp h =
      (Keeps-bind sign-HasValue λ _. save_entry-HasValue).at (record lp { entry = e }) h

-- What `LocalSet` has written, in the entry of its node.
assigned-field :
    (k : Key) (value : Bytes) (e : Entry)
    → is_settable k ≡ true
    → (e' : Entry) × (assigned (some k) value e ≡ some e') × (field k e' ≡ value)
assigned-field name value e h = (_, refl, refl)
assigned-field desc value e h = (_, refl, refl)
assigned-field public value e h = (_, refl, refl)
assigned-field dfi_address value e h = absurd (cc h)
assigned-field post_count value e h = absurd (cc h)
assigned-field whole_entry value e h = absurd (cc h)

module _ {W S D : Type 0} (setting : Setting W S D) (to_lower : Bytes → Bytes) where
  open setting use {outside}

  abbrev Stores : Key → Bytes → CommandServer W S D → Type 0
  Stores k value s = HasValue outside k value s.peers.lp

  value_of-field :
      (k : Key) (e : Entry) → is_settable k ≡ true → value_of setting to_lower k e ≡ ok (field k e)
  value_of-field name e h = refl
  value_of-field desc e h = refl
  value_of-field public e h = refl
  value_of-field dfi_address e h = absurd (cc h)
  value_of-field post_count e h = absurd (cc h)
  value_of-field whole_entry e h = absurd (cc h)

  -- However the signing and the saving end, the value is in the entry.
  local_set-Stores :
      (key value : Bytes) (k : Key) (s : CommandServer W S D)
      → key_of (to_lower key) ≡ some k
      → is_settable k ≡ true
      → Stores k value (local_set setting to_lower key value s).1
  unfolding local_set
  local_set-Stores key value k s named settable =
      let (e, set, h) = assigned-field k value s.peers.lp.entry settable in
      rw (named, set)
        (recover-keeps {P = Stores k value} _ _ _ _ (λ v. Keeps-pure _) (λ e. Keeps-pure _)
          (continue-keeps {P = Stores k value} _ _ _ (λ _. Keeps-pure nothing)
            (set_entry-HasValue outside k value e s.peers.lp h)))

  -- A value that is set under one of the keys name, desc and public, in any case of their letters,
  -- is what `LocalGet` then gives for that key, also when signing or saving the entry has failed.
  pub local_get-local_set :
      (key value : Bytes) (k : Key) (s : CommandServer W S D)
      → key_of (to_lower key) ≡ some k
      → is_settable k ≡ true
      → (local_get setting to_lower key (local_set setting to_lower key value s).1).0
        ≡ ok (record { is_ok = true; value = a_text value; error = none })
  unfolding local_get
  local_get-local_set key value k s named settable =
      let s' = (local_set setting to_lower key value s).1 in
      let h = local_set-Stores key value k s named settable in
      rw (named, value_of-field k s'.peers.lp.entry settable, h) refl
