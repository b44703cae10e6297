-- ===== src/Proto/Gets.antt =====
-- Rules for what a call leaves of the messages that come in on a connection.
use dfi.Prelude.{ℕ, ◌≡◌, refl, subst, Bool, true, List, [], ◌∷◌, length, ◌||◌, Bool-cases, inl, inr}
use dfi.Prelude.Outcome.{Outcome, ok, err, panic}
use dfi.Prelude.Action.{pure, lift, continue, recover, ◌>>=◌, ◌>>◌}
use dfi.Proto.Message.{
  Message, NetError, ProtoError, Conn, Net, read_message, write_message, write_ignored, close,
  next_message,
}
use dfi.Proto.Handshake.{checked}

abbrev pub Inbox : Type 0
Inbox = List (Outcome NetError Message)

-- If the call returns a value then `J` holds of it and of the messages that are left.
abbrev pub OfReturn : {A : Type 0} → (A → Inbox → Type 0) → Outcome ProtoError A → Inbox → Type 0
OfReturn J (ok a) l = J a l
OfReturn J (err e) l = Unit
OfReturn J panic l = Unit

pub record Gets {A : Type 0} (I : Inbox → Type 0) (m : Net A) (J : A → Inbox → Type 0)
    : Type 0 where
  pub at : (s : Conn) → I s.incoming → OfReturn J (m s).0 (m s).1.incoming

module _ {A B : Type 0} {J : A → Inbox → Type 0} {K : B → Inbox → Type 0} where
  continue-OfReturn :
      (o : Outcome ProtoError A) (f : A → Net B) (s : Conn)
      → OfReturn J o s.incoming
      → ((a : A) → Gets (J a) (f a) K)
      → OfReturn K (continue o f s).0 (continue o f s).1.incoming
  continue-OfReturn (ok a) f s h k = (k a).at s h
  continue-OfReturn (err e) f s h k = tt
  continue-OfReturn panic f s h k = tt

  pub Gets-bind :
      {I : Inbox → Type 0} {m : Net A} {f : A → Net B}
      → Gets I m J
      → ((a : A) → Gets (J a) (f a) K)
      → Gets I (m >>= f) K
  Gets-bind {m} {f} h k = record { at = λ s i. continue-OfReturn (m s).0 f (m s).1 (h.at s i) k }

module _ {A : Type 0} (J : A → Inbox → Type 0) where
  abbrev failing : ProtoError → Net (Unit {0}) → Net A
  failing e after = close >> (after >> lift (err e))

  failed_after :
      (o : Outcome ProtoError (Unit {0})) (e : ProtoError) (s : Conn)
      → let m : Net A = continue o (λ _. lift (err e)) in OfReturn J (m s).0 (m s).1.incoming
  failed_after (ok t) e s = tt
  failed_after (err x) e s = tt
  failed_after panic e s = tt

  checked-OfReturn :
      (after : Net (Unit {0})) (o : Outcome ProtoError A) (s : Conn)
      → OfReturn J o s.incoming
      → let m : Net A = recover o pure (λ e. failing e after) in OfReturn J (m s).0 (m s).1.incoming
  checked-OfReturn after (ok a) s h = h
  checked-OfReturn after (err e) s h =
      failed_after (after (record s { closed = true })).0 e (after (record s { closed = true })).1
  checked-OfReturn after panic s h = tt

next_message-OfReturn :
    (I : Inbox → Type 0) (l : Inbox) (s : Conn)
    → I l
    → OfReturn (λ m l'. I (ok m ∷ l')) (next_message l s).0 (next_message l s).1.incoming
next_message-OfReturn I [] s i = tt
next_message-OfReturn I (ok m ∷ l) s i = i
next_message-OfReturn I (err e ∷ l) s i = tt
next_message-OfReturn I (panic ∷ l) s i = tt

module _ {A : Type 0} {J K : A → Inbox → Type 0} where
  weaken-OfReturn :
      (o : Outcome ProtoError A) (l : Inbox)
      → ((a : A) (l : Inbox) → J a l → K a l)
      → OfReturn J o l
      → OfReturn K o l
  weaken-OfReturn (ok a) l f h = f a l h
  weaken-OfReturn (err e) l f h = tt
  weaken-OfReturn panic l f h = tt

  pub Gets-weaken :
      {I : Inbox → Type 0} {m : Net A}
      → Gets I m J
      → ((a : A) (l : Inbox) → J a l → K a l)
      → Gets I m K
  Gets-weaken {m} h f = record { at = λ s i. weaken-OfReturn (m s).0 (m s).1.incoming f (h.at s i) }

module _ {A : Type 0} {I : Inbox → Type 0} where
  pub Gets-lift : (o : Outcome ProtoError A) → Gets I (lift o) (λ a l. I l × (o ≡ ok a))
  Gets-lift (ok a) = record { at = λ s i. (i, refl) }
  Gets-lift (err e) = record { at = λ s i. tt }
  Gets-lift panic = record { at = λ s i. tt }

  pub Gets-pure : {J : A → Inbox → Type 0} (a : A) → ((l : Inbox) → I l → J a l) → Gets I (pure a) J
  Gets-pure a h = record { at = λ s i. h s.incoming i }

  pub Gets-checked :
      {J : A → Inbox → Type 0} (after : Net (Unit {0})) {m : Net A}
      → Gets I m J
      → Gets I (checked after m) J
  Gets-checked {J} after {m} h = record {
    at = λ s i. checked-OfReturn J after (m s).0 (m s).1 (h.at s i);
  }

  pub Gets-err : {J : A → Inbox → Type 0} (e : ProtoError) → Gets I (lift (err e)) J
  Gets-err e = record { at = λ s i. tt }

module _ {I : Inbox → Type 0} where
  pub Gets-close : Gets I close (λ _. I)
  Gets-close = record { at = λ s i. i }

  pub Gets-read_message : Gets I read_message (λ m l. I (ok m ∷ l))
  unfolding read_message
  Gets-read_message = record { at = λ s i. next_message-OfReturn I s.incoming s i }

  pub Gets-write_message :
      (fails : ℕ → Bool) (m : Message) → Gets I (write_message fails m) (λ _. I)
  unfolding write_message
  Gets-write_message fails m = record {
    at = λ s i. elim (Bool-cases (s.closed || fails (length s.sent))) [
      | inl fault ↦ rw fault tt
      | inr fine ↦ rw fine i
    ];
  }

  pub Gets-write_ignored :
      (fails : ℕ → Bool) (m : Message) → Gets I (write_ignored fails m) (λ _. I)
  unfolding write_message
  Gets-write_ignored fails m = record {
    at = λ s i. elim (Bool-cases (s.closed || fails (length s.sent))) [
      | inl fault ↦ rw fault i
      | inr fine ↦ rw fine i
    ];
  }

pub of_return :
    {A : Type 0} (J : A → Inbox → Type 0) (o : Outcome ProtoError A) (l : Inbox) (a : A)
    → OfReturn J o l
    → o ≡ ok a
    → J a l
of_return J o l a h e = subst (λ o. OfReturn J o l) e h
