-- ===== src/Proto/Sessions.antt =====
-- The sessions of proto/streammanager.go: a connection carries either a client's or a server's
-- session. The package yamux is a parameter: what the n-th call of it comes to.
use dfi.Prelude.{
  ◌++◌, Option-cases, ℕ, ◌+◌, ◌≡◌, refl, sym, ap, ◌∙◌, Option, none, some, List, [], ◌∷◌, ◌⊎◌, inl,
  inr,
}
use dfi.Prelude.Outcome.{Outcome, ok, err, panic}

pub data SessionError : Type 0 where
  server_connected client_connected yamux_failed : SessionError

-- A session is known by its number. `opened` counts the calls of yamux.
pub record StreamManager : Type 0 where
  pub server : Option ℕ
  pub client : Option ℕ
  pub opened : ℕ

-- `Setup`
unfoldable pub setup_sessions : StreamManager
setup_sessions = record { server = none; client = none; opened = 0 }

abbrev pub set_client :
    Outcome SessionError ℕ → StreamManager → Outcome SessionError ℕ × StreamManager
set_client (ok s) sm = (ok s, record sm { client = some s; opened = sm.opened + 1 })
set_client (err e) sm = (err e, record sm { opened = sm.opened + 1 })
set_client panic sm = (panic, record sm { opened = sm.opened + 1 })

abbrev pub set_server :
    Outcome SessionError ℕ → StreamManager → Outcome SessionError ℕ × StreamManager
set_server (ok s) sm = (ok s, record sm { server = some s; opened = sm.opened + 1 })
set_server (err e) sm = (err e, record sm { opened = sm.opened + 1 })
set_server panic sm = (panic, record sm { opened = sm.opened + 1 })

module _ (yamux : ℕ → Outcome SessionError ℕ) where
  unfoldable pub connect_client : StreamManager → Outcome SessionError ℕ × StreamManager
  connect_client sm = elim sm.client [
    | some s ↦ (ok s, sm)
    | none ↦ elim sm.server [
      | some _ ↦ (err server_connected, sm)
      | none ↦ set_client (yamux sm.opened) sm
    ]
  ]

  unfoldable pub connect_server : StreamManager → Outcome SessionError ℕ × StreamManager
  connect_server sm = elim sm.server [
    | some s ↦ (ok s, sm)
    | none ↦ elim sm.client [
      | some _ ↦ (err client_connected, sm)
      | none ↦ set_server (yamux sm.opened) sm
    ]
  ]

-- `GetSession`
unfoldable pub get_session : StreamManager → Option ℕ
get_session sm = elim sm.server [ some s ↦ some s | none ↦ sm.client ]

pub data Call : Type 0 where
  client_call server_call : Call

unfoldable pub connect :
    (ℕ → Outcome SessionError ℕ) → Call → StreamManager → Outcome SessionError ℕ × StreamManager
unfolding connect_client connect_server
connect yamux client_call sm = connect_client yamux sm
connect yamux server_call sm = connect_server yamux sm

unfoldable pub connect_all :
    (ℕ → Outcome SessionError ℕ) → List Call → StreamManager → StreamManager
unfolding connect
connect_all yamux [] sm = sm
connect_all yamux (c ∷ cs) sm = connect_all yamux cs (connect yamux c sm).1

-- Not both a server and a client.
abbrev pub IsExclusive : StreamManager → Type 0
IsExclusive sm = (sm.server ≡ none) ⊎ (sm.client ≡ none)

module _ (yamux : ℕ → Outcome SessionError ℕ) where
  set_client-IsExclusive :
      (o : Outcome SessionError ℕ) (sm : StreamManager)
      → sm.server ≡ none
      → IsExclusive (set_client o sm).1
  set_client-IsExclusive (ok s) sm h = inl h
  set_client-IsExclusive (err e) sm h = inl h
  set_client-IsExclusive panic sm h = inl h

  set_server-IsExclusive :
      (o : Outcome SessionError ℕ) (sm : StreamManager)
      → sm.client ≡ none
      → IsExclusive (set_server o sm).1
  set_server-IsExclusive (ok s) sm h = inr h
  set_server-IsExclusive (err e) sm h = inr h
  set_server-IsExclusive panic sm h = inr h

  some_not_none : {A : Type 0} (a : A) → some a ≡ none → ⊥
  some_not_none a h = cc

  connect-IsExclusive :
      (c : Call) (sm : StreamManager) → IsExclusive sm → IsExclusive (connect yamux c sm).1
  unfolding connect connect_client connect_server
  connect-IsExclusive client_call sm x = elim (Option-cases sm.client) [
    | inr (a, e) ↦ rw e (rw e at x)
    | inl e ↦ elim (Option-cases sm.server) [
      | inr (b, f) ↦ rw (e, f) (inr refl)
      | inl f ↦
          rw (e, f)
            (set_client-IsExclusive (yamux sm.opened)
              (record { server = none; client = none; opened = sm.opened }) refl)
    ]
  ]
  connect-IsExclusive server_call sm x = elim (Option-cases sm.server) [
    | inr (a, e) ↦ rw e (rw e at x)
    | inl e ↦ elim (Option-cases sm.client) [
      | inr (b, f) ↦ rw (e, f) (inl refl)
      | inl f ↦
          rw (e, f)
            (set_server-IsExclusive (yamux sm.opened)
              (record { server = none; client = none; opened = sm.opened }) refl)
    ]
  ]

  connect_all-IsExclusive :
      (cs : List Call) (sm : StreamManager) → IsExclusive sm → IsExclusive (connect_all yamux cs sm)
  unfolding connect_all
  connect_all-IsExclusive [] sm x = x
  connect_all-IsExclusive (c ∷ cs) sm x =
      connect_all-IsExclusive cs (connect yamux c sm).1 (connect-IsExclusive c sm x)

  connect-same :
      (c : Call) (sm : StreamManager) (s : ℕ)
      → get_session sm ≡ some s
      → (connect yamux c sm).1 ≡ sm
  unfolding connect connect_client connect_server get_session
  connect-same client_call sm s g = elim (Option-cases sm.client) [
    | inr (a, e) ↦ rw e refl
    | inl e ↦ elim (Option-cases sm.server) [
      | inr (b, f) ↦ rw (e, f) refl
      | inl f ↦ absurd (some_not_none s (sym (rw (e, f) at g)))
    ]
  ]
  connect-same server_call sm s g = elim (Option-cases sm.server) [
    | inr (a, e) ↦ rw e refl
    | inl e ↦ elim (Option-cases sm.client) [
      | inr (b, f) ↦ rw (e, f) refl
      | inl f ↦ absurd (some_not_none s (sym (rw (e, f) at g)))
    ]
  ]

  connect_all-same :
      (cs : List Call) (sm : StreamManager) (s : ℕ)
      → get_session sm ≡ some s
      → connect_all yamux cs sm ≡ sm
  unfolding connect_all
  connect_all-same [] sm s g = refl
  connect_all-same (c ∷ cs) sm s g =
      let same = connect-same c sm s g in
      ap (connect_all yamux cs) same ∙ connect_all-same cs sm s g

  connect_all-append :
      (cs ds : List Call) (sm : StreamManager)
      → connect_all yamux (cs ++ ds) sm ≡ connect_all yamux ds (connect_all yamux cs sm)
  unfolding connect_all
  connect_all-append [] ds sm = refl
  connect_all-append (c ∷ cs) ds sm = connect_all-append cs ds (connect yamux c sm).1

  -- After any calls of `ConnectClient` and `ConnectServer` that left a session, it is a client's or a
  -- server's and not both, and no further calls change it or open another one.
  pub connect_all-get_session :
      (cs ds : List Call) (s : ℕ)
      → get_session (connect_all yamux cs setup_sessions) ≡ some s
      → IsExclusive (connect_all yamux cs setup_sessions)
        × (connect_all yamux (cs ++ ds) setup_sessions ≡ connect_all yamux cs setup_sessions)
  connect_all-get_session cs ds s g = (
    connect_all-IsExclusive cs setup_sessions (unfold setup_sessions in inl refl),
    connect_all-append cs ds setup_sessions
        ∙ connect_all-same ds (connect_all yamux cs setup_sessions) s g,
  )
