-- ===== src/Proto/Capabilities.antt =====
-- proto/capabilities.go: the compression that both parties know and the server prefers.
use dfi.Prelude.{
  ℕ, ◌≡◌, ◌≢◌, refl, sym, ap, ◌∙◌, Bool, true, false, [], ◌∷◌, ◌++◌, All, ◌⊎◌, inl, inr, bytes_eq,
  bytes_eq_sound, bytes_eq_refl, if◌then◌else◌, Bool-cases,
}
use dfi.Dht.Address.{Bytes}
use dfi.Proto.Handshake.{Capabilities}

abbrev pub is_empty : Bytes → Bool
is_empty [] = true
is_empty (c ∷ cs) = false

-- The inner loop, over the capabilities of the client.
unfoldable pub match_client : Bytes → Capabilities → Bytes → Bytes
match_client i [] compression = compression
match_client i (j ∷ js) compression = match_client i js (if bytes_eq i j then i else compression)

-- The outer loop, over those of the server, with its `break`.
unfoldable pub choose : Capabilities → Capabilities → Bytes → Bytes
unfolding match_client
choose client [] compression = compression
choose client (i ∷ is) compression =
    let rest = choose client is (match_client i client compression) in
    if is_empty compression then rest else compression

-- `ChooseCompression`
unfoldable pub choose_compression : Capabilities → Capabilities → Bytes
unfolding choose
choose_compression client server = choose client server []

abbrev pub IsIn : Bytes → Capabilities → Type 0
IsIn b [] = ⊥
IsIn b (c ∷ cs) = (b ≡ c) ⊎ IsIn b cs

-- What is no choice: the empty name, or one that the client does not have.
abbrev pub IsPassed : Capabilities → Bytes → Type 0
IsPassed client b = (b ≡ []) ⊎ (IsIn b client → ⊥)

match_client-kept : (i : Bytes) (js : Capabilities) → match_client i js i ≡ i
unfolding match_client
match_client-kept i [] = refl
match_client-kept i (j ∷ js) = elim (Bool-cases (bytes_eq i j)) [
  | inl same ↦ rw same (match_client-kept i js)
  | inr other ↦ rw other (match_client-kept i js)
]

match_client_cases :
    (i : Bytes) (js : Capabilities) (c : Bytes)
    → (IsIn i js × (match_client i js c ≡ i)) ⊎ ((IsIn i js → ⊥) × (match_client i js c ≡ c))
unfolding match_client
match_client_cases i [] c = inr ((λ h. h), refl)
match_client_cases i (j ∷ js) c = elim (Bool-cases (bytes_eq i j)) [
  | inl same ↦ inl (inl (bytes_eq_sound i j same), rw same (match_client-kept i js))
  | inr other ↦ elim (match_client_cases i js c) [
    | inl (h, e) ↦ inl (inr h, rw other e)
    | inr (h, e) ↦ inr (
      (λ k. elim k [
        | inl same ↦ differ (sym (bytes_eq_refl i) ∙ ap (bytes_eq i) same ∙ other)
        | inr deep ↦ h deep
      ]),
      rw other e,
    )
  ]
]
  where
    differ : true ≡ false → ⊥
    differ e = cc

choose-chosen : (client is : Capabilities) (c : ℕ) (cs : Bytes) → choose client is (c ∷ cs) ≡ c ∷ cs
unfolding choose
choose-chosen client [] c cs = refl
choose-chosen client (i ∷ is) c cs = refl

-- What the choice `r` is to be: the first name of the server's list, not empty, that the client
-- has too; or empty, if there is none.
abbrev pub IsChoice : Capabilities → Capabilities → Bytes → Type 0
IsChoice client server r =
    ((r ≡ []) × All (IsPassed client) server)
    ⊎ ((before : Capabilities) × (after : Capabilities) × (r ≢ [])
        × (server ≡ before ++ r ∷ after)
        × IsIn r client
        × All (IsPassed client) before)

pass :
    (client is : Capabilities) (i r : Bytes)
    → IsPassed client i
    → IsChoice client is r
    → IsChoice client (i ∷ is) r
pass client is i r p (inl (e, all)) = inl (e, (p, all))
pass client is i r p (inr (before, after, some, e, has, all)) =
    inr (i ∷ before, after, some, ap (λ l. i ∷ l) e, has, (p, all))

-- The compression that is chosen is the first one of the server's list, other than the empty
-- name, that the client has too, and empty if there is none.
pub choose_compression-IsChoice :
    (client server : Capabilities) → IsChoice client server (choose_compression client server)
unfolding choose_compression choose
choose_compression-IsChoice client [] = inl (refl, tt)
choose_compression-IsChoice client ([] ∷ is) = elim (match_client_cases [] client []) [
  | inl (_, e) ↦ rw e (
      pass client is [] (choose_compression client is) (inl refl)
        (choose_compression-IsChoice client is))
  | inr (_, e) ↦ rw e (
      pass client is [] (choose_compression client is) (inl refl)
        (choose_compression-IsChoice client is))
]
choose_compression-IsChoice client ((c ∷ cs) ∷ is) = elim (match_client_cases (c ∷ cs) client []) [
  | inl (h, e) ↦ rw (e, choose-chosen client is c cs) (inr ([], is, (λ k. cc), refl, h, tt))
  | inr (h, e) ↦ rw e (
      pass client is (c ∷ cs) (choose_compression client is) (inr h)
        (choose_compression-IsChoice client is))
]
