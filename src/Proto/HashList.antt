-- ===== src/Proto/HashList.antt =====
-- `MessageCollection` of proto/messages.go: a hash list checked against its root.
use mathlib.Core.List.{append_assoc, append-nil}
use dfi.Prelude.{
  ℕ, zero, suc, ◌+◌, ◌*◌, ◌<◌, ◌≤◌, ◌≡◌, ◌≢◌, refl, sym, ap, ◌∙◌, arith, true, false, [], ◌++◌,
  length, take, drop, leb, not, ◌⊎◌, inl, inr, bytes_eq, bytes_eq_sound, bytes_eq_refl,
  if◌then◌else◌, Bool-cases,
}
use dfi.Prelude.Int.{ℤ, pos, negsuc}
use dfi.Prelude.Outcome.{Outcome, ok, err, panic, return_if, ◌>>=◌}
use dfi.Data.Post.{Bytes}
use dfi.Data.Collection.{Buffer}
use dfi.Data.Hashes.{take_split, drop-drop}

pub record MessageCollection : Type 0 where
  pub hash : Bytes
  pub hash_list : Buffer
  pub size : ℤ
  pub signature : Bytes

pub data HashListError : Type 0 where
  invalid_hash_list : HashListError

-- The loop of `Verify`: slices of 32 bytes, which the capacity of the list bounds.
unfoldable pub write_list : ℕ → ℕ → Bytes → Bytes → Outcome HashListError Bytes
write_list zero i array out = ok out
write_list (suc rounds) i array out =
    let rest = write_list rounds (i + 1) array (out ++ take 32 (drop (32 * i) array)) in
    if leb (32 * i + 32) (length array) then rest else panic

abbrev pub rounds_of : ℤ → ℕ
rounds_of (pos n) = n
rounds_of (negsuc n) = 0

unfoldable pub verify_list :
    (Bytes → Bytes) → MessageCollection → Bytes → Outcome HashListError (Unit {0})
unfolding write_list
verify_list sha3 m root = do
  written ← write_list (rounds_of m.size) 0 m.hash_list.array []
  return_if (not (bytes_eq (sha3 written) root)) invalid_hash_list

write_list-ok :
    (rounds i : ℕ) (array out : Bytes)
    → 32 * (i + rounds) ≤ length array
    → write_list rounds i array out ≡ ok (out ++ take (rounds * 32) (drop (32 * i) array))
unfolding write_list
write_list-ok zero i array out h = ap ok (sym (append-nil out))
write_list-ok (suc rounds) i array out h =
    let fits : leb (32 * i + 32) (length array) ≡ true = ground (arith, h) in
    let tail : Bytes = drop (32 * i) array in
    let next : drop (32 * (i + 1)) array ≡ drop 32 tail =
      ap (λ k. drop k array) (omega arith) ∙ sym (drop-drop (32 * i) 32 array) in
    let count : 32 + rounds * 32 ≡ suc rounds * 32 = omega arith in
    rw fits (
      write_list-ok rounds (i + 1) array (out ++ take 32 tail) (omega (arith, h))
      ∙ ap ok (
          append_assoc out (take 32 tail) (take (rounds * 32) (drop (32 * (i + 1)) array))
          ∙ ap (λ r. out ++ (take 32 tail ++ take (rounds * 32) r)) next
          ∙ ap (λ r. out ++ r)
              (sym (take_split 32 (rounds * 32) tail) ∙ ap (λ k. take k tail) count)))

write_list-panic :
    (rounds i : ℕ) (array out : Bytes)
    → length array < 32 * (i + rounds)
    → 32 * i ≤ length array
    → write_list rounds i array out ≡ panic
unfolding write_list
write_list-panic zero i array out h low = absurd (omega (arith, h, low))
write_list-panic (suc rounds) i array out h low =
    elim (Bool-cases (leb (32 * i + 32) (length array))) [
      | inl fits ↦ rw fits (
          write_list-panic rounds (i + 1) array (out ++ take 32 (drop (32 * i) array))
            (omega (arith, h)) (ground arith))
      | inr over ↦ rw over refl
    ]

differs : (xs ys : Bytes) → bytes_eq xs ys ≡ false → xs ≢ ys
differs xs ys h e = no (sym (bytes_eq_refl xs) ∙ ap (bytes_eq xs) e ∙ h)
  where
    no : true ≡ false → ⊥
    no k = cc

-- `Verify` accepts a list with room for its size where the root is the hash of the first `Size`
-- hashes of the list, and refuses it with an error where it is not; a list that is shorter makes
-- it panic.
pub verify_list_lem :
    (sha3 : Bytes → Bytes) (m : MessageCollection) (root : Bytes)
    → ((32 * rounds_of m.size ≤ length m.hash_list.array)
        × (((sha3 (take (rounds_of m.size * 32) m.hash_list.array) ≡ root)
              × (verify_list sha3 m root ≡ ok tt))
            ⊎ ((sha3 (take (rounds_of m.size * 32) m.hash_list.array) ≢ root)
                × (verify_list sha3 m root ≡ err invalid_hash_list))))
      ⊎ ((length m.hash_list.array < 32 * rounds_of m.size) × (verify_list sha3 m root ≡ panic))
unfolding verify_list
verify_list_lem sha3 m root =
    elim (Bool-cases (leb (32 * rounds_of m.size) (length m.hash_list.array))) [
      | inl fits ↦
          let room : 32 * rounds_of m.size ≤ length m.hash_list.array = ground arith in
          let all = write_list-ok (rounds_of m.size) 0 m.hash_list.array [] (omega (arith, room)) in
          inl (
            room,
            elim (Bool-cases
                (bytes_eq (sha3 (take (rounds_of m.size * 32) m.hash_list.array)) root)) [
                  | inl same ↦ inl (bytes_eq_sound _ root same, rw (all, same) refl)
                  | inr other ↦ inr (differs _ root other, rw (all, other) refl)
                ],
          )
      | inr over ↦
          let stops =
            write_list-panic (rounds_of m.size) 0 m.hash_list.array [] (ground arith)
              (omega arith) in
          inr (ground arith, rw stops refl)
    ]
