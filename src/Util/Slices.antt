-- ===== src/Util/Slices.antt =====
-- `SliceDiff` of util/util.go. The map that it builds is the list of its keys, newest first.
use mathlib.Core.List.{append_assoc, append-nil}
use dfi.Prelude.{
  ◌≡◌, refl, sym, ◌∙◌, Bool, true, false, List, [], ◌∷◌, ◌++◌, ◌||◌, bytes_eq, if◌then◌else◌,
  Bool-cases, inl, inr,
}
use dfi.Dht.Address.{Bytes}

-- `_, ok := encountered[key]`
abbrev pub has_key : Bytes → List Bytes → Bool
has_key key [] = false
has_key key (k ∷ ks) = bytes_eq key k || has_key key ks

-- The first loop.
unfoldable pub encounter : List Bytes → List Bytes → List Bytes
encounter [] encountered = encountered
encounter (i ∷ one) encountered = encounter one (i ∷ encountered)

-- The second loop.
unfoldable pub not_encountered : List Bytes → List Bytes → List Bytes → List Bytes
not_encountered [] encountered result = result
not_encountered (i ∷ two) encountered result =
    not_encountered two encountered (if has_key i encountered then result else result ++ i ∷ [])

unfoldable pub slice_diff : List Bytes → List Bytes → List Bytes
unfolding encounter not_encountered
slice_diff one two = not_encountered two (encounter one []) []

-- The reference: the members of the second list, in order, that are not in the first.
abbrev pub difference : List Bytes → List Bytes → List Bytes
difference one [] = []
difference one (i ∷ two) = if has_key i one then difference one two else i ∷ difference one two

or_true : (b : Bool) → (b || true) ≡ true
or_true true = refl
or_true false = refl

pub or_false : (b : Bool) → (b || false) ≡ b
or_false true = refl
or_false false = refl

pub has_key-encounter :
    (key : Bytes) (one encountered : List Bytes)
    → has_key key (encounter one encountered) ≡ (has_key key one || has_key key encountered)
unfolding encounter
has_key-encounter key [] encountered = refl
has_key-encounter key (i ∷ one) encountered =
    has_key-encounter key one (i ∷ encountered)
    ∙ swap (bytes_eq key i) (has_key key one) (has_key key encountered)
  where
    swap : (a b c : Bool) → (b || (a || c)) ≡ ((a || b) || c)
    swap true b c = or_true b
    swap false b c = refl

not_encountered_lem :
    (two encountered one result : List Bytes)
    → ((key : Bytes) → has_key key encountered ≡ has_key key one)
    → not_encountered two encountered result ≡ result ++ difference one two
unfolding not_encountered
not_encountered_lem [] encountered one result h = sym (append-nil result)
not_encountered_lem (i ∷ two) encountered one result h = elim (Bool-cases (has_key i one)) [
  | inl there ↦ rw (h i, there) (not_encountered_lem two encountered one result h)
  | inr new ↦
      rw (h i, new)
        (not_encountered_lem two encountered one (result ++ i ∷ []) h
          ∙ append_assoc result (i ∷ []) (difference one two))
]

-- `SliceDiff` gives the members of the second slice that are not in the first, in their order.
pub slice_diff-difference : (one two : List Bytes) → slice_diff one two ≡ difference one two
unfolding slice_diff
slice_diff-difference one two =
    not_encountered_lem two (encounter one []) one []
      (λ key. has_key-encounter key one [] ∙ or_false (has_key key one))
