-- ===== src/Text/Decimal.antt =====
-- `strconv.Itoa` and `strconv.Atoi`, for Go's 64-bit `int`.
use dfi.Prelude.{
  ℕ, zero, suc, ◌+◌, ◌-◌, ◌*◌, ◌/◌, ◌%◌, ◌^◌, ◌<◌, ◌≤◌, ◌≡◌, refl, ◌∙◌, ap, Option, none, some,
  List, [], ◌∷◌, All, ltb, leb, ◌==◌, ◌&&◌, arith, Bool-cases, inl, inr, if◌then◌else◌,
}
use dfi.Prelude.Int.{ℤ, pos, negsuc}

-- The digits of a number in front of what is written already; `f` rounds are left.
unfoldable pub digits : ℕ → ℕ → List ℕ → List ℕ
digits zero n out = out
digits (suc f) n out =
    let rest = digits f (n / 10) ((48 + n % 10) ∷ out) in if ltb n 10 then (48 + n) ∷ out else rest

-- A number has fewer digits than its value plus one.
abbrev pub format : ℕ → List ℕ
format n = digits (suc n) n []

unfoldable pub itoa : ℤ → List ℕ
unfolding digits
itoa (pos n) = format n
itoa (negsuc n) = 45 ∷ format (suc n)

unfoldable pub scan : List ℕ → ℕ → Option ℕ
scan [] n = some n
scan (c ∷ cs) n =
    let rest = scan cs (n * 10 + (c - 48)) in if leb 48 c && leb c 57 then rest else none

-- A text with no digit is no number.
abbrev pub scan_some : List ℕ → Option ℕ
scan_some [] = none
scan_some (c ∷ cs) = scan (c ∷ cs) 0

abbrev pub in_range : Option ℕ → Option ℤ
in_range none = none
in_range (some n) = if ltb n (2 ^ 63) then some (pos n) else none

abbrev pub negated : Option ℕ → Option ℤ
negated none = none
negated (some zero) = some (pos 0)
negated (some (suc n)) = if ltb n (2 ^ 63) then some (negsuc n) else none

unfoldable pub atoi : List ℕ → Option ℤ
unfolding scan
atoi [] = none
atoi (c ∷ cs) =
    if c == 45
    then negated (scan_some cs)
    else if c == 43
    then in_range (scan_some cs)
    else in_range (scan_some (c ∷ cs))

abbrev pub IsDigit : ℕ → Type 0
IsDigit c = (48 ≤ c) × (c ≤ 57)

-- The range of Go's `int`.
abbrev pub IsInt : ℤ → Type 0
IsInt (pos n) = n < 2 ^ 63
IsInt (negsuc n) = n < 2 ^ 63

scan_digit :
    (c : ℕ) (cs : List ℕ) (n : ℕ) → IsDigit c → scan (c ∷ cs) n ≡ scan cs (n * 10 + (c - 48))
unfolding scan
scan_digit c cs n h = ground arith

scan-digits : (f n : ℕ) (out : List ℕ) → n < f → scan (digits f n out) 0 ≡ scan out n
unfolding digits
scan-digits zero n out h = absurd (omega arith)
scan-digits (suc f) n out h = elim (Bool-cases (ltb n 10)) [
  | inl small ↦ rw small (scan_digit (48 + n) out 0 (ground arith) ∙ ap (scan out) (omega arith))
  | inr large ↦ rw large (
      scan-digits f (n / 10) ((48 + n % 10) ∷ out) (ground arith)
      ∙ scan_digit (48 + n % 10) out (n / 10) (omega arith)
      ∙ ap (scan out) (omega arith))
]

abbrev StartsWithDigit : List ℕ → Type 0
StartsWithDigit cs = (c : ℕ) × (rest : List ℕ) × (cs ≡ c ∷ rest) × IsDigit c

digits_after : (f n c : ℕ) (out : List ℕ) → IsDigit c → StartsWithDigit (digits f n (c ∷ out))
unfolding digits
digits_after zero n c out h = (c, out, refl, h)
digits_after (suc f) n c out h = elim (Bool-cases (ltb n 10)) [
  | inl small ↦ rw small (48 + n, c ∷ out, refl, ground arith)
  | inr large ↦ rw large (digits_after f (n / 10) (48 + n % 10) (c ∷ out) (omega arith))
]

digits_head : (f n : ℕ) → StartsWithDigit (digits (suc f) n [])
unfolding digits
digits_head f n = elim (Bool-cases (ltb n 10)) [
  | inl small ↦ rw small (48 + n, [], refl, ground arith)
  | inr large ↦ rw large (digits_after f (n / 10) (48 + n % 10) [] (omega arith))
]

pub digits-All : (f n : ℕ) (out : List ℕ) → All IsDigit out → All IsDigit (digits f n out)
unfolding digits
digits-All zero n out h = h
digits-All (suc f) n out h = elim (Bool-cases (ltb n 10)) [
  | inl small ↦ rw small (ground arith, h)
  | inr large ↦ rw large (digits-All f (n / 10) ((48 + n % 10) ∷ out) (omega arith, h))
]

scan_some-format : (n : ℕ) → scan_some (format n) ≡ some n
scan_some-format n =
    let (c, rest, e, h) = digits_head n n in
    rw e (rw (← e) (scan-digits (suc n) n [] (omega arith) ∙ (unfold scan in refl)))

atoi_pos : (n : ℕ) → n < 2 ^ 63 → atoi (format n) ≡ some (pos n)
unfolding atoi
atoi_pos n h =
    let (c, rest, e, d) = digits_head n n in
    let s : scan (c ∷ rest) 0 ≡ some n = rw e at (scan_some-format n) in rw e (ground (arith, s))

atoi_neg : (n : ℕ) → n < 2 ^ 63 → atoi (45 ∷ format (suc n)) ≡ some (negsuc n)
unfolding atoi
atoi_neg n h = rw (scan_some-format (suc n)) (ground arith)

-- A number in the range of Go's `int` is read back as it was written.
pub atoi-itoa : (z : ℤ) → IsInt z → atoi (itoa z) ≡ some z
unfolding itoa
atoi-itoa (pos n) h = atoi_pos n h
atoi-itoa (negsuc n) h = atoi_neg n h
