-- ===== src/Text/Utf8.antt =====
-- Go's conversion of an `int` to a string: the UTF-8 bytes of that code point.
use dfi.Prelude.{
  ℕ, ◌+◌, ◌/◌, ◌%◌, ◌≤◌, ◌≡◌, List, [], ◌∷◌, ltb, leb, ◌&&◌, ◌||◌, arith, if◌then◌else◌,
}
use dfi.Prelude.Int.{ℤ, pos, negsuc}

-- U+FFFD, which stands for every number that is no code point.
abbrev pub replacement : List ℕ
replacement = 0xEF ∷ 0xBF ∷ 0xBD ∷ []

unfoldable pub rune_string : ℤ → List ℕ
rune_string (negsuc n) = replacement
rune_string (pos n) =
    if ltb n 0x80
    then n ∷ []
    else if ltb n 0x800
    then (0xC0 + n / 64) ∷ (0x80 + n % 64) ∷ []
    else if (leb 0xD800 n && leb n 0xDFFF) || ltb 0x10FFFF n
    then replacement
    else if ltb n 0x10000
    then (0xE0 + n / 4096) ∷ (0x80 + n / 64 % 64) ∷ (0x80 + n % 64) ∷ []
    else (0xF0 + n / 262144) ∷ (0x80 + n / 4096 % 64) ∷ (0x80 + n / 64 % 64) ∷ (0x80 + n % 64) ∷ []

-- The surrogate numbers all have the same string.
pub rune_string_surrogate : (n : ℕ) → 0xD800 ≤ n → n ≤ 0xDFFF → rune_string (pos n) ≡ replacement
unfolding rune_string
rune_string_surrogate n h k = ground arith
