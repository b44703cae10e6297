-- ===== src/Data/Post.antt =====
-- data/post.go: a post and the text that is stored, hashed and sent for it.
use dfi.Prelude.{ℕ, Bool, List, [], ◌∷◌, ◌++◌, concat, length, ltb, if◌then◌else◌}
use dfi.Prelude.Int.{ℤ, pos, negsuc}
use dfi.Prelude.Outcome.{Outcome, return_if, ◌>>◌}
use dfi.Text.Decimal.{itoa}

abbrev pub Bytes : Type 0
Bytes = List ℕ

pub record Post : Type 0 where
  pub id : ℤ
  pub info_hash : Bytes
  pub title : Bytes
  pub size : ℤ
  pub file_count : ℤ
  pub seeders : ℤ
  pub leechers : ℤ
  pub upload_date : ℤ
  pub tags : Bytes
  pub meta : Bytes

-- The part of `Write` under `if seedLeech`.
abbrev pub seed_leech_fields : Bytes → Bool → Post → List Bytes
seed_leech_fields sep seed_leech p =
    if seed_leech then sep ∷ itoa p.seeders ∷ sep ∷ itoa p.leechers ∷ [] else []

-- What `Write` writes.
unfoldable pub write : Bytes → Bytes → Bool → Post → Bytes
write sep term seed_leech p = concat (
    itoa p.id
      ∷ sep
      ∷ p.info_hash
      ∷ sep
      ∷ p.title
      ∷ sep
      ∷ itoa p.size
      ∷ sep
      ∷ itoa p.file_count
      ∷ seed_leech_fields sep seed_leech p
    ++ sep ∷ itoa p.upload_date ∷ sep ∷ p.tags ∷ sep ∷ p.meta ∷ sep ∷ term ∷ [])

-- `Bytes`, and `String`, which is the same bytes.
abbrev pub bytes : Bytes → Bytes → Bool → Post → Bytes
bytes sep term seed_leech p = write sep term seed_leech p

pub data PostError : Type 0 where
  title_too_long upload_date_in_future : PostError

-- `int` values compared.
abbrev pub later : ℤ → ℤ → Bool
later (pos m) (pos n) = ltb n m
later (pos m) (negsuc n) = Bool.true
later (negsuc m) (pos n) = Bool.false
later (negsuc m) (negsuc n) = ltb m n

-- `Valid` at the time `now`.
unfoldable pub valid : ℤ → Post → Outcome PostError (Unit {0})
valid now p = do
  return_if (ltb 140 (length p.title)) title_too_long
  return_if (later p.upload_date now) upload_date_in_future
