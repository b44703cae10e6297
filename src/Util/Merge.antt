-- ===== src/Util/Merge.antt =====
-- `MergeSeeds` of util/util.go. The map that it builds is the list of its keys, and the order in
-- which a map is ranged over is a parameter.
use dfi.Prelude.{◌≡◌, refl, ap, ◌∙◌, Bool, true, false, List, [], ◌||◌}
use dfi.Dht.Address.{Bytes}
use dfi.Util.Slices.{has_key, encounter, has_key-encounter, or_false}

module _ (keys : List Bytes → List Bytes) where
  unfoldable pub merge_seeds : List Bytes → List Bytes → List Bytes
  unfolding encounter
  merge_seeds one two = keys (encounter two (encounter one []))

  or_comm : (a b : Bool) → (b || a) ≡ (a || b)
  or_comm true true = refl
  or_comm true false = refl
  or_comm false true = refl
  or_comm false false = refl

  -- Whatever the order in which the keys of a map come: the seeds that `MergeSeeds` gives are those
  -- that are in the first or in the second list.
  pub merge_seeds-has_key :
      ((key : Bytes) (m : List Bytes) → has_key key (keys m) ≡ has_key key m)
      → (key : Bytes) (one two : List Bytes)
      → has_key key (merge_seeds one two) ≡ (has_key key one || has_key key two)
  unfolding merge_seeds
  merge_seeds-has_key documented key one two =
      documented key (encounter two (encounter one []))
      ∙ has_key-encounter key two (encounter one [])
      ∙ ap (λ b. has_key key two || b) (has_key-encounter key one [] ∙ or_false (has_key key one))
      ∙ or_comm (has_key key one) (has_key key two)
