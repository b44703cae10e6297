-- ===== src/Tests/OfAddresses.antt =====
-- Addresses.
use dfi.Prelude.{ℕ, ◌+◌, ◌≡◌, ◌≤◌, ◌<◌, ◌^◌, ◌*◌, refl, arith, [], ◌∷◌, length, replicate, ltb}
use dfi.Prelude.Int.{pos}
use dfi.Prelude.Outcome.{ok, err}
use dfi.Dht.Address.{
  Address, no_address, new_address, generate, string, decode_address, less, xor, xor_bytes,
  key_size,
}
use dfi.Dht.Address.Order.{value, less-ltb-value}
use dfi.Dht.Address.Distance.{xor_metric, xor-injective, xor_triangle}
use dfi.Dht.Address.Encoding.{decode_address-string, new_address-generated, new_address-bad_key}
use dfi.Dht.Table.{bucket_index}
use dfi.Dht.Table.Index.{bucket_index-distance}
use dfi.Tests.Fixtures.{codec, codec-IsSound, node, node-IsNode, self, replicate-AllBytes}

less-ltb-value_case :
    less (node 3) (node 5) ≡ ok (ltb (value (replicate 20 3)) (value (replicate 20 5)))
less-ltb-value_case =
    less-ltb-value (node 3) (node 5) (replicate-AllBytes 20 3 (omega arith))
      (replicate-AllBytes 20 5 (omega arith)) refl

xor_metric_case :
    ((d : Address) × (xor (node 3) (node 3) ≡ ok d) × (value d.raw ≡ 0))
    × (xor (node 3) (node 5) ≡ xor (node 5) (node 3))
xor_metric_case = xor_metric (node 3) (node 5) refl

xor_injective_case : (node 5).raw ≡ (node 5).raw
xor_injective_case = xor-injective (node 3) (node 5) (node 5) refl refl refl

xor_triangle_case : value (replicate 20 1) ≤ value (replicate 20 3) + value (replicate 20 2)
unfolding xor xor_bytes
xor_triangle_case =
    xor_triangle (node 1) (node 2) (node 0) (node 3) (node 2) (node 1) refl refl refl refl refl

decode_address-string_case : decode_address codec (81 ∷ replicate 20 7) ≡ ok (node 7)
unfolding string
decode_address-string_case =
    decode_address-string codec codec-IsSound (replicate 20 7) (81 ∷ replicate 20 7)
      (record { raw = replicate 20 7; encoded = 81 ∷ replicate 20 7 }) refl

new_address_generated_case :
    (a : Address) × (new_address codec (replicate 32 5) ≡ ok a)
    × (length a.raw ≡ 20)
    × (a.encoded ≡ 81 ∷ a.raw)
new_address_generated_case = new_address-generated codec codec-IsSound (replicate 32 5) refl

new_address_bad_key_case :
    ((generate codec no_address []).0 ≡ err key_size)
    × (new_address codec [] ≡ ok (record { raw = []; encoded = 81 ∷ [] }))
new_address_bad_key_case = new_address-bad_key codec codec-IsSound [] (λ e. cc)

bucket_index-distance_example :
    (n : ℕ) × (bucket_index self (node 7) ≡ ok (pos n))
    × (n < 160)
    × (value (replicate 20 7) * 2 ^ n < 2 ^ 160)
    × (2 ^ 160 ≤ value (replicate 20 7) * 2 ^ n * 2)
unfolding xor xor_bytes
bucket_index-distance_example =
    bucket_index-distance self (node 7) (node 7) (node-IsNode 0 (omega arith))
      (node-IsNode 7 (omega arith)) refl (omega arith)
