-- ===== src/Crypto/Keys/Tests.antt =====
-- Key derivation at concrete inputs, with the sample primitives.
use go_connect.Base.{◌≡◌, refl, [], ◌∷◌, ok, err, map_ok, some}
use go_connect.Bytes.{Bytes, compare_bytes}
use Prim.Native.Nat.{Ordering}
use go_connect.Crypto.Keys.{KeyPair, generate_key_pair, derive_directional_keys, bad_public_key}
use go_connect.Crypto.Keys.Agreement.{crossed, derive_directional_keys-crossed}
use go_connect.Samples.{open_primitives, zeros}

abbrev pair_with : Bytes → KeyPair
pair_with key = record { private_key = key; public_key = open_primitives.public_of key }

shorter_is_less : compare_bytes (1 ∷ []) (1 ∷ 0 ∷ []) ≡ Ordering.lt
unfolding compare_bytes
shorter_is_less = refl

generated : generate_key_pair open_primitives (some (3 ∷ [])) ≡ ok (pair_with (3 ∷ []))
unfolding generate_key_pair
generated = refl

short_public_key :
    derive_directional_keys open_primitives (pair_with []) (zeros 31) ≡ err bad_public_key
unfolding derive_directional_keys
short_public_key = refl

derive_directional_keys-crossed_example :
    derive_directional_keys open_primitives (pair_with (4 ∷ [])) (pair_with (3 ∷ [])).public_key
    ≡ map_ok crossed (
        derive_directional_keys open_primitives
          (pair_with (3 ∷ []))
          (pair_with (4 ∷ [])).public_key)
derive_directional_keys-crossed_example =
    derive_directional_keys-crossed open_primitives (pair_with (3 ∷ [])) (pair_with (4 ∷ [])) refl
      refl (λ e. cc)
