-- ===== src/Crypto/Keys/Agreement.antt =====
-- The two ends derive the same two keys, crosswise.
use go_connect.Base.{◌≡◌, ◌≢◌, Option, none, some, length, ok, map_ok, arith}
use go_connect.Bytes.{Bytes, less_bytes_swap}
use go_connect.Crypto.Keys.Curve.{Primitives}
use go_connect.Crypto.Keys.{
  DirectionalKeys, KeyPair, salt_input, assign_keys, generate_key_pair, derive_directional_keys,
}

abbrev pub crossed : DirectionalKeys → DirectionalKeys
crossed keys = record { send_key = keys.recv_key; recv_key = keys.send_key }

salt_input_comm : (a b : Bytes) → a ≢ b → salt_input a b ≡ salt_input b a
unfolding salt_input
salt_input_comm a b h = ground (arith, less_bytes_swap a b h)

module _ (p : Primitives) where
  -- Made by `GenerateKeyPair`.
  abbrev pub IsGenerated : KeyPair → Type 0
  IsGenerated pair = pair.public_key ≡ p.public_of pair.private_key

  pub generate_key_pair-IsGenerated :
      (random : Option Bytes) (pair : KeyPair)
      → generate_key_pair p random ≡ ok pair
      → IsGenerated pair
  unfolding generate_key_pair
  generate_key_pair-IsGenerated none pair e = cc
  generate_key_pair-IsGenerated (some key) pair e = ground arith

  -- Both keys are AES-256 keys.
  pub derived_lengths :
      (local : KeyPair) (remote : Bytes) (keys : DirectionalKeys)
      → derive_directional_keys p local remote ≡ ok keys
      → (length keys.send_key ≡ 32) × (length keys.recv_key ≡ 32)
  unfolding derive_directional_keys assign_keys
  derived_lengths local remote keys e = grind (arith, p.length-hkdf)

  -- Two ends with generated key pairs and different public keys fail alike, or each sends under the
  -- key that the other receives under.
  pub derive_directional_keys-crossed :
      (a b : KeyPair)
      → IsGenerated a
      → IsGenerated b
      → a.public_key ≢ b.public_key
      → derive_directional_keys p b a.public_key
        ≡ map_ok crossed (derive_directional_keys p a b.public_key)
  unfolding derive_directional_keys assign_keys
  derive_directional_keys-crossed a b ga gb ne = ground (
    arith,
    p.length-public_of a.private_key,
    p.length-public_of b.private_key,
    p.ecdh_comm a.private_key b.private_key,
    salt_input_comm a.public_key b.public_key ne,
    less_bytes_swap a.public_key b.public_key ne,
  )
