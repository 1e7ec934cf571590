-- ===== src/Crypto/Keys.antt =====
-- X25519 key exchange and the keys of the two directions: pkg/crypto/handshake.go.
pub mod Curve
pub mod Agreement
mod Tests
use Prim.Native.String.{String}
use go_connect.Base.{
  ◌++◌, Option, none, some, ◌==◌, if◌then◌else◌, length, Result, ok, err, try_ok, ok_or, Bool,
}
use go_connect.Bytes.{Bytes, less_bytes}
use go_connect.Crypto.Aead.{aes_key_size}
use Curve.{Primitives}

abbrev pub info_client_to_server : String
info_client_to_server = "go-connect-v1-client-to-server"

abbrev pub info_server_to_client : String
info_server_to_client = "go-connect-v1-server-to-client"

pub record DirectionalKeys : Type 0 where
  pub send_key : Bytes
  pub recv_key : Bytes

pub record KeyPair : Type 0 where
  pub private_key : Bytes
  pub public_key : Bytes

pub data KeyError : Type 0 where
  generate_failed bad_public_key ecdh_failed client_key_failed server_key_failed : KeyError

-- The salt's input: both public keys, the smaller one first.
pub salt_input : Bytes → Bytes → Bytes
salt_input local_pub remote_pub =
    if less_bytes local_pub remote_pub then local_pub ++ remote_pub else remote_pub ++ local_pub

-- The end with the smaller public key is the client.
unfoldable pub assign_keys : Bytes → Bytes → Bytes → Bytes → DirectionalKeys
assign_keys local_pub remote_pub client_to_server server_to_client =
    if less_bytes local_pub remote_pub
    then record { send_key = client_to_server; recv_key = server_to_client }
    else record { send_key = server_to_client; recv_key = client_to_server }

module _ (p : Primitives) where
  open p use {public_of, ecdh, sha256, hkdf}

  -- `none` stands for a failure of the source of random bytes.
  unfoldable pub generate_key_pair : Option Bytes → Result KeyError KeyPair
  generate_key_pair none = err generate_failed
  generate_key_pair (some private_key) =
      ok (record { private_key = private_key; public_key = public_of private_key })

  -- `NewPublicKey` of X25519 accepts what has 32 bytes.
  new_public_key : Bytes → Result KeyError Bytes
  new_public_key bytes = if length bytes == 32 then ok bytes else err bad_public_key

  unfoldable pub derive_directional_keys : KeyPair → Bytes → Result KeyError DirectionalKeys
  unfolding new_public_key
  derive_directional_keys local remote_bytes = try_ok (new_public_key remote_bytes) λ remote_pub.
      try_ok (ok_or (ecdh local.private_key remote_pub) ecdh_failed) λ shared.
        let salt = sha256 (salt_input local.public_key remote_bytes) in
        try_ok (ok_or (hkdf shared salt info_client_to_server aes_key_size) client_key_failed)
          λ c2s.
            try_ok (ok_or (hkdf shared salt info_server_to_client aes_key_size) server_key_failed)
              λ s2c. ok (assign_keys local.public_key remote_bytes c2s s2c)
