-- ===== src/Crypto/Keys/Curve.antt =====
-- What the program relies on of crypto/ecdh, crypto/sha256 and crypto/hkdf.
use Prim.Native.String.{String}
use go_connect.Base.{ℕ, ◌≡◌, Option, some, length}
use go_connect.Bytes.{Bytes}

-- A private key is the bytes that it is made of. `ecdh` fails on a point of low order.
pub record Primitives : Type 0 where
  pub public_of : Bytes → Bytes
  pub ecdh : Bytes → Bytes → Option Bytes
  pub sha256 : Bytes → Bytes
  pub hkdf : Bytes → Bytes → String → ℕ → Option Bytes
  pub length-public_of : (private_key : Bytes) → length (public_of private_key) ≡ 32
  pub ecdh_comm : (a b : Bytes) → ecdh a (public_of b) ≡ ecdh b (public_of a)
  pub length-hkdf :
      (secret salt : Bytes) (info : String) (n : ℕ) (key : Bytes)
      → hkdf secret salt info n ≡ some key
      → length key ≡ n
