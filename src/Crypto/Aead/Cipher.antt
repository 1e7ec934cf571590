-- ===== src/Crypto/Aead/Cipher.antt =====
-- What the program relies on of crypto/cipher's AES-GCM, which is not part of the repository.
use go_connect.Base.{◌+◌, ◌≡◌, Option, some, length}
use go_connect.Bytes.{Bytes}

-- `Seal` and `Open` under a key and a nonce. `Open` undoes `Seal`, and `Seal` adds a tag of 16 bytes.
pub record Gcm : Type 0 where
  pub seal : Bytes → Bytes → Bytes → Bytes
  pub open_sealed : Bytes → Bytes → Bytes → Option Bytes
  pub open-seal :
      (key nonce plaintext : Bytes)
      → open_sealed key nonce (seal key nonce plaintext) ≡ some plaintext
  pub length-seal :
      (key nonce plaintext : Bytes) → length (seal key nonce plaintext) ≡ length plaintext + 16
