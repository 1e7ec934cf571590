-- ===== src/Crypto/Aead.antt =====
-- AES-256-GCM with counted nonces: pkg/crypto/aead.go. The cipher itself is a parameter.
pub mod Cipher
pub mod Nonces
pub mod Channel
mod Tests
use go_connect.Base.{
  ℕ, ◌+◌, ◌%◌, ◌^◌, [], ◌∷◌, ◌++◌, Bool, false, not, Option, none, some, ltb, ◌==◌, if◌then◌else◌,
  length, take, drop, Result, ok, err, M, ◌>>=◌, ◌>>◌, fail_if,
}
use go_connect.Bytes.{Bytes, put_u64, bytes_eq}
use Cipher.{Gcm}

abbrev pub aes_key_size : ℕ
aes_key_size = 32

abbrev pub nonce_size : ℕ
nonce_size = 12

abbrev pub max_plaintext_size : ℕ
max_plaintext_size = 2 ^ 20

pub record Aead : Type 0 where
  pub key : Bytes
  pub counter : ℕ

pub data AeadError : Type 0 where
  invalid_key_size plaintext_too_large too_short nonce_mismatch decryption_failed : AeadError

-- aes.NewCipher and cipher.NewGCM accept every key of 32 bytes.
unfoldable pub new_aead : Bytes → Result AeadError Aead
new_aead key =
    if length key == aes_key_size
    then ok (record { key = key; counter = 0 })
    else err invalid_key_size

-- The nonce for a value of the counter: four zeros and the counter in big-endian.
pub nonce_of : ℕ → Bytes
nonce_of counter = 0 ∷ 0 ∷ 0 ∷ 0 ∷ put_u64 counter

-- The counter is a uint64 and wraps.
pub next_nonce : M Aead AeadError Bytes
next_nonce a = (ok (nonce_of a.counter), record a { counter = (a.counter + 1) % 2 ^ 64 })

pub nonce_equal : Bytes → Bytes → Bool
nonce_equal a b = if length a == length b then bytes_eq a b else false

module _ (g : Gcm) where
  open g use {seal, open_sealed}

  pub encrypt : Bytes → M Aead AeadError Bytes
  encrypt plaintext = do
    fail_if (ltb max_plaintext_size (length plaintext)) plaintext_too_large
    nonce ← next_nonce
    λ a. (ok (nonce ++ seal a.key nonce plaintext), a)

  open_with : Bytes → Bytes → M Aead AeadError Bytes
  open_with nonce ciphertext a = elim (open_sealed a.key nonce ciphertext) [
    | some plaintext ↦ (ok plaintext, a)
    | none ↦ (err decryption_failed, a)
  ]

  pub decrypt : Bytes → M Aead AeadError Bytes
  decrypt xs = do
    fail_if (ltb (length xs) nonce_size) too_short
    let wire_nonce = take nonce_size xs
    let ciphertext = drop nonce_size xs
    expected_nonce ← next_nonce
    fail_if (not (nonce_equal wire_nonce expected_nonce)) nonce_mismatch
    open_with wire_nonce ciphertext
