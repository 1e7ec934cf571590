-- ===== src/Crypto/Aead/Nonces.antt =====
-- The counter, and what it says of the nonces.
use go_connect.Base.{
  ℕ, ◌+◌, ◌%◌, ◌^◌, ◌≤◌, ◌<◌, ◌≡◌, ◌≢◌, ◌++◌, true, ltb, if◌then◌else◌, length, take, ok, err,
  arith,
}
use go_connect.Bytes.{Bytes, put_u64-injective, length-put_u64, bytes_eq_iff}
use go_connect.Crypto.Aead.Cipher.{Gcm}
use go_connect.Crypto.Aead.{
  Aead, plaintext_too_large, nonce_mismatch, nonce_size, max_plaintext_size, nonce_of, next_nonce,
  nonce_equal, encrypt, decrypt, open_with,
}

pub nonce_of-injective : (m n : ℕ) → m < 2 ^ 64 → n < 2 ^ 64 → nonce_of m ≡ nonce_of n → m ≡ n
unfolding nonce_of
nonce_of-injective m n hm hn e = ground (arith, put_u64-injective m n)

pub length-nonce_of : (n : ℕ) → length (nonce_of n) ≡ 12
unfolding nonce_of
length-nonce_of n = ground (arith, length-put_u64 n)

pub nonce_equal_iff :
    (a b : Bytes) → (nonce_equal a b ≡ true → a ≡ b) × (a ≡ b → nonce_equal a b ≡ true)
unfolding nonce_equal
nonce_equal_iff a b = ground (arith, bytes_eq_iff a b)

-- The state behind a call that took a nonce.
abbrev pub advance : Aead → Aead
advance a = record a { counter = (a.counter + 1) % 2 ^ 64 }

module _ (g : Gcm) where
  -- All branches of `Encrypt`.
  pub encrypt_cases :
      (plaintext : Bytes) (a : Aead)
      → (encrypt g plaintext a ≡ (
          if ltb max_plaintext_size (length plaintext)
          then (err plaintext_too_large, a)
          else (ok (nonce_of a.counter ++ g.seal a.key (nonce_of a.counter) plaintext), advance a)))
  unfolding encrypt next_nonce
  encrypt_cases plaintext a = ground arith

  -- `Decrypt` rejects whatever does not carry the nonce of the counter, and counts up all the same.
  pub decrypt_wrong_nonce :
      (xs : Bytes) (a : Aead)
      → nonce_size ≤ length xs
      → take nonce_size xs ≢ nonce_of a.counter
      → decrypt g xs a ≡ (err nonce_mismatch, advance a)
  unfolding decrypt next_nonce
  decrypt_wrong_nonce xs a h k =
      ground (arith, nonce_equal_iff (take nonce_size xs) (nonce_of a.counter))

  -- What `Decrypt` accepts carries the nonce of the counter.
  pub decrypt-eq_ok :
      (xs plaintext : Bytes) (a a' : Aead)
      → decrypt g xs a ≡ (ok plaintext, a')
      → (nonce_size ≤ length xs) × (take nonce_size xs ≡ nonce_of a.counter) × (a' ≡ advance a)
  unfolding decrypt next_nonce open_with
  decrypt-eq_ok xs plaintext a a' e =
      ground (arith, nonce_equal_iff (take nonce_size xs) (nonce_of a.counter))
