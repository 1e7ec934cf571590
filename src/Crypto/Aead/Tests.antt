-- ===== src/Crypto/Aead/Tests.antt =====
-- The counted nonces at concrete inputs, with the sample cipher.
use go_connect.Base.{ℕ, ◌^◌, ◌-◌, ◌≡◌, refl, [], ◌∷◌, ◌++◌, ok, err, arith}
use go_connect.Bytes.{Bytes, put_u64, bytes_eq}
use go_connect.Crypto.Aead.{
  Aead, new_aead, encrypt, decrypt, nonce_of, next_nonce, nonce_equal, open_with, too_short,
  nonce_mismatch, invalid_key_size,
}
use go_connect.Crypto.Aead.Nonces.{advance}
use go_connect.Crypto.Aead.Channel.{decrypt-encrypt, decrypt_once}
use go_connect.Samples.{plain_gcm, zeros}

abbrev at : ℕ → Aead
at n = record { key = zeros 32; counter = n }

abbrev sealed : ℕ → Bytes → Bytes
sealed n xs = 0 ∷ 0 ∷ 0 ∷ 0 ∷ 0 ∷ 0 ∷ 0 ∷ 0 ∷ 0 ∷ 0 ∷ 0 ∷ n ∷ (zeros 16 ++ xs)

short_key : new_aead (zeros 31) ≡ err invalid_key_size
unfolding new_aead
short_key = refl

encrypt_two : encrypt plain_gcm (7 ∷ 9 ∷ []) (at 5) ≡ (ok (sealed 5 (7 ∷ 9 ∷ [])), at 6)
unfolding encrypt next_nonce nonce_of put_u64
encrypt_two = refl

decrypt_two : decrypt plain_gcm (sealed 5 (7 ∷ 9 ∷ [])) (at 5) ≡ (ok (7 ∷ 9 ∷ []), at 6)
unfolding decrypt next_nonce nonce_of nonce_equal open_with put_u64 bytes_eq
decrypt_two = refl

-- A frame without a nonce is refused, and not counted.
decrypt_stub : decrypt plain_gcm (1 ∷ []) (at 5) ≡ (err too_short, at 5)
unfolding decrypt
decrypt_stub = refl

counter_wraps : (encrypt plain_gcm [] (at (2 ^ 64 - 1))).1 ≡ at 0
unfolding encrypt next_nonce nonce_of put_u64
counter_wraps = refl

decrypt-encrypt_example : decrypt plain_gcm (sealed 5 (7 ∷ 9 ∷ [])) (at 5) ≡ (ok (7 ∷ 9 ∷ []), at 6)
decrypt-encrypt_example =
    decrypt-encrypt plain_gcm (7 ∷ 9 ∷ []) (sealed 5 (7 ∷ 9 ∷ [])) (at 5) (at 6) (at 5) refl refl
      encrypt_two

decrypt_once_example :
    decrypt plain_gcm (sealed 5 (7 ∷ 9 ∷ [])) (at 6) ≡ (err nonce_mismatch, advance (at 6))
decrypt_once_example =
    decrypt_once plain_gcm (sealed 5 (7 ∷ 9 ∷ [])) (7 ∷ 9 ∷ []) (at 5) (at 6) (at 6) decrypt_two
      (omega arith) (omega arith) (omega arith)
