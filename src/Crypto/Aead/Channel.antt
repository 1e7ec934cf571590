-- ===== src/Crypto/Aead/Channel.antt =====
-- Two ends of one direction: what `Encrypt` made and how `Decrypt` at the other end takes it.
use go_connect.Base.{
  ℕ, ◌^◌, ◌≤◌, ◌<◌, ◌≡◌, ◌≢◌, sym, ◌∙◌, ◌++◌, length, take, drop, ok, err, arith, take-append_eq,
  drop-append_eq, length-append,
}
use go_connect.Bytes.{Bytes}
use go_connect.Crypto.Aead.Cipher.{Gcm}
use go_connect.Crypto.Aead.Nonces.{
  advance, nonce_of-injective, length-nonce_of, nonce_equal_iff, encrypt_cases, decrypt_wrong_nonce,
  decrypt-eq_ok,
}
use go_connect.Crypto.Aead.{
  Aead, nonce_mismatch, nonce_size, nonce_of, next_nonce, encrypt, decrypt, open_with,
}

module _ (g : Gcm) where
  -- A frame as `Encrypt` makes it under `key` at the counter `n`.
  abbrev pub sealed_at : Bytes → ℕ → Bytes → Bytes
  sealed_at key n plaintext = nonce_of n ++ g.seal key (nonce_of n) plaintext

  split_sealed :
      (key plaintext : Bytes) (n : ℕ)
      → (take nonce_size (sealed_at key n plaintext) ≡ nonce_of n)
        × (drop nonce_size (sealed_at key n plaintext) ≡ g.seal key (nonce_of n) plaintext)
        × (nonce_size ≤ length (sealed_at key n plaintext))
  split_sealed key plaintext n =
      let body = g.seal key (nonce_of n) plaintext in
      let twelve = length-nonce_of n in
      (
        take-append_eq 12 (nonce_of n) body twelve,
        drop-append_eq 12 (nonce_of n) body twelve,
        omega (arith, twelve, length-append (nonce_of n) body),
      )

  pub decrypt-sealed_at :
      (plaintext : Bytes) (a : Aead)
      → decrypt g (sealed_at a.key a.counter plaintext) a ≡ (ok plaintext, advance a)
  unfolding decrypt next_nonce open_with
  decrypt-sealed_at plaintext a = ground (
    arith,
    split_sealed a.key plaintext a.counter,
    nonce_equal_iff (nonce_of a.counter) (nonce_of a.counter),
    g.open-seal a.key (nonce_of a.counter) plaintext,
  )

  -- A frame made at another value of the counter is rejected, and the receiver counts it.
  pub decrypt-sealed_at_other :
      (key plaintext : Bytes) (n : ℕ) (a : Aead)
      → n < 2 ^ 64
      → a.counter < 2 ^ 64
      → n ≢ a.counter
      → decrypt g (sealed_at key n plaintext) a ≡ (err nonce_mismatch, advance a)
  decrypt-sealed_at_other key plaintext n a hn ha ne =
      let (front, _, long) = split_sealed key plaintext n in
      decrypt_wrong_nonce g (sealed_at key n plaintext) a long
        (λ e. ne (nonce_of-injective n a.counter hn ha (sym front ∙ e)))

  -- With equal keys and counters, `Decrypt` at one end returns what `Encrypt` at the other was given,
  -- and the counters are equal again.
  pub decrypt-encrypt :
      (plaintext x : Bytes) (s s' r : Aead)
      → s.key ≡ r.key
      → s.counter ≡ r.counter
      → encrypt g plaintext s ≡ (ok x, s')
      → (decrypt g x r ≡ (ok plaintext, record r { counter = s'.counter }))
  decrypt-encrypt plaintext x s s' r k n e =
      ground (arith, encrypt_cases g plaintext s, decrypt-sealed_at plaintext r)

  -- A frame that was accepted at one value of the counter is rejected at every other, under whatever
  -- key: it can be neither replayed nor moved to another place before the counter wraps.
  pub decrypt_once :
      (x plaintext : Bytes) (a a' b : Aead)
      → decrypt g x a ≡ (ok plaintext, a')
      → a.counter < 2 ^ 64
      → b.counter < 2 ^ 64
      → b.counter ≢ a.counter
      → decrypt g x b ≡ (err nonce_mismatch, advance b)
  decrypt_once x plaintext a a' b e ha hb ne =
      let (long, front, _) = decrypt-eq_ok g x plaintext a a' e in
      decrypt_wrong_nonce g x b long
        (λ k. ne (sym (nonce_of-injective a.counter b.counter ha hb (sym front ∙ k))))

  -- A frame with a wrong nonce, rejected by a receiver that was in step, puts it out of step: what the
  -- sender encrypts next is rejected too, though it comes through unchanged.
  decrypt_out_of_step :
      (x plaintext y : Bytes) (s s' r : Aead)
      → s.counter ≡ r.counter
      → r.counter < 2 ^ 64
      → nonce_size ≤ length x
      → take nonce_size x ≢ nonce_of r.counter
      → encrypt g plaintext s ≡ (ok y, s')
      → (decrypt g y (decrypt g x r).1).0 ≡ err nonce_mismatch
  decrypt_out_of_step x plaintext y s s' r n small long wrong e = ground (
    arith,
    decrypt_wrong_nonce g x r long wrong,
    encrypt_cases g plaintext s,
    decrypt-sealed_at_other s.key plaintext r.counter (advance r),
  )
