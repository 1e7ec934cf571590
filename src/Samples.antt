-- ===== src/Samples.antt =====
-- Concrete values for what the model takes as parameters, for the tests: a cipher with an empty
-- tag, a codec for four kinds of messages, a key exchange without secrecy.
use go_connect.Base.{
  ℕ, zero, suc, ◌+◌, ◌≤◌, ◌≡◌, refl, [], ◌∷◌, ◌++◌, Option, none, some, ◌==◌, if◌then◌else◌, length,
  take, drop, length-append, length-take_of_le, arith,
}
use go_connect.Bytes.{Bytes}
use go_connect.Pb.{
  Envelope, Payload, StreamData, get_stream_data, handshake, stream_data, heartbeat, authenticate,
  carrying,
}
use go_connect.Crypto.Aead.Cipher.{Gcm}
use go_connect.Crypto.Keys.Curve.{Primitives}
use go_connect.Protocol.Codec.{Codec, IsCompact}

abbrev pub zeros : ℕ → Bytes
zeros zero = []
zeros (suc n) = 0 ∷ zeros n

pub length-zeros : (n : ℕ) → length (zeros n) ≡ n
length-zeros zero = refl
length-zeros (suc n) = omega (arith, length-zeros n)

-- The same, shut, for payloads of many bytes.
pub blank : ℕ → Bytes
blank n = zeros n

pub length-blank : (n : ℕ) → length (blank n) ≡ n
unfolding blank
length-blank n = length-zeros n

abbrev pub plain_gcm : Gcm
plain_gcm = record {
  seal = λ key nonce plaintext. zeros 16 ++ plaintext;
  open_sealed = λ key nonce ciphertext. some (drop 16 ciphertext);
  open-seal = λ key nonce plaintext. refl;
  length-seal = λ key nonce plaintext. omega arith;
}

abbrev write_payload : Option Payload → Option Bytes
write_payload (some (handshake m)) = some (1 ∷ m.public_key)
write_payload (some (stream_data m)) = some (8 ∷ m.stream_id ∷ m.payload)
write_payload (some heartbeat) = some (10 ∷ [])
write_payload (some (authenticate m)) = some (13 ∷ m.passphrase_hash)
write_payload _ = none

abbrev read_data : Bytes → Option Envelope
read_data [] = none
read_data (id ∷ payload) =
    some (carrying (stream_data (record { stream_id = id; payload = payload })))

abbrev read_payload : Bytes → Option Envelope
read_payload [] = none
read_payload (tag ∷ xs) =
    if tag == 1
    then some (carrying (handshake (record { public_key = xs })))
    else (if tag == 8
        then read_data xs
        else (if tag == 10
            then some (carrying heartbeat)
            else (if tag == 13
                then some (carrying (authenticate (record { passphrase_hash = xs })))
                else none)))

pub read-write_payload :
    (o : Option Payload) (wire : Bytes)
    → write_payload o ≡ some wire
    → read_payload wire ≡ some (record { payload = o })
read-write_payload none wire e = cc
read-write_payload (some p) wire e = read_some p wire e
  where
    read_some :
        (p : Payload) (wire : Bytes)
        → write_payload (some p) ≡ some wire
        → read_payload wire ≡ some (record { payload = some p })
    read_some (handshake m) wire e = ground arith
    read_some p wire e = ground arith

abbrev pub tagged_codec : Codec
tagged_codec = record {
  marshal = λ env. write_payload env.payload;
  unmarshal = read_payload;
  unmarshal-marshal = λ env wire e. read-write_payload env.payload wire e;
}

compact_payload :
    (o : Option Payload) (m : StreamData) (wire : Bytes)
    → get_stream_data (record { payload = o }) ≡ some m
    → write_payload o ≡ some wire
    → length wire ≤ length m.payload + 32
unfolding get_stream_data
compact_payload none m wire e f = absurd (ground arith)
compact_payload (some (stream_data d)) m wire e f = ground arith
compact_payload (some p) m wire e f = absurd (ground arith)

pub tagged_codec-IsCompact : IsCompact tagged_codec
tagged_codec-IsCompact env m wire e f small = compact_payload env.payload m wire e f

pub length-padded : (key : Bytes) → length (take 32 (key ++ zeros 32)) ≡ 32
length-padded key =
    length-take_of_le 32 (key ++ zeros 32) (omega (arith, length-append key (zeros 32)))

pub length-some-zeros : (n : ℕ) (key : Bytes) → some (zeros n) ≡ some key → length key ≡ n
length-some-zeros n key e = ground (arith, length-zeros n)

abbrev pub open_primitives : Primitives
open_primitives = record {
  public_of = λ key. take 32 (key ++ zeros 32);
  ecdh = λ key public. some (zeros 32);
  sha256 = λ xs. zeros 32;
  hkdf = λ secret salt info n. some (zeros n);
  length-public_of = length-padded;
  ecdh_comm = λ a b. refl;
  length-hkdf = λ secret salt info n key e. length-some-zeros n key e;
}
