-- ===== src/Crypto.antt =====
-- The cryptographic part (pkg/crypto): encryption with counted nonces, and the derivation of keys.
pub mod Aead
pub mod Keys
