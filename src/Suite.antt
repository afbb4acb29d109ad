-- ===== src/Suite.antt =====
-- The symmetric primitives that the program takes from other crates, as an interface with the
-- documented behaviour that it relies on: ChaCha20-Poly1305 (chacha20poly1305), SHA-256 and
-- SHA-512 (sha2), HKDF-SHA256 (hkdf).
use never_been_found.Prelude.{ℕ, ◌+◌, ◌*◌, ◌≤◌, ◌≡◌, Option, some, length, Bytes}

pub record Suite : Type 0 where
  -- key, nonce, associated data, message
  pub encrypt : Bytes → Bytes → Bytes → Bytes → Bytes
  pub decrypt : Bytes → Bytes → Bytes → Bytes → Option Bytes
  pub sha256 : Bytes → Bytes
  pub sha512 : Bytes → Bytes
  -- salt, input key material, info, output length
  pub hkdf : Bytes → Bytes → Bytes → ℕ → Bytes
  pub decrypt-encrypt : (k n a m : Bytes) → decrypt k n a (encrypt k n a m) ≡ some m
  -- the Poly1305 tag has 16 bytes
  pub length-encrypt : (k n a m : Bytes) → length (encrypt k n a m) ≡ length m + 16
  pub length-sha256 : (m : Bytes) → length (sha256 m) ≡ 32
  pub length-sha512 : (m : Bytes) → length (sha512 m) ≡ 64
  -- RFC 5869 allows up to 255 blocks
  pub length-hkdf : (s i f : Bytes) (n : ℕ) → n ≤ 255 * 32 → length (hkdf s i f n) ≡ n
