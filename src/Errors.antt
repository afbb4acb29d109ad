-- ===== src/Errors.antt =====
-- The error types of the three crates: CryptoError (crates/nbf-crypto/src/lib.rs), NetError
-- (crates/nbf-net/src/lib.rs) and DhtError (crates/nbf-dht/src/rpc.rs).
use never_been_found.Prelude.{ℕ}

-- `Noise(String)` carries a library's message, whose text nothing reads.
pub data CryptoError : Type 0 where
  bad_length : ℕ → CryptoError
  aead kem noise sphinx descriptor ed25519 : CryptoError

pub data NetError : Type 0 where
  bad_length : ℕ → NetError
  bad_cmd : ℕ → NetError
  too_short timeout no_session : NetError
  crypto : CryptoError → NetError
  io : NetError

-- `BadDesc(e.to_string())` keeps the error instead of its text.
pub data DhtError : Type 0 where
  bad_len : ℕ → DhtError
  bad_type : ℕ → DhtError
  bad_desc : CryptoError → DhtError
  io : DhtError
