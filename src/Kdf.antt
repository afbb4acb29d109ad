-- ===== src/Kdf.antt =====
-- crates/nbf-crypto/src/kdf.rs: keys, nonces and the AEAD, over the primitives of `Suite`.
use never_been_found.Prelude.{
  ℕ, ◌+◌, ◌≡◌, [], ◌∷◌, ◌++◌, length, take, slice, Bytes, to_le, Result, ok, ok_or,
}
use never_been_found.Errors.{CryptoError, aead}
use never_been_found.Suite.{Suite}

-- b"nbf/hdr/v1"
abbrev pub info_hdr : Bytes
info_hdr = b'n' ∷ b'b' ∷ b'f' ∷ b'/' ∷ b'h' ∷ b'd' ∷ b'r' ∷ b'/' ∷ b'v' ∷ b'1' ∷ []

-- b"nbf/traffic/v1"
abbrev pub info_traffic : Bytes
info_traffic =
    b'n' ∷ b'b' ∷ b'f' ∷ b'/' ∷ b't' ∷ b'r' ∷ b'a' ∷ b'f' ∷ b'f' ∷ b'i' ∷ b'c' ∷ b'/' ∷ b'v' ∷ b'1'
    ∷ []

-- b"nbf", the associated data of every message
abbrev pub aad : Bytes
aad = b'n' ∷ b'b' ∷ b'f' ∷ []

abbrev pub dir_fwd : ℕ
dir_fwd = 0

abbrev pub dir_bwd : ℕ
dir_bwd = 1

module _ (c : Suite) where
  pub derive_hdr_key : Bytes → Bytes → Bytes
  derive_hdr_key ss_x tag = c.hkdf tag ss_x info_hdr 32

  -- The forward and the backward key of a hop.
  pub derive_traffic_keys : Bytes → Bytes → Bytes → Bytes × Bytes
  derive_traffic_keys ss_x ss_kem tag =
      let v = c.hkdf tag (ss_x ++ ss_kem) info_traffic 64 in (slice 0 32 v, slice 32 32 v)

  pub hdr_nonce : Bytes → ℕ → Bytes
  hdr_nonce tag n_field = take 12 (c.sha256 (tag ++ (b'h' ∷ b'd' ∷ b'r' ∷ n_field ∷ [])))

  pub relay_nonce : Bytes → ℕ → ℕ → Bytes
  relay_nonce tag dir seq = take 12 (c.sha256 (tag ++ (dir ∷ to_le 4 seq)))

  pub seal : Bytes → Bytes → Bytes → Bytes
  seal key nonce plaintext = c.encrypt key nonce aad plaintext

  unfoldable pub open_aead : Bytes → Bytes → Bytes → Result CryptoError Bytes
  open_aead key nonce ciphertext = ok_or (c.decrypt key nonce aad ciphertext) aead

  pub open_aead-seal : (k n m : Bytes) → open_aead k n (seal k n m) ≡ ok m
  unfolding open_aead seal
  open_aead-seal k n m = rw (c.decrypt-encrypt k n aad m)

  pub length-seal : (k n m : Bytes) → length (seal k n m) ≡ length m + 16
  unfolding seal
  length-seal k n m = c.length-encrypt k n aad m
