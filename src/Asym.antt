-- ===== src/Asym.antt =====
-- The asymmetric primitives that the program takes from other crates, as an interface with the
-- documented behaviour that it relies on: scalars and Montgomery points (curve25519-dalek),
-- ML-KEM-768 (ml-kem), Ed25519 (ed25519-dalek) and the random generator that is handed to them.
use never_been_found.Prelude.{ℕ, ◌≡◌, Bool, true, Option, some, length, Bytes}

pub record Asym : Type 1 where
  pub Scalar : Type 0
  pub DecapsKey : Type 0
  pub SigningKey : Type 0
  pub Rng : Type 0
  -- `Scalar::from(1u8)`, `a * b`, `from_bytes_mod_order`, `to_bytes`, `from_hash` of a digest
  pub one : Scalar
  pub mul : Scalar → Scalar → Scalar
  pub reduce : Bytes → Scalar
  pub to_bytes : Scalar → Bytes
  pub from_hash : Bytes → Scalar
  -- `(MontgomeryPoint(p) * s).to_bytes()` and `MontgomeryPoint::mul_base(s).to_bytes()`
  pub point_mul : Bytes → Scalar → Bytes
  pub mul_base : Scalar → Bytes
  -- `Scalar::random`, `fill_bytes`
  pub random_scalar : Rng → Scalar × Rng
  pub fill_bytes : ℕ → Rng → Bytes × Rng
  -- `MlKem768::generate`, `encapsulate`, `decapsulate`
  pub generate : Rng → (DecapsKey × Bytes) × Rng
  pub encapsulate : Bytes → Rng → Option (Bytes × Bytes) × Rng
  pub decapsulate : DecapsKey → Bytes → Option Bytes
  -- `SigningKey::generate`, the verifying key, `sign`, and `VerifyingKey::verify`
  pub generate_signing : Rng → SigningKey × Rng
  pub verifying_key : SigningKey → Bytes
  pub sign : SigningKey → Bytes → Bytes
  pub verify : Bytes → Bytes → Bytes → Bool
  pub mul_one : (a : Scalar) → mul a one ≡ a
  pub one_mul : (a : Scalar) → mul one a ≡ a
  pub mul_assoc : (a b c : Scalar) → mul (mul a b) c ≡ mul a (mul b c)
  -- `to_bytes` is the canonical form
  pub reduce-to_bytes : (a : Scalar) → reduce (to_bytes a) ≡ a
  pub length-to_bytes : (a : Scalar) → length (to_bytes a) ≡ 32
  pub length-point_mul : (p : Bytes) (a : Scalar) → length (point_mul p a) ≡ 32
  -- the receiver of a generated key pair finds the sender's secret; sizes as in FIPS 203
  pub decapsulate-encapsulate :
      (r s : Rng) {ct ss : Bytes}
      → (encapsulate ((generate r).0).1 s).0 ≡ some (ct, ss)
      → decapsulate ((generate r).0).0 ct ≡ some ss
  pub length-ciphertext :
      (pk : Bytes) (s : Rng) {ct ss : Bytes}
      → (encapsulate pk s).0 ≡ some (ct, ss)
      → length ct ≡ 1088
  -- what a key signs its verifying key verifies; Ed25519 keys have 32 bytes, signatures 64
  pub verify-sign : (k : SigningKey) (m : Bytes) → verify (verifying_key k) m (sign k m) ≡ true
  pub length-verifying_key : (k : SigningKey) → length (verifying_key k) ≡ 32
  pub length-sign : (k : SigningKey) (m : Bytes) → length (sign k m) ≡ 64
