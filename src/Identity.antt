-- ===== src/Identity.antt =====
-- The key set of a node (crates/nbf-crypto/src/identity.rs, `NodeIdentity`) and the ML-KEM adapter
-- (crates/nbf-crypto/src/kem.rs).
use never_been_found.Prelude.{◌+◌, ◌*◌, ◌/◌, ◌%◌, get_or, set, take, Bytes, Result, ok_or}
use never_been_found.Errors.{CryptoError, kem}
use never_been_found.Suite.{Suite}
use never_been_found.Asym.{Asym}

pub record NodeIdentity (a : Asym) : Type 0 where
  pub ed : a.SigningKey
  pub link_priv : Bytes
  pub link_pub : Bytes
  pub sphinx_priv : a.Scalar
  pub sphinx_pub : Bytes
  pub kem_sk : a.DecapsKey
  pub kem_pk : Bytes

unfoldable pub node_id_from_ed_pub : Suite → Bytes → Bytes
node_id_from_ed_pub c ed_pub = take 20 (c.sha256 ed_pub)

-- `b[0] &= 248; b[31] &= 127; b[31] |= 64` on bytes: clear the low three bits of the first, and
-- set the top two bits of the last to 01.
pub clamp : Bytes → Bytes
clamp b = let b' = set b 0 (get_or b 0 0 / 8 * 8) in set b' 31 (get_or b' 31 0 % 64 + 64)

module _ (a : Asym) where
  unfoldable pub node_id : Suite → NodeIdentity a → Bytes
  unfolding node_id_from_ed_pub
  node_id c i = node_id_from_ed_pub c (a.verifying_key i.ed)

  unfoldable pub sign_ed : NodeIdentity a → Bytes → Bytes
  sign_ed i msg = a.sign i.ed msg

  pub x25519_pub_from_clamped : Bytes → Bytes
  x25519_pub_from_clamped priv_clamped = a.mul_base (a.reduce priv_clamped)

  -- The generator is used in this order: signing key, link key, scalar, ML-KEM pair.
  pub random : a.Rng → NodeIdentity a × a.Rng
  unfolding clamp x25519_pub_from_clamped
  random rng =
      let (ed, rng1) = a.generate_signing rng in
      let (raw, rng2) = a.fill_bytes 32 rng1 in
      let link_priv = clamp raw in
      let (sphinx_priv, rng3) = a.random_scalar rng2 in
      let pair = a.generate rng3 in
      (
        record {
          ed = ed;
          link_priv = link_priv;
          link_pub = x25519_pub_from_clamped link_priv;
          sphinx_priv = sphinx_priv;
          sphinx_pub = a.mul_base sphinx_priv;
          kem_sk = (pair.0).0;
          kem_pk = (pair.0).1;
        },
        pair.1,
      )

  -- crates/nbf-crypto/src/kem.rs
  unfoldable pub kem_encap : Bytes → a.Rng → Result CryptoError (Bytes × Bytes) × a.Rng
  kem_encap pk rng = let r = a.encapsulate pk rng in (ok_or r.0 kem, r.1)

  unfoldable pub kem_decap : a.DecapsKey → Bytes → Result CryptoError Bytes
  kem_decap sk ct = ok_or (a.decapsulate sk ct) kem
