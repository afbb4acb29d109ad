-- ===== src/Onion.antt =====
-- The onion layers of RELAY payloads (crates/nbf-net/src/cell.rs, `seal_onion` to
-- `open_onion_bwd`).
pub mod Layers
use never_been_found.Prelude.{
  ℕ, List, [], ◌∷◌, reverse, Bytes, to_le, Result, ok, err, ◌>>=◌, map_err,
}
use never_been_found.Errors.{CryptoError, NetError, crypto}
use never_been_found.Suite.{Suite}
use never_been_found.Kdf.{relay_nonce, seal, open_aead, dir_fwd, dir_bwd}

module _ (c : Suite) where
  -- `for k in keys { payload = seal(k, nonce, payload) }`
  pub seal_loop : Bytes → List Bytes → Bytes → Bytes
  seal_loop nonce [] payload = payload
  seal_loop nonce (k ∷ ks) payload = seal_loop nonce ks (seal c k nonce payload)

  pub seal_onion : List Bytes → Bytes → ℕ → Bytes → Bytes
  seal_onion keys tag seq msg = seal_loop (relay_nonce c tag dir_fwd seq) (reverse keys) msg

  unfoldable pub open_onion : Bytes → Bytes → ℕ → Bytes → Result NetError Bytes
  open_onion key tag seq onion =
      map_err crypto (open_aead c key (relay_nonce c tag dir_fwd seq) onion)

  pub seal_bwd : Bytes → Bytes → ℕ → Bytes → Bytes
  seal_bwd key tag seq msg = seal c key (relay_nonce c tag dir_bwd seq) msg

  unfoldable pub open_bwd : Bytes → Bytes → ℕ → Bytes → Result NetError Bytes
  open_bwd key tag seq onion =
      map_err crypto (open_aead c key (relay_nonce c tag dir_bwd seq) onion)

  pub seal_onion_bwd : List Bytes → Bytes → ℕ → Bytes → Bytes
  seal_onion_bwd keys tag seq msg = seal_loop (relay_nonce c tag dir_bwd seq) (reverse keys) msg

  unfoldable pub open_onion_bwd : List Bytes → Bytes → ℕ → Bytes → Result NetError Bytes
  open_onion_bwd [] tag seq onion = ok onion
  open_onion_bwd (k ∷ ks) tag seq onion = do
    payload ← map_err crypto (open_aead c k (relay_nonce c tag dir_bwd seq) onion)
    open_onion_bwd ks tag seq payload

-- crates/nbf-net/src/cell.rs, `padding_payload`.
pub padding_payload : ℕ → Bytes
padding_payload n_cells = to_le 2 n_cells
