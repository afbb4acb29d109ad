-- ===== src/Relay/Sizes.antt =====
-- Sizes of RELAY cells: what fits a cell of 1280 bytes, and what does not
-- (crates/nbf-net/src/relay.rs with `encode` of crates/nbf-net/src/cell.rs).
use never_been_found.Prelude.{
  ℕ, ◌+◌, ◌≤◌, ◌<◌, ◌^◌, ◌≡◌, ◌≢◌, ◌↔◌, ap, none, some, List, [], ◌∷◌, length, Bytes, arith, lookup,
  nat_eq,
}
use never_been_found.Suite.{Suite}
use never_been_found.Cell.{Cell, RCmd, rcmd_code, encode, msg_max, cell_data}
use never_been_found.Onion.{seal_onion, seal_bwd}
use never_been_found.Onion.Layers.{length-seal_onion, length-seal_bwd}
use never_been_found.Node.{Node, HopLink, relay, send}
use never_been_found.Relay.{relay_payload, relay_cell, handle}
use never_been_found.Relay.Wire.{length-relay_payload}
use never_been_found.Relay.Hop.{relay_backward}

-- `encode` panics on exactly the payloads of more than 1272 bytes.
pub encode-none_iff : (x : Cell) → (encode x ≡ none) ↔ (cell_data < length x.payload)
unfolding encode
encode-none_iff x = ground arith

module _ (c : Suite) where
  -- The cell of an origin over at most five hops, with a message of at most 1024 bytes, fits.
  pub send_fits :
      (keys : List Bytes) (tag : Bytes) (cid seq r stream : ℕ) (m : Bytes)
      → length keys ≤ 5
      → length m ≤ msg_max
      → encode (relay_cell cid (relay_payload seq r stream (seal_onion c keys tag seq m))) ≢ none
  send_fits keys tag cid seq r stream m hk hm e = omega (
    arith,
    (encode-none_iff _).0 e,
    length-relay_payload seq r stream (seal_onion c keys tag seq m),
    length-seal_onion c keys tag seq m,
  )

  wrapped :
      (seq r stream : ℕ) (k tag onion : Bytes)
      → length (relay_payload seq r stream (seal_bwd c k tag seq onion))
        ≡ length (relay_payload seq r stream onion) + 16
  wrapped seq r stream k tag onion = omega (
    arith,
    length-relay_payload seq r stream (seal_bwd c k tag seq onion),
    length-relay_payload seq r stream onion,
    length-seal_bwd c k tag seq onion,
  )

  -- A hop between two different addresses that wraps a cell of its successor, with fields in their
  -- ranges, builds a cell that `encode` panics on exactly when the payload that came in has more
  -- than 1256 bytes, 16 below what a cell may hold.
  pub relay_backward_overflow :
      (n : Node) (cid seq : ℕ) (r : RCmd) (stream : ℕ) (tag kf kb onion : Bytes)
      (prev next : HopLink) (last : ℕ)
      → seq < 2 ^ 32
      → stream < 2 ^ 16
      → lookup cid n.circuits ≡ some (relay tag kf kb prev next last)
      → next.peer ≢ prev.peer
      → (out : Cell) × ((handle c n next.peer
            (relay_cell cid (relay_payload seq (rcmd_code r) stream onion))).1
          ≡ send prev.peer out ∷ [])
        × ((encode out ≡ none) ↔ (1256 < length (relay_payload seq (rcmd_code r) stream onion)))
  relay_backward_overflow n cid seq r stream tag kf kb onion prev next last hs ht hl ne = (
    relay_cell prev.cid (relay_payload seq (rcmd_code r) stream (seal_bwd c kb tag seq onion)),
    ap (λ r. r.1) (relay_backward c n cid seq r stream tag kf kb onion prev next last hs ht hl ne),
    (
      λ e. omega (arith, (encode-none_iff _).0 e, wrapped seq (rcmd_code r) stream kb tag onion),
      λ h. (encode-none_iff _).1 (omega (arith, wrapped seq (rcmd_code r) stream kb tag onion)),
    ),
  )
