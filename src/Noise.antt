-- ===== src/Noise.antt =====
-- The Noise sessions that crates/nbf-net/src/link.rs takes from the crate snow, as an interface:
-- one side each of the pattern Noise_IK_25519_ChaChaPoly_SHA256. The number that a state is built
-- with stands for the randomness that snow draws. The laws of two sides that talk to each other
-- are named by the theorems that use them.
use never_been_found.Prelude.{ℕ, Option, Bytes}

pub record Noise : Type 1 where
  pub HandshakeState : Type 0
  pub TransportState : Type 0
  -- `Builder::new(params).local_private_key(..)`, with `.remote_public_key(..)` for the initiator
  pub build_initiator : Bytes → Bytes → ℕ → Option HandshakeState
  pub build_responder : Bytes → ℕ → Option HandshakeState
  -- `write_message(&[], ..)` and `read_message`, with the state after it
  pub write_handshake : HandshakeState → Option (Bytes × HandshakeState)
  pub read_handshake : HandshakeState → Bytes → Option HandshakeState
  pub get_remote_static : HandshakeState → Option Bytes
  pub into_transport_mode : HandshakeState → Option TransportState
  -- a message that fails leaves the state as it was
  pub write_message : TransportState → Bytes → Option (Bytes × TransportState)
  pub read_message : TransportState → Bytes → Option (Bytes × TransportState)
