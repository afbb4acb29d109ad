-- ===== src/Examples/Streams.antt =====
-- Sessions that number their messages, in step and out of step.
use never_been_found.Prelude.{
  ℕ, suc, ◌≢◌, List, Option, All, ◌==◌, ==_refl, ==_iff, if◌then◌else◌, map, ◌≡◌, refl, false, none,
  some, [], ◌∷◌, Bytes, arith, insert, nat_eq, lookup-insert_self,
}
use never_been_found.Addr.{addr_eq_inst}
use never_been_found.Cell.{Cell}
use never_been_found.Noise.{Noise}
use never_been_found.Link.{is_handshake, sent, Link}
use never_been_found.Link.Sessions.{
  Counted, send_all, receive_all, clear_cells, sealed, Unmarked, cells_cross, loss_deafens,
}
use never_been_found.Examples.Circuits.{host}
use never_been_found.Examples.Links.{key_a, first_cell, first-IsCell}

-- A session that writes the number of each message in front of it, and reads no other.
abbrev read_counted : ℕ → Bytes → Option (Bytes × ℕ)
read_counted t [] = none
read_counted t (b ∷ []) = none
read_counted t (b ∷ u ∷ m) = if t == u then some (m, suc t) else none

abbrev counting : Noise
counting = record {
  HandshakeState = Bytes;
  TransportState = ℕ;
  build_initiator = λ key peer entropy. some key;
  build_responder = λ key entropy. some key;
  write_handshake = λ st. some (st, st);
  read_handshake = λ st msg. some msg;
  get_remote_static = λ st. some st;
  into_transport_mode = λ st. some 0;
  write_message = λ t m. some (1 ∷ t ∷ m, suc t);
  read_message = read_counted;
}

not_same : (j k : ℕ) → j ≢ k → (j == k) ≡ false
not_same j k ne = ground (arith, ==_iff j k)

abbrev counted : Counted counting
counted = record {
  sends = λ k. k;
  gets = λ k. k;
  seals = λ k m. 1 ∷ k ∷ m;
  writes = λ k m. refl;
  reads = λ k m. rw (==_refl k);
  rejects = λ j k m ne. rw (not_same j k ne);
  full = λ k m. refl;
}

-- An end whose session has come to a number, with the address of its peer.
abbrev at_number : ℕ → ℕ → Link counting
at_number peer k = record {
  sessions = insert (host peer) k [];
  local_static = key_a;
  peer_statics = [];
  hs_inflight = [];
  hs_buf = [];
}

abbrev two_cells : List Cell
two_cells = first_cell ∷ first_cell ∷ []

two-Unmarked : (k : ℕ) → Unmarked (sealed counting counted k two_cells)
unfolding sealed is_handshake
two-Unmarked k = (refl, (refl, tt))

cells_cross_example :
    let out = send_all counting (host 2) two_cells 0 (at_number 2 4) in
    let in_ =
      receive_all counting (host 1) (sealed counting counted 4 two_cells) 0 (at_number 1 4) in
    All (λ p. p ≡ sent) out.0
    × (out.2 ≡ map (λ d. (host 2, d)) (sealed counting counted 4 two_cells))
    × (in_.1 ≡ [])
    × (in_.2 ≡ two_cells)
cells_cross_example =
    cells_cross counting counted (host 1) (host 2) 0 4 two_cells (at_number 2 4) (at_number 1 4)
      (first-IsCell, (first-IsCell, tt)) (two-Unmarked 4) (lookup-insert_self (host 2) 4 [])
      (lookup-insert_self (host 1) 4 [])

loss_deafens_example :
    let out = send_all counting (host 2) two_cells 0 (at_number 2 5) in
    All (λ p. p ≡ sent) out.0
    × (out.2 ≡ map (λ d. (host 2, d)) (sealed counting counted 5 two_cells))
    × (receive_all counting (host 1) (sealed counting counted 5 two_cells) 0 (at_number 1 4)
        ≡ (at_number 1 4, [], clear_cells counting (sealed counting counted 5 two_cells)))
loss_deafens_example =
    loss_deafens counting counted (host 1) (host 2) 0 4 5 two_cells (at_number 2 5) (at_number 1 4)
      (omega arith) (first-IsCell, (first-IsCell, tt)) (two-Unmarked 5)
      (lookup-insert_self (host 2) 5 []) (lookup-insert_self (host 1) 4 [])
