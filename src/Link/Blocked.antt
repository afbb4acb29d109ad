-- ===== src/Link/Blocked.antt =====
-- Handshakes that one datagram shuts out (crates/nbf-net/src/link.rs, the buffers of fragments).
use never_been_found.Prelude.{
  ℕ, ◌%◌, ◌^◌, ◌≡◌, refl, ap, ◌∙◌, true, false, none, some, List, [], ◌∷◌, ◌++◌, length, drop,
  slice, take, All, Bytes, to_le, from_le, arith, ◌==◌, Map, lookup, insert, nat_eq,
  lookup-insert_self, le→leb, length-append, length-to_le,
}
use never_been_found.Addr.{SocketAddr, addr_eq_inst}
use never_been_found.Noise.{Noise}
use never_been_found.Link.{
  hs_datagram, hs_entry, is_empty, is_handshake, Link, hs_part, receive_datagram,
}

pub not_empty : (d : Bytes) → is_handshake d ≡ true → is_empty d ≡ false
unfolding is_handshake
not_empty [] h = cc
not_empty (b ∷ bs) h = refl

insert_some : (k : ℕ) (v : Bytes) (m : Map ℕ Bytes) → (length (insert k v m) == 0) ≡ false
unfolding insert
insert_some k v m = ground arith

zero-total : (idx : ℕ) (chunk : Bytes) → from_le (slice 1 2 (hs_datagram 0 idx chunk)) ≡ 0
unfolding hs_datagram to_le from_le slice take drop
zero-total idx chunk = refl

zero-handshake : (idx : ℕ) (chunk : Bytes) → is_handshake (hs_datagram 0 idx chunk) ≡ true
unfolding is_handshake hs_datagram
zero-handshake idx chunk = le→leb 5 _ (
    omega (
      arith,
      length-append (to_le 2 0) (to_le 2 (idx % 2 ^ 16) ++ chunk),
      length-append (to_le 2 (idx % 2 ^ 16)) chunk,
      length-to_le 2 0,
      length-to_le 2 (idx % 2 ^ 16),
    ))

module _ (x : Noise) (src : SocketAddr) where
  -- The datagrams of one address, one after the other.
  unfoldable pub receive_each : List Bytes → ℕ → Link x → Link x × List (SocketAddr × Bytes)
  receive_each [] entropy l = (l, [])
  receive_each (d ∷ ds) entropy l =
      let r = receive_datagram x src d entropy l in
      let later = receive_each ds entropy r.0 in (later.0, r.1 ++ later.1)

  -- Only the buffers differ, and the one of the address waits for no fragments at all.
  record Stuck (l l' : Link x) : Type 0 where
    bufs : Map SocketAddr (ℕ × Map ℕ Bytes)
    same : l' ≡ record l { hs_buf = bufs }
    pieces_held : Map ℕ Bytes
    held : lookup src bufs ≡ some (0, pieces_held)

  part-Stuck :
      (d : Bytes) (entropy : ℕ) (l : Link x) (parts : Map ℕ Bytes)
      → hs_entry (from_le (slice 1 2 d)) (lookup src l.hs_buf) ≡ (0, parts)
      → is_handshake d ≡ true
      → Stuck l (receive_datagram x src d entropy l).0
        × ((receive_datagram x src d entropy l).1 ≡ [])
  unfolding receive_datagram hs_part
  part-Stuck d entropy l parts e h =
      rw (not_empty d h, h, e, insert_some (from_le (slice 3 2 d)) (drop 5 d) parts)
        (
          record {
            bufs = _;
            same = refl;
            pieces_held = _;
            held = lookup-insert_self src _ l.hs_buf;
          },
          refl,
        )

  Stuck-trans : (l l' l'' : Link x) → Stuck l l' → Stuck l' l'' → Stuck l l''
  Stuck-trans l l' l'' s s' = record {
    bufs = s'.bufs;
    same = rw (s'.same, s.same);
    pieces_held = s'.pieces_held;
    held = s'.held;
  }

  each-Stuck :
      (ds : List Bytes) (entropy : ℕ) (l l' : Link x)
      → Stuck l l'
      → All (λ d. is_handshake d ≡ true) ds
      → Stuck l (receive_each ds entropy l').0 × ((receive_each ds entropy l').1 ≡ [])
  unfolding receive_each
  each-Stuck [] entropy l l' s hs = (s, refl)
  each-Stuck (d ∷ ds) entropy l l' s hs =
      let held : lookup src l'.hs_buf ≡ some (0, s.pieces_held) =
        ap (λ k. lookup src k.hs_buf) s.same ∙ s.held in
      let (s', quiet) =
        part-Stuck d entropy l' s.pieces_held (ap (hs_entry (from_le (slice 1 2 d))) held) hs.0 in
      let (later, quiet') =
        each-Stuck ds entropy l (receive_datagram x src d entropy l').0 (Stuck-trans l l' _ s s')
          hs.1 in
      (later, rw (quiet, quiet'))

  -- Let a link hold no fragments of an address. After one datagram from there that says that it is
  -- a fragment of 0, whatever else it holds, no fragment from that address ever completes a
  -- handshake: however many arrive and whatever they hold, nothing is sent, and the sessions, the
  -- handshakes under way and the known keys stay as they were.
  pub handshake_blocked :
      (idx : ℕ) (chunk : Bytes) (ds : List Bytes) (entropy : ℕ) (l : Link x)
      → lookup src l.hs_buf ≡ none
      → All (λ d. is_handshake d ≡ true) ds
      → let r = receive_each (hs_datagram 0 idx chunk ∷ ds) entropy l in
        (r.1 ≡ [])
        × ((r.0).sessions ≡ l.sessions)
        × ((r.0).hs_inflight ≡ l.hs_inflight)
        × ((r.0).peer_statics ≡ l.peer_statics)
  unfolding receive_each
  handshake_blocked idx chunk ds entropy l e hs =
      let d = hs_datagram 0 idx chunk in
      let entry : hs_entry (from_le (slice 1 2 d)) (lookup src l.hs_buf) ≡ (0, []) =
        rw (e, zero-total idx chunk) in
      let (s, quiet) = part-Stuck d entropy l [] entry (zero-handshake idx chunk) in
      let (s', quiet') = each-Stuck ds entropy l (receive_datagram x src d entropy l).0 s hs in
      (
        rw (quiet, quiet'),
        ap (λ k. k.sessions) s'.same,
        ap (λ k. k.hs_inflight) s'.same,
        ap (λ k. k.peer_statics) s'.same,
      )
