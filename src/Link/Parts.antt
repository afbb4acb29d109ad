-- ===== src/Link/Parts.antt =====
-- Handshake messages of one datagram (crates/nbf-net/src/link.rs), and a datagram of a cell.
use never_been_found.Prelude.{
  ℕ, ◌≤◌, ◌≡◌, refl, ap, ap₂, ◌∙◌, true, false, none, some, [], ◌∷◌, ◌++◌, length, length-append,
  append-nil, remove, drop, take, take_all, slice, Bytes, to_le, from_le, length-to_le, ok, le→leb,
  arith, lookup, insert, nat_eq,
}
use never_been_found.Addr.{SocketAddr, addr_eq_inst}
use never_been_found.Cell.{Cell, decode}
use never_been_found.Fragment.{range_from}
use never_been_found.Noise.{Noise}
use never_been_found.Link.{
  hs_chunk, hs_count, hs_datagram, hs_fragment, hs_fragments, hs_join, is_empty, is_handshake, Link,
  handle_hs, hs_part, open_datagram, receive_datagram,
}

pub one_count : (msg : Bytes) → length msg ≤ hs_chunk → hs_count msg ≡ 1
unfolding hs_count
one_count msg h = omega (arith, h)

pub one_fragment :
    (msg : Bytes) → length msg ≤ hs_chunk → hs_fragments msg ≡ hs_datagram 1 0 msg ∷ []
unfolding hs_fragments hs_fragment range_from slice drop
one_fragment msg h = rw (one_count msg h) (
    ap₂ (λ n p. hs_datagram n 0 p ∷ []) (one_count msg h)
      (ap (λ n. take n msg) {y = length msg} (omega (arith, h))
        ∙ take_all (length msg) msg (omega arith)))

-- The parts of a datagram of one fragment.
pub one-total : (msg : Bytes) → from_le (slice 1 2 (hs_datagram 1 0 msg)) ≡ 1
unfolding hs_datagram to_le from_le slice take drop
one-total msg = refl

pub one-index : (msg : Bytes) → from_le (slice 3 2 (hs_datagram 1 0 msg)) ≡ 0
unfolding hs_datagram to_le from_le slice take drop
one-index msg = refl

pub one-chunk : (msg : Bytes) → drop 5 (hs_datagram 1 0 msg) ≡ msg
unfolding hs_datagram to_le drop
one-chunk msg = refl

pub one-handshake : (msg : Bytes) → is_handshake (hs_datagram 1 0 msg) ≡ true
unfolding is_handshake hs_datagram
one-handshake msg = le→leb 5 _ (
    omega (
      arith,
      length-append (to_le 2 1) (to_le 2 0 ++ msg),
      length-append (to_le 2 0) msg,
      length-to_le 2 1,
      length-to_le 2 0,
    ))

pub join_one : (msg : Bytes) → hs_join 0 1 (insert 0 msg []) ≡ msg
unfolding hs_join insert remove lookup
join_one msg = append-nil msg

module _ (x : Noise) where
  pub hs_part-one :
      (src : SocketAddr) (msg : Bytes) (entropy : ℕ) (l : Link x)
      → lookup src l.hs_buf ≡ none
      → hs_part x src (hs_datagram 1 0 msg) entropy l
        ≡ handle_hs x src msg entropy (record l { hs_buf = remove src l.hs_buf })
  unfolding hs_part insert remove
  hs_part-one src msg entropy l e =
      rw (one-total msg, one-index msg, one-chunk msg, e)
        (ap (λ m. handle_hs x src m entropy (record l { hs_buf = remove src l.hs_buf }))
          (join_one msg))

  pub receive_part :
      (src : SocketAddr) (msg : Bytes) (entropy : ℕ) (l : Link x)
      → lookup src l.hs_buf ≡ none
      → receive_datagram x src (hs_datagram 1 0 msg) entropy l ≡ (
          let r = handle_hs x src msg entropy (record l { hs_buf = remove src l.hs_buf }) in
          (r.0, r.1, none))
  unfolding receive_datagram hs_datagram
  receive_part src msg entropy l e =
      rw (one-handshake msg) (ap (λ r. (r.0, r.1, none)) (hs_part-one src msg entropy l e))

  pub receive_cell :
      (src : SocketAddr) (datagram plain : Bytes) (entropy : ℕ) (l : Link x) (cell : Cell)
      (t t' : x.TransportState)
      → is_empty datagram ≡ false
      → is_handshake datagram ≡ false
      → lookup src l.sessions ≡ some t
      → x.read_message t datagram ≡ some (plain, t')
      → decode plain ≡ ok cell
      → receive_datagram x src datagram entropy l
        ≡ (record l { sessions = insert src t' l.sessions }, [], some cell)
  unfolding receive_datagram open_datagram
  receive_cell src datagram plain entropy l cell t t' full plainly e opens d =
      rw (full, plainly, e, opens, d, open_datagram)
