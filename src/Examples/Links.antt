-- ===== src/Examples/Links.antt =====
-- Two ends of a link with sessions that only mark what they carry.
use never_been_found.Prelude.{
  ℕ, zero, suc, ◌<◌, inl, inr, map, ◌≡◌, refl, true, false, none, some, [], ◌∷◌, length-replicate,
  replicate, Bytes, arith, lookup, insert, nat_eq, lookup-insert_self,
}
use never_been_found.Addr.{addr_eq_inst}
use never_been_found.Cell.{Cmd, Cell, encode}
use never_been_found.Cell.RoundTrip.{IsCell, decode-encode}
use never_been_found.Noise.{Noise}
use never_been_found.Link.{
  hs_datagram, is_handshake, sent, waiting, Link, receive_datagram, begin_send, end_send,
}
use never_been_found.Link.Crossing.{Handshake, cell_crosses}
use never_been_found.Link.Blocked.{receive_each, handshake_blocked}
use never_been_found.Link.{hs_count, hs_fragment}
use never_been_found.Fragment.Delivery.{Occurs}
use never_been_found.Link.Gathering.{HsFits}
use never_been_found.Link.Handshakes.{Handled, handshake_arrives}
use never_been_found.Examples.Circuits.{host}

abbrev tail : Bytes → Bytes
tail [] = []
tail (b ∷ bs) = bs

-- A state is what it would write; both ends read what the other wrote.
abbrev plain_noise : Noise
plain_noise = record {
  HandshakeState = Bytes;
  TransportState = ℕ;
  build_initiator = λ key peer entropy. some key;
  build_responder = λ key entropy. some key;
  write_handshake = λ st. some (st, st);
  read_handshake = λ st msg. some msg;
  get_remote_static = λ st. some st;
  into_transport_mode = λ st. some 0;
  write_message = λ t m. some (1 ∷ m, suc t);
  read_message = λ t m. some (tail m, suc t);
}

abbrev pub key_a : Bytes
key_a = replicate 32 4

abbrev key_b : Bytes
key_b = replicate 32 5

abbrev blank : Bytes → Link plain_noise
blank key = record {
  sessions = [];
  local_static = key;
  peer_statics = [];
  hs_inflight = [];
  hs_buf = [];
}

abbrev link_a : Link plain_noise
link_a = record (blank key_a) { peer_statics = insert (host 2) key_b [] }

abbrev two_messages : Handshake plain_noise key_a key_b key_a key_b 0 0
two_messages = record {
  ini = key_a;
  ini1 = key_a;
  ini2 = key_a;
  res = key_b;
  res1 = key_a;
  res2 = key_a;
  ta = 0;
  tb = 0;
  m1 = key_a;
  m2 = key_a;
  starts = refl;
  writes = refl;
  answers = refl;
  reads = refl;
  writes_back = refl;
  knows = refl;
  reads_back = refl;
  opens_a = refl;
  opens_b = refl;
  short_1 = omega (arith, length-replicate {A = ℕ} 32 4);
  short_2 = omega (arith, length-replicate {A = ℕ} 32 4);
}

abbrev pub first_cell : Cell
first_cell = record { cid = 1; cmd = Cmd.created; flags = 0; payload = [] }

pub first-IsCell : IsCell first_cell
first-IsCell = record { cid_u32 = omega arith; flags_u8 = omega arith; fits = omega arith }

wire : (w : Bytes) × (encode first_cell ≡ some w)
wire = let r = decode-encode first_cell first-IsCell in (r.0, r.1)

unmarked : (m : Bytes) → is_handshake (1 ∷ m) ≡ false
unfolding is_handshake
unmarked m = refl

empty_end :
    (lookup (host 2) link_a.sessions ≡ none)
    × (lookup (host 2) link_a.hs_inflight ≡ none)
    × (lookup (host 2) link_a.hs_buf ≡ none)
    × (lookup (host 1) (blank key_b).hs_inflight ≡ none)
    × (lookup (host 1) (blank key_b).hs_buf ≡ none)
unfolding lookup
empty_end = (refl, refl, refl, refl, refl)

cell_crosses_example :
    (d1 : Bytes) × (d2 : Bytes) × (la1 : Link plain_noise) × (la2 : Link plain_noise) × (la3 : Link
      plain_noise)
    × (lb1 : Link plain_noise) × (lb2 : Link plain_noise) × (begin_send plain_noise
          (host 2)
          first_cell
          0
          link_a
        ≡ (waiting, la1, (host 2, d1) ∷ []))
    × (receive_datagram plain_noise (host 1) d1 0 (blank key_b) ≡ (lb1, (host 1, d2) ∷ [], none))
    × (lookup (host 1) lb1.peer_statics ≡ some key_a)
    × (receive_datagram plain_noise (host 2) d2 0 la1 ≡ (la2, [], none))
    × (end_send plain_noise (host 2) first_cell la2 ≡ (sent, la3, (host 2, 1 ∷ wire.0) ∷ []))
    × (receive_datagram plain_noise (host 1) (1 ∷ wire.0) 0 lb1 ≡ (lb2, [], some first_cell))
cell_crosses_example =
    cell_crosses plain_noise key_a key_b 0 0 (host 1) (host 2) link_a (blank key_b) first_cell
      wire.0 (1 ∷ wire.0) 1 1 0 0 two_messages first-IsCell empty_end.0
      (lookup-insert_self (host 2) key_b []) empty_end.1 empty_end.2 empty_end.3 empty_end.4 wire.1
      refl refl refl (unmarked wire.0)

marked : is_handshake (0x7f ∷ 1 ∷ 0 ∷ 0 ∷ 0 ∷ 8 ∷ []) ≡ true
unfolding is_handshake
marked = refl

handshake_blocked_example :
    let r =
      receive_each plain_noise
        (host 1)
        (hs_datagram 0 3 [] ∷ (0x7f ∷ 1 ∷ 0 ∷ 0 ∷ 0 ∷ 8 ∷ []) ∷ [])
        0
        (blank key_b) in
    (r.1 ≡ [])
    × ((r.0).sessions ≡ (blank key_b).sessions)
    × ((r.0).hs_inflight ≡ (blank key_b).hs_inflight)
    × ((r.0).peer_statics ≡ (blank key_b).peer_statics)
handshake_blocked_example =
    handshake_blocked plain_noise (host 1) 3 [] ((0x7f ∷ 1 ∷ 0 ∷ 0 ∷ 0 ∷ 8 ∷ []) ∷ []) 0
      (blank key_b) empty_end.4 (marked, tt)

abbrev long_message : Bytes
long_message = replicate 1200 3

long-HsFits : HsFits long_message
long-HsFits = omega (arith, length-replicate {A = ℕ} 1200 3)

long_count : hs_count long_message ≡ 2
unfolding hs_count
long_count = omega (arith, length-replicate {A = ℕ} 1200 3)

both_come : (j : ℕ) → j < 2 → Occurs j (1 ∷ 0 ∷ [])
both_come zero h = inr (inl refl)
both_come (suc zero) h = inl refl
both_come (suc (suc j)) h = absurd (omega arith)

handshake_arrives_example : Handled plain_noise (host 1) long_message long-HsFits 0 (blank key_b) (
    receive_each plain_noise (host 1) (map (hs_fragment long_message) (1 ∷ 0 ∷ [])) 0 (blank key_b))
handshake_arrives_example =
    handshake_arrives plain_noise (host 1) long_message long-HsFits 0 (1 ∷ 0 ∷ []) (blank key_b)
      empty_end.4 (omega (arith, long_count), (omega (arith, long_count), tt))
      (((λ e. absurd (omega arith)), tt), (tt, tt)) (omega (arith, long_count))
      (λ j h. both_come j (omega (arith, h, long_count)))
