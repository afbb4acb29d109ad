-- ===== src/Link/Crossing.antt =====
-- The first cell to a peer (crates/nbf-net/src/link.rs): a handshake of two messages, a session at
-- both ends, and the cell across.
use never_been_found.Prelude.{
  ℕ, ◌≤◌, ◌≡◌, subst, ap, ◌∙◌, false, none, some, [], ◌∷◌, length, remove, Bytes, ok, lookup,
  insert, nat_eq, lookup-insert_self,
}
use never_been_found.Addr.{SocketAddr, addr_eq_inst}
use never_been_found.Cell.{Cell, encode, decode}
use never_been_found.Cell.RoundTrip.{IsCell, decode-encode}
use never_been_found.Noise.{Noise}
use never_been_found.Link.{
  hs_chunk, hs_datagram, is_empty, is_handshake, sent, waiting, Link, completed, respond, handle_hs,
  receive_datagram, transmit, initiate, begin_send, end_send,
}
use never_been_found.Link.Parts.{one_fragment, receive_cell, receive_part}

-- What snow does for an initiator and a responder with their keys: message 1 and message 2, each
-- in one datagram, lead both to sessions, and the first message of the initiator's session opens
-- under the other.
pub record Handshake (x : Noise) (key_a key_b pub_a pub_b : Bytes) (ea eb : ℕ) : Type 0 where
  pub ini : x.HandshakeState
  pub ini1 : x.HandshakeState
  pub ini2 : x.HandshakeState
  pub res : x.HandshakeState
  pub res1 : x.HandshakeState
  pub res2 : x.HandshakeState
  pub ta : x.TransportState
  pub tb : x.TransportState
  pub m1 : Bytes
  pub m2 : Bytes
  pub starts : x.build_initiator key_a pub_b ea ≡ some ini
  pub writes : x.write_handshake ini ≡ some (m1, ini1)
  pub answers : x.build_responder key_b eb ≡ some res
  pub reads : x.read_handshake res m1 ≡ some res1
  pub writes_back : x.write_handshake res1 ≡ some (m2, res2)
  pub knows : x.get_remote_static res2 ≡ some pub_a
  pub reads_back : x.read_handshake ini1 m2 ≡ some ini2
  pub opens_a : x.into_transport_mode ini2 ≡ some ta
  pub opens_b : x.into_transport_mode res2 ≡ some tb
  pub short_1 : length m1 ≤ hs_chunk
  pub short_2 : length m2 ≤ hs_chunk

module _ (x : Noise) (pub_a pub_b : Bytes) (ea eb : ℕ) (addr_a addr_b : SocketAddr) where
  begin_step :
      (l : Link x) (key_b : Bytes) (cell : Cell)
      (h : Handshake x l.local_static key_b pub_a pub_b ea eb)
      → lookup addr_b l.sessions ≡ none
      → lookup addr_b l.peer_statics ≡ some pub_b
      → lookup addr_b l.hs_inflight ≡ none
      → begin_send x addr_b cell ea l ≡ (
        waiting,
        record l { hs_inflight = insert addr_b h.ini1 l.hs_inflight },
        (addr_b, hs_datagram 1 0 h.m1) ∷ [],
      )
  unfolding begin_send initiate
  begin_step l key_b cell h e e' e'' =
      rw (e, begin_send)
        (rw (e', begin_send)
          (rw (e'', begin_send)
            (rw (h.starts, initiate) (rw (h.writes, initiate) (rw (one_fragment h.m1 h.short_1))))))

  respond_step :
      (l : Link x) (key_a : Bytes) (h : Handshake x key_a l.local_static pub_a pub_b ea eb)
      → lookup addr_a l.hs_inflight ≡ none
      → handle_hs x addr_a h.m1 eb l ≡ (
        record l {
          sessions = insert addr_a h.tb l.sessions;
          peer_statics = insert addr_a pub_a l.peer_statics;
          hs_inflight = remove addr_a l.hs_inflight;
        },
        (addr_a, hs_datagram 1 0 h.m2) ∷ [],
      )
  unfolding handle_hs completed respond
  respond_step l key_a h e =
      rw (e, handle_hs)
        (rw (h.answers, respond)
          (rw (h.reads, respond)
            (rw (h.writes_back, respond) (rw (h.knows, h.opens_b, one_fragment h.m2 h.short_2)))))

  complete_step :
      (l : Link x) (key_a key_b : Bytes) (entropy : ℕ)
      (h : Handshake x key_a key_b pub_a pub_b ea eb)
      → lookup addr_b l.hs_inflight ≡ some h.ini1
      → handle_hs x addr_b h.m2 entropy l ≡ (
        record l {
          sessions = insert addr_b h.ta l.sessions;
          hs_inflight = remove addr_b l.hs_inflight;
        },
        [],
      )
  unfolding handle_hs completed
  complete_step l key_a key_b entropy h e =
      rw (e, handle_hs) (rw (h.reads_back, completed) (rw h.opens_a))

  transmit_step :
      (l : Link x) (cell : Cell) (plain out : Bytes) (t t' : x.TransportState)
      → lookup addr_b l.sessions ≡ some t
      → encode cell ≡ some plain
      → x.write_message t plain ≡ some (out, t')
      → end_send x addr_b cell l
        ≡ (sent, record l { sessions = insert addr_b t' l.sessions }, (addr_b, out) ∷ [])
  unfolding end_send transmit
  transmit_step l cell plain out t t' e e' w =
      rw (e, end_send) (rw (e, transmit) (rw (e', transmit) (rw (w, transmit))))

  -- Let one end know the other's address and key, with no session and no handshake under way, and
  -- let the two ends hold no fragments and no handshake of each other. Let the two messages of the
  -- handshake fit one datagram each, and let the session open what it sealed. Then, for a cell
  -- whose fields hold values of their types, `send_cell` sends message 1 and waits, the peer
  -- answers with message 2 and learns the sender's key, the sender has a session, and the cell goes
  -- out in one datagram, from which the peer gets exactly the cell: if the sealed datagram is not
  -- empty and does not look like a fragment of a handshake.
  pub cell_crosses :
      (la lb : Link x) (cell : Cell) (plain out : Bytes) (ta tb : x.TransportState) (e e' : ℕ)
      (h : Handshake x la.local_static lb.local_static pub_a pub_b ea eb)
      → IsCell cell
      → lookup addr_b la.sessions ≡ none
      → lookup addr_b la.peer_statics ≡ some pub_b
      → lookup addr_b la.hs_inflight ≡ none
      → lookup addr_b la.hs_buf ≡ none
      → lookup addr_a lb.hs_inflight ≡ none
      → lookup addr_a lb.hs_buf ≡ none
      → encode cell ≡ some plain
      → x.write_message h.ta plain ≡ some (out, ta)
      → x.read_message h.tb out ≡ some (plain, tb)
      → is_empty out ≡ false
      → is_handshake out ≡ false
      → (d1 : Bytes) × (d2 : Bytes) × (la1 : Link x) × (la2 : Link x) × (la3 : Link x) × (lb1 : Link
          x)
        × (lb2 : Link x) × (begin_send x addr_b cell ea la ≡ (waiting, la1, (addr_b, d1) ∷ []))
        × (receive_datagram x addr_a d1 eb lb ≡ (lb1, (addr_a, d2) ∷ [], none))
        × (lookup addr_a lb1.peer_statics ≡ some pub_a)
        × (receive_datagram x addr_b d2 e la1 ≡ (la2, [], none))
        × (end_send x addr_b cell la2 ≡ (sent, la3, (addr_b, out) ∷ []))
        × (receive_datagram x addr_a out e' lb1 ≡ (lb2, [], some cell))
  cell_crosses la lb cell plain out ta tb e e' h v no_session known idle no_part idle' no_part' w
        seals opens full plainly =
      let (plain', w', size, back) = decode-encode cell v in
      let same : plain' ≡ plain = cc in
      let back' : decode plain ≡ ok cell = subst (λ p. decode p ≡ ok cell) same back in
      let la1 = record la { hs_inflight = insert addr_b h.ini1 la.hs_inflight } in
      let la2 = record la {
        sessions = insert addr_b h.ta la.sessions;
        hs_inflight = remove addr_b la1.hs_inflight;
        hs_buf = remove addr_b la.hs_buf;
      } in
      let lb1 = record lb {
        sessions = insert addr_a h.tb lb.sessions;
        peer_statics = insert addr_a pub_a lb.peer_statics;
        hs_inflight = remove addr_a lb.hs_inflight;
        hs_buf = remove addr_a lb.hs_buf;
      } in
      (
        hs_datagram 1 0 h.m1,
        hs_datagram 1 0 h.m2,
        la1,
        la2,
        record la2 { sessions = insert addr_b ta la2.sessions },
        lb1,
        record lb1 { sessions = insert addr_a tb lb1.sessions },
        begin_step la lb.local_static cell h no_session known idle,
        receive_part x addr_a h.m1 eb lb no_part'
            ∙ ap (λ r. (r.0, r.1, none))
                (respond_step (record lb { hs_buf = remove addr_a lb.hs_buf }) la.local_static h
                  idle'),
        lookup-insert_self addr_a pub_a lb.peer_statics,
        receive_part x addr_b h.m2 e la1 no_part
            ∙ ap (λ r. (r.0, r.1, none))
                (complete_step (record la1 { hs_buf = remove addr_b la.hs_buf }) la.local_static
                  lb.local_static e h (lookup-insert_self addr_b h.ini1 la.hs_inflight)),
        transmit_step la2 cell plain out h.ta ta (lookup-insert_self addr_b h.ta la.sessions) w
            seals,
        receive_cell x addr_a out plain e' lb1 cell h.tb tb full plainly
            (lookup-insert_self addr_a h.tb lb.sessions) opens back',
      )
