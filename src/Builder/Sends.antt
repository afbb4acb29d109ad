-- ===== src/Builder/Sends.antt =====
-- Messages of an origin and the end of its circuit (crates/nbf-net/src/builder.rs, `send`,
-- `echo`, `send_data`, `close`).
use never_been_found.Prelude.{
  ℕ, ◌+◌, ◌%◌, ◌^◌, ◌<◌, ◌≤◌, ◌≡◌, refl, ap, Option, none, some, List, [], ◌∷◌, ◌++◌, map, length,
  Bytes, arith, le→ltb, ltb, true, false, Map, lookup, insert, remove, nat_eq, lookup-insert_self,
  lookup-remove_self,
}
use never_been_found.Errors.{NetError, bad_length, no_session}
use never_been_found.Suite.{Suite}
use never_been_found.Addr.{SocketAddr}
use never_been_found.Cell.{Cell, RCmd, echo, rcmd_code, msg_max}
use never_been_found.Onion.{seal_onion}
use never_been_found.Node.{
  Node, HopLink, origin, relay, Effect, send, register_stream, register_stream_put,
}
use never_been_found.Relay.{
  relay_payload, relay_cell, handle, update_entry, set_relay_seq, count_relayed,
}
use never_been_found.Relay.Hop.{relay_forward}
use never_been_found.Relay.Replays.{update_entry_self}
use never_been_found.Builder.{
  CircuitHandle, origin_next, next_seq, out_cell, send_on, ask_echo, destroy_cell, close,
}

module _ (c : Suite) (snd : SocketAddr → Cell → Option NetError) where
  pub send_on_open :
      (h : CircuitHandle) (stream : ℕ) (r : RCmd) (msg : Bytes) (n : Node) (next : HopLink)
      → origin_next (lookup h.cid n.circuits) ≡ some next
      → let cell = out_cell c snd h n.seq_origin stream r msg in
        send_on c snd h stream r msg n ≡ (snd next.peer cell, next_seq n, send next.peer cell ∷ [])
  unfolding send_on
  send_on_open h stream r msg n next e = rw (e, send_on)

  pub ask_echo_open :
      (h : CircuitHandle) (tx : ℕ) (msg : Bytes) (n : Node) (f b : List Bytes) (t : Bytes)
      (next : HopLink) (st : Map ℕ ℕ)
      → length msg ≤ msg_max
      → lookup h.cid n.circuits ≡ some (origin f b t next st)
      → let cell = out_cell c snd h n.seq_origin 1 echo msg in
        let n' = record n {
          circuits = insert h.cid (origin f b t next (insert 1 tx st)) n.circuits;
        } in
        ask_echo c snd h tx msg n ≡ (snd next.peer cell, next_seq n', send next.peer cell ∷ [])
  unfolding ask_echo
  ask_echo_open h tx msg n f b t next st short e =
      rw
        (
          le→ltb msg_max (length msg) short,
          register_stream_put h.cid 1 tx n (origin f b t next st) e,
        )
        (send_on_open h 1 echo msg
          (record n { circuits = insert h.cid (origin f b t next (insert 1 tx st)) n.circuits })
          next (ap origin_next (lookup-insert_self h.cid _ n.circuits)))

  pub ask_echo_long :
      (h : CircuitHandle) (tx : ℕ) (msg : Bytes) (n : Node)
      → ltb msg_max (length msg) ≡ true
      → ask_echo c snd h tx msg n ≡ (some (bad_length (length msg)), n, [])
  unfolding ask_echo
  ask_echo_long h tx msg n e = rw e

  pub ask_echo_short :
      (h : CircuitHandle) (tx : ℕ) (msg : Bytes) (n : Node)
      → ltb msg_max (length msg) ≡ false
      → ask_echo c snd h tx msg n ≡ send_on c snd h 1 echo msg (register_stream h.cid 1 tx n)
  unfolding ask_echo
  ask_echo_short h tx msg n e = rw e

  pub send_on_closed :
      (h : CircuitHandle) (stream : ℕ) (r : RCmd) (msg : Bytes) (n : Node)
      → origin_next (lookup h.cid n.circuits) ≡ none
      → send_on c snd h stream r msg n ≡ (some no_session, next_seq n, [])
  unfolding send_on
  send_on_closed h stream r msg n e = rw (e, send_on)

  pub close_closed :
      (h : CircuitHandle) (n : Node)
      → origin_next (lookup h.cid n.circuits) ≡ none
      → close h n ≡ (n, [])
  unfolding close
  close_closed h n e = rw (e, close)

  pub close_open :
      (h : CircuitHandle) (n : Node) (next : HopLink)
      → origin_next (lookup h.cid n.circuits) ≡ some next
      → close h n ≡ (
        record n { circuits = remove h.cid n.circuits },
        send next.peer (destroy_cell h.cid) ∷ [],
      )
  unfolding close
  close_open h n next e = rw (e, close)

  -- Closing an open circuit tells its first hop once, and ends it: from then on every message on it
  -- fails with `NoSession` and sends nothing, and to close it again does nothing.
  pub close_ends :
      (h : CircuitHandle) (stream : ℕ) (r : RCmd) (msg : Bytes) (n : Node) (next : HopLink)
      → origin_next (lookup h.cid n.circuits) ≡ some next
      → let closed = close h n in
        (closed.1 ≡ send next.peer (destroy_cell h.cid) ∷ [])
        × (send_on c snd h stream r msg closed.0 ≡ (some no_session, next_seq closed.0, []))
        × (close h closed.0 ≡ (closed.0, []))
  close_ends h stream r msg n next e =
      let gone = ap origin_next (lookup-remove_self h.cid n.circuits) in
      rw (close_open h n next e) (
        refl,
        send_on_closed h stream r msg (record n { circuits = remove h.cid n.circuits }) gone,
        close_closed h (record n { circuits = remove h.cid n.circuits }) gone,
      )

-- Cells for messages under consecutive numbers.
pub numbered : (ℕ → Bytes → Cell) → ℕ → List Bytes → List Cell
numbered cell seq [] = []
numbered cell seq (m ∷ ms) = cell seq m ∷ numbered cell (seq + 1) ms

module _ (c : Suite) where
  -- Cells that a node handles one after the other.
  pub relay_each : SocketAddr → List Cell → Node → Node × List Effect
  relay_each from [] n = (n, [])
  relay_each from (cell ∷ cells) n =
      let r = handle c n from cell in
      let later = relay_each from cells r.0 in (later.0, r.1 ++ later.1)

  abbrev pub onion_cell : ℕ → Bytes → List Bytes → ℕ → RCmd → ℕ → Bytes → Cell
  onion_cell cid tag keys stream r seq m =
      relay_cell cid (relay_payload seq (rcmd_code r) stream (seal_onion c keys tag seq m))

  relay_each-numbered :
      (cid stream : ℕ) (r : RCmd) (tag kf kb : Bytes) (ks : List Bytes) (prev next : HopLink)
      (ms : List Bytes) (hop : Node) (last seq : ℕ)
      → stream < 2 ^ 16
      → lookup cid hop.circuits ≡ some (relay tag kf kb prev next last)
      → last < seq
      → seq + length ms < 2 ^ 32
      → (relay_each prev.peer (numbered (onion_cell cid tag (kf ∷ ks) stream r) seq ms) hop).1
        ≡ map (send next.peer) (numbered (onion_cell next.cid tag ks stream r) seq ms)
  unfolding relay_each numbered
  relay_each-numbered cid stream r tag kf kb ks prev next [] hop last seq hs e fresh room = refl
  relay_each-numbered cid stream r tag kf kb ks prev next (m ∷ ms) hop last seq hs e fresh room =
      rw
        (relay_forward c hop cid seq r stream tag kf kb ks m prev next last (omega (arith, room)) hs
          e fresh)
        (ap (λ es. send next.peer (onion_cell next.cid tag ks stream r seq m) ∷ es)
          (relay_each-numbered cid stream r tag kf kb ks prev next ms
            (update_entry cid (set_relay_seq seq) (count_relayed hop)) seq (seq + 1) hs
            (update_entry_self cid (set_relay_seq seq) (count_relayed hop) _ e) (omega arith)
            (omega (arith, room))))

module _ (c : Suite) (snd : SocketAddr → Cell → Option NetError) where
  -- Messages sent one after the other.
  pub send_each : CircuitHandle → ℕ → RCmd → List Bytes → Node → Node × List Effect
  send_each h stream r [] n = (n, [])
  send_each h stream r (m ∷ ms) n =
      let sent = send_on c snd h stream r m n in
      let later = send_each h stream r ms sent.1 in (later.0, sent.2 ++ later.1)

  send_each-numbered :
      (h : CircuitHandle) (stream : ℕ) (r : RCmd) (next : HopLink) (ms : List Bytes) (n : Node)
      (seq : ℕ)
      → n.seq_origin ≡ seq
      → origin_next (lookup h.cid n.circuits) ≡ some next
      → seq + length ms < 2 ^ 32
      → (send_each h stream r ms n).1
        ≡ map (send next.peer) (numbered (λ q m. out_cell c snd h q stream r m) seq ms)
  unfolding send_each numbered
  send_each-numbered h stream r next [] n seq same e room = refl
  send_each-numbered h stream r next (m ∷ ms) n seq same e room =
      rw (send_on_open c snd h stream r m n next e, same)
        (ap (λ es. send next.peer (onion_cell c h.cid h.tag h.fwd stream r seq m) ∷ es)
          (send_each-numbered h stream r next ms (record n { seq_origin = (seq + 1) % 2 ^ 32 })
            (seq + 1) (omega (arith, room)) e (omega (arith, room))))

  -- Let an origin send any messages one after the other on an open circuit, before its numbers
  -- reach 2 ^ 32, on a stream of 16 bits, and let the next node of the circuit be a hop that holds
  -- the first key and has accepted only lower numbers. The origin sends one cell for each message,
  -- in order and under consecutive numbers, and the hop passes every one of them on, in the same
  -- order, without its own layer.
  pub messages_pass :
      (h : CircuitHandle) (stream : ℕ) (r : RCmd) (kf kb : Bytes) (ks : List Bytes)
      (first prev next : HopLink) (ms : List Bytes) (n hop : Node) (last : ℕ)
      → stream < 2 ^ 16
      → n.seq_origin + length ms < 2 ^ 32
      → origin_next (lookup h.cid n.circuits) ≡ some first
      → h.fwd ≡ kf ∷ ks
      → lookup h.cid hop.circuits ≡ some (relay h.tag kf kb prev next last)
      → last < n.seq_origin
      → let cells = numbered (onion_cell c h.cid h.tag h.fwd stream r) n.seq_origin ms in
        ((send_each h stream r ms n).1 ≡ map (send first.peer) cells)
        × ((relay_each c prev.peer cells hop).1
            ≡ map
                (send next.peer)
                (numbered (onion_cell c next.cid h.tag ks stream r) n.seq_origin ms))
  messages_pass h stream r kf kb ks first prev next ms n hop last hs room e hf e' fresh = (
    send_each-numbered h stream r first ms n n.seq_origin refl e room,
    rw hf (
        relay_each-numbered c h.cid stream r h.tag kf kb ks prev next ms hop last n.seq_origin hs e'
          fresh room),
  )
