-- ===== src/Relay/Trip.antt =====
-- An ECHO over a whole route: out through every hop to the terminal and back to the origin
-- (crates/nbf-net/src/relay.rs at each node of the route). `round_trip` stands for a network that
-- delivers each cell to the node at its address.
use never_been_found.Prelude.{
  ℕ, ◌<◌, ◌^◌, ◌≡◌, ◌≢◌, ap, ◌∙◌, Option, none, some, List, [], ◌∷◌, Bytes, if◌then◌else◌, Map,
  lookup, nat_eq, lookup-insert_self,
}
use never_been_found.Addr.{SocketAddr, addr_eq, addr_eq_refl, addr_eq_ne}
use never_been_found.Suite.{Suite}
use never_been_found.Cell.{Cell, echo, rcmd_code}
use never_been_found.Onion.{seal_onion, seal_onion_bwd}
use never_been_found.Onion.Layers.{seal_onion_bwd-cons, seal_onion_bwd-nil}
use never_been_found.Node.{
  Node, HopLink, CircuitEntry, origin, relay, terminal, Effect, send, peer_key, wake, push,
}
use never_been_found.Relay.{
  relay_payload, relay_cell, handle, update_entry, set_relay_seq, count_relayed,
}
use never_been_found.Relay.Hop.{relay_forward, relay_backward, terminal_echo, origin_receive}

-- A node at its address.
pub record Station : Type 0 where
  pub addr : SocketAddr
  pub node : Node

abbrev first_send : List Effect → Option (SocketAddr × Cell)
first_send [] = none
first_send (send to cell ∷ es) = some (to, cell)
first_send (peer_key a k ∷ es) = none
first_send (wake w ∷ es) = none
first_send (push tx d ∷ es) = none

-- What comes back to `home` when it answers.
abbrev heading_to : SocketAddr → Option (SocketAddr × Cell) → Option Cell
heading_to home none = none
heading_to home (some (to, cell)) = if addr_eq to home then some cell else none

module _ (c : Suite) where
  -- A station answers what a later station sent back to it.
  abbrev answer : Node → SocketAddr → SocketAddr → Option Cell → Option Cell
  answer n from to none = none
  answer n from to (some back) = heading_to from (first_send (handle c n to back).1)

  -- A station has handled a cell of `from`: it answers at once, or sends the cell onward and
  -- answers later.
  abbrev visit : (SocketAddr → Cell → Option Cell) → SocketAddr → Node × List Effect → Option Cell
  visit onward from (n, []) = none
  visit onward from (n, send next out ∷ es) =
      let back = onward next out in if addr_eq next from then some out else answer n from next back
  visit onward from (n, peer_key a k ∷ es) = none
  visit onward from (n, wake w ∷ es) = none
  visit onward from (n, push tx d ∷ es) = none

  -- The cell that `from` gets back for a cell that it sent to the first station.
  pub round_trip : List Station → SocketAddr → SocketAddr → Cell → Option Cell
  round_trip [] to from cell = none
  round_trip (s ∷ rest) to from cell =
      let onward = λ (next : SocketAddr) (out : Cell). round_trip rest next s.addr out in
      let home = visit onward from (handle c s.node from cell) in
      if addr_eq to s.addr then home else none

-- The nodes of a route as the circuit set them up: every link has the same id, the number is
-- above the last one that each node accepted, and a hop's two neighbours have different addresses.
pub data OnRoute (tag : Bytes) (cid seq : ℕ)
    : SocketAddr → SocketAddr → List Station → List Bytes → List Bytes → Type 0 where
  at_end :
      {from : SocketAddr} {s : Station} {kf kb : Bytes} (last : ℕ)
      → lookup cid s.node.circuits
        ≡ some (terminal tag kf kb (record { cid = cid; peer = from }) last)
      → last < seq
      → OnRoute tag cid seq from s.addr (s ∷ []) (kf ∷ []) (kb ∷ [])
  at_hop :
      {from to : SocketAddr} {s : Station} {rest : List Station} {kf kb : Bytes}
      {fwd bwd : List Bytes} (last : ℕ)
      → lookup cid s.node.circuits
        ≡ some (
            relay tag kf kb
              (record { cid = cid; peer = from })
              (record { cid = cid; peer = to })
              last)
      → last < seq
      → to ≢ from
      → OnRoute tag cid seq s.addr to rest fwd bwd
      → OnRoute tag cid seq from s.addr (s ∷ rest) (kf ∷ fwd) (kb ∷ bwd)

lookup-update_entry :
    (cid : ℕ) (f : CircuitEntry → CircuitEntry) (n : Node) {e : CircuitEntry}
    → lookup cid n.circuits ≡ some e
    → lookup cid (update_entry cid f n).circuits ≡ some (f e)
unfolding update_entry
lookup-update_entry cid f n {e} h = rw (h, update_entry) (lookup-insert_self cid (f e) n.circuits)

module _ (c : Suite) where
  round_trip_end :
      (s : Station) (rest : List Station) (from : SocketAddr) (cell out : Cell) (n : Node)
      → handle c s.node from cell ≡ (n, send from out ∷ [])
      → round_trip c (s ∷ rest) s.addr from cell ≡ some out
  unfolding round_trip
  round_trip_end s rest from cell out n e = rw (addr_eq_refl s.addr, e, addr_eq_refl from)

  round_trip_hop :
      (s : Station) (rest : List Station) (from next : SocketAddr) (cell out back fin : Cell)
      (n n' : Node)
      → handle c s.node from cell ≡ (n, send next out ∷ [])
      → next ≢ from
      → round_trip c rest next s.addr out ≡ some back
      → handle c n next back ≡ (n', send from fin ∷ [])
      → round_trip c (s ∷ rest) s.addr from cell ≡ some fin
  unfolding round_trip
  round_trip_hop s rest from next cell out back fin n n' e ne later e' =
      rw (addr_eq_refl s.addr, e, addr_eq_ne next from ne)
        (ap (answer c n from next) later ∙ rw (e', addr_eq_refl from))

module _ (c : Suite) (tag : Bytes) (cid seq stream : ℕ) (m : Bytes) (seq_u32 : seq < 2 ^ 32)
    (stream_u16 : stream < 2 ^ 16) where
  round_trip-OnRoute :
      {from to : SocketAddr} {ss : List Station} {fwd bwd : List Bytes}
      → OnRoute tag cid seq from to ss fwd bwd
      → round_trip c ss to from
          (relay_cell cid (relay_payload seq (rcmd_code echo) stream (seal_onion c fwd tag seq m)))
        ≡ some (
            relay_cell cid
              (relay_payload seq (rcmd_code echo) stream (seal_onion_bwd c bwd tag seq m)))
  round_trip-OnRoute {from} (at_end {s = s} {kf = kf} {kb = kb} last hl fresh) =
      let prev : HopLink = record { cid = cid; peer = from } in
      round_trip_end c s [] from _ _ _
        (terminal_echo c s.node cid seq stream tag kf kb m prev last seq_u32 stream_u16 hl fresh)
      ∙ rw (seal_onion_bwd-cons c kb [] tag seq m, seal_onion_bwd-nil c tag seq m)
  round_trip-OnRoute {from}
        (at_hop {to = to} {s = s} {rest = rest} {kf = kf} {kb = kb} {fwd = fwd} {bwd = bwd} last hl
          fresh ne r) =
      let prev : HopLink = record { cid = cid; peer = from } in
      let next : HopLink = record { cid = cid; peer = to } in
      round_trip_hop c s rest from to _ _ _ _ _ _
        (relay_forward c s.node cid seq echo stream tag kf kb fwd m prev next last seq_u32
          stream_u16 hl fresh)
        ne (round_trip-OnRoute r)
        (relay_backward c _ cid seq echo stream tag kf kb _ prev next seq seq_u32 stream_u16
          (lookup-update_entry cid (set_relay_seq seq) (count_relayed s.node) hl) ne)
      ∙ rw (seal_onion_bwd-cons c kb bwd tag seq m)

  -- Let the nodes of a route be set up for one circuit, every link under the same id, a hop's two
  -- neighbours at different addresses, with a number above the last ones, in the ranges of the
  -- fields. An ECHO that the origin sends down the route comes back as a cell which the origin's
  -- own handler opens, and the stream that it names is given exactly the message that was sent.
  pub echo_delivers :
      {from to : SocketAddr} {ss : List Station} {fwd bwd : List Bytes} (n : Node) (next : HopLink)
      (streams : Map ℕ ℕ) (tx : ℕ)
      → OnRoute tag cid seq from to ss fwd bwd
      → lookup cid n.circuits ≡ some (origin fwd bwd tag next streams)
      → lookup stream streams ≡ some tx
      → (back : Cell) × (round_trip c ss to from (
            relay_cell cid (relay_payload seq (rcmd_code echo) stream (seal_onion c fwd tag seq m)))
          ≡ some back)
        × (handle c n to back ≡ (count_relayed n, push tx m ∷ []))
  echo_delivers {from} {to} {ss} {fwd} {bwd} n next streams tx r hl hx = (
    relay_cell cid (relay_payload seq (rcmd_code echo) stream (seal_onion_bwd c bwd tag seq m)),
    round_trip-OnRoute r,
    origin_receive c n to cid seq echo stream tx fwd bwd tag m next streams seq_u32 stream_u16 hl
        hx,
  )
