-- ===== src/Link.antt =====
-- The link between two nodes (crates/nbf-net/src/link.rs): handshakes in fragments, sessions, and
-- the datagrams that carry cells. A datagram is given as the socket hands it over, so of at most
-- `HS_DGRAM` bytes, and a send to the socket is taken to succeed. `send_cell` waits in the middle;
-- it is given in the parts before and after the wait.
pub mod Parts
pub mod Crossing
pub mod Blocked
pub mod Gathering
pub mod Handshakes
pub mod Sessions
use never_been_found.Prelude.{
  ℕ, zero, suc, ◌+◌, ◌-◌, ◌*◌, ◌/◌, ◌%◌, ◌^◌, min, max, Bool, true, false, ◌&&◌, Option, none, some,
  List, [], ◌∷◌, ◌++◌, map, length, get_or, drop, slice, Bytes, to_le, from_le, Result, ok, err,
  leb, ◌==◌, if◌then◌else◌, Map, lookup, insert, remove, nat_eq,
}
use never_been_found.Errors.{NetError, CryptoError, noise, crypto, timeout, no_session}
use never_been_found.Addr.{SocketAddr, addr_eq_inst}
use never_been_found.Cell.{Cell, encode, decode}
use never_been_found.Fragment.{range_from}
use never_been_found.Noise.{Noise}

abbrev pub hs_mtu : ℕ
hs_mtu = 1200

abbrev pub hs_mark : ℕ
hs_mark = 0x7f

abbrev pub hs_chunk : ℕ
hs_chunk = hs_mtu - 5

-- `data.len().div_ceil(chunk).max(1)`
unfoldable pub hs_count : Bytes → ℕ
hs_count msg = max ((length msg + (hs_chunk - 1)) / hs_chunk) 1

-- [0x7F][total u16][idx u16][chunk…]
unfoldable pub hs_datagram : ℕ → ℕ → Bytes → Bytes
hs_datagram total idx chunk =
    hs_mark ∷ (to_le 2 (total % 2 ^ 16) ++ (to_le 2 (idx % 2 ^ 16) ++ chunk))

pub hs_fragment : Bytes → ℕ → Bytes
hs_fragment msg i =
    let a = i * hs_chunk in
    let b = min ((i + 1) * hs_chunk) (length msg) in
    hs_datagram (hs_count msg) i (slice a (b - a) msg)

pub hs_fragments : Bytes → List Bytes
hs_fragments msg = map (hs_fragment msg) (range_from 0 (hs_count msg))

-- `for i in 0..total { if let Some(c) = parts.get(&i) { .. } }`, from the `k`-th on
pub hs_join : ℕ → ℕ → Map ℕ Bytes → Bytes
hs_join k zero parts = []
hs_join k (suc n) parts =
    let rest = hs_join (suc k) n parts in elim (lookup k parts) [ none ↦ rest | some c ↦ c ++ rest ]

-- `hs_buf.entry(src).or_insert((total, HashMap::new()))`
abbrev pub hs_entry : ℕ → Option (ℕ × Map ℕ Bytes) → ℕ × Map ℕ Bytes
hs_entry total none = (total, [])
hs_entry total (some e) = e

abbrev pub is_empty : Bytes → Bool
is_empty [] = true
is_empty (b ∷ bs) = false

unfoldable pub is_handshake : Bytes → Bool
is_handshake datagram = (get_or datagram 0 0 == hs_mark) && leb 5 (length datagram)

abbrev noise_err : NetError
noise_err = crypto noise

-- How far `send_cell` has come: over, at its wait, or stopped by the assertion of `encode`.
pub data Progress : Type 0 where
  sent waiting panicked : Progress
  failed : NetError → Progress

module _ (x : Noise) where
  pub record Link : Type 0 where
    pub sessions : Map SocketAddr x.TransportState
    pub local_static : Bytes
    pub peer_statics : Map SocketAddr Bytes
    pub hs_inflight : Map SocketAddr x.HandshakeState
    -- the buffers of the receiving task
    pub hs_buf : Map SocketAddr (ℕ × Map ℕ Bytes)

  abbrev pub Out : Type 0
  Out = List (SocketAddr × Bytes)

  abbrev pub to_peer : SocketAddr → List Bytes → Out
  to_peer addr = map (λ d. (addr, d))

  abbrev pub set_peer_static : SocketAddr → Bytes → Link → Link
  set_peer_static addr key l = record l { peer_statics = insert addr key l.peer_statics }

  abbrev put_session : SocketAddr → Option x.TransportState → Link → Link
  put_session addr none l = l
  put_session addr (some t) l = record l { sessions = insert addr t l.sessions }

  abbrev learn : SocketAddr → Option Bytes → Link → Link
  learn addr none l = l
  learn addr (some key) l = set_peer_static addr key l

  -- Message 1 is answered with message 2; one that cannot be read is not answered.
  pub respond : SocketAddr → Bytes → ℕ → Link → Link × Out
  respond src msg entropy l = elim (x.build_responder l.local_static entropy) [
    | none ↦ (l, [])
    | some st ↦ elim (x.read_handshake st msg) [
      | none ↦ (l, [])
      | some st1 ↦ elim (x.write_handshake st1) [
        | none ↦ (l, [])
        | some (out, st2) ↦ (
          put_session src (x.into_transport_mode st2) (learn src (x.get_remote_static st2) l),
          to_peer src (hs_fragments out),
        )
      ]
    ]
  ]

  -- The transport of an initiator that reads message 2.
  pub completed : Option x.HandshakeState → Bytes → Option x.TransportState
  completed none msg = none
  completed (some st) msg = elim (x.read_handshake st msg) [
    | none ↦ none
    | some st' ↦ x.into_transport_mode st'
  ]

  pub handle_hs : SocketAddr → Bytes → ℕ → Link → Link × Out
  handle_hs src msg entropy l =
      let l' = record l { hs_inflight = remove src l.hs_inflight } in
      elim (completed (lookup src l.hs_inflight) msg) [
        | some t ↦ (record l' { sessions = insert src t l.sessions }, [])
        | none ↦ respond src msg entropy l'
      ]

  pub hs_part : SocketAddr → Bytes → ℕ → Link → Link × Out
  hs_part src datagram entropy l =
      let total = from_le (slice 1 2 datagram) in
      let idx = from_le (slice 3 2 datagram) in
      let e = hs_entry total (lookup src l.hs_buf) in
      let parts = insert idx (drop 5 datagram) e.1 in
      if length parts == e.0
      then handle_hs src (hs_join 0 total parts) entropy (record l { hs_buf = remove src l.hs_buf })
      else (record l { hs_buf = insert src (e.0, parts) l.hs_buf }, [])

  abbrev cell_of : Result NetError Cell → Option Cell
  cell_of (ok cell) = some cell
  cell_of (err e) = none

  -- What does not open under a session is taken as it is.
  pub open_datagram : SocketAddr → Bytes → Link → Bytes × Link
  open_datagram src datagram l = elim (lookup src l.sessions) [
    | none ↦ (datagram, l)
    | some t ↦ elim (x.read_message t datagram) [
      | none ↦ (datagram, l)
      | some (plain, t') ↦ (plain, record l { sessions = insert src t' l.sessions })
    ]
  ]

  -- One datagram: the link after it, the datagrams that it sends, and the cell for the node.
  pub receive_datagram : SocketAddr → Bytes → ℕ → Link → Link × Out × Option Cell
  receive_datagram src datagram entropy l =
      if is_empty datagram
      then (l, [], none)
      else if is_handshake datagram
      then (let r = hs_part src datagram entropy l in (r.0, r.1, none))
      else let r = open_datagram src datagram l in (r.1, [], cell_of (decode r.0))

  -- `send_cell` from the session on.
  pub transmit : SocketAddr → Cell → Link → Progress × Link × Out
  transmit addr cell l = elim (lookup addr l.sessions) [
    | none ↦ (failed no_session, l, [])
    | some t ↦ elim (encode cell) [
      | none ↦ (panicked, l, [])
      | some plain ↦ elim (x.write_message t plain) [
        | none ↦ (failed noise_err, l, [])
        | some (out, t') ↦
            (sent, record l { sessions = insert addr t' l.sessions }, (addr, out) ∷ [])
      ]
    ]
  ]

  -- Message 1, for a peer whose key is known.
  pub initiate : SocketAddr → Bytes → ℕ → Link → Progress × Link × Out
  initiate addr key entropy l = elim (x.build_initiator l.local_static key entropy) [
    | none ↦ (failed noise_err, l, [])
    | some st ↦ elim (x.write_handshake st) [
      | none ↦ (failed noise_err, l, [])
      | some (out, st') ↦ (
        waiting,
        record l { hs_inflight = insert addr st' l.hs_inflight },
        to_peer addr (hs_fragments out),
      )
    ]
  ]

  -- `send_cell` up to its wait, or to its end where there is a session.
  pub begin_send : SocketAddr → Cell → ℕ → Link → Progress × Link × Out
  begin_send addr cell entropy l = elim (lookup addr l.sessions) [
    | some t ↦ transmit addr cell l
    | none ↦ elim (lookup addr l.peer_statics) [
      | none ↦ (failed no_session, l, [])
      | some key ↦ elim (lookup addr l.hs_inflight) [
        | some st ↦ (waiting, l, [])
        | none ↦ initiate addr key entropy l
      ]
    ]
  ]

  -- `send_cell` from the end of its wait on: a session is there, or the time is up.
  pub end_send : SocketAddr → Cell → Link → Progress × Link × Out
  end_send addr cell l = elim (lookup addr l.sessions) [
    | some t ↦ transmit addr cell l
    | none ↦ (failed timeout, record l { hs_inflight = remove addr l.hs_inflight }, [])
  ]
