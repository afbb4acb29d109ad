-- ===== src/Relay.antt =====
-- crates/nbf-net/src/relay.rs: RELAY cells at the origin, at a hop in the middle and at the
-- terminal. `handle` clones the entry of the circuit; `act` is the rest, which works with that copy
-- and locks the circuits again to write `last_fwd`.
pub mod Wire
pub mod Hop
pub mod Trip
pub mod Replays
pub mod Sizes
pub mod Backward
use never_been_found.Prelude.{
  ℕ, ◌+◌, ◌≡◌, Bool, ◌||◌, not, Option, none, some, List, [], ◌∷◌, ◌++◌, length, get_or, drop,
  slice, Bytes, to_le, from_le, Result, ok, err, ltb, leb, if◌then◌else◌, Map, lookup, insert,
  nat_eq,
}
use never_been_found.Addr.{SocketAddr, addr_eq}
use never_been_found.Suite.{Suite}
use never_been_found.Cell.{Cell, RCmd, echo, send_data, drop_cover, rcmd_code, rcmd_try_from}
use never_been_found.Cell
use never_been_found.Onion.{open_onion, open_bwd, seal_bwd}
use never_been_found.Node.{
  Node, HopLink, CircuitEntry, origin, relay, terminal, Effect, send, push, bump,
}

-- [seq u32][rcmd u8][stream u16][onion…]
unfoldable pub relay_payload : ℕ → ℕ → ℕ → Bytes → Bytes
relay_payload seq rcmd stream onion = to_le 4 seq ++ (rcmd ∷ (to_le 2 stream ++ onion))

abbrev pub relay_cell : ℕ → Bytes → Cell
relay_cell cid payload = record { cid = cid; cmd = Cell.relay; flags = 0; payload = payload }

-- `if let Some(CircuitEntry::Relay { last_fwd, .. }) = circuits.get_mut(&cid) { *last_fwd = seq }`
abbrev pub set_relay_seq : ℕ → CircuitEntry → CircuitEntry
set_relay_seq seq (origin f b t n s) = origin f b t n s
set_relay_seq seq (relay t f b p n l) = relay t f b p n seq
set_relay_seq seq (terminal t f b p l) = terminal t f b p l

abbrev pub set_terminal_seq : ℕ → CircuitEntry → CircuitEntry
set_terminal_seq seq (origin f b t n s) = origin f b t n s
set_terminal_seq seq (relay t f b p n l) = relay t f b p n l
set_terminal_seq seq (terminal t f b p l) = terminal t f b p seq

pub update_entry : ℕ → (CircuitEntry → CircuitEntry) → Node → Node
update_entry cid f n = elim (lookup cid n.circuits) [
  | none ↦ n
  | some e ↦ record n { circuits = insert cid (f e) n.circuits }
]

-- What `handle` reads off the payload.
pub record Header : Type 0 where
  pub seq : ℕ
  pub rcmd_u8 : ℕ
  pub rcmd : RCmd
  pub stream : ℕ
  pub onion : Bytes

pub parse_relay : Bytes → Option Header
parse_relay p = if ltb (length p) 7 then none else elim (rcmd_try_from (get_or p 4 0)) [
  | err e ↦ none
  | ok r ↦ some (record {
    seq = from_le (slice 0 4 p);
    rcmd_u8 = get_or p 4 0;
    rcmd = r;
    stream = from_le (slice 5 2 p);
    onion = drop 7 p;
  })
]

abbrev pub count_relayed : Node → Node
count_relayed n = record n { stats = record n.stats { relayed = bump n.stats.relayed } }

module _ (c : Suite) where
  -- The origin opens the backward layers in the order of the route, and stops at an error.
  pub peel_bwd : List Bytes → Bytes → ℕ → Bytes → Option Bytes
  peel_bwd [] tag seq onion = some onion
  peel_bwd (k ∷ ks) tag seq onion = elim (open_bwd c k tag seq onion) [
    | err e ↦ none
    | ok inner ↦ peel_bwd ks tag seq inner
  ]

  pub at_origin : Node → Header → List Bytes → Bytes → Map ℕ ℕ → Node × List Effect
  at_origin n h bwd tag streams = elim (peel_bwd bwd tag h.seq h.onion) [
    | none ↦ (n, [])
    | some bytes ↦ elim (lookup h.stream streams) [
      | none ↦ (n, [])
      | some tx ↦ (n, push tx bytes ∷ [])
    ]
  ]

  pub at_relay :
      Node
      → SocketAddr
      → ℕ
      → Header
      → Bytes
      → Bytes
      → Bytes
      → HopLink
      → HopLink
      → ℕ
      → Node × List Effect
  at_relay n from cid h tag k_fwd k_bwd prev next last_fwd =
      if addr_eq from prev.peer
      then (if leb h.seq last_fwd then (n, []) else elim (open_onion c k_fwd tag h.seq h.onion) [
        | err e ↦ (n, [])
        | ok inner ↦ (
          update_entry cid (set_relay_seq h.seq) n,
          send next.peer (relay_cell next.cid (relay_payload h.seq h.rcmd_u8 h.stream inner)) ∷ [],
        )
      ])
      else if addr_eq from next.peer
      then (
        n,
        send prev.peer (
              relay_cell prev.cid
                (relay_payload h.seq h.rcmd_u8 h.stream (seal_bwd c k_bwd tag h.seq h.onion)))
            ∷ [],
      )
      else (n, [])

  -- Only ECHO is answered.
  abbrev reply : Header → Bytes → Bytes → HopLink → Bytes → RCmd → List Effect
  reply h tag k_bwd prev inner echo =
      send prev.peer (
        relay_cell prev.cid
          (relay_payload h.seq (rcmd_code echo) h.stream (seal_bwd c k_bwd tag h.seq inner)))
      ∷ []
  reply h tag k_bwd prev inner send_data = []
  reply h tag k_bwd prev inner drop_cover = []

  pub at_terminal :
      Node → SocketAddr → ℕ → Header → Bytes → Bytes → Bytes → HopLink → ℕ → Node × List Effect
  at_terminal n from cid h tag k_fwd k_bwd prev last_fwd =
      if not (addr_eq from prev.peer) || leb h.seq last_fwd
      then (n, [])
      else elim (open_onion c k_fwd tag h.seq h.onion) [
        | err e ↦ (n, [])
        | ok inner ↦
            (update_entry cid (set_terminal_seq h.seq) n, reply h tag k_bwd prev inner h.rcmd)
      ]

  -- From the copied entry on.
  pub act : CircuitEntry → Node → SocketAddr → ℕ → Header → Node × List Effect
  unfolding at_origin at_relay at_terminal
  act (origin fwd bwd tag next streams) n from cid h = at_origin n h bwd tag streams
  act (relay tag k_fwd k_bwd prev next last_fwd) n from cid h =
      at_relay n from cid h tag k_fwd k_bwd prev next last_fwd
  act (terminal tag k_fwd k_bwd prev last_fwd) n from cid h =
      at_terminal n from cid h tag k_fwd k_bwd prev last_fwd

  pub handle : Node → SocketAddr → Cell → Node × List Effect
  handle n from cell = elim (parse_relay cell.payload) [
    | none ↦ (n, [])
    | some h ↦ elim (lookup cell.cid n.circuits) [
      | none ↦ (n, [])
      | some entry ↦ act entry (count_relayed n) from cell.cid h
    ]
  ]
