-- ===== src/Builder.antt =====
-- The origin (crates/nbf-net/src/builder.rs): it builds a circuit, sends along it and closes it.
-- `build_circuit` and `echo` wait in the middle: each is given in the parts before and after the
-- wait, and other handlers run in between. `link.send_cell` is a parameter, the error that it
-- returns, if any; `build_circuit` and `close` ignore it.
pub mod Starts
pub mod Sends
pub mod Sizes
pub mod Echoes
pub mod Life
use never_been_found.Prelude.{
  ℕ, ◌+◌, ◌%◌, ◌^◌, ◌||◌, Bool, Option, none, some, List, [], ◌∷◌, map, length, Bytes, Result, ok,
  err, ltb, ◌==◌, if◌then◌else◌, Map, lookup, insert, remove, nat_eq,
}
use never_been_found.Errors.{NetError, bad_length, crypto, timeout, no_session}
use never_been_found.Suite.{Suite}
use never_been_found.Asym.{Asym}
use never_been_found.Addr.{SocketAddr}
use never_been_found.Descriptor.{Descriptor}
use never_been_found.Cell.{Cell, Cmd, RCmd, echo, send_data, rcmd_code, msg_max}
use never_been_found.Fragment.{fragment}
use never_been_found.Onion.{seal_onion}
use never_been_found.Sphinx.{BuiltHeader, build_header, max_hops}
use never_been_found.Node.{
  Node, HopLink, CircuitEntry, origin, relay, terminal, Effect, send, peer_key, new_cid,
  register_stream,
}
use never_been_found.Relay.{relay_payload, relay_cell}
use never_been_found.Engine.{Finder, lookup_route, create_cell}

-- `node` is the node that the operations take.
pub record CircuitHandle : Type 0 where
  pub cid : ℕ
  pub fwd : List Bytes
  pub bwd : List Bytes
  pub tag : Bytes

-- Every hop's descriptor, up to the first that is not found.
unfoldable pub resolve : Finder → List Bytes → Node → Result NetError (List Descriptor) × Node
resolve f [] n = (ok [], n)
resolve f (id ∷ ids) n =
    let r = lookup_route f id n in
    let later = resolve f ids r.1 in
    elim r.0 [
      | err e ↦ (err e, r.1)
      | ok d ↦ elim later.0 [ err e ↦ (err e, later.1) | ok ds ↦ (ok (d ∷ ds), later.1) ]
    ]

-- `descs[0].link_pub`; the route is not empty there.
abbrev first_link : List Descriptor → Bytes
first_link [] = []
first_link (d ∷ ds) = d.link_pub

-- The key of the first hop's link, and CREATE in its parts.
abbrev pub create_sends : ℕ → List Descriptor → BuiltHeader → List Effect
create_sends cid descs built =
    peer_key built.first_addr (first_link descs)
    ∷ map (λ part. send built.first_addr (create_cell cid part)) (fragment built.header)

-- What the rest of `build_circuit` works with.
pub record Started : Type 0 where
  pub cid : ℕ
  pub built : BuiltHeader

module _ (f : Finder) (c : Suite) (a : Asym) where
  -- The tag, the header, the id and CREATE.
  unfoldable pub depart :
      List Descriptor → Node → a.Rng → (Result NetError Started × List Effect) × Node × a.Rng
  depart descs n rng =
      let (tag, rng1) = a.fill_bytes 16 rng in
      let b = build_header c a descs tag rng1 in
      elim b.0 [
        | err e ↦ ((err (crypto e), []), n, b.1)
        | ok built ↦
            let r = new_cid n in
            ((ok (record { cid = r.0; built = built }), create_sends r.0 descs built), r.1, b.1)
      ]

  -- `build_circuit` up to the wait for CREATED.
  unfoldable pub start :
      List Bytes → Node → a.Rng → (Result NetError Started × List Effect) × Node × a.Rng
  start route n rng =
      let r = resolve f route n in
      if (length route == 0) || ltb max_hops (length route)
      then ((err (bad_length (length route)), []), n, rng)
      else elim r.0 [ err e ↦ ((err e, []), r.1, rng) | ok descs ↦ depart descs r.1 rng ]

-- `pending.insert(cid, tx)`, once CREATE is out.
abbrev pub await_created : ℕ → ℕ → Node → Node
await_created cid tx n = record n { pending = insert cid tx n.pending }

abbrev pub origin_entry : Started → CircuitEntry
origin_entry s =
    origin (s.built).fwd_keys (s.built).bwd_keys (s.built).tag
      (record { cid = s.cid; peer = (s.built).first_addr }) []

-- The rest of `build_circuit`: woken in time or not.
unfoldable pub settle : Bool → Started → Node → Result NetError CircuitHandle × Node
settle woken s n =
    if woken
    then (
      ok (record {
        cid = s.cid;
        fwd = (s.built).fwd_keys;
        bwd = (s.built).bwd_keys;
        tag = (s.built).tag;
      }),
      record n { circuits = insert s.cid (origin_entry s) n.circuits },
    )
    else (err timeout, record n { pending = remove s.cid n.pending })

-- `Some(CircuitEntry::Origin { next, .. })`
abbrev pub origin_next : Option CircuitEntry → Option HopLink
origin_next none = none
origin_next (some (origin f b t next s)) = some next
origin_next (some (relay t f b prev next l)) = none
origin_next (some (terminal t f b prev l)) = none

-- `seq_origin.fetch_add(1)`
abbrev pub next_seq : Node → Node
next_seq n = record n { seq_origin = (n.seq_origin + 1) % 2 ^ 32 }

module _ (c : Suite) (send_cell : SocketAddr → Cell → Option NetError) where
  abbrev pub out_cell : CircuitHandle → ℕ → ℕ → RCmd → Bytes → Cell
  out_cell h seq stream rcmd msg =
      relay_cell h.cid
        (relay_payload seq (rcmd_code rcmd) stream (seal_onion c h.fwd h.tag seq msg))

  -- The error, if there is one; the number is spent in any case.
  pub send_on : CircuitHandle → ℕ → RCmd → Bytes → Node → Option NetError × Node × List Effect
  send_on h stream rcmd msg n =
      let cell = out_cell h n.seq_origin stream rcmd msg in
      elim (origin_next (lookup h.cid n.circuits)) [
        | none ↦ (some no_session, next_seq n, [])
        | some next ↦ (send_cell next.peer cell, next_seq n, send next.peer cell ∷ [])
      ]

  -- `echo` up to its wait: stream 1 is opened for `tx`, then the message is sent.
  pub ask_echo : CircuitHandle → ℕ → Bytes → Node → Option NetError × Node × List Effect
  ask_echo h tx msg n =
      if ltb msg_max (length msg)
      then (some (bad_length (length msg)), n, [])
      else send_on h 1 echo msg (register_stream h.cid 1 tx n)

  pub send_message : CircuitHandle → Bytes → ℕ → Node → Option NetError × Node × List Effect
  send_message h msg stream n =
      if ltb msg_max (length msg)
      then (some (bad_length (length msg)), n, [])
      else send_on h stream send_data msg n

-- The rest of `echo`: what arrived on the stream in time, if anything.
unfoldable pub echo_result : Option Bytes → Result NetError Bytes
echo_result none = err timeout
echo_result (some msg) = ok msg

abbrev pub destroy_cell : ℕ → Cell
destroy_cell cid = record { cid = cid; cmd = Cmd.destroy; flags = 0; payload = [] }

pub close : CircuitHandle → Node → Node × List Effect
close h n = elim (origin_next (lookup h.cid n.circuits)) [
  | none ↦ (n, [])
  | some next ↦
      (record n { circuits = remove h.cid n.circuits }, send next.peer (destroy_cell h.cid) ∷ [])
]

abbrev handle_of : ℕ → CircuitEntry → Option CircuitHandle → Option CircuitHandle
handle_of cid (origin f b t next s) rest = some (record { cid = cid; fwd = f; bwd = b; tag = t })
handle_of cid (relay t f b prev next l) rest = rest
handle_of cid (terminal t f b prev l) rest = rest

-- The first circuit of which the node is the origin, in the order of the map.
pub pick_origin : Map ℕ CircuitEntry → Option CircuitHandle
pick_origin [] = none
pick_origin ((cid, e) ∷ m) = let rest = pick_origin m in handle_of cid e rest
