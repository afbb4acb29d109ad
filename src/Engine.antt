-- ===== src/Engine.antt =====
-- What a node does with a cell (crates/nbf-net/src/node.rs, `Node::spawn` to `lookup_route`), but
-- for RELAY, CREATED and DESTROY, which Relay and Control have. `dht.lookup` is an interface: a
-- `Finder` is filled by the search of Kademlia/Lookup over a network.
pub mod Finding
pub mod Routes
pub mod Filed
pub mod Lifecycle
pub mod Lives
pub mod Opening
pub mod Hops
pub mod Joining
pub mod Answers
use never_been_found.Prelude.{
  ℕ, ◌+◌, ◌%◌, ◌^◌, ◌≡◌, Option, none, some, List, [], ◌∷◌, ◌++◌, map, replicate, Bytes, Result, ok,
  err, Map, lookup, insert, nat_eq, bytes_eq_inst,
}
use never_been_found.Errors.{NetError, timeout}
use never_been_found.Suite.{Suite}
use never_been_found.Asym.{Asym}
use never_been_found.Addr.{SocketAddr}
use never_been_found.Identity.{NodeIdentity, random, node_id}
use never_been_found.Descriptor.{Descriptor, sign}
use never_been_found.Cell.{Cell, Cmd}
use never_been_found.Fragment.{fragment, collect}
use never_been_found.Sphinx.{ProcessOutcome, process_header}
use never_been_found.Rpc.{Contact}
use never_been_found.Kademlia.{Kademlia, new_table}
use never_been_found.Node.{
  Stats, bump, HopLink, CircuitEntry, Node, Effect, send, peer_key, new_cid,
}
use never_been_found.Relay
use never_been_found.Control.{handle_created, handle_destroy}

-- `dht.lookup(target, true)`: the value, if there is one, and the table after the search. `IsGood`
-- is what the search keeps of the table.
pub record Finder : Type 1 where
  pub search_for : Bytes → Kademlia → Option Descriptor × Kademlia
  pub IsGood : Kademlia → Type 0
  pub search_for-IsGood : (key : Bytes) (t : Kademlia) → IsGood t → IsGood (search_for key t).1

abbrev pub no_stats : Stats
no_stats = record {
  created = 0;
  relayed = 0;
  destroyed = 0;
  padding_recv = 0;
  padding_sent = 0;
  drops_sent = 0;
}

-- The state that `Node::spawn` starts with: it stores its own descriptor.
unfoldable pub spawned : Bytes → Descriptor → Node
spawned id own_desc = record {
  circuits = [];
  pending = [];
  next_cid = 1;
  seq_origin = 64;
  stats = no_stats;
  dht_cache = [];
  dht = record (new_table id own_desc) { stored = insert id own_desc [] };
  create_frags = [];
}

pub spawn :
    (c : Suite) (a : Asym) → a.Rng → SocketAddr → ℕ → ℕ → Option (NodeIdentity a × Node × a.Rng)
unfolding spawned
spawn c a rng cell_addr dht_port now =
    let (identity, rng') = random a rng in
    elim (sign c a identity cell_addr dht_port now) [
      | none ↦ none
      | some own_desc ↦ some (identity, spawned (node_id a c identity) own_desc, rng')
    ]

-- The contacts of the table that have a stored descriptor.
unfoldable pub peers_of : Map Bytes Descriptor → List Contact → List (Bytes × SocketAddr × Bytes)
peers_of stored [] = []
peers_of stored (k ∷ ks) =
    let rest = peers_of stored ks in
    elim (lookup k.node_id stored) [
      | none ↦ rest
      | some d ↦ (k.node_id, d.cell_addr, d.link_pub) ∷ rest
    ]

unfoldable pub route_peers : Node → List (Bytes × SocketAddr × Bytes)
route_peers n = peers_of (n.dht).stored (n.dht).rt

abbrev cache : Bytes → Descriptor → Node → Node
cache target d n = record n { dht_cache = insert target d n.dht_cache }

-- The key of the link, or zeros where the node is not found.
abbrev link_key : Result NetError Descriptor → Bytes
link_key (ok d) = d.link_pub
link_key (err e) = replicate 32 0

abbrev pub create_cell : ℕ → Bytes → Cell
create_cell cid payload = record { cid = cid; cmd = Cmd.create; flags = 0; payload = payload }

abbrev pub created_cell : ℕ → Cell
created_cell cid = record { cid = cid; cmd = Cmd.created; flags = 0; payload = [] }

abbrev pub put_entry : ℕ → CircuitEntry → Node → Node
put_entry cid e n = record n {
  circuits = insert cid e n.circuits;
  stats = record n.stats { created = bump n.stats.created };
}

module _ (f : Finder) where
  -- The cache first, then the store, then the network.
  unfoldable pub lookup_route : Bytes → Node → Result NetError Descriptor × Node
  lookup_route target n = elim (lookup target n.dht_cache) [
    | some d ↦ (ok d, n)
    | none ↦ elim (lookup target (n.dht).stored) [
      | some d ↦ (ok d, cache target d n)
      | none ↦
          let r = f.search_for target n.dht in
          let n' = record n { dht = r.1 } in
          elim r.0 [ some d ↦ (ok d, cache target d n') | none ↦ (err timeout, n') ]
    ]
  ]

  -- What a node does once it has peeled the header of a circuit.
  unfoldable pub join : SocketAddr → ℕ → ProcessOutcome → Node → Node × List Effect
  join from cid (ProcessOutcome.terminal tag k_fwd k_bwd) n = (
    put_entry cid (CircuitEntry.terminal tag k_fwd k_bwd (record { cid = cid; peer = from }) 0) n,
    send from (created_cell cid) ∷ [],
  )
  join from cid (ProcessOutcome.relay tag k_fwd k_bwd next_id next_addr new_header) n =
      let r = new_cid n in
      let prev : HopLink = record { cid = cid; peer = from } in
      let next : HopLink = record { cid = r.0; peer = next_addr } in
      let found =
        lookup_route next_id (put_entry cid (CircuitEntry.relay tag k_fwd k_bwd prev next 0) r.1) in
      (
        found.1,
        peer_key next_addr (link_key found.0)
            ∷ map (λ part. send next_addr (create_cell r.0 part)) (fragment new_header),
      )

  module _ (c : Suite) (a : Asym) (identity : NodeIdentity a) where
    -- No answer to a header that does not open.
    unfoldable pub handle_create : SocketAddr → Cell → Node → Node × List Effect
    handle_create from cell n =
        let r = collect cell.cid cell.payload n.create_frags in
        let n' = record n { create_frags = r.1 } in
        elim r.0 [
          | none ↦ (n', [])
          | some header ↦ elim (process_header c a identity header) [
            | err e ↦ (n', [])
            | ok outcome ↦ join from cell.cid outcome n'
          ]
        ]

    abbrev count_padding : Node → Node
    count_padding n = record n {
      stats = record n.stats { padding_recv = bump n.stats.padding_recv };
    }

    -- The match on the command.
    unfoldable pub dispatch : Cmd → SocketAddr → Cell → Node → Node × List Effect
    dispatch Cmd.create from cell n = handle_create from cell n
    dispatch Cmd.created from cell n = handle_created from cell n
    dispatch Cmd.destroy from cell n = handle_destroy from cell n
    dispatch Cmd.relay from cell n = Relay.handle c n from cell
    dispatch Cmd.padding from cell n = (count_padding n, [])

    unfoldable pub handle_cell : SocketAddr → Cell → Node → Node × List Effect
    unfolding dispatch
    handle_cell from cell n = dispatch cell.cmd from cell n
