-- ===== src/Examples/Sessions.antt =====
-- The command line at work: a route out of known peers, a session over two nodes, one without a
-- reply; and a node under several cells.
use never_been_found.Prelude.{
  ℕ, ◌≡◌, ◌≢◌, refl, ap, inl, inr, none, some, List, [], ◌∷◌, All, true, Bytes, length-replicate,
  ok, err, arith, lookup, insert, lookup-insert_self, nat_eq, bytes_eq_inst,
}
use never_been_found.Addr.{SocketAddr}
use never_been_found.Errors.{timeout}
use never_been_found.Cell.{Cell, Cmd}
use never_been_found.Rpc.{Contact}
use never_been_found.Kademlia.{Kademlia, dist, vec_leb}
use never_been_found.Kademlia.Table.{IsTable}
use never_been_found.Node.{Node, HopLink, send}
use never_been_found.Engine.{spawned}
use never_been_found.Builder.{
  CircuitHandle, start, await_created, settle, origin_next, ask_echo, destroy_cell,
}
use never_been_found.Cli.{Gen}
use never_been_found.Cli.Session.{World, build_circuit, converse, send_once}
use never_been_found.Cli.Session.Network.{route_world}
use never_been_found.Cli.Session.Echoes.{converse_echoes}
use never_been_found.Cli.Session.Ends.{SendOnce, send_once-SendOnce, echo_lost_leaks}
use never_been_found.Examples.Toy.{suite, asym}
use never_been_found.Examples.Circuits.{host, msg, blank_desc}
use never_been_found.Builder.{origin_entry}
use never_been_found.Builder.Sends.{ask_echo_open}
use never_been_found.Cli.Session.Steps.{build_circuit_woken}
use never_been_found.Engine.Lives.{
  handle_each, cmds_of, Life, handle_each-Life, Resets, SameBut, circuit_stays,
}
use never_been_found.Examples.Circuits.{kf, hop_entry, node_with, echo_cell, has_entry}
use never_been_found.Examples.Headers.{desc, key_pair}
use never_been_found.Examples.Pair.{
  pair, built_pair, knowing_both, begun_pair, route_pair, pair_runs, pair_found, pair-Route,
  pair-Ready, joiner_8, both-seq,
}
use never_been_found.Examples.Building.{nobody, joiner, sends_it}

-- Always the first of the pool.
abbrev first_of : Gen
first_of = record { State = Unit {0}; gen_range = λ n s. (0, s); gen_range_lt = λ n s h. h }

abbrev contact : ℕ → Contact
contact k = record { node_id = k ∷ []; ip = 127 ∷ 0 ∷ 0 ∷ 1 ∷ []; dht_port = 12001 }

abbrev contacts : List Contact
contacts = contact 1 ∷ contact 2 ∷ contact 3 ∷ contact 4 ∷ []

-- A node that has four peers and their descriptors.
abbrev crowd_table : Kademlia
crowd_table = record {
  id = 0 ∷ [];
  own_desc = blank_desc;
  rt = contacts;
  stored =
      (1 ∷ [], blank_desc)
      ∷ (2 ∷ [], blank_desc)
      ∷ (3 ∷ [], blank_desc)
      ∷ (4 ∷ [], blank_desc)
      ∷ [];
  pending = [];
}

abbrev crowd : Node
crowd = record (spawned (0 ∷ []) blank_desc) { dht = crowd_table }

abbrev first_byte : Bytes → ℕ
first_byte [] = 0
first_byte (b ∷ bs) = b

ids-ne : (j k : ℕ) → j ≢ k → ◌≢◌ {A = Bytes} (j ∷ []) (k ∷ [])
ids-ne j k ne e = ne (ap first_byte e)

crowd-IsTable : IsTable crowd_table
unfolding dist vec_leb
crowd-IsTable = record {
  size = omega arith;
  distinct = (
    (
      ids-ne 2 1 (λ e. absurd (omega arith)),
      (ids-ne 3 1 (λ e. absurd (omega arith)), (ids-ne 4 1 (λ e. absurd (omega arith)), tt)),
    ),
    (
      (ids-ne 3 2 (λ e. absurd (omega arith)), (ids-ne 4 2 (λ e. absurd (omega arith)), tt)),
      ((ids-ne 4 3 (λ e. absurd (omega arith)), tt), (tt, tt)),
    ),
  );
  nearest = (refl, (refl, (refl, (tt, tt))));
}

-- Every CREATED comes, and no reply.
abbrev no_reply : World
no_reply = record {
  State = Unit {0};
  until_created = λ waiter es n w. (true, n, w);
  until_reply = λ tx es n w. (none, n, w);
}

send_once-SendOnce_example :
    SendOnce nobody suite asym sends_it no_reply
      (4 ∷ [])
      5
      6
      msg
      crowd
      1
      tt
      (send_once nobody suite asym sends_it no_reply first_of tt (4 ∷ []) 5 6 msg crowd 1 tt)
unfolding spawned
send_once-SendOnce_example =
    send_once-SendOnce nobody suite asym sends_it no_reply first_of tt (4 ∷ []) 5 6 msg crowd 1 tt
      crowd-IsTable

-- The node of the origin while it waits, and once it has a handle.
abbrev waiting_node : Node
waiting_node = await_created 1 5 (start nobody suite asym route_pair knowing_both 1).1

abbrev handle_pair : CircuitHandle
handle_pair = record {
  cid = 1;
  fwd = built_pair.fwd_keys;
  bwd = built_pair.bwd_keys;
  tag = built_pair.tag;
}

abbrev ready_node : Node
ready_node = record waiting_node {
  circuits = insert 1 (origin_entry begun_pair) waiting_node.circuits;
}

pair_built :
    build_circuit nobody suite asym sends_it no_reply route_pair 5 knowing_both 1 tt
    ≡ (ok handle_pair, ready_node, tt)
unfolding settle
pair_built =
    build_circuit_woken nobody suite asym sends_it no_reply route_pair 5 knowing_both waiting_node 1
      begun_pair tt tt pair_runs refl

echo_sent : (ask_echo suite sends_it handle_pair 6 msg ready_node).0 ≡ none
echo_sent =
    ap (λ r. r.0)
      (ask_echo_open suite sends_it handle_pair 6 msg ready_node built_pair.fwd_keys
        built_pair.bwd_keys built_pair.tag (record { cid = 1; peer = built_pair.first_addr }) []
        (omega arith) (lookup-insert_self 1 (origin_entry begun_pair) waiting_node.circuits))

echo_lost_leaks_example :
    let after = (ask_echo suite sends_it handle_pair 6 msg ready_node).1 in
    (converse nobody suite asym sends_it no_reply route_pair 5 6 msg knowing_both 1 tt
      ≡ (err timeout, after, []))
    × ((next : HopLink) × (origin_next (lookup 1 after.circuits) ≡ some next))
echo_lost_leaks_example =
    echo_lost_leaks nobody suite asym sends_it no_reply route_pair 5 6 msg knowing_both ready_node
      (ask_echo suite sends_it handle_pair 6 msg ready_node).1 1 handle_pair tt tt tt pair_built
      echo_sent refl refl

converse_echoes_example :
    (n' : Node) × (converse nobody suite asym sends_it
        (route_world nobody suite asym (joiner ∷ joiner_8 ∷ []) (host 1))
        route_pair
        5
        6
        msg
        knowing_both
        1
        []
      ≡ (ok msg, n', send desc.cell_addr (destroy_cell 1) ∷ []))
    × (lookup 1 n'.circuits ≡ none)
converse_echoes_example =
    converse_echoes nobody suite asym sends_it (λ to cell. refl) (host 1) route_pair knowing_both 1
      begun_pair (key_pair 7 ∷ key_pair 8 ∷ []) pair (joiner ∷ joiner_8 ∷ []) 5 6 msg pair_runs
      pair_found (length-replicate {A = ℕ} 16 1) pair-Route pair-Ready (omega (arith, both-seq))
      (omega (arith, both-seq)) (omega arith)

-- A hop that gets a RELAY of its circuit between cells of another one.
abbrev arriving : List (SocketAddr × Cell)
arriving =
    (host 5, record { cid = 4; cmd = Cmd.destroy; flags = 0; payload = [] })
    ∷ (host 1, echo_cell (kf 4 ∷ kf 6 ∷ []))
    ∷ (host 5, record { cid = 4; cmd = Cmd.created; flags = 0; payload = [] })
    ∷ []

handle_each-Life_example : Life (cmds_of 9 arriving) (lookup 9 (node_with hop_entry).circuits) (
    lookup 9 (handle_each nobody suite asym (key_pair 9) arriving (node_with hop_entry)).0.circuits)
handle_each-Life_example =
    handle_each-Life nobody suite asym (key_pair 9) 9 arriving (node_with hop_entry)

no-Resets : All (λ cmd. ¬ Resets cmd) (cmds_of 9 arriving)
unfolding cmds_of
no-Resets = ((λ r. elim r [ inl e ↦ cc | inr e ↦ cc ]), tt)

circuit_stays_example : SameBut hop_entry (
    lookup 9 (handle_each nobody suite asym (key_pair 9) arriving (node_with hop_entry)).0.circuits)
circuit_stays_example =
    circuit_stays nobody suite asym (key_pair 9) 9 hop_entry arriving (node_with hop_entry)
      (has_entry hop_entry) no-Resets
