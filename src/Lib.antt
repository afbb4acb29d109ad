-- ===== src/Lib.antt =====
-- Never_been_found, an onion-routed message network: a model of its cryptographic and networking
-- core, with proofs. Paths are from the repository's root.
--
-- The program. A circuit runs from an origin over hops to a terminal. The origin builds a Sphinx
-- header for the route (crates/nbf-crypto/src/sphinx.rs) from the public descriptors of its nodes
-- and sends it in CREATE cells; each node peels its layer, keeps the traffic keys and passes the
-- rest on. Then RELAY cells run both ways (crates/nbf-net/src/relay.rs), sealed once for every hop.
-- Cells are datagrams of 1280 bytes (crates/nbf-net/src/cell.rs); what does not fit one cell is
-- cut into fragments.
--
-- The files.
--   Prelude: shared names; native numbers, lists measured by them, little-endian words, results,
--     association lists with an equality instance.
--   Errors: CryptoError, NetError, DhtError.
--   Suite, Asym: what the crates chacha20poly1305, sha2, hkdf, curve25519-dalek, ml-kem and
--     ed25519-dalek provide, as records of operations with their documented laws. Every definition
--     that uses them takes them as arguments; Examples/Toy has an instance of each.
--   Cell: crates/nbf-net/src/cell.rs, `Cell::encode` and `Cell::decode`; the failed assertion of
--     `encode` is `none`. Cell/RoundTrip, Cell/Sound.
--   Fragment: `fragment`, `FragBuf`, `reassemble` of the same file, and the head of
--     `handle_create` of crates/nbf-net/src/node.rs (`collect`); `deliver` runs that head on
--     a list of payloads. Fragment/Pieces, Fragment/Slots, Fragment/Steps, Fragment/Delivery,
--     Fragment/Ordered.
--   Onion: `seal_onion` to `open_onion_bwd` of the same file. Onion/Layers.
--   Kdf: crates/nbf-crypto/src/kdf.rs.   Replay: crates/nbf-crypto/src/replay.rs.
--   Identity: crates/nbf-crypto/src/identity.rs (`NodeIdentity`) and kem.rs.
--   Sphinx: crates/nbf-crypto/src/sphinx.rs; `build_header` is split along its numbered steps and
--     `process_header` into `open_layer` and `peel`. The random generator is threaded through.
--     Sphinx/Layout (where each field stands), Sphinx/Peel and Sphinx/Steps (one hop), Sphinx/Walk
--     (a whole route), Sphinx/Build, Sphinx/Public.
--   Addr, Descriptor: addresses; `Descriptor` of crates/nbf-crypto/src/identity.rs with `sign`,
--     `to_bytes` and `from_signed_bytes`, whose field reads are `read`. Descriptor/Fields,
--     Descriptor/Signed.
--   Rpc: crates/nbf-dht/src/rpc.rs; `rpc_body` and `decode_body` are the two matches on the type.
--     Rpc/RoundTrip, Rpc/Authentic.
--   Kademlia: crates/nbf-dht/src/kademlia.rs: `try_merge`, `closest`, `handle` and the body of `run`
--     on the routing table, the store and the waiting requests. Kademlia/Table, Kademlia/Order,
--     Kademlia/Contacts, Kademlia/Requests, Kademlia/Serving (the store as its peers see it),
--     Kademlia/Published (from the STORE at one node to the search of another).
--     Kademlia/Lookup: `send_rpc`, `lookup`, `bootstrap` and `store_self` over a network that is a
--     function. Kademlia/Lookup/Batch, Kademlia/Lookup/Ends, Kademlia/Lookup/Values.
--   Node: the state of a node of crates/nbf-net/src/node.rs, with the effects of a handler as a
--     list.
--   Engine: `Node::spawn`, `handle_cell`, `handle_create`, `lookup_route` and `route_peers` of the
--     same file. `dht.lookup` is the interface `Finder`, which Engine/Finding fills with the search
--     of Kademlia/Lookup. Engine/Routes, Engine/Filed, Engine/Lifecycle and Engine/Lives (each circuit
--     as a state machine of its own), Engine/Opening (CREATE and CREATED over a route), Engine/Hops,
--     Engine/Joining, Engine/Answers (what comes back to a hop).
--   Control: `handle_created` and `handle_destroy` of the same file.
--   Builder: crates/nbf-net/src/builder.rs; `build_circuit` is `start`, `await_created` and `settle`,
--     and `echo` is `ask_echo` and `echo_result`, for the parts before and after a wait.
--     Builder/Starts, Builder/Sends, Builder/Sizes, Builder/Echoes (from the start of a circuit to
--     an answer), Builder/Life (what a node can become).
--   Noise: what the crate snow provides, as a record of operations.
--   Link: crates/nbf-net/src/link.rs; `receive_datagram` is the body of the receiving task, and
--     `send_cell` is `begin_send` and `end_send`, before and after its wait. Link/Parts, Link/Crossing,
--     Link/Blocked, Link/Gathering and Link/Handshakes (messages of several datagrams),
--     Link/Sessions (many cells, and a loss). The handlers of the other files take the error of
--     `send_cell` as an argument.
--   Cover: one turn of crates/nbf-net/src/cover.rs.
--   Relay: `handle` of crates/nbf-net/src/relay.rs: `act` is what follows the copy of the circuit's
--     entry, `at_origin`, `at_relay` and `at_terminal` are its three branches. Relay/Wire,
--     Relay/Hop, Relay/Trip, Relay/Replays, Relay/Sizes, Relay/Backward.
--   Config: the settings of a node and the tasks of `Node::spawn` of crates/nbf-net/src/node.rs.
--   Cli: crates/nbf-cli/src/main.rs and demo.rs: the settings, the arguments and the choice of the
--     route. Cli/Draws and Cli/Routes (the route), Cli/Ports.
--     Cli/Session: `build_circuit` and `echo` as wholes, `send_once` and `demo`, over a `World` that
--     says what happens at the node during a wait; Cli/Session/Network is the world of the nodes of a
--     route. Cli/Session/Steps, Cli/Session/Echoes, Cli/Session/Ends.
--   Examples: each theorem at a concrete input.
--
-- Conventions. A byte is a number, and bytes are lists; where a proof needs the ranges of fields
-- they are hypotheses. A map is an association list. A w-bit counter wraps at 2 ^ w. A handler runs
-- to its end on one state; the one interleaving of two handlers that matters is written as two
-- applications of `act` to one copy. All loops are recursion on lists or on numbers of items, but
-- for the loop of `lookup`, which runs on fuel: one more than the number of ids that the network can
-- name is enough, as Kademlia/Lookup/Ends has it.
--
-- Not modelled: sockets, tasks, timeouts and random delays, which decide only which step comes next;
-- what a UDP network loses or reorders, but for the parts of one message in any order and for a loss
-- within a session; reading of arguments, logging and printing at the command line.
pub mod Prelude
pub mod Errors
pub mod Cell
pub mod Fragment
pub mod Suite
pub mod Kdf
pub mod Replay
pub mod Onion
pub mod Addr
pub mod Descriptor
pub mod Rpc
pub mod Kademlia
pub mod Node
pub mod Engine
pub mod Noise
pub mod Link
pub mod Builder
pub mod Config
pub mod Cli
pub mod Cover
pub mod Relay
pub mod Control
pub mod Asym
pub mod Identity
pub mod Sphinx
pub mod Examples
