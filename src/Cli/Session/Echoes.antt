-- ===== src/Cli/Session/Echoes.antt =====
-- `send_once` and `demo` over a route of nodes that a network connects (crates/nbf-cli/src/demo.rs
-- at the origin; node.rs and relay.rs of crates/nbf-net/src at the nodes).
use never_been_found.Prelude.{
  ℕ, ◌^◌, ◌≤◌, ◌<◌, ◌≡◌, sym, ap, ◌∙◌, true, Option, none, some, List, [], ◌∷◌, length, Bytes,
  Result, ok, lookup, remove, ap₂, nat_eq, lookup-insert_self, lookup-remove_self,
}
use never_been_found.Suite.{Suite}
use never_been_found.Asym.{Asym}
use never_been_found.Errors.{NetError}
use never_been_found.Addr.{SocketAddr}
use never_been_found.Identity.{NodeIdentity}
use never_been_found.Descriptor.{Descriptor}
use never_been_found.Cell.{Cell, msg_max}
use never_been_found.Sphinx.Build.{Route}
use never_been_found.Node.{Node, HopLink, Effect, send}
use never_been_found.Relay.{count_relayed}
use never_been_found.Relay.Trip.{Station}
use never_been_found.Control.{handle_created}
use never_been_found.Engine.{Finder, created_cell}
use never_been_found.Engine.Opening.{Joiner, bound_for}
use never_been_found.Engine.Joining.{Ready}
use never_been_found.Builder.{
  CircuitHandle, Started, resolve, start, await_created, settle, origin_next, ask_echo,
  destroy_cell, close,
}
use never_been_found.Builder.Starts.{start-Departed}
use never_been_found.Builder.Sends.{close_open}
use never_been_found.Builder.Echoes.{built_circuit_echoes}
use never_been_found.Cli.Session.Network.{route_world, until_created_opened, until_reply_answered}
use never_been_found.Cli.Session.Steps.{
  ask_echo-Sent, build_circuit_woken, echo_on_answered, converse_runs, demo_runs,
}
use never_been_found.Cli.Session.{World, build_circuit, echo_on, converse, demo}
use never_been_found.Cli.{CliError, demo_route}

settled_id :
    (s : Started) (n : Node) (h : CircuitHandle) → (settle true s n).0 ≡ ok h → h.cid ≡ s.cid
unfolding settle
settled_id s n h e = ap (λ x. x.cid) (sym (one_ok _ h e))
  where
    one_ok : (x y : CircuitHandle) → ◌≡◌ {A = Result NetError CircuitHandle} (ok x) (ok y) → x ≡ y
    one_ok x y q = cc

closed_to :
    (c : Suite) (snd : SocketAddr → Cell → Option NetError) (h : CircuitHandle) (n : Node) (cid : ℕ)
    (to : SocketAddr) (next : HopLink)
    → h.cid ≡ cid
    → origin_next (lookup h.cid n.circuits) ≡ some next
    → next.peer ≡ to
    → close h n ≡ (record n { circuits = remove cid n.circuits }, send to (destroy_cell cid) ∷ [])
closed_to c snd h n cid to next same e peer =
    close_open c snd h n next e
    ∙ ap₂ {C = Node × List Effect}
        (λ i p. (record n { circuits = remove i n.circuits }, send p (destroy_cell i) ∷ [])) same
        peer

module _ (f : Finder) (c : Suite) (a : Asym) (snd : SocketAddr → Cell → Option NetError)
    (all_sent : (to : SocketAddr) (cell : Cell) → snd to cell ≡ none) (home : SocketAddr)
    (route : List Bytes) (n : Node) (rng : a.Rng) (s : Started) (is : List (NodeIdentity a))
    (ds : List Descriptor) (js : List (Joiner a)) (waiter tx : ℕ) (msg : Bytes)
    (begun : ((start f c a route n rng).0).0 ≡ ok s) (found : (resolve f route n).0 ≡ ok ds)
    (tag_16 : length (a.fill_bytes 16 rng).0 ≡ 16) (owned : Route a is ds)
    (ready : Ready a s.cid home js is ds) (from_1 : 1 ≤ n.seq_origin) (u32 : n.seq_origin < 2 ^ 32)
    (short : length msg ≤ msg_max) where
  abbrev over : World
  over = route_world f c a js home

  -- A circuit is built, the message comes back on it, and it can be closed.
  data Success : Type 0 where
    success :
        (h : CircuitHandle) (n1 n2 : Node) (ss : List Station)
        → build_circuit f c a snd over route waiter n rng [] ≡ (ok h, n1, ss)
        → echo_on f c a snd over h tx msg n1 ss ≡ (ok msg, n2, ss)
        → close h n2 ≡ (
          record n2 { circuits = remove s.cid n2.circuits },
          send (s.built).first_addr (destroy_cell s.cid) ∷ [],
        )
        → Success

  session_succeeds : Success
  session_succeeds =
      let r = start f c a route n rng in
      let to = (s.built).first_addr in
      let n1 = (handle_created to (created_cell s.cid) (await_created s.cid waiter r.1)).0 in
      let built = settle true s n1 in
      let (ss, h, cell, back, opened, handle_is, sent, there, here) =
        built_circuit_echoes f c a snd home route n rng s is ds js waiter tx msg begun found tag_16
          owned ready from_1 u32 short in
      let asked = ask_echo c snd h tx msg built.1 in
      let (no_error, (next, open_, peer)) =
        ask_echo-Sent c snd all_sent h tx msg built.1 to cell sent in
      success h built.1 (count_relayed asked.1) ss
        (build_circuit_woken f c a snd over route waiter n n1 rng s [] ss begun (
            until_created_opened f c a js home to s.cid waiter (r.0).1
              (await_created s.cid waiter r.1) [] ss
              (ap bound_for (start-Departed f c a route n rng s begun).sends) opened
              (lookup-insert_self s.cid waiter (r.1).pending))
          ∙ ap {B = Result NetError CircuitHandle × Node × List Station} (λ x. (x, built.1, ss))
              handle_is)
        (echo_on_answered f c a snd over h tx msg built.1 (count_relayed asked.1) ss ss no_error (
          ap (λ es. over.until_reply tx es asked.1 ss) sent
          ∙ until_reply_answered f c a home to tx cell back asked.1 (count_relayed asked.1) ss msg
              there here))
        (closed_to c snd h (count_relayed asked.1) s.cid to next (settled_id s n1 h handle_is) open_
          peer)

  -- Let `build_circuit` start on a route whose descriptors, once found, belong to its nodes (their
  -- keys, an IPv4 address, an id that is not the terminal mark). Let each node be at the address of
  -- its descriptor and have no buffer for the id of the circuit, and let each but the last one use
  -- that id for its next link too, wait for no CREATED of it, and have two different neighbours.
  -- Let the tag have 16 bytes, the origin's number be from 1 on and of 32 bits, `send_cell` succeed
  -- for every cell, and the network lose nothing, keep the order and be in time. Then building the
  -- circuit, sending an ECHO of at most 1024 bytes on it and closing it give back exactly the
  -- message; the origin keeps no entry of the circuit, and what closing sends is one DESTROY of it
  -- to the first node.
  pub converse_echoes :
      (n' : Node) × (converse f c a snd over route waiter tx msg n rng []
        ≡ (ok msg, n', send (s.built).first_addr (destroy_cell s.cid) ∷ []))
      × (lookup s.cid n'.circuits ≡ none)
  converse_echoes = elim session_succeeds [
    | success h n1 n2 ss built answered closed ↦ (
      _,
      converse_runs f c a snd over route waiter tx msg msg n n1 n2 rng h [] ss ss built answered
          ∙ ap {B = Result NetError Bytes × Node × List Effect} (λ x. (ok msg, x.0, x.1)) closed,
      lookup-remove_self s.cid n2.circuits,
    )
  ]

  -- Let the route that `demo` takes out of the ids of its nodes be such a route, its descriptors,
  -- nodes, numbers and network as `converse_echoes` has them. Then `demo` ends without an error:
  -- its assertion that the reply is the message holds, and it leaves no entry of its circuit.
  pub demo_succeeds :
      (ids : List Bytes)
      → demo_route ids ≡ some route
      → (n' : Node) × (demo f c a snd over ids waiter tx msg n rng []
          ≡ (ok tt, n', send (s.built).first_addr (destroy_cell s.cid) ∷ []))
        × (lookup s.cid n'.circuits ≡ none)
  demo_succeeds ids chosen = elim session_succeeds [
    | success h n1 n2 ss built answered closed ↦ (
      _,
      demo_runs f c a snd over ids route waiter tx msg n n1 n2 rng h [] ss ss chosen built answered
          ∙ ap {B = Result CliError (Unit {0}) × Node × List Effect} (λ x. (ok tt, x.0, x.1))
              closed,
      lookup-remove_self s.cid n2.circuits,
    )
  ]
