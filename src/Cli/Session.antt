-- ===== src/Cli/Session.antt =====
-- `send_once` and `demo` from the start of the circuit to its end (crates/nbf-cli/src/demo.rs),
-- with `build_circuit` and `echo` of crates/nbf-net/src/builder.rs as wholes. What happens at the
-- node while the program waits is an argument, a `World`.
pub mod Network
pub mod Steps
pub mod Echoes
pub mod Ends
use never_been_found.Prelude.{
  ℕ, Bool, Option, none, some, List, [], ◌∷◌, Bytes, bytes_eq, Result, ok, err, map_err,
  if◌then◌else◌,
}
use never_been_found.Suite.{Suite}
use never_been_found.Asym.{Asym}
use never_been_found.Errors.{NetError}
use never_been_found.Addr.{SocketAddr}
use never_been_found.Cell.{Cell}
use never_been_found.Node.{Node, Effect}
use never_been_found.Engine.{Finder, route_peers}
use never_been_found.Builder.{
  CircuitHandle, start, await_created, settle, ask_echo, echo_result, close,
}
use never_been_found.Cli.{CliError, net, panicked, Gen, parse_target, choose_route, demo_route}

-- Given what the node has sent: whether a waiter is woken in time, or what a stream gets in time,
-- and the node after the wait.
pub record World : Type 1 where
  pub State : Type 0
  pub until_created : ℕ → List Effect → Node → State → Bool × Node × State
  pub until_reply : ℕ → List Effect → Node → State → Option Bytes × Node × State

module _ (f : Finder) (c : Suite) (a : Asym) (snd : SocketAddr → Cell → Option NetError)
    (world : World) where
  pub build_circuit :
      List Bytes
      → ℕ
      → Node
      → a.Rng
      → world.State
      → Result NetError CircuitHandle × Node × world.State
  build_circuit route waiter n rng w =
      let r = start f c a route n rng in
      elim (r.0).0 [
        | err e ↦ (err e, r.1, w)
        | ok s ↦
            let u = world.until_created waiter (r.0).1 (await_created s.cid waiter r.1) w in
            let b = settle u.0 s u.1 in (b.0, b.1, u.2)
      ]

  pub echo_on :
      CircuitHandle → ℕ → Bytes → Node → world.State → Result NetError Bytes × Node × world.State
  echo_on h tx msg n w =
      let asked = ask_echo c snd h tx msg n in
      elim asked.0 [
        | some e ↦ (err e, asked.1, w)
        | none ↦ let u = world.until_reply tx asked.2 asked.1 w in (echo_result u.0, u.1, u.2)
      ]

  -- `let reply = ..?; handle.close().await; Ok(reply)`: the reply, the node, and what `close`
  -- sends.
  pub close_after :
      CircuitHandle
      → Result NetError Bytes × Node × world.State
      → Result NetError Bytes × Node × List Effect
  close_after h r = elim r.0 [
    | err e ↦ (err e, r.1, [])
    | ok reply ↦ let closed = close h r.1 in (ok reply, closed.0, closed.1)
  ]

  -- `let handle = ..?;` and the rest
  pub talk :
      ℕ
      → Bytes
      → Result NetError CircuitHandle × Node × world.State
      → Result NetError Bytes × Node × List Effect
  talk tx msg b = elim b.0 [
    | err e ↦ (err e, b.1, [])
    | ok h ↦ close_after h (echo_on h tx msg b.1 b.2)
  ]

  pub converse :
      List Bytes
      → ℕ
      → ℕ
      → Bytes
      → Node
      → a.Rng
      → world.State
      → Result NetError Bytes × Node × List Effect
  converse route waiter tx msg n rng w = talk tx msg (build_circuit route waiter n rng w)

  -- From the choice of the route on; `s` is the state of the random generator that chooses.
  pub send_once :
      (g : Gen)
      → g.State
      → Bytes
      → ℕ
      → ℕ
      → Bytes
      → Node
      → a.Rng
      → world.State
      → Result CliError Bytes × Node × List Effect
  send_once g s target waiter tx msg n rng w = elim (choose_route g target (route_peers n) s) [
    | err e ↦ (err e, n, [])
    | ok route ↦ let r = converse route waiter tx msg n rng w in (map_err net r.0, r.1, r.2)
  ]

  -- `nbf send`; a bad target ends it before a node is started.
  pub send_command :
      (hex_decode : Bytes → Option Bytes) (g : Gen)
      → g.State
      → Bytes
      → ℕ
      → ℕ
      → Bytes
      → Node
      → a.Rng
      → world.State
      → Result CliError Bytes × Node × List Effect
  send_command hex_decode g s to waiter tx msg n rng w = elim (parse_target hex_decode to) [
    | err e ↦ (err e, n, [])
    | ok target ↦ send_once g s target waiter tx msg n rng w
  ]

  -- The end of `demo`: the assertion on the reply, then `close`.
  pub assert_reply :
      CircuitHandle
      → Bytes
      → Result NetError Bytes × Node × world.State
      → Result CliError (Unit {0}) × Node × List Effect
  assert_reply h msg r = elim r.0 [
    | err e ↦ (err (net e), r.1, [])
    | ok reply ↦
        let closed = close h r.1 in
        if bytes_eq reply msg then (ok tt, closed.0, closed.1) else (err panicked, r.1, [])
  ]

  pub demo_talk :
      ℕ
      → Bytes
      → Result NetError CircuitHandle × Node × world.State
      → Result CliError (Unit {0}) × Node × List Effect
  demo_talk tx msg b = elim b.0 [
    | err e ↦ (err (net e), b.1, [])
    | ok h ↦ assert_reply h msg (echo_on h tx msg b.1 b.2)
  ]

  -- `demo` over the ids of its nodes, at the first of them.
  pub demo :
      List Bytes
      → ℕ
      → ℕ
      → Bytes
      → Node
      → a.Rng
      → world.State
      → Result CliError (Unit {0}) × Node × List Effect
  demo ids waiter tx msg n rng w = elim (demo_route ids) [
    | none ↦ (err panicked, n, [])
    | some route ↦ demo_talk tx msg (build_circuit route waiter n rng w)
  ]
