-- ===== src/Cli/Session/Ends.antt =====
-- How `send_once` and `converse` end, on every branch (crates/nbf-cli/src/demo.rs).
use never_been_found.Prelude.{
  ℕ, ◌≤◌, ◌<◌, length, All, NoRepeat, ◌≡◌, refl, ap, ◌∙◌, Option, none, some, List, [], ◌∷◌, ◌++◌,
  map_err, Bytes, Result, ok, err, lookup, nat_eq,
}
use never_been_found.Suite.{Suite}
use never_been_found.Asym.{Asym}
use never_been_found.Errors.{NetError, timeout}
use never_been_found.Addr.{SocketAddr}
use never_been_found.Cell.{Cell}
use never_been_found.Node.{Node, Effect, HopLink}
use never_been_found.Kademlia.Table.{IsTable}
use never_been_found.Engine.{Finder, route_peers}
use never_been_found.Builder.{CircuitHandle, echo_result, ask_echo, origin_next}
use never_been_found.Cli.{CliError, too_few, net, Gen, pool_of}
use never_been_found.Cli.Routes.{IsStored, declined, chosen, choose_route-RouteChoice}
use never_been_found.Cli.Session.{
  World, build_circuit, echo_on, converse, close_after, talk, send_once,
}
use never_been_found.Cli.Session.Steps.{ask_echo-Open}

module _ (f : Finder) (c : Suite) (a : Asym) (snd : SocketAddr → Cell → Option NetError)
    (world : World) where
  echo_on_lost :
      (h : CircuitHandle) (tx : ℕ) (msg : Bytes) (n n2 : Node) (w w2 : world.State)
      → (ask_echo c snd h tx msg n).0 ≡ none
      → (let asked = ask_echo c snd h tx msg n in
          world.until_reply tx asked.2 asked.1 w ≡ (none, n2, w2))
      → echo_on f c a snd world h tx msg n w ≡ (err timeout, n2, w2)
  unfolding echo_on echo_result
  echo_on_lost h tx msg n n2 w w2 e lost =
      rw (e, echo_on)
        (ap {B = Result NetError Bytes × Node × world.State} (λ u. (echo_result u.0, u.1, u.2))
          lost)

  -- Let a circuit be built and an ECHO sent on it. If no reply comes in time, and the circuits of
  -- the origin are what they were when the wait began, then the rest of `send_once` ends with
  -- `Timeout` and without closing: it sends nothing, and the origin's entry of the circuit is still there.
  pub echo_lost_leaks :
      (route : List Bytes) (waiter tx : ℕ) (msg : Bytes) (n n1 n2 : Node) (rng : a.Rng)
      (h : CircuitHandle) (w w1 w2 : world.State)
      → build_circuit f c a snd world route waiter n rng w ≡ (ok h, n1, w1)
      → (ask_echo c snd h tx msg n1).0 ≡ none
      → (let asked = ask_echo c snd h tx msg n1 in
          world.until_reply tx asked.2 asked.1 w1 ≡ (none, n2, w2))
      → n2.circuits ≡ (ask_echo c snd h tx msg n1).1.circuits
      → (converse f c a snd world route waiter tx msg n rng w ≡ (err timeout, n2, []))
        × ((next : HopLink) × (origin_next (lookup h.cid n2.circuits) ≡ some next))
  unfolding converse talk close_after
  echo_lost_leaks route waiter tx msg n n1 n2 rng h w w1 w2 built no_error lost same =
      let (next, open_) = ask_echo-Open c snd h tx msg n1 no_error in
      (
        ap (talk f c a snd world tx msg) built
            ∙ ap (close_after f c a snd world h) (echo_on_lost h tx msg n1 n2 w1 w2 no_error lost),
        (next, ap (λ m. origin_next (lookup h.cid m)) same ∙ open_),
      )

  -- How `send_once` ends: with too few peers besides the target and nothing done, or as its session
  -- along a route of three stored hops and the target ends.
  pub data SendOnce (target : Bytes) (waiter tx : ℕ) (msg : Bytes) (n : Node) (rng : a.Rng)
      (w : world.State) (r : Result CliError Bytes × Node × List Effect) : Type 0 where
    no_route :
        length (pool_of target (route_peers n)) < 3
        → r ≡ (err (too_few (length (pool_of target (route_peers n)))), n, [])
        → SendOnce target waiter tx msg n rng w r
    along :
        (hops : List Bytes)
        → 3 ≤ length (pool_of target (route_peers n))
        → length hops ≡ 3
        → All (IsStored (n.dht).stored) hops
        → NoRepeat (hops ++ (target ∷ []))
        → (let s = converse f c a snd world (hops ++ (target ∷ [])) waiter tx msg n rng w in
            r ≡ (map_err net s.0, s.1, s.2))
        → SendOnce target waiter tx msg n rng w r

  -- For a node whose routing table is in order: where fewer than three contacts other than the
  -- target have a stored descriptor, `send_once` reports their number, sends nothing and leaves the
  -- node as it is. Where there are three or more, it chooses a route of three different stored hops,
  -- none of them the target, and the target, and ends as building the circuit along it, the ECHO and
  -- the closing do, with their error and all that they leave.
  pub send_once-SendOnce :
      (g : Gen) (s : g.State) (target : Bytes) (waiter tx : ℕ) (msg : Bytes) (n : Node)
      (rng : a.Rng) (w : world.State)
      → IsTable n.dht
      → SendOnce target waiter tx msg n rng w
          (send_once f c a snd world g s target waiter tx msg n rng w)
  unfolding send_once
  send_once-SendOnce g s target waiter tx msg n rng w v =
      let choice = choose_route-RouteChoice g s target n v in
      elim choice [
        | declined few e ↦ rw (e, send_once) (no_route few refl)
        | chosen hops many e size stored distinct ↦
            rw (e, send_once) (along hops many size stored distinct refl)
      ]
