-- ===== src/Cli/Session/Steps.antt =====
-- `build_circuit`, `echo`, `send_once` and `demo` where all goes well, step by step
-- (crates/nbf-net/src/builder.rs, crates/nbf-cli/src/demo.rs).
use never_been_found.Prelude.{
  ℕ, ◌≡◌, sym, ap, ◌∙◌, true, inl, inr, Option, Option-cases, none, some, List, [], ◌∷◌, length,
  Bytes, bytes_eq_refl, Result, ok, ltb, Bool-cases, lookup, nat_eq,
}
use never_been_found.Suite.{Suite}
use never_been_found.Asym.{Asym}
use never_been_found.Errors.{NetError}
use never_been_found.Addr.{SocketAddr}
use never_been_found.Cell.{Cell, echo, msg_max}
use never_been_found.Node.{Node, HopLink, Effect, send, register_stream}
use never_been_found.Engine.{Finder}
use never_been_found.Builder.{
  CircuitHandle, Started, start, await_created, settle, origin_next, send_on, ask_echo, echo_result,
  close,
}
use never_been_found.Builder.Sends.{ask_echo_long, ask_echo_short, send_on_open, send_on_closed}
use never_been_found.Cli.Session.{
  World, build_circuit, echo_on, close_after, talk, converse, assert_reply, demo_talk, demo,
}
use never_been_found.Cli.{demo_route}

module _ (c : Suite) (snd : SocketAddr → Cell → Option NetError)
    (all_sent : (to : SocketAddr) (cell : Cell) → snd to cell ≡ none) where
  send_on-Sent :
      (h : CircuitHandle) (msg : Bytes) (n : Node) (to : SocketAddr) (cell : Cell)
      → (send_on c snd h 1 echo msg n).2 ≡ send to cell ∷ []
      → let asked = send_on c snd h 1 echo msg n in
        (asked.0 ≡ none)
        × ((next : HopLink) × (origin_next (lookup h.cid (asked.1).circuits) ≡ some next)
            × (next.peer ≡ to))
  send_on-Sent h msg n to cell e = elim (Option-cases (origin_next (lookup h.cid n.circuits))) [
    | inl gone ↦ absurd (cc (ap (λ r. r.2) (send_on_closed c snd h 1 echo msg n gone)))
    | inr (next, open_) ↦
        let here = send_on_open c snd h 1 echo msg n next open_ in
        (
          ap (λ r. r.0) here ∙ all_sent next.peer _,
          (
            next,
            ap (λ r. origin_next (lookup h.cid (r.1).circuits)) here ∙ open_,
            sent_peer _ _ _ _ (sym (ap (λ r. r.2) here) ∙ e),
          ),
        )
  ]
    where
      sent_peer :
          (x y : SocketAddr) (k l : Cell)
          → ◌≡◌ {A = List Effect} (send x k ∷ []) (send y l ∷ [])
          → x ≡ y
      sent_peer x y k l q = cc

  -- An ECHO that was sent had no error, and its circuit is open towards where it was sent.
  pub ask_echo-Sent :
      (h : CircuitHandle) (tx : ℕ) (msg : Bytes) (n : Node) (to : SocketAddr) (cell : Cell)
      → (ask_echo c snd h tx msg n).2 ≡ send to cell ∷ []
      → let asked = ask_echo c snd h tx msg n in
        (asked.0 ≡ none)
        × ((next : HopLink) × (origin_next (lookup h.cid (asked.1).circuits) ≡ some next)
            × (next.peer ≡ to))
  ask_echo-Sent h tx msg n to cell e = elim (Bool-cases (ltb msg_max (length msg))) [
    | inl long ↦ absurd (cc (sym e ∙ ap (λ r. r.2) (ask_echo_long c snd h tx msg n long)))
    | inr short ↦
        let same = ask_echo_short c snd h tx msg n short in
        rw same
          (send_on-Sent h msg (register_stream h.cid 1 tx n) to cell (sym (ap (λ r. r.2) same) ∙ e))
  ]

module _ (c : Suite) (snd : SocketAddr → Cell → Option NetError) where
  -- An ECHO without an error has an open circuit.
  pub ask_echo-Open :
      (h : CircuitHandle) (tx : ℕ) (msg : Bytes) (n : Node)
      → (ask_echo c snd h tx msg n).0 ≡ none
      → (next : HopLink) × (origin_next (lookup h.cid (ask_echo c snd h tx msg n).1.circuits)
          ≡ some next)
  ask_echo-Open h tx msg n e = elim (Bool-cases (ltb msg_max (length msg))) [
    | inl long ↦ absurd (cc (sym e ∙ ap (λ r. r.0) (ask_echo_long c snd h tx msg n long)))
    | inr short ↦
        let same = ask_echo_short c snd h tx msg n short in
        let n' = register_stream h.cid 1 tx n in
        elim (Option-cases (origin_next (lookup h.cid n'.circuits))) [
          | inl gone ↦ absurd (
              cc (
                sym e
                ∙ ap (λ r. r.0) same
                ∙ ap (λ r. r.0) (send_on_closed c snd h 1 echo msg n' gone)))
          | inr (next, open_) ↦ (
            next,
            ap (λ r. origin_next (lookup h.cid (r.1).circuits))
                  (same ∙ send_on_open c snd h 1 echo msg n' next open_)
                ∙ open_,
          )
        ]
  ]

module _ (f : Finder) (c : Suite) (a : Asym) (snd : SocketAddr → Cell → Option NetError)
    (world : World) where
  pub build_circuit_woken :
      (route : List Bytes) (waiter : ℕ) (n n1 : Node) (rng : a.Rng) (s : Started)
      (w w1 : world.State)
      → ((start f c a route n rng).0).0 ≡ ok s
      → (let r = start f c a route n rng in
          world.until_created waiter (r.0).1 (await_created s.cid waiter r.1) w ≡ (true, n1, w1))
      → build_circuit f c a snd world route waiter n rng w
        ≡ ((settle true s n1).0, (settle true s n1).1, w1)
  unfolding build_circuit
  build_circuit_woken route waiter n n1 rng s w w1 e woken =
      rw (e, build_circuit)
        (ap {B = Result NetError CircuitHandle × Node × world.State}
          (λ u. let b = settle u.0 s u.1 in (b.0, b.1, u.2)) woken)

  pub echo_on_answered :
      (h : CircuitHandle) (tx : ℕ) (msg : Bytes) (n n2 : Node) (w w2 : world.State)
      → (ask_echo c snd h tx msg n).0 ≡ none
      → (let asked = ask_echo c snd h tx msg n in
          world.until_reply tx asked.2 asked.1 w ≡ (some msg, n2, w2))
      → echo_on f c a snd world h tx msg n w ≡ (ok msg, n2, w2)
  unfolding echo_on echo_result
  echo_on_answered h tx msg n n2 w w2 e answered =
      rw (e, echo_on)
        (ap {B = Result NetError Bytes × Node × world.State} (λ u. (echo_result u.0, u.1, u.2))
          answered)

  pub converse_runs :
      (route : List Bytes) (waiter tx : ℕ) (msg reply : Bytes) (n n1 n2 : Node) (rng : a.Rng)
      (h : CircuitHandle) (w w1 w2 : world.State)
      → build_circuit f c a snd world route waiter n rng w ≡ (ok h, n1, w1)
      → echo_on f c a snd world h tx msg n1 w1 ≡ (ok reply, n2, w2)
      → converse f c a snd world route waiter tx msg n rng w
        ≡ (ok reply, (close h n2).0, (close h n2).1)
  unfolding converse talk close_after
  converse_runs route waiter tx msg reply n n1 n2 rng h w w1 w2 e e' =
      ap (talk f c a snd world tx msg) e ∙ ap (close_after f c a snd world h) e'

  pub demo_runs :
      (ids route : List Bytes) (waiter tx : ℕ) (msg : Bytes) (n n1 n2 : Node) (rng : a.Rng)
      (h : CircuitHandle) (w w1 w2 : world.State)
      → demo_route ids ≡ some route
      → build_circuit f c a snd world route waiter n rng w ≡ (ok h, n1, w1)
      → echo_on f c a snd world h tx msg n1 w1 ≡ (ok msg, n2, w2)
      → demo f c a snd world ids waiter tx msg n rng w ≡ (ok tt, (close h n2).0, (close h n2).1)
  unfolding demo demo_talk assert_reply
  demo_runs ids route waiter tx msg n n1 n2 rng h w w1 w2 r e e' =
      rw (r, demo)
        (ap (demo_talk f c a snd world tx msg) e
          ∙ ap (assert_reply f c a snd world h msg) e'
          ∙ rw (bytes_eq_refl msg))
