-- ===== src/Builder/Echoes.antt =====
-- A circuit from `build_circuit` to the answer of an ECHO (crates/nbf-net/src/builder.rs at the
-- origin, node.rs and relay.rs at the nodes of the route).
use never_been_found.Prelude.{
  ℕ, ◌+◌, ◌%◌, ◌^◌, ◌≤◌, ◌<◌, ◌≡◌, refl, sym, ap, subst, ◌∙◌, true, Option, some, List, [], ◌∷◌,
  map, length, Bytes, Result, ok, arith, lookup, insert, nat_eq, lookup-insert_self,
}
use never_been_found.Errors.{NetError}
use never_been_found.Suite.{Suite}
use never_been_found.Asym.{Asym}
use never_been_found.Addr.{SocketAddr}
use never_been_found.Identity.{NodeIdentity}
use never_been_found.Descriptor.{Descriptor}
use never_been_found.Cell.{Cell, msg_max}
use never_been_found.Fragment.{fragment}
use never_been_found.Sphinx.{BuiltHeader, first_addr_of, max_hops, build_header}
use never_been_found.Sphinx.Walk.{Walk}
use never_been_found.Sphinx.Build.{Route, build_header-parts, build_header-Walk}
use never_been_found.Node.{Node, HopLink, origin, send, push}
use never_been_found.Relay.{handle, count_relayed}
use never_been_found.Relay.Trip.{Station, OnRoute, round_trip, echo_delivers}
use never_been_found.Control.{handle_created, created_waited}
use never_been_found.Engine.{Finder, create_cell, created_cell}
use never_been_found.Engine.Opening.{Joiner, cells_to, cells_to-key, cells_to-sends, open_route}
use never_been_found.Engine.Joining.{Ready, Opened, circuit_opens}
use never_been_found.Builder.{
  CircuitHandle, Started, resolve, start, await_created, settle, ask_echo,
}
use never_been_found.Builder.Starts.{start-Departed, created_in_time}
use never_been_found.Builder.Sends.{ask_echo_open}

module _ (f : Finder) (c : Suite) (a : Asym) where
  -- The header of a route: its address, its size and its walk.
  built-Walk :
      (is : List (NodeIdentity a)) (ds : List Descriptor) (tag : Bytes) (rng : a.Rng)
      (b : BuiltHeader)
      → Route a is ds
      → length tag ≡ 16
      → (build_header c a ds tag rng).0 ≡ ok b
      → (length ds ≤ max_hops)
        × (b.first_addr ≡ first_addr_of ds)
        × Walk c a b.tag is ds b.header b.fwd_keys b.bwd_keys
  unfolding build_header
  built-Walk is [] tag rng b r ht e = absurd (ground arith)
  built-Walk is (d ∷ ds) tag rng b r ht e =
      let (short, cts, ks, f, same) = build_header-parts c a d ds tag rng b e in
      (
        short,
        ap (λ x. x.first_addr) same,
        subst (λ t. Walk c a t is (d ∷ ds) b.header b.fwd_keys b.bwd_keys)
            (sym (ap (λ x. x.tag) same)) (build_header-Walk c a is d ds tag rng b r ht e),
      )

  -- CREATE as `start` sends it.
  started :
      (route : List Bytes) (n : Node) (rng : a.Rng) (s : Started) (ds : List Descriptor)
      → ((start f c a route n rng).0).0 ≡ ok s
      → (resolve f route n).0 ≡ ok ds
      → ((build_header c a ds (a.fill_bytes 16 rng).0 (a.fill_bytes 16 rng).1).0 ≡ ok s.built)
        × (cells_to (s.built).first_addr (start f c a route n rng).0.1
            ≡ map (create_cell s.cid) (fragment (s.built).header))
        × ((start f c a route n rng).1.seq_origin ≡ n.seq_origin)
  started route n rng s ds e found =
      let d = start-Departed f c a route n rng s e in
      let same : d.descs ≡ ds = same_ok _ d.descs ds d.found found in
      (
        subst
            (λ x.
              (build_header c a x (a.fill_bytes 16 rng).0 (a.fill_bytes 16 rng).1).0 ≡ ok s.built)
            same d.header,
        ap (cells_to (s.built).first_addr) d.sends
            ∙ cells_to-key (s.built).first_addr _ _
            ∙ cells_to-sends (s.built).first_addr s.cid (fragment (s.built).header),
        ap (λ x. x.seq_origin) (d.same).rest_of,
      )
    where
      same_ok :
          (r : Result NetError (List Descriptor)) (xs ys : List Descriptor)
          → r ≡ ok xs
          → r ≡ ok ys
          → xs ≡ ys
      same_ok r xs ys p q = cc

  abbrev handle_for : Started → CircuitHandle
  handle_for s = record {
    cid = s.cid;
    fwd = (s.built).fwd_keys;
    bwd = (s.built).bwd_keys;
    tag = (s.built).tag;
  }

  -- The node once the CREATED from `to` has come.
  abbrev pub woken_by : SocketAddr → ℕ → Started → Node → Result NetError CircuitHandle × Node
  woken_by to waiter s n =
      settle true s (handle_created to (created_cell s.cid) (await_created s.cid waiter n)).0

  woken_by-seq :
      (to : SocketAddr) (waiter : ℕ) (s : Started) (n : Node)
      → (woken_by to waiter s n).1.seq_origin ≡ n.seq_origin
  unfolding settle
  woken_by-seq to waiter s n =
      ap (λ r. (r.0).seq_origin)
        (created_waited to (created_cell s.cid) (await_created s.cid waiter n) waiter
          (lookup-insert_self s.cid waiter n.pending))

  module _ (snd : SocketAddr → Cell → Option NetError) where
    -- The ECHO of an origin whose circuit the nodes of a route are set up for.
    echo_answered :
        (home to : SocketAddr) (tx : ℕ) (msg : Bytes) (h : CircuitHandle) (n : Node)
        (ss : List Station)
        → length msg ≤ msg_max
        → n.seq_origin < 2 ^ 32
        → OnRoute h.tag h.cid n.seq_origin home to ss h.fwd h.bwd
        → lookup h.cid n.circuits
          ≡ some (origin h.fwd h.bwd h.tag (record { cid = h.cid; peer = to }) [])
        → let asked = ask_echo c snd h tx msg n in
          (cell : Cell) × (back : Cell) × (asked.2 ≡ send to cell ∷ [])
          × (round_trip c ss to home cell ≡ some back)
          × (handle c asked.1 to back ≡ (count_relayed asked.1, push tx msg ∷ []))
    echo_answered home to tx msg h n ss short u32 route e =
        let next : HopLink = record { cid = h.cid; peer = to } in
        let n' = record n {
          circuits = insert h.cid (origin h.fwd h.bwd h.tag next (insert 1 tx [])) n.circuits;
          seq_origin = (n.seq_origin + 1) % 2 ^ 32;
        } in
        let (back, there, here) =
          echo_delivers c h.tag h.cid n.seq_origin 1 msg u32 (omega arith) n' next (insert 1 tx [])
            tx route (lookup-insert_self h.cid _ n.circuits) (lookup-insert_self 1 tx []) in
        rw (ask_echo_open c snd h tx msg n h.fwd h.bwd h.tag next [] short e)
          (_, back, refl, there, here)

    -- Let `build_circuit` start on a route whose descriptors, once found, belong to its nodes
    -- (their keys, an IPv4 address, an id that is not the terminal mark). Let each node be at the
    -- address of its descriptor and have no buffer for the id of the circuit, and let each but the
    -- last one use that id for its next link too, wait for no CREATED of it, and have two different
    -- neighbours. Let the tag have 16 bytes and the origin's number be from 1 on and of 32 bits. On
    -- a network that loses nothing and keeps the order, the CREATE cells that are sent set up all
    -- the nodes, and exactly one CREATED comes back to the origin's address; it makes
    -- `build_circuit` return a handle. An ECHO of at most 1024 bytes on that handle is one cell,
    -- the answer to which the origin's own handler opens, and gives the waiting stream exactly the
    -- message that was sent.
    pub built_circuit_echoes :
        (home : SocketAddr) (route : List Bytes) (n : Node) (rng : a.Rng) (s : Started)
        (is : List (NodeIdentity a)) (ds : List Descriptor) (js : List (Joiner a)) (waiter tx : ℕ)
        (msg : Bytes)
        → ((start f c a route n rng).0).0 ≡ ok s
        → (resolve f route n).0 ≡ ok ds
        → length (a.fill_bytes 16 rng).0 ≡ 16
        → Route a is ds
        → Ready a s.cid home js is ds
        → 1 ≤ n.seq_origin
        → n.seq_origin < 2 ^ 32
        → length msg ≤ msg_max
        → let r = start f c a route n rng in
          let to = (s.built).first_addr in
          let built = woken_by to waiter s r.1 in
          (ss : List Station) × (h : CircuitHandle) × (cell : Cell) × (back : Cell) × (open_route f
              c a js to home
              (cells_to to (r.0).1)
            ≡ some (ss, created_cell s.cid ∷ []))
          × (built.0 ≡ ok h)
          × ((ask_echo c snd h tx msg built.1).2 ≡ send to cell ∷ [])
          × (round_trip c ss to home cell ≡ some back)
          × (let asked = (ask_echo c snd h tx msg built.1).1 in
              handle c asked to back ≡ (count_relayed asked, push tx msg ∷ []))
    built_circuit_echoes home route n rng s is ds js waiter tx msg e found tag_16 owned ready from_1
          u32 short =
        let (header, out, same_seq) = started route n rng s ds e found in
        let (few, first, walk) = built-Walk is ds _ _ s.built owned tag_16 header in
        let to = (s.built).first_addr in
        let n1 = (start f c a route n rng).1 in
        let seq : (woken_by to waiter s n1).1.seq_origin ≡ n.seq_origin =
          woken_by-seq to waiter s n1 ∙ same_seq in
        let (ss, opened, on_route) =
          subst
            (λ x.
              Opened f c a (s.built).tag s.cid n.seq_origin home js x (s.built).header
                (s.built).fwd_keys (s.built).bwd_keys)
            (sym first)
            (circuit_opens f c a (s.built).tag s.cid n.seq_origin from_1 few ready walk) in
        let (woken, filed, handle_is) = created_in_time to waiter s n1 in
        let (cell, back, sent, there, here) =
          echo_answered home to tx msg (handle_for s) (woken_by to waiter s n1).1 ss short
            (omega (arith, seq, u32))
            (subst
              (λ q. OnRoute (s.built).tag s.cid q home to ss (s.built).fwd_keys (s.built).bwd_keys)
              (sym seq) on_route)
            filed in
        (
          ss,
          handle_for s,
          cell,
          back,
          ap (open_route f c a js to home) out ∙ opened,
          handle_is,
          sent,
          there,
          here,
        )
