-- ===== src/Engine/Lifecycle.antt =====
-- The life of each circuit of a node (crates/nbf-net/src/node.rs, `handle_cell`): a state machine
-- for one id, which the node runs for every id on its own.
use never_been_found.Prelude.{
  ℕ, ◌<◌, ◌≡◌, ◌≢◌, refl, ap, inl, inr, Option, none, some, Option-cases, List, Result-cases,
  ==_iff, arith, Map, lookup, insert, nat_eq, lookup-insert, lookup-insert_self, lookup-remove,
  lookup-remove_self,
}
use never_been_found.Suite.{Suite}
use never_been_found.Asym.{Asym}
use never_been_found.Addr.{SocketAddr}
use never_been_found.Identity.{NodeIdentity}
use never_been_found.Cell.{Cell, Cmd, create, created, relay, destroy, padding}
use never_been_found.Fragment.{collect}
use never_been_found.Sphinx.{ProcessOutcome, process_header}
use never_been_found.Node.{Node, HopLink, CircuitEntry, new_cid}
use never_been_found.Relay.{count_relayed, update_entry}
use never_been_found.Relay
use never_been_found.Relay.Hop.{update_entry_other}
use never_been_found.Relay.Replays.{
  last_of, renumber, Wrote, nothing, number, handle-Wrote, update_entry_self,
}
use never_been_found.Control.{handle_created_keeps, handle_destroy, handle_destroy_keeps}
use never_been_found.Engine.{Finder, join, handle_create, put_entry, dispatch, handle_cell}
use never_been_found.Engine.Routes.{lookup_route-SameCircuits}

-- What a cell of a circuit's own id may do to it.
pub data Change : Cmd → Option CircuitEntry → Option CircuitEntry → Type 0 where
  stays : (cmd : Cmd) (e : Option CircuitEntry) → Change cmd e e
  joins_end :
      (e : Option CircuitEntry) (tag kf kb : List ℕ) (prev : HopLink)
      → Change create e (some (CircuitEntry.terminal tag kf kb prev 0))
  joins_hop :
      (e : Option CircuitEntry) (tag kf kb : List ℕ) (prev next : HopLink)
      → Change create e (some (CircuitEntry.relay tag kf kb prev next 0))
  ends : (e : Option CircuitEntry) → Change destroy e none
  counts :
      (e : CircuitEntry) (seq : ℕ)
      → last_of (some e) < seq
      → Change relay (some e) (some (renumber seq e))

-- One cell: its own circuit changes so, and no other does.
abbrev pub Touches : Cmd → ℕ → Map ℕ CircuitEntry → Map ℕ CircuitEntry → Type 0
Touches cmd cid m m' =
    Change cmd (lookup cid m) (lookup cid m') × ((j : ℕ) → cid ≢ j → lookup j m' ≡ lookup j m)

Touches-same : (cmd : Cmd) (cid : ℕ) (m m' : Map ℕ CircuitEntry) → m' ≡ m → Touches cmd cid m m'
Touches-same cmd cid m m' e = rw e (stays cmd _, (λ j ne. refl))

insert_other :
    (cid j : ℕ) (e : CircuitEntry) (m : Map ℕ CircuitEntry)
    → cid ≢ j
    → lookup j (insert cid e m) ≡ lookup j m
insert_other cid j e m ne = ground (arith, lookup-insert cid j e m, ==_iff cid j)

Wrote-Touches :
    (e : CircuitEntry) (n : Node) (cid seq : ℕ) (n' : Node)
    → Wrote e n cid seq n'
    → lookup cid n.circuits ≡ some e
    → Touches relay cid n.circuits n'.circuits
Wrote-Touches e n cid seq n' (nothing same) at_ =
    Touches-same relay cid n.circuits n'.circuits (ap (λ x. x.circuits) same)
Wrote-Touches e n cid seq n' (number fresh f at_f is keeps same) at_ =
    rw (same, at_, update_entry_self cid f n e at_, is)
      (counts e seq fresh, (λ j ne. update_entry_other cid j f n ne))

insert-Touches :
    (cid : ℕ) (e : CircuitEntry) (m m' : Map ℕ CircuitEntry)
    → m' ≡ insert cid e m
    → Change create (lookup cid m) (some e)
    → Touches create cid m m'
insert-Touches cid e m m' same change =
    rw (same, lookup-insert_self cid e m) (change, (λ j ne. insert_other cid j e m ne))

module _ (f : Finder) where
  join-Touches :
      (from : SocketAddr) (cid : ℕ) (o : ProcessOutcome) (n : Node)
      → Touches create cid n.circuits (join f from cid o n).0.circuits
  unfolding join new_cid
  join-Touches from cid (ProcessOutcome.terminal tag kf kb) n =
      insert-Touches cid _ n.circuits _ refl
        (joins_end _ tag kf kb (record { cid = cid; peer = from }))
  join-Touches from cid (ProcessOutcome.relay tag kf kb next_id next_addr header) n =
      let prev : HopLink = record { cid = cid; peer = from } in
      let next : HopLink = record { cid = n.next_cid; peer = next_addr } in
      let e = CircuitEntry.relay tag kf kb prev next 0 in
      insert-Touches cid e n.circuits _
        (ap (λ x. x.circuits)
          (lookup_route-SameCircuits f next_id (put_entry cid e (new_cid n).1)).rest_of)
        (joins_hop _ tag kf kb prev next)

  module _ (c : Suite) (a : Asym) (identity : NodeIdentity a) where
    create-Touches :
        (from : SocketAddr) (cell : Cell) (n : Node)
        → Touches create cell.cid n.circuits (handle_create f c a identity from cell n).0.circuits
    unfolding handle_create
    create-Touches from cell n =
        let r = collect cell.cid cell.payload n.create_frags in
        let n1 = record n { create_frags = r.1 } in
        elim (Option-cases r.0) [
          | inl e ↦ rw (e, handle_create) (Touches-same create cell.cid n.circuits n.circuits refl)
          | inr (header, e) ↦ elim (Result-cases (process_header c a identity header)) [
            | inr (bad, e') ↦
                rw (e, e', handle_create) (Touches-same create cell.cid n.circuits n.circuits refl)
            | inl (outcome, e') ↦ rw (e, e', handle_create) (join-Touches from cell.cid outcome n1)
          ]
        ]

    relay-Touches :
        (from : SocketAddr) (cell : Cell) (n : Node)
        → Touches relay cell.cid n.circuits (Relay.handle c n from cell).0.circuits
    relay-Touches from cell n = elim (handle-Wrote c n from cell) [
      | inl same ↦ Touches-same relay cell.cid n.circuits _ (ap (λ x. x.circuits) same)
      | inr (x, seq, at_, w) ↦ Wrote-Touches x (count_relayed n) cell.cid seq _ w at_
    ]

    destroy-Touches :
        (from : SocketAddr) (cell : Cell) (n : Node)
        → Touches destroy cell.cid n.circuits (handle_destroy from cell n).0.circuits
    destroy-Touches from cell n =
        rw ((handle_destroy_keeps from cell n).0, lookup-remove_self cell.cid n.circuits)
          (ends _, (λ j ne. ground (arith, lookup-remove cell.cid j n.circuits, ==_iff cell.cid j)))

    dispatch-Touches :
        (cmd : Cmd) (from : SocketAddr) (cell : Cell) (n : Node)
        → Touches cmd cell.cid n.circuits (dispatch f c a identity cmd from cell n).0.circuits
    unfolding dispatch
    dispatch-Touches create from cell n = create-Touches from cell n
    dispatch-Touches created from cell n =
        Touches-same created cell.cid n.circuits _ (handle_created_keeps from cell n).0
    dispatch-Touches destroy from cell n = destroy-Touches from cell n
    dispatch-Touches relay from cell n = relay-Touches from cell n
    dispatch-Touches padding from cell n = Touches-same padding cell.cid n.circuits _ refl

    -- Whatever cell arrives, it touches the circuit of its own id only. A CREATE leaves that
    -- circuit or puts a fresh entry of a hop or a terminal, with number 0, in its place; a DESTROY
    -- ends it; a RELAY leaves it, or raises its last number and changes nothing else of it; CREATED
    -- and PADDING leave it.
    pub handle_cell-Touches :
        (from : SocketAddr) (cell : Cell) (n : Node)
        → Touches cell.cmd cell.cid n.circuits (handle_cell f c a identity from cell n).0.circuits
    unfolding handle_cell
    handle_cell-Touches from cell n = dispatch-Touches cell.cmd from cell n
