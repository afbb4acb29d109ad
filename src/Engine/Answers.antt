-- ===== src/Engine/Answers.antt =====
-- What comes back to a hop that has passed CREATE on (crates/nbf-net/src/node.rs, `handle_create`,
-- and the handlers of CREATED, RELAY and DESTROY).
use never_been_found.Prelude.{
  ℕ, ◌≡◌, ◌≢◌, refl, ap, ◌∙◌, none, some, [], ◌∷◌, map, Bytes, ok, arith, Map, lookup, insert,
  nat_eq, lookup-insert, lookup-insert_self,
}
use never_been_found.Suite.{Suite}
use never_been_found.Asym.{Asym}
use never_been_found.Addr.{SocketAddr}
use never_been_found.Identity.{NodeIdentity}
use never_been_found.Fragment.{fragment}
use never_been_found.Fragment.Pieces.{Fits}
use never_been_found.Fragment.Ordered.{fragment-Gathers}
use never_been_found.Sphinx.{ProcessOutcome, process_header}
use never_been_found.Node.{Node, CircuitEntry, send, peer_key, new_cid}
use never_been_found.Relay.{relay_cell}
use never_been_found.Relay.Hop.{no_circuit}
use never_been_found.Control.{
  created_effects, created_passed, destroy_effects, handle_destroy_sends,
}
use never_been_found.Engine.{Finder, create_cell, created_cell, join, dispatch, handle_cell}
use never_been_found.Engine.Opening.{handle_all}
use never_been_found.Engine.Hops.{create_all, hop_entry, join-hop}
use never_been_found.Builder.{destroy_cell}

lookup-insert_ne :
    (cid j : ℕ) (e : CircuitEntry) (m : Map ℕ CircuitEntry)
    → cid ≢ j
    → lookup j m ≡ none
    → lookup j (insert cid e m) ≡ none
lookup-insert_ne cid j e m ne h = ground (arith, lookup-insert cid j e m)

-- Nobody waits for the id, and no circuit has it.
record Unused (cid : ℕ) (n : Node) : Type 0 where
  no_waiter : lookup cid n.pending ≡ none
  no_entry : lookup cid n.circuits ≡ none

module _ (f : Finder) (c : Suite) (a : Asym) where
  -- Cells under an id that is not used.
  Unused-created :
      (id : NodeIdentity a) (from : SocketAddr) (cid : ℕ) (n : Node)
      → Unused cid n
      → handle_cell f c a id from (created_cell cid) n ≡ (n, [])
  unfolding handle_cell dispatch
  Unused-created id from cid n v =
      created_passed from (created_cell cid) n v.no_waiter
      ∙ ap (λ x. (n, created_effects x)) v.no_entry

  Unused-relay :
      (id : NodeIdentity a) (from : SocketAddr) (cid : ℕ) (payload : Bytes) (n : Node)
      → Unused cid n
      → handle_cell f c a id from (relay_cell cid payload) n ≡ (n, [])
  unfolding handle_cell dispatch
  Unused-relay id from cid payload n v = no_circuit c n from cid payload v.no_entry

  Unused-destroy :
      (id : NodeIdentity a) (from : SocketAddr) (cid : ℕ) (n : Node)
      → Unused cid n
      → (handle_cell f c a id from (destroy_cell cid) n).1 ≡ []
  unfolding handle_cell dispatch
  Unused-destroy id from cid n v =
      handle_destroy_sends from (destroy_cell cid) n (λ es. es ≡ []) (ap destroy_effects v.no_entry)

  -- Let a node get all parts of a header as CREATE cells, with no buffer for their id, and let the
  -- header name a next node, and the id that the node takes next be another one, for which nobody
  -- waits and of which there is no circuit. The node joins the circuit, and passes CREATE on under
  -- the new id. Every answer under this id is lost: CREATED and RELAY leave the node as it is, and it
  -- sends nothing, nor does it for DESTROY.
  pub answers_lost :
      (id : NodeIdentity a) (from next : SocketAddr) (cid : ℕ)
      (header tag k_fwd k_bwd next_id out payload : Bytes) (n : Node)
      → Fits header
      → lookup cid n.create_frags ≡ none
      → process_header c a id header ≡ ok (ProcessOutcome.relay tag k_fwd k_bwd next_id next out)
      → cid ≢ n.next_cid
      → lookup n.next_cid n.pending ≡ none
      → lookup n.next_cid n.circuits ≡ none
      → let r = handle_all f c a id from (map (create_cell cid) (fragment header)) n in
        (lookup cid (r.0).circuits ≡ some (hop_entry tag k_fwd k_bwd from cid next n.next_cid))
        × ((key : Bytes) × (r.1
              ≡ peer_key next key
                ∷ map (λ part. send next (create_cell n.next_cid part)) (fragment out)))
        × (handle_cell f c a id next (created_cell n.next_cid) r.0 ≡ (r.0, []))
        × (handle_cell f c a id next (relay_cell n.next_cid payload) r.0 ≡ (r.0, []))
        × ((handle_cell f c a id next (destroy_cell n.next_cid) r.0).1 ≡ [])
  unfolding new_cid
  answers_lost id from next cid header tag k_fwd k_bwd next_id out payload n fits fresh opens ne
        no_waiter no_entry =
      let o = ProcessOutcome.relay tag k_fwd k_bwd next_id next out in
      let (m, r) =
        create_all f c a id from cid header o n opens
          (fragment-Gathers header cid fits n.create_frags fresh) refl in
      let n0 = record n { create_frags = m } in
      let (same, key, sent) = join-hop f c a from cid tag k_fwd k_bwd next_id next out n0 in
      let unused : Unused n.next_cid (join f from cid o n0).0 = record {
        no_waiter = ap (λ x. lookup n.next_cid x.pending) same.rest_of ∙ no_waiter;
        no_entry =
            ap (λ x. lookup n.next_cid x.circuits) same.rest_of
            ∙ lookup-insert_ne cid n.next_cid _ n.circuits ne no_entry;
      } in
      rw r (
        ap (λ x. lookup cid x.circuits) same.rest_of ∙ lookup-insert_self cid _ n.circuits,
        (key, sent),
        Unused-created id next n.next_cid _ unused,
        Unused-relay id next n.next_cid payload _ unused,
        Unused-destroy id next n.next_cid _ unused,
      )
