-- ===== src/Engine/Joining.antt =====
-- A circuit is set up (crates/nbf-net/src/node.rs, `handle_create` and `handle_created` at each
-- node of a route).
use never_been_found.Prelude.{
  ℕ, ◌≤◌, ◌≡◌, ◌≢◌, refl, ap, subst, ◌∙◌, none, some, List, [], ◌∷◌, map, length, Bytes, ok, arith,
  lookup, nat_eq, lookup-insert_self,
}
use never_been_found.Suite.{Suite}
use never_been_found.Asym.{Asym}
use never_been_found.Addr.{SocketAddr}
use never_been_found.Identity.{NodeIdentity}
use never_been_found.Descriptor.{Descriptor}
use never_been_found.Fragment.{fragment}
use never_been_found.Fragment.Pieces.{Fits}
use never_been_found.Fragment.Ordered.{fragment-Gathers}
use never_been_found.Sphinx.{ProcessOutcome, process_header, first_addr_of, max_hops}
use never_been_found.Sphinx.Walk.{Walk}
use never_been_found.Node.{new_cid}
use never_been_found.Relay.Trip.{Station, OnRoute, at_end, at_hop}
use never_been_found.Engine.{Finder, create_cell, created_cell, join}
use never_been_found.Engine.Opening.{
  Joiner, bound_for, cells_to, cells_to-sends, cells_to-key, cells_to-one, open_route,
}
use never_been_found.Engine.Hops.{
  create_all, created_back, end_entry, hop_entry, join-end, join-hop, open_end, open_hop,
}

-- The node of a descriptor, where CREATE finds no buffer for the id.
pub record CanEnd (a : Asym) (cid : ℕ) (j : Joiner a) (d : Descriptor) : Type 0 where
  pub own_addr : j.addr ≡ d.cell_addr
  pub no_buffer : lookup cid (j.node).create_frags ≡ none

-- Where there is a next node, too: it is another one than the last, it will get the same id, and
-- nothing waits for a CREATED of that id.
pub record CanPass (a : Asym) (cid : ℕ) (from : SocketAddr) (j : Joiner a) (d nd : Descriptor)
    : Type 0 where
  pub ends : CanEnd a cid j d
  pub same_id : (j.node).next_cid ≡ cid
  pub no_waiter : lookup cid (j.node).pending ≡ none
  pub apart : nd.cell_addr ≢ from

pub data Ready (a : Asym) (cid : ℕ)
    : SocketAddr → List (Joiner a) → List (NodeIdentity a) → List Descriptor → Type 0 where
  ready_end :
      {from : SocketAddr} {j : Joiner a} {d : Descriptor}
      → CanEnd a cid j d
      → Ready a cid from (j ∷ []) (j.identity ∷ []) (d ∷ [])
  ready_hop :
      {from : SocketAddr} {j : Joiner a} {js : List (Joiner a)} {is : List (NodeIdentity a)}
      {d nd : Descriptor} {ds : List Descriptor}
      → CanPass a cid from j d nd
      → Ready a cid j.addr js is (nd ∷ ds)
      → Ready a cid from (j ∷ js) (j.identity ∷ is) (d ∷ nd ∷ ds)

-- What the nodes of a route become, and what the origin gets back.
abbrev pub Opened :
    Finder
    → (c : Suite) → (a : Asym) → Bytes
    → ℕ
    → ℕ
    → SocketAddr
    → List (Joiner a)
    → SocketAddr
    → Bytes
    → List Bytes
    → List Bytes
    → Type 0
Opened f c a tag cid seq from js to header fwd bwd =
    (ss : List Station) × (open_route f c a js to from (map (create_cell cid) (fragment header))
      ≡ some (ss, created_cell cid ∷ []))
    × OnRoute tag cid seq from to ss fwd bwd

module _ (f : Finder) (c : Suite) (a : Asym) (tag : Bytes) (cid seq : ℕ) (positive : 1 ≤ seq) where
  Opened-end :
      (from : SocketAddr) (j : Joiner a) (d : Descriptor) (header kf kb : Bytes)
      → CanEnd a cid j d
      → Fits header
      → process_header c a j.identity header ≡ ok (ProcessOutcome.terminal tag kf kb)
      → Opened f c a tag cid seq from (j ∷ []) d.cell_addr header (kf ∷ []) (kb ∷ [])
  Opened-end from j d header kf kb v fits opens =
      let (m, r) =
        create_all f c a j.identity from cid header _ j.node opens
          (fragment-Gathers header cid fits (j.node).create_frags v.no_buffer) refl in
      subst (λ to. Opened f c a tag cid seq from (j ∷ []) to header (kf ∷ []) (kb ∷ [])) v.own_addr
        (
          _,
          open_end f c a j [] from _ _ _ (r ∙ join-end f c a from cid tag kf kb _),
          at_end 0 (lookup-insert_self cid (end_entry tag kf kb from cid) (j.node).circuits)
              positive,
        )

  Opened-hop :
      (from : SocketAddr) (j : Joiner a) (js : List (Joiner a)) (d nd : Descriptor)
      (header next kf kb : Bytes) (fwd bwd : List Bytes)
      → CanPass a cid from j d nd
      → Fits header
      → process_header c a j.identity header
        ≡ ok (ProcessOutcome.relay tag kf kb nd.node_id nd.cell_addr next)
      → Opened f c a tag cid seq j.addr js nd.cell_addr next fwd bwd
      → Opened f c a tag cid seq from (j ∷ js) d.cell_addr header (kf ∷ fwd) (kb ∷ bwd)
  unfolding new_cid
  Opened-hop from j js d nd header next kf kb fwd bwd v fits opens (ss, later, route) =
      let to = nd.cell_addr in
      let o = ProcessOutcome.relay tag kf kb nd.node_id to next in
      let (m, r) =
        create_all f c a j.identity from cid header o j.node opens
          (fragment-Gathers header cid fits (j.node).create_frags (v.ends).no_buffer) refl in
      let n0 = record j.node { create_frags = m } in
      let n1 = (join f from cid o n0).0 in
      let (same, key, sent) = join-hop f c a from cid tag kf kb nd.node_id to next n0 in
      let st : Station = record { addr = j.addr; node = n1 } in
      let held : lookup cid n1.circuits ≡ some (hop_entry tag kf kb from cid to cid) =
        ap (λ x. lookup cid x.circuits) same.rest_of
        ∙ lookup-insert_self cid _ (j.node).circuits
        ∙ ap (λ k. some (hop_entry tag kf kb from cid to k)) v.same_id in
      let out : cells_to to (join f from cid o n0).1 ≡ map (create_cell cid) (fragment next) =
        ap (cells_to to) sent
        ∙ cells_to-key to key _
        ∙ cells_to-sends to (j.node).next_cid (fragment next)
        ∙ ap (λ k. map (create_cell k) (fragment next)) v.same_id in
      let back =
        created_back f c a j.identity to from cid tag kf kb n1
          (ap (λ x. lookup cid x.pending) same.rest_of ∙ v.no_waiter) held in
      subst (λ at. Opened f c a tag cid seq from (j ∷ js) at header (kf ∷ fwd) (kb ∷ bwd))
        (v.ends).own_addr
        (
          _,
          open_hop f c a j js from to _ (created_cell cid ∷ []) n1 n1 _ _ ss r (ap bound_for sent)
                v.apart (ap (open_route f c a js to j.addr) out ∙ later) back
              ∙ ap (λ cs. some (st ∷ ss, cs)) (cells_to-one from (created_cell cid)),
          at_hop {s = st} 0 held positive v.apart route,
        )

  -- Let a header walk down a route of at most 5 nodes. Let each node of it be at the address of its
  -- descriptor and have no buffer for the id of the circuit, and let each but the last one use that
  -- id for its next link too, wait for no CREATED of it, and have two different neighbours. On a
  -- network that loses nothing and keeps the order, the parts of the header, sent to the first node
  -- as CREATE cells, make every node join: all are set up for the circuit with the keys of the
  -- walk, for every number from 1 on, and exactly one cell, CREATED under the same id, comes back.
  pub circuit_opens :
      {from : SocketAddr} {js : List (Joiner a)} {is : List (NodeIdentity a)} {ds : List Descriptor}
      {header : Bytes} {fwd bwd : List Bytes}
      → length ds ≤ max_hops
      → Ready a cid from js is ds
      → Walk c a tag is ds header fwd bwd
      → Opened f c a tag cid seq from js (first_addr_of ds) header fwd bwd
  circuit_opens short (ready_end v) (Walk.at_end size opens) =
      Opened-end _ _ _ _ _ _ v (omega (arith, size)) opens
  circuit_opens short (ready_hop v r) (Walk.at_hop next size opens w) =
      Opened-hop _ _ _ _ _ _ next _ _ _ _ v (omega (arith, size, short)) opens
        (circuit_opens (omega (arith, short)) r w)
