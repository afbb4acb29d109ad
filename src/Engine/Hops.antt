-- ===== src/Engine/Hops.antt =====
-- One node of a route while a circuit is set up (crates/nbf-net/src/node.rs, `handle_create` and
-- `handle_created`).
use never_been_found.Prelude.{
  ℕ, ◌≡◌, ◌≢◌, refl, ap, ◌∙◌, none, some, List, [], ◌∷◌, map, Bytes, ok, append-nil, Map, lookup,
  nat_eq,
}
use never_been_found.Suite.{Suite}
use never_been_found.Asym.{Asym}
use never_been_found.Addr.{SocketAddr, addr_eq_refl, addr_eq_ne}
use never_been_found.Identity.{NodeIdentity}
use never_been_found.Cell.{Cell}
use never_been_found.Fragment.{FragBuf, fragment, collect}
use never_been_found.Fragment.Ordered.{Gathers, last, more}
use never_been_found.Sphinx.{ProcessOutcome, process_header}
use never_been_found.Node.{Node, CircuitEntry, Effect, send, peer_key, new_cid}
use never_been_found.Relay.Trip.{Station}
use never_been_found.Control.{created_passed}
use never_been_found.Engine.{
  Finder, create_cell, created_cell, put_entry, join, handle_create, dispatch, handle_cell,
}
use never_been_found.Engine.Routes.{SameCircuits, lookup_route-SameCircuits}
use never_been_found.Engine.Opening.{Joiner, bound_for, cells_to, go_back, handle_all, open_route}

abbrev pub hop_entry : Bytes → Bytes → Bytes → SocketAddr → ℕ → SocketAddr → ℕ → CircuitEntry
hop_entry tag kf kb from cid next out =
    CircuitEntry.relay tag kf kb (record { cid = cid; peer = from })
      (record { cid = out; peer = next }) 0

abbrev pub end_entry : Bytes → Bytes → Bytes → SocketAddr → ℕ → CircuitEntry
end_entry tag kf kb from cid = CircuitEntry.terminal tag kf kb (record { cid = cid; peer = from }) 0

module _ (f : Finder) (c : Suite) (a : Asym) where
  pub create_last :
      (id : NodeIdentity a) (from : SocketAddr) (cid : ℕ) (part header : Bytes) (n : Node)
      (m : Map ℕ FragBuf) (o : ProcessOutcome)
      → collect cid part n.create_frags ≡ (some header, m)
      → process_header c a id header ≡ ok o
      → handle_cell f c a id from (create_cell cid part) n
        ≡ join f from cid o (record n { create_frags = m })
  unfolding handle_cell dispatch handle_create
  create_last id from cid part header n m o e e' =
      rw (e, e', handle_create) (ap (λ r. join f from cid o (record n { create_frags = r.1 })) e)

  pub create_more :
      (id : NodeIdentity a) (from : SocketAddr) (cid : ℕ) (part : Bytes) (n : Node)
      (m : Map ℕ FragBuf)
      → collect cid part n.create_frags ≡ (none, m)
      → handle_cell f c a id from (create_cell cid part) n ≡ (record n { create_frags = m }, [])
  unfolding handle_cell dispatch handle_create
  create_more id from cid part n m e =
      rw (e, handle_create)
        (ap {B = Node × List Effect} (λ r. (record n { create_frags = r.1 }, [])) e)

  -- The parts of a header that opens make the node act once, at the last one.
  pub create_all :
      (id : NodeIdentity a) (from : SocketAddr) (cid : ℕ) (header : Bytes) (o : ProcessOutcome)
      {parts : List Bytes} {m : Map ℕ FragBuf} (n : Node)
      → process_header c a id header ≡ ok o
      → Gathers header cid parts m
      → n.create_frags ≡ m
      → (m' : Map ℕ FragBuf) × (handle_all f c a id from (map (create_cell cid) parts) n
          ≡ join f from cid o (record n { create_frags = m' }))
  unfolding handle_all
  create_all id from cid header o n opens (last {f = part} m' e) same = (
    m',
    rw (create_last id from cid part header n m' o (ap (collect cid part) same ∙ e) opens) (
        ap {B = Node × List Effect}
          (λ es. ((join f from cid o (record n { create_frags = m' })).0, es))
          (append-nil (join f from cid o (record n { create_frags = m' })).1)),
  )
  create_all id from cid header o n opens (more {f = part} m' e later) same =
      let (m'', r) =
        create_all id from cid header o (record n { create_frags = m' }) opens later refl in
      (m'', rw (create_more id from cid part n m' (ap (collect cid part) same ∙ e)) r)

  pub join-hop :
      (from : SocketAddr) (cid : ℕ) (tag kf kb next_id : Bytes) (next : SocketAddr) (header : Bytes)
      (n : Node)
      → let r = join f from cid (ProcessOutcome.relay tag kf kb next_id next header) n in
        SameCircuits
          (put_entry cid (hop_entry tag kf kb from cid next n.next_cid) (new_cid n).1)
          r.0
        × (key : Bytes) × (r.1
            ≡ peer_key next key
              ∷ map (λ part. send next (create_cell n.next_cid part)) (fragment header))
  unfolding join new_cid
  join-hop from cid tag kf kb next_id next header n =
      (lookup_route-SameCircuits f next_id _, _, refl)

  pub open_end :
      (j : Joiner a) (js : List (Joiner a)) (from : SocketAddr) (cells : List Cell) (n : Node)
      (out : Cell)
      → handle_all f c a j.identity from cells j.node ≡ (n, send from out ∷ [])
      → open_route f c a (j ∷ js) j.addr from cells
        ≡ some (record { addr = j.addr; node = n } ∷ [], out ∷ [])
  unfolding open_route cells_to
  open_end j js from cells n out e = rw (addr_eq_refl j.addr, e, addr_eq_refl from)

  pub open_hop :
      (j : Joiner a) (js : List (Joiner a)) (from next : SocketAddr) (cells back : List Cell)
      (n n' : Node) (es es' : List Effect) (rest : List Station)
      → handle_all f c a j.identity from cells j.node ≡ (n, es)
      → bound_for es ≡ some next
      → next ≢ from
      → open_route f c a js next j.addr (cells_to next es) ≡ some (rest, back)
      → handle_all f c a j.identity next back n ≡ (n', es')
      → open_route f c a (j ∷ js) j.addr from cells
        ≡ some (record { addr = j.addr; node = n' } ∷ rest, cells_to from es')
  unfolding open_route
  open_hop j js from next cells back n n' es es' rest e b ne later e' =
      rw (addr_eq_refl j.addr, e, b, addr_eq_ne next from ne)
        (ap (go_back f c a j from next n) later ∙ rw e')

  pub join-end :
      (from : SocketAddr) (cid : ℕ) (tag kf kb : Bytes) (n : Node)
      → join f from cid (ProcessOutcome.terminal tag kf kb) n
        ≡ (put_entry cid (end_entry tag kf kb from cid) n, send from (created_cell cid) ∷ [])
  unfolding join
  join-end from cid tag kf kb n = refl

  -- A hop passes CREATED on.
  pub created_back :
      (id : NodeIdentity a) (next from : SocketAddr) (cid : ℕ) (tag kf kb : Bytes) (n : Node)
      → lookup cid n.pending ≡ none
      → lookup cid n.circuits ≡ some (hop_entry tag kf kb from cid next cid)
      → handle_all f c a id next (created_cell cid ∷ []) n ≡ (n, send from (created_cell cid) ∷ [])
  unfolding handle_all handle_cell dispatch
  created_back id next from cid tag kf kb n p e = rw (created_passed next (created_cell cid) n p, e)
