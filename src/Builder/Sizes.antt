-- ===== src/Builder/Sizes.antt =====
-- The cells that a node sends (crates/nbf-net/src/node.rs, `handle_cell`; builder.rs,
-- `build_circuit`): each fits a datagram, so that `Cell::encode` does not panic.
use never_been_found.Prelude.{
  ℕ, ◌≤◌, ◌≢◌, refl, inl, inr, Option, Option-cases, none, some, List, [], ◌∷◌, map, length, All,
  Bytes, Result-cases, arith, lookup, nat_eq,
}
use never_been_found.Suite.{Suite}
use never_been_found.Asym.{Asym}
use never_been_found.Addr.{SocketAddr}
use never_been_found.Identity.{NodeIdentity}
use never_been_found.Cell.{Cell, Cmd, create, created, relay, destroy, padding, encode, cell_data}
use never_been_found.Fragment.{fragment, collect}
use never_been_found.Fragment.Pieces.{fragment_short}
use never_been_found.Sphinx.{ProcessOutcome, process_header}
use never_been_found.Node.{Node, HopLink, CircuitEntry, Effect, send, peer_key, wake, push}
use never_been_found.Relay.Sizes.{encode-none_iff}
use never_been_found.Control.{
  notify, handle_created, handle_destroy_sends, created_effects, destroy_effects, created_waited,
  created_passed,
}
use never_been_found.Engine.{Finder, create_cell, join, handle_create, dispatch, handle_cell}
use never_been_found.Builder.{start}
use never_been_found.Builder.Starts.{departed, refused, start-StartsAs}

-- What is sent can be encoded.
abbrev pub IsSendable : Effect → Type 0
IsSendable (send addr cell) = encode cell ≢ none
IsSendable (peer_key addr key) = Unit {0}
IsSendable (wake w) = Unit {0}
IsSendable (push tx d) = Unit {0}

small_cell : (cell : Cell) → length cell.payload ≤ cell_data → encode cell ≢ none
small_cell cell h e = omega (arith, (encode-none_iff cell).0 e)

-- The parts of a header of any size.
creates-IsSendable :
    (addr : SocketAddr) (cid : ℕ) (p : Bytes)
    → All IsSendable (map (λ part. send addr (create_cell cid part)) (fragment p))
creates-IsSendable addr cid p = each (fragment p) (fragment_short p)
  where
    each :
        (parts : List Bytes)
        → All (λ part. length part ≤ cell_data) parts
        → All IsSendable (map (λ part. send addr (create_cell cid part)) parts)
    each [] h = tt
    each (part ∷ parts) h = (small_cell (create_cell cid part) h.0, each parts h.1)

join-IsSendable :
    (f : Finder) (from : SocketAddr) (cid : ℕ) (o : ProcessOutcome) (n : Node)
    → All IsSendable (join f from cid o n).1
unfolding join
join-IsSendable f from cid (ProcessOutcome.terminal tag kf kb) n = (small_cell _ (omega arith), tt)
join-IsSendable f from cid (ProcessOutcome.relay tag kf kb next_id next_addr header) n =
    (tt, creates-IsSendable next_addr _ header)

notify-IsSendable : (cmd : Cmd) (prev : HopLink) → All IsSendable (notify cmd prev)
notify-IsSendable cmd prev = (small_cell _ (omega arith), tt)

created-IsSendable : (e : Option CircuitEntry) → All IsSendable (created_effects e)
created-IsSendable none = tt
created-IsSendable (some (CircuitEntry.origin f b t x s)) = tt
created-IsSendable (some (CircuitEntry.relay t f b prev next l)) = notify-IsSendable created prev
created-IsSendable (some (CircuitEntry.terminal t f b prev l)) = tt

destroy-IsSendable : (e : Option CircuitEntry) → All IsSendable (destroy_effects e)
destroy-IsSendable none = tt
destroy-IsSendable (some (CircuitEntry.origin f b t x s)) = tt
destroy-IsSendable (some (CircuitEntry.relay t f b prev next l)) = notify-IsSendable destroy prev
destroy-IsSendable (some (CircuitEntry.terminal t f b prev l)) = notify-IsSendable destroy prev

module _ (f : Finder) (c : Suite) (a : Asym) where
  module _ (identity : NodeIdentity a) (from : SocketAddr) (cell : Cell) (n : Node) where
    create-IsSendable : All IsSendable (handle_create f c a identity from cell n).1
    unfolding handle_create
    create-IsSendable = elim (Option-cases (collect cell.cid cell.payload n.create_frags).0) [
      | inl e ↦ rw (e, handle_create) tt
      | inr (header, e) ↦ elim (Result-cases (process_header c a identity header)) [
        | inr (bad, e') ↦ rw (e, e', handle_create) tt
        | inl (outcome, e') ↦
            rw (e, e', handle_create)
              (join-IsSendable f from cell.cid outcome
                (record n { create_frags = (collect cell.cid cell.payload n.create_frags).1 }))
      ]
    ]

    created_cell-IsSendable : All IsSendable (handle_created from cell n).1
    created_cell-IsSendable = elim (Option-cases (lookup cell.cid n.pending)) [
      | inl e ↦ rw (created_passed from cell n e) (created-IsSendable (lookup cell.cid n.circuits))
      | inr (tx, e) ↦ rw (created_waited from cell n tx e) (tt, tt)
    ]

    dispatch-IsSendable :
        (cmd : Cmd) → cmd ≢ relay → All IsSendable (dispatch f c a identity cmd from cell n).1
    unfolding dispatch
    dispatch-IsSendable create ne = create-IsSendable
    dispatch-IsSendable created ne = created_cell-IsSendable
    dispatch-IsSendable destroy ne =
        handle_destroy_sends from cell n (All IsSendable)
          (destroy-IsSendable (lookup cell.cid n.circuits))
    dispatch-IsSendable relay ne = absurd (ne refl)
    dispatch-IsSendable padding ne = tt

  start-IsSendable :
      (route : List Bytes) (n : Node) (rng : a.Rng) → All IsSendable ((start f c a route n rng).0).1
  start-IsSendable route n rng = elim (start-StartsAs f c a route n rng) [
    | refused e e' none_sent same ↦ rw none_sent tt
    | departed s e d ↦
        rw d.sends (tt, creates-IsSendable (s.built).first_addr s.cid (s.built).header)
  ]

  -- No cell that a node sends panics in `encode`, whatever arrives and from whom, but for RELAY
  -- cells: not in answer to CREATE, CREATED, DESTROY or PADDING, and not at the start of a circuit,
  -- whatever its route.
  pub sends_fit :
      (identity : NodeIdentity a) (from : SocketAddr) (cell : Cell) (route : List Bytes) (n : Node)
      (rng : a.Rng)
      → cell.cmd ≢ relay
      → All IsSendable (handle_cell f c a identity from cell n).1
        × All IsSendable ((start f c a route n rng).0).1
  unfolding handle_cell
  sends_fit identity from cell route n rng ne =
      (dispatch-IsSendable identity from cell n cell.cmd ne, start-IsSendable route n rng)
