-- ===== src/Engine/Filed.antt =====
-- Every circuit of a node is filed under its own id, whatever cells arrive
-- (crates/nbf-net/src/node.rs, `handle_cell`).
use never_been_found.Prelude.{
  ℕ, ◌≡◌, refl, sym, ap, subst, ◌∙◌, inl, inr, Option, some, Option-cases, Bytes, Result-cases,
  arith, ==_iff, Map, lookup, insert, remove, nat_eq, bytes_eq_inst, lookup-insert, lookup-remove,
  eq_or_ne,
}
use never_been_found.Suite.{Suite}
use never_been_found.Asym.{Asym}
use never_been_found.Addr.{SocketAddr}
use never_been_found.Identity.{NodeIdentity}
use never_been_found.Descriptor.{Descriptor}
use never_been_found.Cell.{Cell, Cmd}
use never_been_found.Fragment.{collect}
use never_been_found.Sphinx.{ProcessOutcome, process_header}
use never_been_found.Node.{Node, CircuitEntry, new_cid}
use never_been_found.Relay.{parse_relay, update_entry, count_relayed}
use never_been_found.Relay
use never_been_found.Relay.Replays.{own_cid, Wrote, nothing, number, handle-Wrote, update_entry_put}
use never_been_found.Control.{
  handle_created, handle_created_keeps, handle_destroy, handle_destroy_keeps,
}
use never_been_found.Engine.{
  Finder, spawned, lookup_route, join, handle_create, dispatch, handle_cell,
}

abbrev pub IsFiled : Map ℕ CircuitEntry → Type 0
IsFiled m = (j : ℕ) (e : CircuitEntry) → lookup j m ≡ some e → own_cid e ≡ j

pub same_entry : (x y : CircuitEntry) → ◌≡◌ {A = Option CircuitEntry} (some x) (some y) → x ≡ y
same_entry x y e = cc

pub insert-IsFiled :
    (cid : ℕ) (x : CircuitEntry) (m : Map ℕ CircuitEntry)
    → own_cid x ≡ cid
    → IsFiled m
    → IsFiled (insert cid x m)
insert-IsFiled cid x m own h j e found = elim (eq_or_ne cid j) [
  | inl here ↦
      ap own_cid (
        sym (same_entry x e (sym (lookup-insert cid j x m ∙ ground (arith, ==_iff cid j)) ∙ found)))
      ∙ own
      ∙ here
  | inr ne ↦ h j e (sym (lookup-insert cid j x m ∙ ground (arith, ==_iff cid j)) ∙ found)
]

pub remove-IsFiled : (cid : ℕ) (m : Map ℕ CircuitEntry) → IsFiled m → IsFiled (remove cid m)
remove-IsFiled cid m h j e found = h j e (ground (arith, lookup-remove cid j m))

pub spawned-IsFiled : (id : Bytes) (own_desc : Descriptor) → IsFiled (spawned id own_desc).circuits
unfolding spawned lookup
spawned-IsFiled id own_desc j e h = cc

Wrote-IsFiled :
    (e : CircuitEntry) (n : Node) (cid seq : ℕ) (n' : Node)
    → Wrote e n cid seq n'
    → lookup cid n.circuits ≡ some e
    → IsFiled n.circuits
    → IsFiled n'.circuits × (n'.dht ≡ n.dht)
Wrote-IsFiled e n cid seq n' (nothing same) at v = rw same (v, refl)
Wrote-IsFiled e n cid seq n' (number fresh f at_f is keeps same) at v =
    rw (same, update_entry_put cid f n e at)
      (insert-IsFiled cid (f e) n.circuits (keeps e ∙ v cid e at) v, refl)

module _ (f : Finder) where
  -- What every cell keeps of a node: each circuit is filed under the id of the link its cells come
  -- in by, and the routing table is what the search keeps it to be.
  abbrev pub IsSound : Node → Type 0
  IsSound n = IsFiled n.circuits × f.IsGood n.dht

  pub lookup_route-IsSound :
      (target : Bytes) (n : Node) → IsSound n → IsSound (lookup_route f target n).1
  unfolding lookup_route
  lookup_route-IsSound target n (v, g) = elim (Option-cases (lookup target n.dht_cache)) [
    | inr (d, e) ↦ rw (e, lookup_route) (v, g)
    | inl e ↦ elim (Option-cases (lookup target (n.dht).stored)) [
      | inr (d, e') ↦ rw (e, e', lookup_route) (v, g)
      | inl e' ↦ elim (Option-cases (f.search_for target n.dht).0) [
        | inr (d, e'') ↦ rw (e, e', e'', lookup_route) (v, f.search_for-IsGood target n.dht g)
        | inl e'' ↦ rw (e, e', e'', lookup_route) (v, f.search_for-IsGood target n.dht g)
      ]
    ]
  ]

  join-IsSound :
      (from : SocketAddr) (cid : ℕ) (o : ProcessOutcome) (n : Node)
      → IsSound n
      → IsSound (join f from cid o n).0
  unfolding join new_cid
  join-IsSound from cid (ProcessOutcome.terminal tag kf kb) n (v, g) =
      (insert-IsFiled cid _ n.circuits refl v, g)
  join-IsSound from cid (ProcessOutcome.relay tag kf kb next_id next_addr header) n (v, g) =
      lookup_route-IsSound next_id _ (insert-IsFiled cid _ n.circuits refl v, g)

  module _ (c : Suite) (a : Asym) (identity : NodeIdentity a) where
    create-IsSound :
        (from : SocketAddr) (cell : Cell) (n : Node)
        → IsSound n
        → IsSound (handle_create f c a identity from cell n).0
    unfolding handle_create
    create-IsSound from cell n v =
        elim (Option-cases (collect cell.cid cell.payload n.create_frags).0) [
          | inl e ↦ rw (e, handle_create) v
          | inr (header, e) ↦ elim (Result-cases (process_header c a identity header)) [
            | inr (bad, e') ↦ rw (e, e', handle_create) v
            | inl (outcome, e') ↦
                rw (e, e', handle_create)
                  (join-IsSound from cell.cid outcome
                    (record n { create_frags = (collect cell.cid cell.payload n.create_frags).1 })
                    v)
          ]
        ]

    relay-IsSound :
        (from : SocketAddr) (cell : Cell) (n : Node)
        → IsSound n
        → IsSound (Relay.handle c n from cell).0
    relay-IsSound from cell n (v, g) = elim (handle-Wrote c n from cell) [
      | inl same ↦ rw same (v, g)
      | inr (x, seq, at, w) ↦
          let (v', d) = Wrote-IsFiled x (count_relayed n) cell.cid seq _ w at v in
          (v', subst (λ t. f.IsGood t) (sym d) g)
    ]

    created-IsSound :
        (from : SocketAddr) (cell : Cell) (n : Node)
        → IsSound n
        → IsSound (handle_created from cell n).0
    created-IsSound from cell n (v, g) =
        let (same, d) = handle_created_keeps from cell n in rw (same, d) (v, g)

    destroy-IsSound :
        (from : SocketAddr) (cell : Cell) (n : Node)
        → IsSound n
        → IsSound (handle_destroy from cell n).0
    destroy-IsSound from cell n (v, g) =
        let (same, d) = handle_destroy_keeps from cell n in
        rw (same, d) (remove-IsFiled cell.cid n.circuits v, g)

    dispatch-IsSound :
        (cmd : Cmd) (from : SocketAddr) (cell : Cell) (n : Node)
        → IsSound n
        → IsSound (dispatch f c a identity cmd from cell n).0
    unfolding dispatch
    dispatch-IsSound Cmd.create from cell n v = create-IsSound from cell n v
    dispatch-IsSound Cmd.created from cell n v = created-IsSound from cell n v
    dispatch-IsSound Cmd.destroy from cell n v = destroy-IsSound from cell n v
    dispatch-IsSound Cmd.relay from cell n v = relay-IsSound from cell n v
    dispatch-IsSound Cmd.padding from cell n v = v

    -- one cell
    pub handle_cell-IsSound :
        (from : SocketAddr) (cell : Cell) (n : Node)
        → IsSound n
        → IsSound (handle_cell f c a identity from cell n).0
    unfolding handle_cell
    handle_cell-IsSound from cell n v = dispatch-IsSound cell.cmd from cell n v
