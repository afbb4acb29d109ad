-- ===== src/Control.antt =====
-- CREATED and DESTROY at a node (crates/nbf-net/src/node.rs, `handle_created` and
-- `handle_destroy`). Neither looks at the sender.
use never_been_found.Prelude.{
  ℕ, ◌≡◌, ◌≢◌, refl, ap, Option, Option-cases, inl, inr, none, some, List, [], ◌∷◌, arith, lookup,
  remove, nat_eq, lookup-remove, lookup-remove_self,
}
use never_been_found.Addr.{SocketAddr}
use never_been_found.Cell.{Cell, Cmd}
use never_been_found.Node.{
  Node, HopLink, CircuitEntry, origin, relay, terminal, Effect, send, wake, bump,
}

-- A cell without payload to the predecessor, under its id.
abbrev pub notify : Cmd → HopLink → List Effect
notify cmd prev =
    send prev.peer (record { cid = prev.cid; cmd = cmd; flags = 0; payload = [] }) ∷ []

-- Only a hop in the middle passes CREATED on.
abbrev pub created_effects : Option CircuitEntry → List Effect
created_effects none = []
created_effects (some (origin f b t x s)) = []
created_effects (some (relay t f b prev next l)) = notify Cmd.created prev
created_effects (some (terminal t f b prev l)) = []

pub handle_created : SocketAddr → Cell → Node → Node × List Effect
handle_created from cell n = elim (lookup cell.cid n.pending) [
  | some tx ↦ (record n { pending = remove cell.cid n.pending }, wake tx ∷ [])
  | none ↦ (n, created_effects (lookup cell.cid n.circuits))
]

abbrev pub destroy_effects : Option CircuitEntry → List Effect
destroy_effects none = []
destroy_effects (some (origin f b t x s)) = []
destroy_effects (some (relay t f b prev next l)) = notify Cmd.destroy prev
destroy_effects (some (terminal t f b prev l)) = notify Cmd.destroy prev

pub handle_destroy : SocketAddr → Cell → Node → Node × List Effect
handle_destroy from cell n = (
  record n {
    circuits = remove cell.cid n.circuits;
    stats = record n.stats { destroyed = bump n.stats.destroyed };
  },
  destroy_effects (lookup cell.cid n.circuits),
)

pub handle_destroy_keeps :
    (from : SocketAddr) (cell : Cell) (n : Node)
    → ((handle_destroy from cell n).0.circuits ≡ remove cell.cid n.circuits)
      × ((handle_destroy from cell n).0.dht ≡ n.dht)
unfolding handle_destroy
handle_destroy_keeps from cell n = (refl, refl)

pub handle_destroy_sends :
    (from : SocketAddr) (cell : Cell) (n : Node) (P : List Effect → Type 0)
    → P (destroy_effects (lookup cell.cid n.circuits))
    → P (handle_destroy from cell n).1
unfolding handle_destroy
handle_destroy_sends from cell n P h = h

-- A DESTROY removes its circuit and no other, whatever it was; sent again it does nothing but
-- count.
pub handle_destroy_gone :
    (from again : SocketAddr) (cell : Cell) (n : Node)
    → let n' = (handle_destroy from cell n).0 in
      (lookup cell.cid n'.circuits ≡ none)
      × ((j : ℕ) → cell.cid ≢ j → lookup j n'.circuits ≡ lookup j n.circuits)
      × ((handle_destroy again cell n').1 ≡ [])
unfolding handle_destroy
handle_destroy_gone from again cell n = (
  lookup-remove_self cell.cid n.circuits,
  λ j ne. ground (arith, lookup-remove cell.cid j n.circuits),
  ap destroy_effects (lookup-remove_self cell.cid n.circuits),
)

pub created_waited :
    (from : SocketAddr) (cell : Cell) (n : Node) (tx : ℕ)
    → lookup cell.cid n.pending ≡ some tx
    → handle_created from cell n ≡ (record n { pending = remove cell.cid n.pending }, wake tx ∷ [])
unfolding handle_created
created_waited from cell n tx e = rw (e, handle_created)

pub created_passed :
    (from : SocketAddr) (cell : Cell) (n : Node)
    → lookup cell.cid n.pending ≡ none
    → handle_created from cell n ≡ (n, created_effects (lookup cell.cid n.circuits))
unfolding handle_created
created_passed from cell n e = rw (e, handle_created)

pub handle_created_keeps :
    (from : SocketAddr) (cell : Cell) (n : Node)
    → ((handle_created from cell n).0.circuits ≡ n.circuits)
      × ((handle_created from cell n).0.dht ≡ n.dht)
handle_created_keeps from cell n = elim (Option-cases (lookup cell.cid n.pending)) [
  | inl e ↦ rw (created_passed from cell n e) (refl, refl)
  | inr (tx, e) ↦ rw (created_waited from cell n tx e) (refl, refl)
]

-- A waiter for CREATED is woken once, which changes no circuit: the same cell, sent again, wakes no
-- one and goes the way of a CREATED that nobody waits for.
pub handle_created_once :
    (from again : SocketAddr) (cell : Cell) (n : Node) (tx : ℕ)
    → lookup cell.cid n.pending ≡ some tx
    → let r = handle_created from cell n in
      (r.1 ≡ wake tx ∷ [])
      × ((r.0).circuits ≡ n.circuits)
      × ((handle_created again cell r.0).1 ≡ created_effects (lookup cell.cid n.circuits))
handle_created_once from again cell n tx e = rw (created_waited from cell n tx e) (
  refl,
  refl,
  ap (λ r. r.1)
      (created_passed again cell (record n { pending = remove cell.cid n.pending })
        (lookup-remove_self cell.cid n.pending)),
)
