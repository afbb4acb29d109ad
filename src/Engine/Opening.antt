-- ===== src/Engine/Opening.antt =====
-- CREATE on its way down a route and CREATED on its way back (crates/nbf-net/src/node.rs,
-- `handle_cell` at each node of the route). `open_route` stands for a network that delivers cells
-- in order, each to the node at its address.
use never_been_found.Prelude.{
  ℕ, ◌≡◌, refl, ap, map, Option, none, some, List, [], ◌∷◌, ◌++◌, Bytes, if◌then◌else◌,
}
use never_been_found.Suite.{Suite}
use never_been_found.Asym.{Asym}
use never_been_found.Addr.{SocketAddr, addr_eq, addr_eq_refl}
use never_been_found.Identity.{NodeIdentity}
use never_been_found.Cell.{Cell}
use never_been_found.Node.{Node, Effect, send, peer_key, wake, push}
use never_been_found.Relay.Trip.{Station}
use never_been_found.Engine.{Finder, create_cell, handle_cell}

-- A node at its address, with its keys.
pub record Joiner (a : Asym) : Type 0 where
  pub addr : SocketAddr
  pub identity : NodeIdentity a
  pub node : Node

abbrev pub keep_to : SocketAddr → SocketAddr → Cell → List Cell → List Cell
keep_to to addr cell rest = if addr_eq addr to then cell ∷ rest else rest

-- The cells for one address, in the order in which they were sent.
unfoldable pub cells_to : SocketAddr → List Effect → List Cell
cells_to to [] = []
cells_to to (send addr cell ∷ es) = keep_to to addr cell (cells_to to es)
cells_to to (peer_key addr key ∷ es) = cells_to to es
cells_to to (wake w ∷ es) = cells_to to es
cells_to to (push tx d ∷ es) = cells_to to es

pub cells_to-sends :
    (to : SocketAddr) (cid : ℕ) (parts : List Bytes)
    → cells_to to (map (λ part. send to (create_cell cid part)) parts) ≡ map (create_cell cid) parts
unfolding cells_to
cells_to-sends to cid [] = refl
cells_to-sends to cid (part ∷ parts) =
    rw (addr_eq_refl to) (ap (λ cs. create_cell cid part ∷ cs) (cells_to-sends to cid parts))

pub cells_to-key :
    (to : SocketAddr) (key : Bytes) (es : List Effect)
    → cells_to to (peer_key to key ∷ es) ≡ cells_to to es
unfolding cells_to
cells_to-key to key es = refl

pub cells_to-one : (to : SocketAddr) (cell : Cell) → cells_to to (send to cell ∷ []) ≡ cell ∷ []
unfolding cells_to
cells_to-one to cell = rw (addr_eq_refl to)

-- Where the first of the effects goes.
abbrev pub bound_for : List Effect → Option SocketAddr
bound_for [] = none
bound_for (send addr cell ∷ es) = some addr
bound_for (peer_key addr key ∷ es) = some addr
bound_for (wake w ∷ es) = none
bound_for (push tx d ∷ es) = none

module _ (f : Finder) (c : Suite) (a : Asym) where
  unfoldable pub handle_all : NodeIdentity a → SocketAddr → List Cell → Node → Node × List Effect
  handle_all id from [] n = (n, [])
  handle_all id from (cell ∷ cells) n =
      let r = handle_cell f c a id from cell n in
      let later = handle_all id from cells r.0 in (later.0, r.1 ++ later.1)

  abbrev pub station : Joiner a → Node → Station
  station j n = record { addr = j.addr; node = n }

  -- What came back from the nodes behind goes through the node again.
  abbrev pub go_back :
      Joiner a
      → SocketAddr
      → SocketAddr
      → Node
      → Option (List Station × List Cell)
      → Option (List Station × List Cell)
  go_back j from next n none = none
  go_back j from next n (some (rest, back)) =
      let r = handle_all j.identity next back n in some (station j r.0 ∷ rest, cells_to from r.1)

  -- A node has handled the cells of `from`: it answers at once, or sends cells onward and answers
  -- later.
  abbrev pub pass_on :
      (SocketAddr → List Cell → Option (List Station × List Cell))
      → Joiner a
      → SocketAddr
      → Node × List Effect
      → Option SocketAddr
      → Option (List Station × List Cell)
  pass_on onward j from r none = none
  pass_on onward j from r (some next) =
      let later = go_back j from next r.0 (onward next (cells_to next r.1)) in
      if addr_eq next from then some (station j r.0 ∷ [], cells_to from r.1) else later

  -- The nodes after the cells of `from`, and what `from` gets back.
  unfoldable pub open_route :
      List (Joiner a) → SocketAddr → SocketAddr → List Cell → Option (List Station × List Cell)
  open_route [] to from cells = none
  open_route (j ∷ js) to from cells =
      let onward = λ (next : SocketAddr) (out : List Cell). open_route js next j.addr out in
      let r = handle_all j.identity from cells j.node in
      let passed = pass_on onward j from r (bound_for r.1) in
      if addr_eq to j.addr then passed else none
