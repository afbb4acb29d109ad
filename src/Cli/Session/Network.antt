-- ===== src/Cli/Session/Network.antt =====
-- A world for `send_once` and `demo`: the nodes of a route, and what of the cells that come back
-- ends a wait of the origin (crates/nbf-net/src/node.rs, relay.rs).
use never_been_found.Prelude.{
  ℕ, ◌≡◌, ap, ◌∙◌, Bool, true, false, Option, none, some, List, [], ◌∷◌, Bytes, ◌==◌, ==_refl,
  if◌then◌else◌, lookup, nat_eq,
}
use never_been_found.Suite.{Suite}
use never_been_found.Asym.{Asym}
use never_been_found.Addr.{SocketAddr}
use never_been_found.Cell.{Cell}
use never_been_found.Node.{Node, Effect, send, peer_key, wake, push}
use never_been_found.Relay.{handle}
use never_been_found.Relay.Trip.{Station, round_trip}
use never_been_found.Control.{handle_created, created_waited}
use never_been_found.Engine.{Finder, created_cell}
use never_been_found.Engine.Opening.{Joiner, cells_to, cells_to-one, bound_for, open_route}
use never_been_found.Cli.Session.{World}

-- The task is woken.
abbrev pub woke : ℕ → List Effect → Bool
woke waiter [] = false
woke waiter (send addr cell ∷ es) = woke waiter es
woke waiter (peer_key addr key ∷ es) = woke waiter es
woke waiter (wake w ∷ es) = let rest = woke waiter es in if w == waiter then true else rest
woke waiter (push tx d ∷ es) = woke waiter es

-- What the stream gets first.
abbrev pub pushed : ℕ → List Effect → Option Bytes
pushed tx [] = none
pushed tx (send addr cell ∷ es) = pushed tx es
pushed tx (peer_key addr key ∷ es) = pushed tx es
pushed tx (wake w ∷ es) = pushed tx es
pushed tx (push t d ∷ es) = let rest = pushed tx es in if t == tx then some d else rest

-- Where the effects go, and the cells for that address.
abbrev pub outgoing : List Effect → Option (SocketAddr × List Cell)
outgoing es = elim (bound_for es) [ none ↦ none | some to ↦ some (to, cells_to to es) ]

outgoing_to :
    (es : List Effect) (to : SocketAddr)
    → bound_for es ≡ some to
    → outgoing es ≡ some (to, cells_to to es)
outgoing_to es to b = rw (b, outgoing)

module _ (f : Finder) (c : Suite) (a : Asym) where
  abbrev pub created_back :
      ℕ
      → SocketAddr
      → Node
      → List Station
      → Option (List Station × List Cell)
      → Bool × Node × List Station
  created_back waiter to n old none = (false, n, old)
  created_back waiter to n old (some (ss, [])) = (false, n, ss)
  created_back waiter to n old (some (ss, cell ∷ rest)) =
      let r = handle_created to cell n in (woke waiter r.1, r.0, ss)

  abbrev pub reply_back :
      ℕ → SocketAddr → Node → List Station → Option Cell → Option Bytes × Node × List Station
  reply_back tx to n ss none = (none, n, ss)
  reply_back tx to n ss (some cell) = let r = handle c n to cell in (pushed tx r.1, r.0, ss)

  abbrev pub first_trip :
      List Station
      → SocketAddr
      → Option (SocketAddr × List Cell)
      → Option (SocketAddr × Option Cell)
  first_trip ss home none = none
  first_trip ss home (some (to, [])) = none
  first_trip ss home (some (to, cell ∷ cells)) = some (to, round_trip c ss to home cell)

  abbrev pub opened_back :
      List (Joiner a)
      → SocketAddr
      → ℕ
      → Node
      → List Station
      → Option (SocketAddr × List Cell)
      → Bool × Node × List Station
  opened_back js home waiter n old none = (false, n, old)
  opened_back js home waiter n old (some (to, cells)) =
      created_back waiter to n old (open_route f c a js to home cells)

  abbrev pub answered_back :
      ℕ
      → Node
      → List Station
      → Option (SocketAddr × Option Cell)
      → Option Bytes × Node × List Station
  answered_back tx n ss none = (none, n, ss)
  answered_back tx n ss (some (to, back)) = reply_back tx to n ss back

  -- The nodes of a route behind a network that loses nothing, keeps the order and is in time. The
  -- first cell that comes back from the first node is handled at the origin.
  abbrev pub route_world : List (Joiner a) → SocketAddr → World
  route_world js home = record {
    State = List Station;
    until_created = λ waiter es n old. opened_back js home waiter n old (outgoing es);
    until_reply = λ tx es n ss. answered_back tx n ss (first_trip ss home (outgoing es));
  }

  pub until_created_opened :
      (js : List (Joiner a)) (home to : SocketAddr) (cid waiter : ℕ) (es : List Effect) (n : Node)
      (old ss : List Station)
      → bound_for es ≡ some to
      → open_route f c a js to home (cells_to to es) ≡ some (ss, created_cell cid ∷ [])
      → lookup cid n.pending ≡ some waiter
      → opened_back js home waiter n old (outgoing es)
        ≡ (true, (handle_created to (created_cell cid) n).0, ss)
  until_created_opened js home to cid waiter es n old ss b o w =
      let woken = created_waited to (created_cell cid) n waiter w in
      ap (opened_back js home waiter n old) (outgoing_to es to b)
      ∙ ap (created_back waiter to n old) o
      ∙ ap {B = Bool × Node × List Station}
          (λ r. (woke waiter r.1, (handle_created to (created_cell cid) n).0, ss)) woken
      ∙ ap {B = Bool × Node × List Station}
          (λ b. (b, (handle_created to (created_cell cid) n).0, ss)) (rw (==_refl waiter))

  pub until_reply_answered :
      (home to : SocketAddr) (tx : ℕ) (cell back : Cell) (n n' : Node) (ss : List Station)
      (msg : Bytes)
      → round_trip c ss to home cell ≡ some back
      → handle c n to back ≡ (n', push tx msg ∷ [])
      → answered_back tx n ss (first_trip ss home (outgoing (send to cell ∷ [])))
        ≡ (some msg, n', ss)
  until_reply_answered home to tx cell back n n' ss msg there here =
      ap (λ cells. answered_back tx n ss (first_trip ss home (some (to, cells))))
        (cells_to-one to cell)
      ∙ ap (reply_back tx to n ss) there
      ∙ ap {B = Option Bytes × Node × List Station} (λ r. (pushed tx r.1, r.0, ss)) here
      ∙ ap {B = Option Bytes × Node × List Station} (λ b. (b, n', ss)) (rw (==_refl tx))
