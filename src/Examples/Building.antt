-- ===== src/Examples/Building.antt =====
-- An origin at work, and what it starts and closes.
use never_been_found.Prelude.{
  ◌≡◌, refl, ap, Option, none, List, All, [], ◌∷◌, map, replicate, Bytes, arith, nat_eq,
}
use never_been_found.Errors.{NetError}
use never_been_found.Addr.{SocketAddr}
use never_been_found.Cell.{Cell, echo}
use never_been_found.Kademlia.Table.{IsTable}
use never_been_found.Node.{Node, send}
use never_been_found.Engine.{Finder, spawned, created_cell, handle_cell}
use never_been_found.Engine.Filed.{IsSound}
use never_been_found.Engine.Opening.{Joiner}
use never_been_found.Builder.{CircuitHandle, start, origin_next}
use never_been_found.Builder.Sends.{messages_pass, numbered, send_each, relay_each, onion_cell}
use never_been_found.Builder.Life.{begins, on_cell, on_start, reached-IsSound}
use never_been_found.Builder.Sizes.{IsSendable, sends_fit}
use never_been_found.Examples.Toy.{suite, asym}
use never_been_found.Examples.Headers.{tag, key_pair, desc}
use never_been_found.Examples.Circuits.{
  host, link, kf, msg, blank_desc, hop_entry, first_entry, node_with, has_entry,
}

-- A search that finds nothing and changes nothing.
abbrev pub nobody : Finder
nobody = record {
  search_for = λ key t. (none, t);
  IsGood = IsTable;
  search_for-IsGood = λ key t v. v;
}

-- The origin knows the descriptor of the node, which has just started.
abbrev pub knowing : Node
knowing = record (spawned (replicate 20 9) blank_desc) { dht_cache = (desc.node_id, desc) ∷ [] }

abbrev pub joiner : Joiner asym
joiner = record { addr = desc.cell_addr; identity = key_pair 7; node = spawned desc.node_id desc }

abbrev route : List Bytes
route = desc.node_id ∷ []

abbrev pub sends_it : SocketAddr → Cell → Option NetError
sends_it to cell = none

abbrev origin_node : Node
origin_node = node_with first_entry

abbrev handle_9 : CircuitHandle
handle_9 = record { cid = 9; fwd = kf 4 ∷ kf 6 ∷ []; bwd = kf 5 ∷ kf 7 ∷ []; tag = tag }

messages_pass_example :
    let cells = numbered (onion_cell suite 9 tag (kf 4 ∷ kf 6 ∷ []) 3 echo) 1 (msg ∷ msg ∷ []) in
    ((send_each suite sends_it handle_9 3 echo (msg ∷ msg ∷ []) origin_node).1
      ≡ map (send (host 2)) cells)
    × ((relay_each suite (host 1) cells (node_with hop_entry)).1
        ≡ map
            (send (host 3))
            (numbered (onion_cell suite 9 tag (kf 6 ∷ []) 3 echo) 1 (msg ∷ msg ∷ [])))
messages_pass_example =
    messages_pass suite sends_it handle_9 3 echo (kf 4) (kf 5) (kf 6 ∷ []) (link 2) (link 1)
      (link 3) (msg ∷ msg ∷ []) origin_node (node_with hop_entry) 0 (omega arith) (omega arith)
      (ap origin_next (has_entry first_entry)) refl (has_entry hop_entry) (omega arith)

fresh-IsTable : IsTable (spawned (replicate 20 9) blank_desc).dht
unfolding spawned
fresh-IsTable = record { size = omega arith; distinct = (tt, tt); nearest = (tt, tt) }

reached-IsSound_example :
    IsSound nobody
      (start nobody suite asym route
        (handle_cell nobody suite asym
          (key_pair 9)
          (host 2)
          (created_cell 1)
          (spawned (replicate 20 9) blank_desc)).0
        1).1
reached-IsSound_example =
    reached-IsSound nobody suite asym (key_pair 9) sends_it (replicate 20 9) blank_desc
      fresh-IsTable (on_start route 1 (on_cell (host 2) (created_cell 1) begins))

sends_fit_example :
    All IsSendable (handle_cell nobody suite asym (key_pair 9) (host 2) (created_cell 1) knowing).1
    × All IsSendable ((start nobody suite asym route knowing 1).0).1
sends_fit_example =
    sends_fit nobody suite asym (key_pair 9) (host 2) (created_cell 1) route knowing 1 (λ e. cc e)
