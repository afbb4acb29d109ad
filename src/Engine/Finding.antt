-- ===== src/Engine/Finding.antt =====
-- The search of Kademlia/Lookup as the `Finder` of a node (crates/nbf-net/src/node.rs,
-- `lookup_route` over crates/nbf-dht/src/kademlia.rs, `lookup`).
use never_been_found.Prelude.{suc, Option, none, List, length, true, Bytes}
use never_been_found.Descriptor.{Descriptor}
use never_been_found.Kademlia.{Kademlia}
use never_been_found.Kademlia.Table.{IsTable}
use never_been_found.Kademlia.Lookup.{Net, Outcome, done, out_of_fuel, lookup_in}
use never_been_found.Kademlia.Lookup.Batch.{Known}
use never_been_found.Kademlia.Lookup.Ends.{Bounded, lookup_ends}
use never_been_found.Engine.{Finder}

-- `Ok(Some(d))` or not, and the table. The search never runs out of the fuel that it gets here.
abbrev outcome_of : Kademlia → Outcome → Option Descriptor × Kademlia
outcome_of t (done v s) = (v, s.table)
outcome_of t out_of_fuel = (none, t)

module _ (net : Net) (u : List Bytes) (bounded : Bounded u net) where
  abbrev pub run_search : Bytes → Kademlia → Option Descriptor × Kademlia
  run_search key t = outcome_of t (lookup_in net key true (suc (length u)) t)

  pub run_search-IsTable :
      (key : Bytes) (t : Kademlia)
      → IsTable t × Known u t.rt
      → IsTable (run_search key t).1 × Known u (run_search key t).1.rt
  run_search-IsTable key t (v, k) =
      let (w, s, e, good) = lookup_ends net key true u bounded t v k in rw e good

  -- The network fills the interface, over the ids that it can name.
  abbrev pub finder_of : Finder
  finder_of = record {
    search_for = run_search;
    IsGood = λ t. IsTable t × Known u t.rt;
    search_for-IsGood = run_search-IsTable;
  }
