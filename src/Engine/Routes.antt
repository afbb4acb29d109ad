-- ===== src/Engine/Routes.antt =====
-- What a search for a descriptor leaves alone (crates/nbf-net/src/node.rs, `lookup_route`).
use never_been_found.Prelude.{◌≡◌, refl, inl, inr, Option-cases, Bytes, bytes_eq_inst, Map, lookup}
use never_been_found.Descriptor.{Descriptor}
use never_been_found.Kademlia.{Kademlia}
use never_been_found.Node.{Node}
use never_been_found.Engine.{Finder, lookup_route}

-- Nothing but the cache and the table may differ.
pub record SameCircuits (n n' : Node) : Type 0 where
  pub cache_of : Map Bytes Descriptor
  pub table_of : Kademlia
  pub rest_of : n' ≡ record n { dht_cache = cache_of; dht = table_of }

pub SameCircuits-refl : (n : Node) → SameCircuits n n
SameCircuits-refl n = record { cache_of = n.dht_cache; table_of = n.dht; rest_of = refl }

pub SameCircuits-trans :
    (n n' n'' : Node) → SameCircuits n n' → SameCircuits n' n'' → SameCircuits n n''
SameCircuits-trans n n' n'' s s' = record {
  cache_of = s'.cache_of;
  table_of = s'.table_of;
  rest_of = rw (s'.rest_of, s.rest_of);
}

pub lookup_route-SameCircuits :
    (f : Finder) (target : Bytes) (n : Node) → SameCircuits n (lookup_route f target n).1
unfolding lookup_route
lookup_route-SameCircuits f target n = elim (Option-cases (lookup target n.dht_cache)) [
  | inr (d, e) ↦ rw (e, lookup_route) (SameCircuits-refl n)
  | inl e ↦ elim (Option-cases (lookup target (n.dht).stored)) [
    | inr (d, e') ↦ rw (e, e', lookup_route) (record { cache_of = _; table_of = _; rest_of = refl })
    | inl e' ↦ elim (Option-cases (f.search_for target n.dht).0) [
      | inr (d, e'') ↦
          rw (e, e', e'', lookup_route) (record { cache_of = _; table_of = _; rest_of = refl })
      | inl e'' ↦
          rw (e, e', e'', lookup_route) (record { cache_of = _; table_of = _; rest_of = refl })
    ]
  ]
]
