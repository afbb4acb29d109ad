-- ===== src/Kademlia/Lookup/Ends.antt =====
-- A search ends (crates/nbf-dht/src/kademlia.rs, `lookup`): each round asks for an id that was not
-- asked for before.
use never_been_found.Prelude.{
  ℕ, zero, suc, ◌≤◌, ◌<◌, ◌≡◌, refl, ap, inl, inr, ◌⊎◌, Bool, true, false, Bool-cases, Option, none,
  some, Option-cases, List, [], ◌∷◌, ◌++◌, length, Bytes, arith,
}
use never_been_found.Addr.{SocketAddr}
use never_been_found.Descriptor.{Descriptor}
use never_been_found.Rpc.{Contact, addr, RpcMsg, find, found}
use never_been_found.Kademlia.{Kademlia, bucket, closest, try_merge}
use never_been_found.Kademlia.Table.{IsTable, try_merge-IsTable}
use never_been_found.Kademlia.Lookup.{
  Reply, answered, replaced, silent, unsent, Net, send_rpc, Search, contains, batch, found_in,
  taken, settled, ask, ask_all, rounds, lookup_in, Outcome, done,
}
use never_been_found.Kademlia.Contacts.{try_merge-All, closest-All}
use never_been_found.Kademlia.Lookup.Batch.{
  left, left-append, left_fresh, List-cases, left_nil, Known, rt-send_rpc, batch-head, batch-All,
}

-- The contacts of every answer are among the ids.
abbrev pub Bounded : List Bytes → Net → Type 0
Bounded u net =
    (n : ℕ) (to : SocketAddr) (m : RpcMsg) (ks : List Contact) (v : Option Descriptor)
    → net n to m ≡ answered (found ks v)
    → Known u ks

IsTable-send_rpc :
    (r : Reply) (to : SocketAddr) (tx : ℕ) (t : Kademlia)
    → IsTable t
    → IsTable (send_rpc r to tx t).1
unfolding send_rpc
IsTable-send_rpc (answered m) to tx t v = record {
  size = v.size;
  distinct = v.distinct;
  nearest = v.nearest;
}
IsTable-send_rpc (replaced other) to tx t v = record {
  size = v.size;
  distinct = v.distinct;
  nearest = v.nearest;
}
IsTable-send_rpc silent to tx t v = record {
  size = v.size;
  distinct = v.distinct;
  nearest = v.nearest;
}
IsTable-send_rpc unsent to tx t v = record {
  size = v.size;
  distinct = v.distinct;
  nearest = v.nearest;
}

pub found_in-answered :
    (r : Reply) (to : SocketAddr) (tx : ℕ) (t : Kademlia) (ks : List Contact)
    (v : Option Descriptor)
    → found_in (send_rpc r to tx t).0 ≡ some (ks, v)
    → r ≡ answered (found ks v)
unfolding send_rpc
found_in-answered (answered (RpcMsg.ping n)) to tx t ks v e = cc
found_in-answered (answered (RpcMsg.pong n)) to tx t ks v e = cc
found_in-answered (answered (RpcMsg.store d)) to tx t ks v e = cc
found_in-answered (answered (find key want)) to tx t ks v e = cc
found_in-answered (answered (found xs w)) to tx t ks v e = cc
found_in-answered (replaced other) to tx t ks v e = cc
found_in-answered silent to tx t ks v e = cc
found_in-answered unsent to tx t ks v e = cc

module _ (net : Net) (key : Bytes) (want_value : Bool) (u : List Bytes)
    (bounded : Bounded u net) where
  -- The table is in order and names ids of `u` only.
  abbrev IsKnown : Kademlia → Type 0
  IsKnown t = IsTable t × Known u t.rt

  ask-IsKnown :
      (c : Contact) (s : Search) → IsKnown s.table → IsKnown (ask net key want_value c s).1.table
  unfolding ask
  ask-IsKnown c s (v, k) = (
    IsTable-send_rpc (net s.asked (addr c) (find key want_value)) (addr c) s.asked s.table v,
    rw (rt-send_rpc (net s.asked (addr c) (find key want_value)) (addr c) s.asked s.table) k,
  )

  ask-answered :
      (c : Contact) (s : Search) (ks : List Contact) (v : Option Descriptor)
      → found_in (ask net key want_value c s).0 ≡ some (ks, v)
      → net s.asked (addr c) (find key want_value) ≡ answered (found ks v)
  unfolding ask
  ask-answered c s ks v e = found_in-answered _ (addr c) s.asked s.table ks v e

  queried-ask :
      (c : Contact) (s : Search)
      → (ask net key want_value c s).1.queried ≡ s.queried ++ (c.node_id ∷ [])
  unfolding ask
  queried-ask c s = refl

  -- One request: the search takes a value, or goes on with the id in the list.
  ask_all-cases :
      (c : Contact) (cs : List Contact) (s : Search)
      → IsKnown s.table
      → ((d : Descriptor) × (ask_all net key want_value (c ∷ cs) s
            ≡ (some d, (ask net key want_value c s).1)))
        ⊎ ((s' : Search) × (ask_all net key want_value (c ∷ cs) s
              ≡ ask_all net key want_value cs s')
            × (s'.queried ≡ s.queried ++ (c.node_id ∷ []))
            × IsKnown s'.table)
  unfolding ask_all
  ask_all-cases c cs s k = elim (Option-cases (found_in (ask net key want_value c s).0)) [
    | inl e ↦
        inr ((ask net key want_value c s).1, rw (e, ask_all), queried-ask c s, ask-IsKnown c s k)
    | inr ((ks, v), e) ↦ elim (Option-cases (taken want_value v)) [
      | inl f ↦ inr (
        record (ask net key want_value c s).1 {
          table = try_merge ks (ask net key want_value c s).1.table;
        },
        rw (e, ask_all) (rw (f, ask_all)),
        queried-ask c s,
        (
          try_merge-IsTable ks _ (ask-IsKnown c s k).0,
          try_merge-All (λ x. contains x.node_id u ≡ true) ks _ (ask-IsKnown c s k).1
              (bounded s.asked (addr c) (find key want_value) ks v (ask-answered c s ks v e)),
        ),
      )
      | inr (d, f) ↦ inl (d, rw (e, ask_all) (rw (f, ask_all)))
    ]
  ]

  ask_all-IsKnown :
      (cs : List Contact) (s : Search)
      → IsKnown s.table
      → let r = (ask_all net key want_value cs s).1 in
        IsKnown r.table × (left u r.queried ≤ left u s.queried)
  ask_all-IsKnown [] s k = unfold ask_all in (k, omega arith)
  ask_all-IsKnown (c ∷ cs) s k = elim (ask_all-cases c cs s k) [
    | inl (d, e) ↦ rw e (
      ask-IsKnown c s k,
      omega (arith, ap (left u) (queried-ask c s), left-append u s.queried c.node_id),
    )
    | inr (s', e, q, k') ↦
        let later = ask_all-IsKnown cs s' k' in
        rw e (later.0, omega (arith, later.1, ap (left u) q, left-append u s.queried c.node_id))
  ]

  -- A round that starts with a fresh id leaves fewer ids to ask for.
  ask_all_fewer :
      (c : Contact) (cs : List Contact) (s : Search)
      → IsKnown s.table
      → contains c.node_id u ≡ true
      → contains c.node_id s.queried ≡ false
      → left u (ask_all net key want_value (c ∷ cs) s).1.queried < left u s.queried
  ask_all_fewer c cs s k named fresh = elim (ask_all-cases c cs s k) [
    | inl (d, e) ↦
        rw e (
          omega
            (arith, ap (left u) (queried-ask c s), left_fresh u s.queried c.node_id named fresh))
    | inr (s', e, q, k') ↦
        let later = ask_all-IsKnown cs s' k' in
        rw e (omega (arith, later.1, ap (left u) q, left_fresh u s.queried c.node_id named fresh))
  ]

  abbrev Ends : Outcome → Type 0
  Ends o = (v : Option Descriptor) × (s : Search) × (o ≡ done v s) × IsKnown s.table

  rounds_end :
      (fuel : ℕ) (seen : List Contact) (s : Search)
      → left u s.queried < fuel
      → IsKnown s.table
      → Known u seen
      → Ends (rounds net key want_value fuel seen s)
  unfolding rounds
  rounds_end zero seen s h k ks = absurd (omega arith)
  rounds_end (suc fuel) seen s h k ks = elim (List-cases (batch s.queried seen)) [
    | inl e ↦ (none, s, rw (e, rounds), k)
    | inr (c, cs, e) ↦
        let known = rw e at (batch-All (λ x. contains x.node_id u ≡ true) s.queried seen ks) in
        let r = ask_all net key want_value (c ∷ cs) s in
        let kept = ask_all-IsKnown (c ∷ cs) s k in
        let fewer = ask_all_fewer c cs s k known.0 (batch-head s.queried seen cs c e) in
        let next = closest key bucket (r.1).table in
        elim (Option-cases r.0) [
          | inr (d, f) ↦ (some d, r.1, rw (e, rounds) (rw (f, rounds)), kept.0)
          | inl f ↦ elim (Bool-cases (settled next seen)) [
            | inl t ↦ (none, r.1, rw (e, rounds) (rw (f, rounds) (rw (t, rounds))), kept.0)
            | inr t ↦
                let later = rounds_end fuel next r.1 (omega arith) kept.0 (
                  closest-All (λ x. contains x.node_id u ≡ true) key bucket (r.1).table kept.0.1) in
                (
                  later.0,
                  later.1,
                  rw (e, rounds) (rw (f, rounds) (rw (t, rounds) later.2)),
                  later.3,
                )
          ]
        ]
  ]

  -- Let `u` be the ids that the table and the answers of the network can name. Then `lookup` ends
  -- after at most as many rounds as there are ids, one more included, whatever the answers are and
  -- in whatever order they come, and leaves the routing table in order, with those ids only.
  pub lookup_ends :
      (t : Kademlia)
      → IsTable t
      → Known u t.rt
      → (v : Option Descriptor) × (s : Search) × (lookup_in net key want_value (suc (length u)) t
          ≡ done v s)
        × (IsTable s.table × Known u (s.table).rt)
  unfolding lookup_in
  lookup_ends t v k =
      rounds_end (suc (length u)) (closest key bucket t)
        (record { table = t; asked = 0; queried = [] }) (omega (arith, left_nil u)) (v, k)
        (closest-All (λ x. contains x.node_id u ≡ true) key bucket t k)
