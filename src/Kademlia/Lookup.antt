-- ===== src/Kademlia/Lookup.antt =====
-- Requests to other nodes (crates/nbf-dht/src/kademlia.rs, `send_rpc` to `lookup`). The network is
-- a function: what comes back for the n-th request of a search, to an address, with a message. A
-- search runs with no other task at work on the table. The time to wait is the network's matter.
pub mod Batch
pub mod Ends
pub mod Values
use never_been_found.Prelude.{
  ℕ, zero, suc, ◌+◌, ◌==◌, Bool, true, false, ◌&&◌, ◌||◌, not, Option, none, some, List, [], ◌∷◌,
  ◌++◌, length, take, Bytes, bytes_eq, Result, ok, err, Map, insert, remove, if◌then◌else◌,
}
use never_been_found.Errors.{DhtError, bad_len, bad_type}
use never_been_found.Addr.{SocketAddr, addr_eq_inst}
use never_been_found.Descriptor.{Descriptor}
use never_been_found.Rpc.{Contact, addr, RpcMsg, ping, pong, store, find, found}
use never_been_found.Kademlia.{Kademlia, bucket, closest, has_id, try_merge}

pub data Reply : Type 0 where
  answered : RpcMsg → Reply
  -- another request to the address has put its own sender, the number, in the place of this one
  replaced : ℕ → Reply
  -- the time is up
  silent : Reply
  -- the socket fails
  unsent : Reply

abbrev pub Net : Type 0
Net = ℕ → SocketAddr → RpcMsg → Reply

-- The sender is registered, and gone again once an answer is in (`run` takes it out) or late.
pub send_rpc : Reply → SocketAddr → ℕ → Kademlia → Result DhtError RpcMsg × Kademlia
send_rpc (answered m) to tx t = (ok m, record t { pending = remove to (insert to tx t.pending) })
send_rpc (replaced other) to tx t =
    (err (bad_type 0xff), record t { pending = insert to other (insert to tx t.pending) })
send_rpc silent to tx t =
    (err (bad_len 0), record t { pending = remove to (insert to tx t.pending) })
send_rpc unsent to tx t = (err DhtError.io, record t { pending = insert to tx t.pending })

abbrev pub alpha : ℕ
alpha = 3

pub record Search : Type 0 where
  pub table : Kademlia
  -- the number of requests so far
  pub asked : ℕ
  pub queried : List Bytes

-- `queried.contains(&id)`
abbrev pub contains : Bytes → List Bytes → Bool
contains id [] = false
contains id (q ∷ qs) = bytes_eq q id || contains id qs

pub unasked : List Bytes → List Contact → List Contact
unasked queried [] = []
unasked queried (c ∷ cs) =
    let rest = unasked queried cs in if contains c.node_id queried then rest else c ∷ rest

pub batch : List Bytes → List Contact → List Contact
batch queried seen = take alpha (unasked queried seen)

-- `if let Ok(RpcMsg::Found { contacts, value }) = …`
abbrev pub found_in : Result DhtError RpcMsg → Option (List Contact × Option Descriptor)
found_in (err e) = none
found_in (ok (ping n)) = none
found_in (ok (pong n)) = none
found_in (ok (store d)) = none
found_in (ok (find key want)) = none
found_in (ok (found contacts value)) = some (contacts, value)

-- The early return of a value.
abbrev pub taken : Bool → Option Descriptor → Option Descriptor
taken want_value none = none
taken want_value (some d) = if want_value then some d else none

-- `next.len() == seen.len() && next.iter().all(..)`
abbrev pub all_seen : List Contact → List Contact → Bool
all_seen [] seen = true
all_seen (c ∷ cs) seen = has_id c.node_id seen && all_seen cs seen

abbrev pub settled : List Contact → List Contact → Bool
settled next seen = (length next == length seen) && all_seen next seen

pub data Outcome : Type 0 where
  done : Option Descriptor → Search → Outcome
  out_of_fuel : Outcome

module _ (net : Net) (key : Bytes) (want_value : Bool) where
  -- One request: what came back, and the search after it, before any merge.
  pub ask : Contact → Search → Result DhtError RpcMsg × Search
  ask c s =
      let r = send_rpc (net s.asked (addr c) (find key want_value)) (addr c) s.asked s.table in
      (r.0, record { table = r.1; asked = s.asked + 1; queried = s.queried ++ (c.node_id ∷ []) })

  pub ask_all : List Contact → Search → Option Descriptor × Search
  ask_all [] s = (none, s)
  ask_all (c ∷ cs) s =
      let r = ask c s in
      elim (found_in r.0) [
        | none ↦ ask_all cs r.1
        | some (contacts, value) ↦ elim (taken want_value value) [
          | some d ↦ (some d, r.1)
          | none ↦ ask_all cs (record r.1 { table = try_merge contacts (r.1).table })
        ]
      ]

  pub rounds : ℕ → List Contact → Search → Outcome
  rounds zero seen s = out_of_fuel
  rounds (suc fuel) seen s = elim (batch s.queried seen) [
    | [] ↦ done none s
    | c ∷ cs ↦
        let r = ask_all (c ∷ cs) s in
        elim r.0 [
          | some d ↦ done (some d) r.1
          | none ↦
              let next = closest key bucket (r.1).table in
              elim (settled next seen) [ true ↦ done none r.1 | false ↦ rounds fuel next r.1 ]
        ]
  ]

  pub lookup_in : ℕ → Kademlia → Outcome
  lookup_in fuel t =
      rounds fuel (closest key bucket t) (record { table = t; asked = 0; queried = [] })

-- The seeds are asked in order, first for a sign of life; what the PING brings back is dropped.
pub bootstrap : Net → ℕ → (ℕ → ℕ) → List SocketAddr → Kademlia → Kademlia
bootstrap net n nonces [] t = t
bootstrap net n nonces (s ∷ seeds) t =
    let t1 = (send_rpc (net n s (ping (nonces n))) s n t).1 in
    let r = send_rpc (net (n + 1) s (find t.id false)) s (n + 1) t1 in
    elim (found_in r.0) [
      | none ↦ bootstrap net (n + 2) nonces seeds r.1
      | some (contacts, value) ↦ bootstrap net (n + 2) nonces seeds (try_merge contacts r.1)
    ]

pub store_self : Net → ℕ → List SocketAddr → Kademlia → Kademlia
store_self net n [] t = t
store_self net n (s ∷ seeds) t =
    store_self net (n + 1) seeds (send_rpc (net n s (store t.own_desc)) s n t).1
