-- ===== src/Kademlia.antt =====
-- The distributed table of a node (crates/nbf-dht/src/kademlia.rs): the routing table, the stored
-- descriptors and the handler of requests. `rt` and `store` are behind locks, each taken for one
-- operation; a handler runs to its end on one state. A request whose answer panics in `rpc_encode`
-- is not answered.
pub mod Table
pub mod Contacts
pub mod Order
pub mod Requests
pub mod Serving
pub mod Lookup
pub mod Published
use never_been_found.Prelude.{
  ℕ, ◌≡◌, Bool, true, false, ◌||◌, Option, none, some, List, [], ◌∷◌, ◌++◌, take, Bytes, bytes_eq,
  Result, ok, err, bit_xor, ltb, ◌==◌, if◌then◌else◌, Map, lookup, insert, remove, bytes_eq_inst,
}
use never_been_found.Suite.{Suite}
use never_been_found.Asym.{Asym}
use never_been_found.Errors.{DhtError}
use never_been_found.Addr.{SocketAddr, addr_eq_inst}
use never_been_found.Descriptor.{Descriptor}
use never_been_found.Rpc.{
  Contact, from_desc, RpcMsg, ping, pong, store, find, found, rpc_encode, rpc_decode,
}

abbrev pub bucket : ℕ
bucket = 3

abbrev pub table_max : ℕ
table_max = 64

pub record Kademlia : Type 0 where
  pub id : Bytes
  pub own_desc : Descriptor
  pub rt : List Contact
  pub stored : Map Bytes Descriptor
  -- the sender that waits for an answer of an address
  pub pending : Map SocketAddr ℕ

abbrev pub new_table : Bytes → Descriptor → Kademlia
new_table id own_desc = record {
  id = id;
  own_desc = own_desc;
  rt = from_desc own_desc ∷ [];
  stored = [];
  pending = [];
}

-- XOR of the bytes, up to the shorter one.
unfoldable pub dist : Bytes → Bytes → Bytes
dist (x ∷ xs) (y ∷ ys) = bit_xor x y ∷ dist xs ys
dist (x ∷ xs) [] = []
dist [] ys = []

-- `Vec<u8>` is ordered by its first difference.
unfoldable pub vec_leb : Bytes → Bytes → Bool
vec_leb [] ys = true
vec_leb (x ∷ xs) [] = false
vec_leb (x ∷ xs) (y ∷ ys) =
    let rest = vec_leb xs ys in if ltb x y then true else if x == y then rest else false

-- `sort_by_key` is stable: an entry goes before those of the same distance that came after it.
unfoldable pub insert_near : Bytes → Contact → List Contact → List Contact
insert_near key c [] = c ∷ []
insert_near key c (x ∷ xs) =
    let rest = insert_near key c xs in
    if vec_leb (dist c.node_id key) (dist x.node_id key) then c ∷ x ∷ xs else x ∷ rest

unfoldable pub sort_near : Bytes → List Contact → List Contact
sort_near key [] = []
sort_near key (c ∷ cs) = insert_near key c (sort_near key cs)

unfoldable pub closest : Bytes → ℕ → Kademlia → List Contact
closest key k t = take k (sort_near key t.rt)

-- `rt.iter().any(|x| x.node_id == id)`
pub has_id : Bytes → List Contact → Bool
has_id id [] = false
has_id id (x ∷ xs) = bytes_eq x.node_id id || has_id id xs

pub merge_all : Bytes → List Contact → List Contact → List Contact
merge_all id rt [] = rt
merge_all id rt (c ∷ cs) =
    merge_all id
      (if bytes_eq c.node_id id then rt else if has_id c.node_id rt then rt else rt ++ (c ∷ [])) cs

pub try_merge : List Contact → Kademlia → Kademlia
try_merge contacts t = record t {
  rt = take table_max (sort_near t.id (merge_all t.id t.rt contacts));
}

-- `send_raw(from, &rpc_encode(msg))`
abbrev pub answer : SocketAddr → RpcMsg → List (SocketAddr × Bytes)
answer from msg = elim (rpc_encode msg) [ none ↦ [] | some w ↦ (from, w) ∷ [] ]

-- What is sent is the second component.
pub serve : SocketAddr → RpcMsg → Kademlia → Kademlia × List (SocketAddr × Bytes)
serve from (ping nonce) t = (t, answer from (pong nonce))
serve from (store d) t =
    (try_merge (from_desc d ∷ []) (record t { stored = insert d.node_id d t.stored }), [])
serve from (find key want_value) t =
    let value = if want_value then lookup key t.stored else none in
    (t, answer from (found (closest key bucket t) value))
serve from (found contacts value) t = (t, [])
serve from (pong nonce) t = (t, [])

pub handle_request :
    (c : Suite) (a : Asym) → SocketAddr → Bytes → Kademlia → Kademlia × List (SocketAddr × Bytes)
handle_request c a from datagram t = elim (rpc_decode c a datagram) [
  | err e ↦ (t, [])
  | ok msg ↦ serve from msg t
]

-- `matches!(m, RpcMsg::Found { .. } | RpcMsg::Pong { .. })`
abbrev pub is_reply : Result DhtError RpcMsg → Bool
is_reply (err e) = false
is_reply (ok (ping nonce)) = false
is_reply (ok (pong nonce)) = true
is_reply (ok (store d)) = false
is_reply (ok (find key want_value)) = false
is_reply (ok (found contacts value)) = true

abbrev awaited : SocketAddr → Bool → Kademlia → Option ℕ
awaited from true t = lookup from t.pending
awaited from false t = none

-- One datagram in `run`: a reply goes to the sender that waits for its address, all else to the
-- handler. The third component is the sender that got the reply.
pub receive :
    (c : Suite) (a : Asym)
    → SocketAddr
    → Bytes
    → Kademlia
    → Kademlia × List (SocketAddr × Bytes) × Option ℕ
receive c a from datagram t = elim (awaited from (is_reply (rpc_decode c a datagram)) t) [
  | some tx ↦ (record t { pending = remove from t.pending }, [], some tx)
  | none ↦ let r = handle_request c a from datagram t in (r.0, r.1, none)
]
