-- ===== src/Kademlia/Serving.antt =====
-- The store of a node as its peers see it (crates/nbf-dht/src/kademlia.rs, `handle` in the loop of
-- `run`): an abstract shelf, which forgets how the map keeps its entries.
use never_been_found.Prelude.{
  ◌≡◌, refl, ap, ◌∙◌, fun_ext, true, inl, inr, Option, some, List, [], ◌∷◌, ◌++◌, Bytes, bytes_eq,
  Result, Result-cases, ok, err, if◌then◌else◌, lookup, insert, lookup-insert, bytes_eq_inst,
}
use never_been_found.Errors.{DhtError}
use never_been_found.Suite.{Suite}
use never_been_found.Asym.{Asym}
use never_been_found.Addr.{SocketAddr}
use never_been_found.Descriptor.{Descriptor}
use never_been_found.Rpc.{RpcMsg, ping, pong, store, find, found, from_desc, rpc_decode}
use never_been_found.Kademlia.{Kademlia, answer, bucket, closest, serve, handle_request}
use never_been_found.Kademlia.Requests.{handle_request-serve, stored_merge}

-- What is held for each id.
abbrev pub Shelf : Type 0
Shelf = Bytes → Option Descriptor

abbrev pub shelf_of : Kademlia → Shelf
shelf_of t key = lookup key t.stored

-- Only STORE changes it, at the id of its descriptor.
unfoldable pub put_on : RpcMsg → Shelf → Shelf
put_on (ping nonce) s = s
put_on (pong nonce) s = s
put_on (store d) s = λ key. if bytes_eq d.node_id key then some d else s key
put_on (find key want_value) s = s
put_on (found contacts value) s = s

abbrev pub put_decoded : Result DhtError RpcMsg → Shelf → Shelf
put_decoded (err e) s = s
put_decoded (ok m) s = put_on m s

module _ (c : Suite) (a : Asym) where
  -- The shelf after datagrams, in order.
  pub shelve : List (SocketAddr × Bytes) → Shelf → Shelf
  shelve [] s = s
  shelve ((from, datagram) ∷ rest) s = shelve rest (put_decoded (rpc_decode c a datagram) s)

  -- Datagrams of anyone, one after the other, and all that is sent.
  pub handle_requests : List (SocketAddr × Bytes) → Kademlia → Kademlia × List (SocketAddr × Bytes)
  handle_requests [] t = (t, [])
  handle_requests ((from, datagram) ∷ rest) t =
      let r = handle_request c a from datagram t in
      let later = handle_requests rest r.0 in (later.0, r.1 ++ later.1)

serve-put_on :
    (from : SocketAddr) (m : RpcMsg) (t : Kademlia)
    → shelf_of (serve from m t).0 ≡ put_on m (shelf_of t)
unfolding serve put_on
serve-put_on from (ping nonce) t = refl
serve-put_on from (pong nonce) t = refl
serve-put_on from (store d) t = fun_ext (λ key.
    ap (lookup key)
      (stored_merge (from_desc d ∷ []) (record t { stored = insert d.node_id d t.stored }))
    ∙ lookup-insert d.node_id key d t.stored)
serve-put_on from (find key want_value) t = refl
serve-put_on from (found contacts value) t = refl

module _ (c : Suite) (a : Asym) where
  request-put_decoded :
      (from : SocketAddr) (datagram : Bytes) (t : Kademlia)
      → shelf_of (handle_request c a from datagram t).0
        ≡ put_decoded (rpc_decode c a datagram) (shelf_of t)
  unfolding handle_request
  request-put_decoded from datagram t = elim (Result-cases (rpc_decode c a datagram)) [
    | inl (m, e) ↦ rw (e, handle_request) (serve-put_on from m t)
    | inr (x, e) ↦ rw (e, handle_request)
  ]

  requests-shelve :
      (reqs : List (SocketAddr × Bytes)) (t : Kademlia)
      → shelf_of (handle_requests c a reqs t).0 ≡ shelve c a reqs (shelf_of t)
  unfolding handle_requests shelve
  requests-shelve [] t = refl
  requests-shelve ((from, datagram) ∷ rest) t =
      requests-shelve rest (handle_request c a from datagram t).0
      ∙ ap (shelve c a rest) (request-put_decoded from datagram t)

  -- Whatever datagrams have come before, from anyone and in any order, a FIND with its value is
  -- answered with the descriptor that the shelf holds for the key: the one that was stored last
  -- under that id by a datagram that is read as a STORE, or what was there at the start. With it go
  -- the contacts nearest to the key, and the node does not change.
  pub find-shelve :
      (reqs : List (SocketAddr × Bytes)) (asker : SocketAddr) (q key : Bytes) (t : Kademlia)
      → rpc_decode c a q ≡ ok (find key true)
      → let t' = (handle_requests c a reqs t).0 in
        handle_request c a asker q t'
        ≡ (t', answer asker (found (closest key bucket t') (shelve c a reqs (shelf_of t) key)))
  unfolding serve
  find-shelve reqs asker q key t e =
      let t' = (handle_requests c a reqs t).0 in
      handle_request-serve c a asker q (find key true) t' e
      ∙ ap {B = Kademlia × List (SocketAddr × Bytes)}
          (λ s. (t', answer asker (found (closest key bucket t') (s key)))) (requests-shelve reqs t)
