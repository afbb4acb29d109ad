-- ===== src/Kademlia/Requests.antt =====
-- Requests of other nodes (crates/nbf-dht/src/kademlia.rs, `handle`).
use never_been_found.Prelude.{
  ◌≡◌, refl, sym, ap, subst, ◌∙◌, true, Bool-cases, inl, inr, Option, some, [], ◌∷◌, Bytes,
  bytes_eq, bytes_eq_iff, Result-cases, ok, lookup, insert, lookup-insert, lookup-insert_self,
  bytes_eq_inst,
}
use never_been_found.Suite.{Suite}
use never_been_found.Asym.{Asym}
use never_been_found.Addr.{SocketAddr}
use never_been_found.Descriptor.{Descriptor, to_bytes}
use never_been_found.Rpc.RoundTrip.{rpc_encode-found}
use never_been_found.Rpc.{RpcMsg, ping, pong, store, find, found, from_desc, rpc_encode, rpc_decode}
use never_been_found.Rpc.Authentic.{IsAuthentic, AllAuthentic, carried, rpc_decode-AllAuthentic}
use never_been_found.Kademlia.{Kademlia, answer, bucket, closest, try_merge, serve, handle_request}
use never_been_found.Kademlia.Table.{IsTable, try_merge-IsTable}

serve-IsTable :
    (from : SocketAddr) (m : RpcMsg) (t : Kademlia) → IsTable t → IsTable (serve from m t).0
unfolding serve
serve-IsTable from (ping k) t v = v
serve-IsTable from (pong k) t v = v
serve-IsTable from (store d) t v =
    try_merge-IsTable (from_desc d ∷ []) (record t { stored = insert d.node_id d t.stored })
      (record { size = v.size; distinct = v.distinct; nearest = v.nearest })
serve-IsTable from (find key want) t v = v
serve-IsTable from (found ks value) t v = v

one_some : (x y : Descriptor) → ◌≡◌ {A = Option Descriptor} (some x) (some y) → x ≡ y
one_some x y e = cc

pub serve_find :
    (asker : SocketAddr) (key out : Bytes) (d : Descriptor) (t : Kademlia)
    → lookup key t.stored ≡ some d
    → rpc_encode (found (closest key bucket t) (some d)) ≡ some out
    → serve asker (find key true) t ≡ (t, (asker, out) ∷ [])
unfolding serve
serve_find asker key out d t hl ho = rw hl (rw (ho, answer))

pub stored_merge : (cs : _) (t : Kademlia) → (try_merge cs t).stored ≡ t.stored
unfolding try_merge
stored_merge cs t = refl

module _ (c : Suite) (a : Asym) where
  -- Every stored descriptor stands under its own id, which is the hash of its key, and is signed.
  abbrev pub IsStore : Kademlia → Type 0
  IsStore t =
      (k : Bytes) (d : Descriptor)
      → lookup k t.stored ≡ some d
      → (d.node_id ≡ k) × IsAuthentic c a d

  insert-IsStore :
      (d : Descriptor) (t : Kademlia)
      → IsAuthentic c a d
      → IsStore t
      → (k : Bytes) (e : Descriptor) → lookup k (insert d.node_id d t.stored) ≡ some e
      → (e.node_id ≡ k) × IsAuthentic c a e
  insert-IsStore d t good v k e h = elim (Bool-cases (bytes_eq d.node_id k)) [
    | inl same ↦
        subst (λ x. (x.node_id ≡ k) × IsAuthentic c a x)
          (one_some d e (sym (lookup-insert d.node_id k d t.stored ∙ rw same) ∙ h))
          ((bytes_eq_iff d.node_id k).0 same, good)
    | inr other ↦ v k e (sym (lookup-insert d.node_id k d t.stored ∙ rw other) ∙ h)
  ]

  serve-IsStore :
      (from : SocketAddr) (m : RpcMsg) (t : Kademlia)
      → AllAuthentic c a (carried m)
      → IsStore t
      → IsStore (serve from m t).0
  unfolding serve
  serve-IsStore from (ping n) t good v = v
  serve-IsStore from (pong n) t good v = v
  serve-IsStore from (store d) t good v = λ k e h. insert-IsStore d t good v k e (
      ap (lookup k)
        (sym (stored_merge (from_desc d ∷ []) (record t { stored = insert d.node_id d t.stored })))
      ∙ h)
  serve-IsStore from (find key want) t good v = v
  serve-IsStore from (found ks value) t good v = v

  pub handle_request-serve :
      (from : SocketAddr) (w : Bytes) (m : RpcMsg) (t : Kademlia)
      → rpc_decode c a w ≡ ok m
      → handle_request c a from w t ≡ serve from m t
  unfolding handle_request
  handle_request-serve from w m t e = rw (e, handle_request)

  pub stored_after :
      (from : SocketAddr) (w : Bytes) (d : Descriptor) (t : Kademlia)
      → rpc_decode c a w ≡ ok (store d)
      → lookup d.node_id ((handle_request c a from w t).0).stored ≡ some d
  unfolding serve
  stored_after from w d t e =
      ap (λ r. lookup d.node_id (r.0).stored) (handle_request-serve from w (store d) t e)
      ∙ ap (lookup d.node_id)
          (stored_merge (from_desc d ∷ []) (record t { stored = insert d.node_id d t.stored }))
      ∙ lookup-insert_self d.node_id d t.stored

  -- Whatever datagram arrives at a node whose routing table and store are in order, the routing
  -- table stays in order, and so does the store: it holds descriptors under their own ids only,
  -- each with an id that is the hash of its key and a signature of that key.
  pub handle_request-IsTable :
      (from : SocketAddr) (datagram : Bytes) (t : Kademlia)
      → IsTable t
      → IsStore t
      → IsTable (handle_request c a from datagram t).0
        × IsStore (handle_request c a from datagram t).0
  unfolding handle_request
  handle_request-IsTable from datagram t v w = elim (Result-cases (rpc_decode c a datagram)) [
    | inl (m, e) ↦
        rw (e, handle_request)
          (
            serve-IsTable from m t v,
            serve-IsStore from m t (rpc_decode-AllAuthentic c a datagram m e) w,
          )
    | inr (x, e) ↦ rw (e, handle_request) (v, w)
  ]

  -- A node that has taken the STORE of a descriptor with an IPv4 address answers a FIND for that
  -- id, from whomever, with the descriptor and with the contacts of its table nearest to the id.
  pub handle_request-store :
      (from asker : SocketAddr) (w q b : Bytes) (d : Descriptor) (t : Kademlia)
      → rpc_decode c a w ≡ ok (store d)
      → rpc_decode c a q ≡ ok (find d.node_id true)
      → to_bytes d ≡ some b
      → (out : Bytes) × (rpc_encode
            (found (closest d.node_id bucket (handle_request c a from w t).0) (some d))
          ≡ some out)
        × (handle_request c a asker q (handle_request c a from w t).0
            ≡ ((handle_request c a from w t).0, (asker, out) ∷ []))
  handle_request-store from asker w q b d t hw hq hb =
      let t' = (handle_request c a from w t).0 in
      let (out, ho) = rpc_encode-found (closest d.node_id bucket t') d b hb in
      (
        out,
        ho,
        handle_request-serve asker q (find d.node_id true) t' hq
            ∙ serve_find asker d.node_id out d t' (stored_after from w d t hw) ho,
      )
