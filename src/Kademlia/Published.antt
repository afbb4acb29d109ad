-- ===== src/Kademlia/Published.antt =====
-- A descriptor from its STORE at one node to the search of another (crates/nbf-dht/src/kademlia.rs,
-- `store_self`, `handle` and `lookup`), through the bytes of crates/nbf-dht/src/rpc.rs.
use never_been_found.Prelude.{
  ℕ, suc, ◌<◌, ◌^◌, ◌≡◌, sym, ap, ◌∙◌, true, none, some, List, [], ◌∷◌, length, All, Bytes, ok, err,
  if◌then◌else◌, arith, lookup, bytes_eq_inst,
}
use never_been_found.Suite.{Suite}
use never_been_found.Asym.{Asym}
use never_been_found.Addr.{SocketAddr, v4, addr_eq, addr_eq_refl}
use never_been_found.Identity.{NodeIdentity, node_id}
use never_been_found.Descriptor.{Descriptor, sign}
use never_been_found.Descriptor.Signed.{
  IsIdentity, length-node_id, sign-fields, from_signed_bytes-sign,
}
use never_been_found.Rpc.{
  Contact, contact_ip, addr, from_desc, RpcMsg, store, find, found, rpc_encode, rpc_decode,
}
use never_been_found.Rpc.RoundTrip.{IsContact, Accepted, rpc_decode-encode}
use never_been_found.Kademlia.{Kademlia, bucket, closest, serve, handle_request}
use never_been_found.Kademlia.Contacts.{try_merge-All, closest-All, length-closest}
use never_been_found.Kademlia.Requests.{handle_request-serve, serve_find, stored_after}
use never_been_found.Kademlia.Lookup.{Reply, answered, silent, unsent, Net, Search, done, lookup_in}
use never_been_found.Kademlia.Lookup.Values.{lookup_takes_first}

module _ (c : Suite) (a : Asym) where
  -- What a node's answer is read as.
  abbrev pub read_reply : List (SocketAddr × Bytes) → Reply
  read_reply [] = silent
  read_reply ((to, out) ∷ rest) = elim (rpc_decode c a out) [ err e ↦ silent | ok m ↦ answered m ]

  -- A request to one node, written, handled and answered.
  pub reply_of : Kademlia → SocketAddr → RpcMsg → Reply
  reply_of t asker m = elim (rpc_encode m) [
    | none ↦ unsent
    | some w ↦ read_reply (handle_request c a asker w t).1
  ]

  -- A network in which one node is up, in a state that requests do not change.
  abbrev pub peer_net : SocketAddr → Kademlia → SocketAddr → Net
  peer_net at_ t asker = λ n to m. if addr_eq to at_ then reply_of t asker m else silent

  find_answered :
      (asker : SocketAddr) (d : Descriptor) (t : Kademlia)
      → Accepted c a d
      → length d.node_id ≡ 20
      → All IsContact t.rt
      → lookup d.node_id t.stored ≡ some d
      → reply_of t asker (find d.node_id true)
        ≡ answered (found (closest d.node_id bucket t) (some d))
  unfolding reply_of
  find_answered asker d t good id_20 contacts held =
      let ks = closest d.node_id bucket t in
      let (q, asked, read_q) = rpc_decode-encode c a (find d.node_id true) id_20 in
      let (out, told, read_out) = rpc_decode-encode c a (found ks (some d)) (
        closest-All IsContact d.node_id bucket t contacts,
        omega (arith, length-closest d.node_id bucket t),
        good,
      ) in
      let handled =
        handle_request-serve c a asker q (find d.node_id true) t read_q
        ∙ serve_find asker d.node_id out d t held told in
      rw (asked, reply_of) (ap (λ r. read_reply r.1) handled ∙ rw (read_out, read_reply))

  -- A descriptor that a node holds is found by whoever has that node as nearest contact.
  held_found :
      (asker : SocketAddr) (d : Descriptor) (t tp : Kademlia) (p : Contact) (cs : List Contact)
      (fuel : ℕ)
      → Accepted c a d
      → length d.node_id ≡ 20
      → All IsContact tp.rt
      → lookup d.node_id tp.stored ≡ some d
      → closest d.node_id bucket t ≡ p ∷ cs
      → (s : Search) × (lookup_in (peer_net (addr p) tp asker) d.node_id true (suc fuel) t
          ≡ done (some d) s)
  held_found asker d t tp p cs fuel good id_20 contacts held near =
      lookup_takes_first (peer_net (addr p) tp asker) d.node_id fuel t p cs
        (closest d.node_id bucket tp) d near
        (rw (addr_eq_refl (addr p)) (find_answered asker d tp good id_20 contacts held))

  stored_contacts :
      (owner : SocketAddr) (w : Bytes) (d : Descriptor) (tp : Kademlia)
      → rpc_decode c a w ≡ ok (store d)
      → IsContact (from_desc d)
      → All IsContact tp.rt
      → All IsContact (handle_request c a owner w tp).0.rt
  unfolding serve
  stored_contacts owner w d tp e own contacts =
      rw (handle_request-serve c a owner w (store d) tp e)
        (try_merge-All IsContact (from_desc d ∷ []) _ contacts (own, tt))

  stored_found :
      (owner asker : SocketAddr) (d : Descriptor) (t tp : Kademlia) (p : Contact)
      (cs : List Contact) (fuel : ℕ)
      → Accepted c a d
      → IsContact (from_desc d)
      → All IsContact tp.rt
      → closest d.node_id bucket t ≡ p ∷ cs
      → (w : Bytes) × (rpc_encode (store d) ≡ some w)
        × ((s : Search) × (lookup_in
                (peer_net (addr p) (handle_request c a owner w tp).0 asker)
                d.node_id
                true
                (suc fuel)
                t
              ≡ done (some d) s))
  unfolding from_desc
  stored_found owner asker d t tp p cs fuel good own contacts near =
      let (w, written, back) = rpc_decode-encode c a (store d) good in
      (
        w,
        written,
        held_found asker d t (handle_request c a owner w tp).0 p cs fuel good own.id_20
            (stored_contacts owner w d tp back own contacts) (stored_after c a owner w d tp back)
            near,
      )

  signed-IsContact :
      (i : NodeIdentity a) (octets : Bytes) (port dht_port now : ℕ) (d : Descriptor)
      → sign c a i (record { ip = v4 octets; port = port }) dht_port now ≡ some d
      → length octets ≡ 4
      → dht_port < 2 ^ 16
      → (d.node_id ≡ node_id a c i) × IsContact (from_desc d)
  unfolding from_desc
  signed-IsContact i octets port dht_port now d e ho hp =
      let (same_id, same_ip, same_port) = sign-fields c a i _ dht_port now d e in
      (
        same_id,
        record {
          id_20 = ap length same_id ∙ length-node_id c a i;
          ip_4 = ap (λ x. length (contact_ip x.ip)) same_ip ∙ ho;
          port_u16 = omega (arith, same_port);
        },
      )

  -- Let a node whose public keys have their sizes sign a descriptor of an IPv4 address, with ports
  -- and time in their ranges, and send its STORE to a peer whose contacts are of the sizes of their
  -- types. Then the search for the node's id by any other node, to which this peer is the contact
  -- nearest to the id and whose question and answer are not lost, ends with exactly this descriptor
  -- after one round, where only the STORE has come to the peer and no other node answers.
  pub published_found :
      (i : NodeIdentity a) (octets : Bytes) (port dht_port now : ℕ) (owner asker : SocketAddr)
      (t tp : Kademlia) (p : Contact) (cs : List Contact) (fuel : ℕ)
      → IsIdentity a i
      → length octets ≡ 4
      → port < 2 ^ 16
      → dht_port < 2 ^ 16
      → now < 2 ^ 64
      → All IsContact tp.rt
      → closest (node_id a c i) bucket t ≡ p ∷ cs
      → (d : Descriptor) × (w : Bytes) × (sign c a i
            (record { ip = v4 octets; port = port })
            dht_port
            now
          ≡ some d)
        × (rpc_encode (store d) ≡ some w)
        × ((s : Search) × (lookup_in
                (peer_net (addr p) (handle_request c a owner w tp).0 asker)
                (node_id a c i)
                true
                (suc fuel)
                t
              ≡ done (some d) s))
  published_found i octets port dht_port now owner asker t tp p cs fuel v ho hp hd ht contacts
        near =
      let (d, b, signed, written, size, readable) =
        from_signed_bytes-sign c a i octets port dht_port now v ho hp hd ht in
      let (same_id, own) = signed-IsContact i octets port dht_port now d signed ho hd in
      let good : Accepted c a d = record {
        image = b;
        written = written;
        size = size;
        readable = readable;
      } in
      let (w, sent, (s, found_)) =
        stored_found owner asker d t tp p cs fuel good own contacts
          (ap (λ k. closest k bucket t) same_id ∙ near) in
      (
        d,
        w,
        signed,
        sent,
        (
          s,
          ap
                (λ k.
                  lookup_in (peer_net (addr p) (handle_request c a owner w tp).0 asker) k true
                    (suc fuel) t)
                (sym same_id)
              ∙ found_,
        ),
      )
