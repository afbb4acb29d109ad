-- ===== src/Examples/Searches.antt =====
-- Searches over a concrete network: every node answers with one contact and one descriptor.
use never_been_found.Prelude.{
  ◌≡◌, refl, ap, sym, true, false, ◌||◌, Option, some, List, [], ◌∷◌, take, replicate, Bytes,
  bytes_eq_refl, arith,
}
use never_been_found.Addr.{v4}
use never_been_found.Identity.{node_id}
use never_been_found.Descriptor.{Descriptor, sign}
use never_been_found.Rpc.{Contact, addr, store, found, rpc_encode}
use never_been_found.Kademlia.{Kademlia, bucket, closest, sort_near, insert_near, handle_request}
use never_been_found.Kademlia.Table.{IsTable}
use never_been_found.Kademlia.Lookup.{Net, Search, Reply, answered, contains, lookup_in, done}
use never_been_found.Kademlia.Lookup.Batch.{Known}
use never_been_found.Kademlia.Lookup.Ends.{Bounded, lookup_ends}
use never_been_found.Kademlia.Lookup.Values.{Came, lookup-Came, lookup_takes_first}
use never_been_found.Kademlia.Published.{peer_net, published_found}
use never_been_found.Examples.Toy.{suite, asym}
use never_been_found.Examples.Tables.{
  me, me-IsIdentity, octets, home, signed, peer, peer-IsContact, table,
}

abbrev net : Net
net n to m = answered (found (peer ∷ []) (some signed.0))

abbrev peers : Kademlia
peers = record table { rt = peer ∷ [] }

abbrev key : Bytes
key = replicate 20 5

abbrev ids : List Bytes
ids = peer.node_id ∷ []

peers-IsTable : IsTable peers
peers-IsTable = record { size = omega arith; distinct = (tt, tt); nearest = (tt, tt) }

peer-named : contains peer.node_id ids ≡ true
peer-named = ap (λ b. b || false) (bytes_eq_refl peer.node_id)

contacts_of : Reply → List Contact
contacts_of (answered (found ks v)) = ks
contacts_of r = []

net-Bounded : Bounded ids net
unfolding contacts_of
net-Bounded n to m ks v e = rw (sym (ap contacts_of e)) (peer-named, tt)

lookup_ends_example :
    (v : Option Descriptor) × (s : Search) × (lookup_in net key true 2 peers ≡ done v s)
    × (IsTable s.table × Known ids (s.table).rt)
lookup_ends_example = lookup_ends net key true ids net-Bounded peers peers-IsTable (peer-named, tt)

peer-closest : closest key bucket peers ≡ peer ∷ []
unfolding closest sort_near insert_near take
peer-closest = refl

lookup_takes_first_example :
    (s : Search) × (lookup_in net key true 2 peers ≡ done (some signed.0) s)
lookup_takes_first_example =
    lookup_takes_first net key 1 peers peer [] (peer ∷ []) signed.0 peer-closest refl

taken_first : (s : Search) × (lookup_in net key true 3 peers ≡ done (some signed.0) s)
taken_first = lookup_takes_first net key 2 peers peer [] (peer ∷ []) signed.0 peer-closest refl

lookup-Came_example : Came net key true signed.0
lookup-Came_example = lookup-Came net key true 3 peers taken_first.0 signed.0 taken_first.1

me-closest : closest (node_id asym suite me) bucket peers ≡ peer ∷ []
unfolding closest sort_near insert_near take
me-closest = refl

published_found_example :
    (d : Descriptor) × (w : Bytes) × (sign suite asym me
        (record { ip = v4 octets; port = 7001 })
        7002
        1000
      ≡ some d)
    × (rpc_encode (store d) ≡ some w)
    × ((s : Search) × (lookup_in
            (peer_net suite asym (addr peer) (handle_request suite asym home w peers).0 home)
            (node_id asym suite me)
            true
            2
            peers
          ≡ done (some d) s))
published_found_example =
    published_found suite asym me octets 7001 7002 1000 home home peers peers peer [] 1
      me-IsIdentity refl (omega arith) (omega arith) (omega arith) (peer-IsContact, tt) me-closest
