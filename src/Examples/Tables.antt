-- ===== src/Examples/Tables.antt =====
-- Descriptors and messages of the distributed table at concrete inputs.
use never_been_found.Prelude.{
  ℕ, ◌⊎◌, All, ◌≡◌, refl, true, some, [], ◌∷◌, length, ap, ◌∙◌, length-take, lookup,
  length-replicate, take, replicate, Bytes, ok, arith,
}
use never_been_found.Addr.{SocketAddr, v4}
use never_been_found.Identity.{NodeIdentity, node_id_from_ed_pub}
use never_been_found.Descriptor.{Descriptor, to_bytes, read, sign, from_signed_bytes}
use never_been_found.Descriptor.Signed.{IsIdentity, from_signed_bytes-sign, from_signed_bytes_sound}
use never_been_found.Rpc.{Contact, RpcMsg, store, find, found, rpc_encode, rpc_decode}
use never_been_found.Rpc.RoundTrip.{Accepted, IsContact, rpc_decode-encode}
use never_been_found.Rpc.Authentic.{AllAuthentic, rpc_decode-AllAuthentic}
use never_been_found.Kademlia.{Kademlia, bucket, new_table, closest, try_merge, handle_request}
use never_been_found.Kademlia.Table.{IsTable, Distinct, Nearest}
use never_been_found.Kademlia.Order.{In, NoFarther, closest_best}
use never_been_found.Kademlia.Requests.{IsStore, handle_request-IsTable}
use never_been_found.Kademlia
use never_been_found.Kademlia.Serving.{handle_requests, shelve, shelf_of, find-shelve}
use never_been_found.Examples.Toy.{suite, asym}

abbrev pub me : NodeIdentity asym
me = record {
  ed = 7;
  link_priv = replicate 32 7;
  link_pub = replicate 32 7;
  sphinx_priv = 2;
  sphinx_pub = replicate 32 2;
  kem_sk = 7;
  kem_pk = replicate 1184 7;
}

pub me-IsIdentity : IsIdentity asym me
me-IsIdentity = record {
  link_32 = length-replicate {A = ℕ} 32 7;
  sphinx_32 = length-replicate {A = ℕ} 32 2;
  kem_1184 = length-replicate {A = ℕ} 1184 7;
}

abbrev pub octets : Bytes
octets = 127 ∷ 0 ∷ 0 ∷ 1 ∷ []

pub signed :
    (d : Descriptor) × (w : Bytes) × (sign suite asym me
        (record { ip = v4 octets; port = 7001 })
        7002
        1000
      ≡ some d)
    × (to_bytes d ≡ some w)
    × (length w ≡ 1385)
    × (from_signed_bytes suite asym w ≡ ok d)
signed =
    from_signed_bytes-sign suite asym me octets 7001 7002 1000 me-IsIdentity refl (omega arith)
      (omega arith) (omega arith)

from_signed_bytes-sign_example :
    (d : Descriptor) × (w : Bytes) × (sign suite asym me
        (record { ip = v4 octets; port = 9001 })
        9002
        1000
      ≡ some d)
    × (to_bytes d ≡ some w)
    × (length w ≡ 1385)
    × (from_signed_bytes suite asym w ≡ ok d)
from_signed_bytes-sign_example =
    from_signed_bytes-sign suite asym me octets 9001 9002 1000 me-IsIdentity refl (omega arith)
      (omega arith) (omega arith)

from_signed_bytes_sound_example :
    (signed.0 ≡ read signed.1)
    × (length signed.1 ≡ 1385)
    × ((signed.0).node_id ≡ node_id_from_ed_pub suite (signed.0).ed_pub)
    × (asym.verify (signed.0).ed_pub (take 1321 signed.1) (signed.0).sig ≡ true)
from_signed_bytes_sound_example = from_signed_bytes_sound suite asym signed.1 signed.0 signed.5

signed-Accepted : Accepted suite asym signed.0
signed-Accepted = record {
  image = signed.1;
  written = signed.3;
  size = signed.4;
  readable = signed.5;
}

abbrev pub peer : Contact
peer = record { node_id = replicate 20 3; ip = octets; dht_port = 7002 }

pub peer-IsContact : IsContact peer
peer-IsContact = record {
  id_20 = length-replicate {A = ℕ} 20 3;
  ip_4 = refl;
  port_u16 = omega arith;
}

abbrev answer : RpcMsg
answer = found (peer ∷ peer ∷ []) (some signed.0)

rpc_decode-encode_example :
    (w : Bytes) × (rpc_encode answer ≡ some w) × (rpc_decode suite asym w ≡ ok answer)
rpc_decode-encode_example =
    rpc_decode-encode suite asym answer
      ((peer-IsContact, (peer-IsContact, tt)), omega arith, signed-Accepted)

stored :
    (w : Bytes) × (rpc_encode (store signed.0) ≡ some w)
    × (rpc_decode suite asym w ≡ ok (store signed.0))
stored = rpc_decode-encode suite asym (store signed.0) signed-Accepted

rpc_decode-AllAuthentic_example : AllAuthentic suite asym (some signed.0)
rpc_decode-AllAuthentic_example =
    rpc_decode-AllAuthentic suite asym stored.0 (store signed.0) stored.2

id_20 : length (signed.0).node_id ≡ 20
unfolding node_id_from_ed_pub
id_20 =
    let sound = from_signed_bytes_sound suite asym signed.1 signed.0 signed.5 in
    let key = (signed.0).ed_pub in
    ap length sound.2 ∙ omega (arith, length-take 20 (suite.sha256 key), suite.length-sha256 key)

asked :
    (w : Bytes) × (rpc_encode (find (signed.0).node_id true) ≡ some w)
    × (rpc_decode suite asym w ≡ ok (find (signed.0).node_id true))
asked = rpc_decode-encode suite asym (find (signed.0).node_id true) id_20

abbrev pub table : Kademlia
table = new_table (replicate 20 9) signed.0

table-IsTable : IsTable table
table-IsTable = record { size = omega arith; distinct = (tt, tt); nearest = (tt, tt) }

table-IsStore : IsStore suite asym table
unfolding lookup
table-IsStore k d h = cc

abbrev pub home : SocketAddr
home = record { ip = v4 octets; port = 5000 }

closest_best_example :
    (length (closest (replicate 20 3) 3 table) ≡ 1)
    × Distinct (closest (replicate 20 3) 3 table)
    × Nearest (replicate 20 3) (closest (replicate 20 3) 3 table)
    × All (λ x. In x table.rt) (closest (replicate 20 3) 3 table)
    × ((c : Contact)
        → In c table.rt
        → In c (closest (replicate 20 3) 3 table)
          ⊎ All (λ x. NoFarther (replicate 20 3) x c) (closest (replicate 20 3) 3 table))
closest_best_example = closest_best (replicate 20 3) 3 table table-IsTable

abbrev with_peer : Kademlia
with_peer = record table { rt = peer ∷ [] }

handle_request-IsTable_example :
    IsTable (handle_request suite asym home stored.0 table).0
    × IsStore suite asym (handle_request suite asym home stored.0 table).0
handle_request-IsTable_example =
    handle_request-IsTable suite asym home stored.0 table table-IsTable table-IsStore

find-shelve_example :
    let t' = (handle_requests suite asym ((home, stored.0) ∷ []) table).0 in
    handle_request suite asym home asked.0 t' ≡ (
      t',
      Kademlia.answer home (
          found
            (closest (signed.0).node_id bucket t')
            (shelve suite asym ((home, stored.0) ∷ []) (shelf_of table) (signed.0).node_id)),
    )
find-shelve_example =
    find-shelve suite asym ((home, stored.0) ∷ []) home asked.0 (signed.0).node_id table asked.2
