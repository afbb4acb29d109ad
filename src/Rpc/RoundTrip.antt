-- ===== src/Rpc/RoundTrip.antt =====
-- Encoding and decoding the messages of the distributed table (crates/nbf-dht/src/rpc.rs).
use never_been_found.Prelude.{
  ℕ, ◌≤◌, ◌<◌, ◌^◌, ◌≡◌, refl, ap, ◌∙◌, Bool, true, false, not, ◌==◌, Option, none, some, List, [],
  ◌∷◌, ◌++◌, map, length, length-append, length-to_le, All, get_or-append, take, take-append,
  take_all, drop, drop-append, drop_zero, slice-here, slice-skip, concat, append_assoc, Bytes,
  to_le, from_le-to_le, bytes_eq_refl, ok, le→leb, arith,
}
use never_been_found.Suite.{Suite}
use never_been_found.Asym.{Asym}
use never_been_found.Descriptor.{Descriptor, to_bytes, from_signed_bytes}
use never_been_found.Rpc.{
  Contact, RpcType, RpcMsg, ping, pong, store, find, found, rpc_code, rpc_try_from, rpc_magic, flag,
  contact_bytes, rpc_body, rpc_encode, read_contact, read_contacts, read_value, decode_body,
  rpc_decode,
}

pub record IsContact (k : Contact) : Type 0 where
  pub id_20 : length k.node_id ≡ 20
  pub ip_4 : length k.ip ≡ 4
  pub port_u16 : k.dht_port < 2 ^ 16

-- The descriptor has 1385 bytes, and a reader accepts them.
pub record Accepted (c : Suite) (a : Asym) (d : Descriptor) : Type 0 where
  pub image : Bytes
  pub written : to_bytes d ≡ some image
  pub size : length image ≡ 1385
  pub readable : from_signed_bytes c a image ≡ ok d

-- The fields have values of their types.
abbrev pub IsMsg : Suite → Asym → RpcMsg → Type 0
IsMsg c a (ping nonce) = nonce < 2 ^ 64
IsMsg c a (pong nonce) = nonce < 2 ^ 64
IsMsg c a (store d) = Accepted c a d
IsMsg c a (find key want) = length key ≡ 20
IsMsg c a (found contacts none) = All IsContact contacts × (length contacts < 2 ^ 16)
IsMsg c a (found contacts (some d)) =
    All IsContact contacts × (length contacts < 2 ^ 16) × Accepted c a d

flag_read : (b : Bool) → not (flag b == 0) ≡ b
flag_read false = refl
flag_read true = refl

rpc_try_from-code : (t : RpcType) → rpc_try_from (rpc_code t) ≡ ok t
unfolding rpc_try_from
rpc_try_from-code ping = refl
rpc_try_from-code pong = refl
rpc_try_from-code store = refl
rpc_try_from-code find = refl
rpc_try_from-code found = refl

length-contact : (k : Contact) → IsContact k → length (contact_bytes k) ≡ 26
unfolding contact_bytes
length-contact k v = omega (
  arith,
  length-append k.node_id (k.ip ++ to_le 2 k.dht_port),
  length-append k.ip (to_le 2 k.dht_port),
  length-to_le 2 k.dht_port,
  v.id_20,
  v.ip_4,
)

read_contact-bytes :
    (k : Contact) (rest : Bytes) → IsContact k → read_contact (contact_bytes k ++ rest) ≡ k
unfolding read_contact contact_bytes
read_contact-bytes k rest v = rw (
  append_assoc k.node_id (k.ip ++ port) rest,
  append_assoc k.ip port rest,
  slice-here 20 k.node_id (k.ip ++ (port ++ rest)) v.id_20,
  slice-skip 20 4 20 k.node_id (k.ip ++ (port ++ rest)) v.id_20 (omega arith),
  slice-here 4 k.ip (port ++ rest) v.ip_4,
  slice-skip 24 2 20 k.node_id (k.ip ++ (port ++ rest)) v.id_20 (omega arith),
  slice-skip 4 2 4 k.ip (port ++ rest) v.ip_4 (omega arith),
  slice-here 2 port rest (length-to_le 2 k.dht_port),
  from_le-to_le 2 k.dht_port v.port_u16,
)
  where
    port : Bytes
    port = to_le 2 k.dht_port

read_contacts-bytes :
    (len : ℕ) (ks : List Contact) (rest : Bytes)
    → All IsContact ks
    → read_contacts len (length ks) (concat (map contact_bytes ks) ++ rest) ≡ ok (ks, rest)
unfolding read_contacts concat
read_contacts-bytes len [] rest v = refl
read_contacts-bytes len (k ∷ ks) rest (v, vs) = rw (
  append_assoc (contact_bytes k) (concat (map contact_bytes ks)) rest,
  le→leb 26 (length (contact_bytes k ++ after)) long,
  drop-append 26 26 (contact_bytes k) after (length-contact k v) (omega arith),
  drop_zero after,
  read_contacts-bytes len ks rest vs,
  read_contact-bytes k after v,
)
  where
    after : Bytes
    after = concat (map contact_bytes ks) ++ rest

    long : 26 ≤ length (contact_bytes k ++ after)
    long = omega (arith, length-append (contact_bytes k) after, length-contact k v)

found_body :
    (ks : List Contact) (d : Descriptor) (b : Bytes)
    → to_bytes d ≡ some b
    → rpc_body (found ks (some d))
      ≡ some
          (RpcType.found, to_le 2 (length ks) ++ (concat (map contact_bytes ks) ++ (flag true ∷ b)))
unfolding rpc_body
found_body ks d b e = rw (e, rpc_body)

-- An answer with a descriptor that has an IPv4 address can be written.
pub rpc_encode-found :
    (ks : List Contact) (d : Descriptor) (b : Bytes)
    → to_bytes d ≡ some b
    → (out : Bytes) × (rpc_encode (found ks (some d)) ≡ some out)
unfolding rpc_encode
rpc_encode-found ks d b e = (
  rpc_magic
      ++ (rpc_code RpcType.found
          ∷ (to_le 2 (length ks) ++ (concat (map contact_bytes ks) ++ (flag true ∷ b)))),
  rw (found_body ks d b e, rpc_encode),
)

module _ (c : Suite) (a : Asym) where
  frame-decode :
      (t : RpcType) (body : Bytes)
      → rpc_decode c a (rpc_magic ++ (rpc_code t ∷ body)) ≡ decode_body c a t body
  unfolding rpc_decode take drop
  frame-decode t body = rw (
    le→leb 5 (length (rpc_magic ++ (rpc_code t ∷ body))) (omega arith),
    bytes_eq_refl rpc_magic,
    rpc_try_from-code t,
  )

  read_value-none : (len : ℕ) → read_value c a len (flag false ∷ []) ≡ ok none
  unfolding read_value
  read_value-none len = refl

  read_value-some :
      (len : ℕ) (d : Descriptor) (v : Accepted c a d)
      → read_value c a len (flag true ∷ v.image) ≡ ok (some d)
  unfolding read_value
  read_value-some len d v =
      rw (v.size, take_all 1385 v.image (omega (arith, v.size))) (rw v.readable)

  found-body :
      (ks : List Contact) (value : Option Descriptor) (vb : Bytes)
      → All IsContact ks
      → length ks < 2 ^ 16
      → 1 ≤ length vb
      → ((len : ℕ) → read_value c a len vb ≡ ok value)
      → decode_body c a RpcType.found (to_le 2 (length ks) ++ (concat (map contact_bytes ks) ++ vb))
        ≡ ok (found ks value)
  unfolding decode_body
  found-body ks value vb v few some_value reads = rw (
    le→leb 3 (length body) long,
    slice-here 2 count after two,
    from_le-to_le 2 (length ks) few,
    drop-append 2 2 count after two (omega arith),
    drop_zero after,
    read_contacts-bytes (length body) ks vb v,
    reads (length body),
  )
    where
      count : Bytes
      count = to_le 2 (length ks)

      two : length count ≡ 2
      two = length-to_le 2 (length ks)

      after : Bytes
      after = concat (map contact_bytes ks) ++ vb

      body : Bytes
      body = count ++ after

      long : 3 ≤ length body
      long = omega (
        arith,
        length-append count after,
        length-append (concat (map contact_bytes ks)) vb,
        two,
        some_value,
      )

  find-body :
      (key : Bytes) (want : Bool)
      → length key ≡ 20
      → decode_body c a RpcType.find (key ++ (flag want ∷ [])) ≡ ok (find key want)
  unfolding decode_body
  find-body key want v =
      rw
        (
          le→leb 21 (length (key ++ (flag want ∷ [])))
              (omega (arith, length-append key (flag want ∷ []), v)),
          take-append 20 key (flag want ∷ []) v,
          get_or-append key (flag want ∷ []) 20 20 0 v (omega arith),
        )
        (ap (λ x. ok (find key x)) (flag_read want))

  body-decode :
      (m : RpcMsg)
      → IsMsg c a m
      → (t : RpcType) × (body : Bytes) × (rpc_body m ≡ some (t, body))
        × (decode_body c a t body ≡ ok m)
  unfolding rpc_body decode_body
  body-decode (ping k) v =
      (RpcType.ping, to_le 8 k, refl, rw (length-to_le 8 k, from_le-to_le 8 k v))
  body-decode (pong k) v =
      (RpcType.pong, to_le 8 k, refl, rw (length-to_le 8 k, from_le-to_le 8 k v))
  body-decode (store d) v = (RpcType.store, v.image, rw (v.written, rpc_body), rw (v.readable))
  body-decode (find key want) v =
      (RpcType.find, key ++ (flag want ∷ []), refl, find-body key want v)
  body-decode (found ks none) (v, few) = (
    RpcType.found,
    _,
    refl,
    found-body ks none (flag false ∷ []) v few (omega arith) read_value-none,
  )
  body-decode (found ks (some d)) (v, few, w) = (
    RpcType.found,
    _,
    rw (w.written, rpc_body),
    found-body ks (some d) (flag true ∷ w.image) v few (omega arith)
        (λ len. read_value-some len d w),
  )

  -- Every message whose fields have values of their types, and whose descriptors a reader accepts,
  -- is encoded, and decoding its bytes gives the message back.
  pub rpc_decode-encode :
      (m : RpcMsg) → IsMsg c a m → (w : Bytes) × (rpc_encode m ≡ some w) × (rpc_decode c a w ≡ ok m)
  unfolding rpc_encode
  rpc_decode-encode m v =
      let (t, body, e, back) = body-decode m v in
      (rpc_magic ++ (rpc_code t ∷ body), rw (e, rpc_encode), frame-decode t body ∙ back)
