-- ===== src/Rpc.antt =====
-- The messages of the distributed table and their bytes (crates/nbf-dht/src/rpc.rs). Encoding a
-- descriptor whose address is not IPv4 panics, which is `none`.
pub mod RoundTrip
pub mod Authentic
use never_been_found.Prelude.{
  ℕ, zero, suc, ◌+◌, ◌-◌, ◌≡◌, Bool, true, false, not, Option, none, some, List, [], ◌∷◌, ◌++◌,
  length, get_or, take, drop, slice, concat, map, Bytes, to_le, from_le, bytes_eq, Result, ok, err,
  ◌>>=◌, ◌>>◌, guard, map_err, ltb, leb, ◌==◌, if◌then◌else◌,
}
use never_been_found.Errors.{DhtError, bad_len, bad_type, bad_desc}
use never_been_found.Suite.{Suite}
use never_been_found.Asym.{Asym}
use never_been_found.Addr.{SocketAddr, IpAddr, v4, v6}
use never_been_found.Descriptor.{Descriptor, to_bytes, from_signed_bytes}

pub record Contact : Type 0 where
  pub node_id : Bytes
  pub ip : Bytes
  pub dht_port : ℕ

-- An address that is not IPv4 counts as the local host.
abbrev pub contact_ip : IpAddr → Bytes
contact_ip (v4 octets) = octets
contact_ip (v6 o) = 127 ∷ 0 ∷ 0 ∷ 1 ∷ []

unfoldable pub from_desc : Descriptor → Contact
from_desc d = record { node_id = d.node_id; ip = contact_ip d.cell_addr.ip; dht_port = d.dht_port }

pub addr : Contact → SocketAddr
addr c = record { ip = v4 c.ip; port = c.dht_port }

pub data RpcType : Type 0 where
  ping pong store find found : RpcType

abbrev pub rpc_code : RpcType → ℕ
rpc_code ping = 1
rpc_code pong = 2
rpc_code store = 3
rpc_code find = 4
rpc_code found = 5

pub rpc_try_from : ℕ → Result DhtError RpcType
rpc_try_from v =
    if v == 1
    then ok ping
    else if v == 2
    then ok pong
    else if v == 3
    then ok store
    else if v == 4
    then ok find
    else if v == 5
    then ok found
    else err (bad_type v)

pub data RpcMsg : Type 0 where
  -- nonce
  ping pong : ℕ → RpcMsg
  store : Descriptor → RpcMsg
  -- key, want_value
  find : Bytes → Bool → RpcMsg
  -- contacts, value
  found : List Contact → Option Descriptor → RpcMsg

-- b"NBFR"
abbrev pub rpc_magic : Bytes
rpc_magic = b'N' ∷ b'B' ∷ b'F' ∷ b'R' ∷ []

-- `b as u8`
abbrev pub flag : Bool → ℕ
flag false = 0
flag true = 1

unfoldable pub contact_bytes : Contact → Bytes
contact_bytes c = c.node_id ++ (c.ip ++ to_le 2 c.dht_port)

-- The flag byte and the descriptor behind the contacts.
abbrev pub value_bytes : Option Descriptor → Option Bytes
value_bytes none = some (flag false ∷ [])
value_bytes (some d) = elim (to_bytes d) [ none ↦ none | some b ↦ some (flag true ∷ b) ]

-- The type and the body.
pub rpc_body : RpcMsg → Option (RpcType × Bytes)
rpc_body (ping nonce) = some (RpcType.ping, to_le 8 nonce)
rpc_body (pong nonce) = some (RpcType.pong, to_le 8 nonce)
rpc_body (store d) = elim (to_bytes d) [ none ↦ none | some b ↦ some (RpcType.store, b) ]
rpc_body (find key want) = some (RpcType.find, key ++ (flag want ∷ []))
rpc_body (found contacts value) = elim (value_bytes value) [
  | none ↦ none
  | some b ↦
      some (RpcType.found, to_le 2 (length contacts) ++ (concat (map contact_bytes contacts) ++ b))
]

pub rpc_encode : RpcMsg → Option Bytes
unfolding rpc_body
rpc_encode msg = elim (rpc_body msg) [
  | none ↦ none
  | some (t, body) ↦ some (rpc_magic ++ (rpc_code t ∷ body))
]

pub read_contact : Bytes → Contact
read_contact bs = record {
  node_id = slice 0 20 bs;
  ip = slice 20 4 bs;
  dht_port = from_le (slice 24 2 bs);
}

-- The loop over `n` contacts: `rest` is the body from the offset on, `len` the length of the body.
pub read_contacts : ℕ → ℕ → Bytes → Result DhtError (List Contact × Bytes)
unfolding read_contact
read_contacts len zero rest = ok ([], rest)
read_contacts len (suc n) rest = do
  guard (leb 26 (length rest)) (bad_len len)
  later ← read_contacts len n (drop 26 rest)
  ok (read_contact rest ∷ later.0, later.1)

module _ (c : Suite) (a : Asym) where
  pub read_value : ℕ → Bytes → Result DhtError (Option Descriptor)
  read_value len [] = err (bad_len len)
  read_value len (has_value ∷ rest) = if has_value == 0 then ok none else do
    guard (leb 1385 (length rest)) (bad_len len)
    d ← map_err bad_desc (from_signed_bytes c a (take 1385 rest))
    ok (some d)

  pub decode_body : RpcType → Bytes → Result DhtError RpcMsg
  decode_body ping body = do
    guard (length body == 8) (bad_len (length body))
    ok (RpcMsg.ping (from_le body))
  decode_body pong body = do
    guard (length body == 8) (bad_len (length body))
    ok (RpcMsg.pong (from_le body))
  decode_body store body = do d ← map_err bad_desc (from_signed_bytes c a body); ok (RpcMsg.store d)
  decode_body find body = do
    guard (leb 21 (length body)) (bad_len (length body))
    ok (RpcMsg.find (take 20 body) (not (get_or body 20 0 == 0)))
  decode_body found body = do
    guard (leb 3 (length body)) (bad_len (length body))
    read ← read_contacts (length body) (from_le (slice 0 2 body)) (drop 2 body)
    value ← read_value (length body) read.1
    ok (RpcMsg.found read.0 value)

  pub rpc_decode : Bytes → Result DhtError RpcMsg
  unfolding decode_body
  rpc_decode data_in = do
    guard (leb 5 (length data_in)) (bad_len (length data_in))
    guard (bytes_eq (take 4 data_in) rpc_magic) (bad_type (get_or data_in 4 0))
    t ← rpc_try_from (get_or data_in 4 0)
    decode_body t (drop 5 data_in)
