-- ===== src/Descriptor.antt =====
-- The node descriptor of crates/nbf-crypto/src/identity.rs: 1385 bytes, signed with Ed25519. The
-- panic of `to_bytes` on an address that is not IPv4 is `none`. `Asym.verify` stands for
-- `VerifyingKey::from_bytes` with `verify`: both fail with the same error.
pub mod Fields
pub mod Signed
use never_been_found.Prelude.{
  ℕ, ◌+◌, ◌-◌, ◌≡◌, Bool, ◌&&◌, Option, none, some, List, [], ◌∷◌, length, get_or, take, slice,
  replicate, concat, Bytes, to_le, from_le, bytes_eq, Result, ok, err, ◌>>=◌, ◌>>◌, guard, ◌==◌,
}
use never_been_found.Errors.{CryptoError, descriptor, ed25519}
use never_been_found.Suite.{Suite}
use never_been_found.Asym.{Asym}
use never_been_found.Addr.{SocketAddr, IpAddr, v4, v6}
use never_been_found.Identity.{NodeIdentity, node_id, node_id_from_ed_pub, sign_ed}

abbrev pub desc_len : ℕ
desc_len = 1385

abbrev pub kem_pk_len : ℕ
kem_pk_len = 1184

-- b"NBFD"
abbrev pub desc_magic : Bytes
desc_magic = b'N' ∷ b'B' ∷ b'F' ∷ b'D' ∷ []

abbrev pub desc_ver : ℕ
desc_ver = 1

pub record Descriptor : Type 0 where
  pub node_id : Bytes
  pub ed_pub : Bytes
  pub link_pub : Bytes
  pub sphinx_pub : Bytes
  pub kem_pk : Bytes
  pub cell_addr : SocketAddr
  pub dht_port : ℕ
  pub ts : ℕ
  pub sig : Bytes

-- The parts behind the magic and the version, for the octets of the address.
abbrev pub parts : Descriptor → Bytes → List Bytes
parts d octets =
    d.node_id
    ∷ d.ed_pub
    ∷ d.link_pub
    ∷ d.sphinx_pub
    ∷ d.kem_pk
    ∷ octets
    ∷ to_le 2 d.cell_addr.port
    ∷ to_le 2 d.dht_port
    ∷ to_le 8 d.ts
    ∷ d.sig
    ∷ []

unfoldable pub to_bytes : Descriptor → Option Bytes
to_bytes d = elim d.cell_addr.ip [
  | v4 octets ↦ some (concat (desc_magic ∷ (desc_ver ∷ []) ∷ parts d octets))
  | v6 o ↦ none
]

-- All but the signature.
unfoldable pub signing_bytes : Descriptor → Option Bytes
signing_bytes d = elim (to_bytes d) [ none ↦ none | some b ↦ some (take (length b - 64) b) ]

-- The address of the node in the distributed table; an address that is not IPv4 counts as
-- unspecified.
pub dht_addr : Descriptor → SocketAddr
dht_addr d = elim d.cell_addr.ip [
  | v4 octets ↦ record { ip = v4 octets; port = d.dht_port }
  | v6 o ↦ record { ip = v4 (replicate 4 0); port = d.dht_port }
]

-- The descriptor that the bytes spell.
unfoldable pub read : Bytes → Descriptor
read bytes = record {
  node_id = slice 5 20 bytes;
  ed_pub = slice 25 32 bytes;
  link_pub = slice 57 32 bytes;
  sphinx_pub = slice 89 32 bytes;
  kem_pk = slice 121 kem_pk_len bytes;
  cell_addr = record { ip = v4 (slice 1305 4 bytes); port = from_le (slice 1309 2 bytes) };
  dht_port = from_le (slice 1311 2 bytes);
  ts = from_le (slice 1313 8 bytes);
  sig = slice 1321 64 bytes;
}

module _ (c : Suite) (a : Asym) where
  -- The descriptor without its signature.
  unfoldable pub unsigned : NodeIdentity a → SocketAddr → ℕ → ℕ → Descriptor
  unsigned i cell_addr dht_port now = record {
    node_id = node_id a c i;
    ed_pub = a.verifying_key i.ed;
    link_pub = i.link_pub;
    sphinx_pub = i.sphinx_pub;
    kem_pk = i.kem_pk;
    cell_addr = cell_addr;
    dht_port = dht_port;
    ts = now;
    sig = replicate 64 0;
  }

  unfoldable pub sign : NodeIdentity a → SocketAddr → ℕ → ℕ → Option Descriptor
  sign i cell_addr dht_port now =
      let d = unsigned i cell_addr dht_port now in
      elim (signing_bytes d) [ none ↦ none | some b ↦ some (record d { sig = sign_ed a i b }) ]

  unfoldable pub from_signed_bytes : Bytes → Result CryptoError Descriptor
  from_signed_bytes bytes = do
    guard (length bytes == desc_len) (CryptoError.bad_length (length bytes))
    guard (bytes_eq (take 4 bytes) desc_magic && (get_or bytes 4 0 == desc_ver)) descriptor
    let d = read bytes
    guard (a.verify d.ed_pub (take (desc_len - 64) bytes) d.sig) ed25519
    guard (bytes_eq (node_id_from_ed_pub c d.ed_pub) d.node_id) descriptor
    ok d
