-- ===== src/Descriptor/Signed.antt =====
-- Signed descriptors (crates/nbf-crypto/src/identity.rs, `sign` and `from_signed_bytes`).
use never_been_found.Prelude.{
  ℕ, ◌-◌, ◌<◌, ◌^◌, ◌≡◌, refl, sym, ap, ◌∙◌, true, ◌&&◌, Option, none, some, length, length-take,
  length-replicate, concat, take, replicate, Bytes, bytes_eq, bytes_eq_iff, bytes_eq_refl, Result,
  ok, ◌==◌, ==_iff, arith, guard, guard-eq-ok, ◌>>◌, get_or,
}
use never_been_found.Errors.{CryptoError, descriptor, ed25519}
use never_been_found.Suite.{Suite}
use never_been_found.Asym.{Asym}
use never_been_found.Addr.{SocketAddr, v4}
use never_been_found.Identity.{NodeIdentity, node_id, node_id_from_ed_pub, sign_ed}
use never_been_found.Descriptor.{
  Descriptor, desc_magic, desc_ver, desc_len, kem_pk_len, to_bytes, signing_bytes, read, unsigned,
  sign, from_signed_bytes,
}
use never_been_found.Descriptor.Fields.{
  IsDescriptor, image, to_bytes-image, length-image, read-image, signed_part,
}

-- The public keys of an identity have the sizes of their types.
pub record IsIdentity (a : Asym) (i : NodeIdentity a) : Type 0 where
  pub link_32 : length i.link_pub ≡ 32
  pub sphinx_32 : length i.sphinx_pub ≡ 32
  pub kem_1184 : length i.kem_pk ≡ kem_pk_len

starts : (d : Descriptor) (octets : Bytes) → take 4 (image d octets) ≡ desc_magic
unfolding concat take
starts d octets = refl

version : (d : Descriptor) (octets : Bytes) → get_or (image d octets) 4 0 ≡ desc_ver
unfolding concat
version d octets = refl

signing_bytes-image :
    (d : Descriptor) (octets : Bytes)
    → IsDescriptor d octets
    → signing_bytes d ≡ some (take 1321 (image d octets))
unfolding signing_bytes
signing_bytes-image d octets v =
    rw (to_bytes-image d octets v, signing_bytes)
      (ap (λ n. some (take (n - 64) (image d octets))) (length-image d octets v))

read_only : (x d : Descriptor) → ◌≡◌ {A = Result CryptoError Descriptor} (ok x) (ok d) → d ≡ x
read_only x d e = cc

kept :
    (f : Bytes → Bytes) (o : Option Bytes) (d0 d : Descriptor)
    → elim o [ none ↦ none | some b ↦ some (record d0 { sig = f b }) ] ≡ some d
    → (d.node_id ≡ d0.node_id) × (d.cell_addr ≡ d0.cell_addr) × (d.dht_port ≡ d0.dht_port)
kept f none d0 d e = absurd cc
kept f (some b) d0 d e = (cc, cc, cc)

module _ (c : Suite) (a : Asym) where
  sign-eq :
      (i : NodeIdentity a) (addr : SocketAddr) (dht_port now : ℕ) (b : Bytes)
      → signing_bytes (unsigned c a i addr dht_port now) ≡ some b
      → sign c a i addr dht_port now
        ≡ some (record (unsigned c a i addr dht_port now) { sig = sign_ed a i b })
  unfolding sign
  sign-eq i addr dht_port now b e = rw (e, sign)

  -- What the signer says of itself is in the descriptor.
  pub sign-fields :
      (i : NodeIdentity a) (addr : SocketAddr) (dht_port now : ℕ) (d : Descriptor)
      → sign c a i addr dht_port now ≡ some d
      → (d.node_id ≡ node_id a c i) × (d.cell_addr ≡ addr) × (d.dht_port ≡ dht_port)
  unfolding sign unsigned
  sign-fields i addr dht_port now d e =
      kept (sign_ed a i) (signing_bytes (unsigned c a i addr dht_port now))
        (unsigned c a i addr dht_port now) d e

  pub length-node_id : (i : NodeIdentity a) → length (node_id a c i) ≡ 20
  unfolding node_id node_id_from_ed_pub
  length-node_id i = omega (
    arith,
    length-take 20 (c.sha256 (a.verifying_key i.ed)),
    c.length-sha256 (a.verifying_key i.ed),
  )

  unsigned-IsDescriptor :
      (i : NodeIdentity a) (octets : Bytes) (port dht_port now : ℕ) (s : Bytes)
      → IsIdentity a i
      → length octets ≡ 4
      → port < 2 ^ 16
      → dht_port < 2 ^ 16
      → now < 2 ^ 64
      → length s ≡ 64
      → IsDescriptor
          (record (unsigned c a i (record { ip = v4 octets; port = port }) dht_port now) {
            sig = s;
          })
          octets
  unfolding unsigned
  unsigned-IsDescriptor i octets port dht_port now s v ho hp hd ht hs = record {
    ip_v4 = refl;
    octets_4 = ho;
    id_20 = length-node_id i;
    ed_32 = a.length-verifying_key i.ed;
    link_32 = v.link_32;
    sphinx_32 = v.sphinx_32;
    kem_1184 = v.kem_1184;
    sig_64 = hs;
    port_u16 = hp;
    dht_u16 = hd;
    ts_u64 = ht;
  }

  accepts :
      (d : Descriptor) (octets : Bytes)
      → IsDescriptor d octets
      → a.verify d.ed_pub (take 1321 (image d octets)) d.sig ≡ true
      → node_id_from_ed_pub c d.ed_pub ≡ d.node_id
      → from_signed_bytes c a (image d octets) ≡ ok d
  unfolding from_signed_bytes
  accepts d octets v good same =
      rw
        (
          length-image d octets v,
          starts d octets,
          bytes_eq_refl desc_magic,
          version d octets,
          read-image d octets v,
        )
        (rw (good, same, bytes_eq_refl d.node_id))

  -- An identity whose public keys have their sizes, with an IPv4 address and ports and time in
  -- their ranges, signs a descriptor, whose 1385 bytes every reader accepts and reads as the same
  -- descriptor.
  pub from_signed_bytes-sign :
      (i : NodeIdentity a) (octets : Bytes) (port dht_port now : ℕ)
      → IsIdentity a i
      → length octets ≡ 4
      → port < 2 ^ 16
      → dht_port < 2 ^ 16
      → now < 2 ^ 64
      → (d : Descriptor) × (w : Bytes) × (sign c a i
            (record { ip = v4 octets; port = port })
            dht_port
            now
          ≡ some d)
        × (to_bytes d ≡ some w)
        × (length w ≡ 1385)
        × (from_signed_bytes c a w ≡ ok d)
  from_signed_bytes-sign i octets port dht_port now v ho hp hd ht = (
    d,
    image d octets,
    signed,
    to_bytes-image d octets vd,
    length-image d octets vd,
    accepts d octets vd good same,
  )
    where
      d0 : Descriptor
      d0 = unsigned c a i (record { ip = v4 octets; port = port }) dht_port now

      s : Bytes
      s = sign_ed a i (take 1321 (image d0 octets))

      d : Descriptor
      d = record d0 { sig = s }

      v0 : IsDescriptor d0 octets
      v0 =
          unfold unsigned in
          unsigned-IsDescriptor i octets port dht_port now (replicate 64 0) v ho hp hd ht
            (length-replicate {A = ℕ} 64 0)

      vd : IsDescriptor d octets
      vd =
          unsigned-IsDescriptor i octets port dht_port now s v ho hp hd ht
            (unfold sign_ed in a.length-sign i.ed _)

      signed : sign c a i (record { ip = v4 octets; port = port }) dht_port now ≡ some d
      signed =
          sign-eq i (record { ip = v4 octets; port = port }) dht_port now _
            (signing_bytes-image d0 octets v0)

      good : a.verify d.ed_pub (take 1321 (image d octets)) d.sig ≡ true
      good =
          ap (λ m. a.verify d.ed_pub m d.sig) (sym (signed_part d0 octets v0 s))
          ∙ unfold sign_ed unsigned in a.verify-sign i.ed _

      same : node_id_from_ed_pub c d.ed_pub ≡ d.node_id
      same = unfold unsigned node_id in refl

  -- A descriptor that a reader accepts stands in 1385 bytes, its id is the hash of its Ed25519 key,
  -- and that key verifies its signature over all the bytes before it.
  pub from_signed_bytes_sound :
      (w : Bytes) (d : Descriptor)
      → from_signed_bytes c a w ≡ ok d
      → (d ≡ read w)
        × (length w ≡ 1385)
        × (d.node_id ≡ node_id_from_ed_pub c d.ed_pub)
        × (a.verify d.ed_pub (take 1321 w) d.sig ≡ true)
  unfolding from_signed_bytes
  from_signed_bytes_sound w d e =
      let desc = read w in
      let id_test = bytes_eq (node_id_from_ed_pub c desc.ed_pub) desc.node_id in
      let good_test = a.verify desc.ed_pub (take 1321 w) desc.sig in
      let head_test = bytes_eq (take 4 w) desc_magic && (get_or w 4 0 == desc_ver) in
      let last : Result CryptoError Descriptor = ok desc in
      let third = guard id_test descriptor >> last in
      let second = guard good_test ed25519 >> third in
      let (size, e1) =
        guard-eq-ok (length w == desc_len) (CryptoError.bad_length (length w))
          (guard head_test descriptor >> second) e in
      let (starts_well, e2) = guard-eq-ok head_test descriptor second e1 in
      let (good, e3) = guard-eq-ok good_test ed25519 third e2 in
      let (same, e4) = guard-eq-ok id_test descriptor last e3 in
      let eq : d ≡ read w = read_only desc d e4 in
      rw eq (refl, (==_iff _ _).0 size, sym ((bytes_eq_iff _ _).0 same), good)
