-- ===== src/Descriptor/Fields.antt =====
-- Where each field of a descriptor stands (crates/nbf-crypto/src/identity.rs, `to_bytes`).
use never_been_found.Prelude.{
  ℕ, ◌+◌, ◌<◌, ◌^◌, ◌≡◌, refl, sym, ap, ◌∙◌, some, List, [], ◌∷◌, ◌++◌, length, total,
  length-concat_total, slice-concat, concat, append_assoc, take-concat, take, slice, Bytes, to_le,
  from_le-to_le, length-to_le, arith,
}
use never_been_found.Addr.{v4}
use never_been_found.Descriptor.{
  Descriptor, desc_magic, desc_ver, kem_pk_len, parts, to_bytes, read,
}

-- The fields have the sizes and the ranges of their types, and the address is IPv4.
pub record IsDescriptor (d : Descriptor) (octets : Bytes) : Type 0 where
  pub ip_v4 : d.cell_addr.ip ≡ v4 octets
  pub octets_4 : length octets ≡ 4
  pub id_20 : length d.node_id ≡ 20
  pub ed_32 : length d.ed_pub ≡ 32
  pub link_32 : length d.link_pub ≡ 32
  pub sphinx_32 : length d.sphinx_pub ≡ 32
  pub kem_1184 : length d.kem_pk ≡ kem_pk_len
  pub sig_64 : length d.sig ≡ 64
  pub port_u16 : d.cell_addr.port < 2 ^ 16
  pub dht_u16 : d.dht_port < 2 ^ 16
  pub ts_u64 : d.ts < 2 ^ 64

abbrev pub image : Descriptor → Bytes → Bytes
image d octets = concat (desc_magic ∷ (desc_ver ∷ []) ∷ parts d octets)

module _ (d : Descriptor) (octets : Bytes) (v : IsDescriptor d octets) where
  p2 : length (to_le 2 d.cell_addr.port) ≡ 2
  p2 = length-to_le 2 d.cell_addr.port

  d2 : length (to_le 2 d.dht_port) ≡ 2
  d2 = length-to_le 2 d.dht_port

  t8 : length (to_le 8 d.ts) ≡ 8
  t8 = length-to_le 8 d.ts

  pub to_bytes-image : to_bytes d ≡ some (image d octets)
  unfolding to_bytes
  to_bytes-image = rw v.ip_v4

  pub length-image : length (image d octets) ≡ 1385
  length-image =
      length-concat_total (desc_magic ∷ (desc_ver ∷ []) ∷ parts d octets)
      ∙ omega (
        arith, v.octets_4, v.id_20, v.ed_32, v.link_32, v.sphinx_32, v.kem_1184, v.sig_64, p2, d2,
        t8,
      )

  head : List Bytes
  head =
      desc_magic
      ∷ (desc_ver ∷ [])
      ∷ d.node_id
      ∷ d.ed_pub
      ∷ d.link_pub
      ∷ d.sphinx_pub
      ∷ d.kem_pk
      ∷ []

  tail_at :
      (mid : List Bytes) (x : Bytes) (post : List Bytes) (o n : ℕ)
      → 1305 + total mid ≡ o
      → length x ≡ n
      → slice o n (concat (head ++ (mid ++ (x ∷ post)))) ≡ x
  unfolding head
  tail_at mid x post o n ho hn =
      ap (slice o n) (ap concat (sym (append_assoc head mid (x ∷ post))))
      ∙ slice-concat (head ++ mid) x post o n
          (omega (arith, ho, v.id_20, v.ed_32, v.link_32, v.sphinx_32, v.kem_1184)) hn

  abbrev port_le : Bytes
  port_le = to_le 2 d.cell_addr.port

  abbrev dht_le : Bytes
  dht_le = to_le 2 d.dht_port

  abbrev ts_le : Bytes
  ts_le = to_le 8 d.ts

  -- What is read from the bytes of a descriptor is the descriptor.
  pub read-image : read (image d octets) ≡ d
  unfolding read head
  read-image =
      rw
        (
          slice-concat (desc_magic ∷ (desc_ver ∷ []) ∷ []) d.node_id _ 5 20 refl v.id_20,
          slice-concat (desc_magic ∷ (desc_ver ∷ []) ∷ d.node_id ∷ []) d.ed_pub _ 25 32
              (omega (arith, v.id_20)) v.ed_32,
          slice-concat (desc_magic ∷ (desc_ver ∷ []) ∷ d.node_id ∷ d.ed_pub ∷ []) d.link_pub _ 57 32
              (omega (arith, v.id_20, v.ed_32)) v.link_32,
          slice-concat (desc_magic ∷ (desc_ver ∷ []) ∷ d.node_id ∷ d.ed_pub ∷ d.link_pub ∷ [])
              d.sphinx_pub _ 89 32 (omega (arith, v.id_20, v.ed_32, v.link_32)) v.sphinx_32,
          slice-concat
              (desc_magic ∷ (desc_ver ∷ []) ∷ d.node_id ∷ d.ed_pub ∷ d.link_pub ∷ d.sphinx_pub ∷ [])
              d.kem_pk _ 121 kem_pk_len (omega (arith, v.id_20, v.ed_32, v.link_32, v.sphinx_32))
              v.kem_1184,
          tail_at [] octets (port_le ∷ dht_le ∷ ts_le ∷ d.sig ∷ []) 1305 4 refl v.octets_4,
          tail_at (octets ∷ []) port_le (dht_le ∷ ts_le ∷ d.sig ∷ []) 1309 2
              (omega (arith, v.octets_4)) p2,
          tail_at (octets ∷ port_le ∷ []) dht_le (ts_le ∷ d.sig ∷ []) 1311 2
              (omega (arith, v.octets_4, p2)) d2,
          tail_at (octets ∷ port_le ∷ dht_le ∷ []) ts_le (d.sig ∷ []) 1313 8
              (omega (arith, v.octets_4, p2, d2)) t8,
          tail_at (octets ∷ port_le ∷ dht_le ∷ ts_le ∷ []) d.sig [] 1321 64
              (omega (arith, v.octets_4, p2, d2, t8)) v.sig_64,
          from_le-to_le 2 d.cell_addr.port v.port_u16,
          from_le-to_le 2 d.dht_port v.dht_u16,
          from_le-to_le 8 d.ts v.ts_u64,
        )
        (λ j. record d { cell_addr = record { ip = (sym v.ip_v4) j; port = d.cell_addr.port } })

  pub signed_part :
      (sig' : Bytes)
      → take 1321 (image d octets) ≡ take 1321 (image (record d { sig = sig' }) octets)
  unfolding head
  signed_part sig' = before d.sig ∙ sym (before sig')
    where
      mid : List Bytes
      mid = octets ∷ port_le ∷ dht_le ∷ ts_le ∷ []

      before : (s : Bytes) → take 1321 (concat (head ++ (mid ++ (s ∷ [])))) ≡ concat (head ++ mid)
      before s =
          ap (take 1321) (ap concat (sym (append_assoc head mid (s ∷ []))))
          ∙ take-concat (head ++ mid) (s ∷ []) 1321 (
              omega (
                arith, v.id_20, v.ed_32, v.link_32, v.sphinx_32, v.kem_1184, v.octets_4, p2, d2, t8,
              ))
