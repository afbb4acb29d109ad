-- ===== src/Sphinx/Layout.antt =====
-- The parts of a Sphinx header by position, and their sizes (crates/nbf-crypto/src/sphinx.rs).
use never_been_found.Prelude.{
  concat, ℕ, ◌+◌, ◌*◌, ◌<◌, ◌^◌, ◌≡◌, refl, ap, ap₂, ◌∙◌, List, [], ◌∷◌, ◌++◌, length,
  length-append, length-replicate, length-to_le, All, take, drop, slice, take-append, drop-append,
  drop_zero, slice-here, slice-skip, slice-last, replicate, Bytes, to_le, from_le, from_le-to_le,
  arith,
}
use never_been_found.Suite.{Suite}
use never_been_found.Kdf.{length-seal}
use never_been_found.Addr.{v4}
use never_been_found.Descriptor.{Descriptor}
use never_been_found.Sphinx.{
  ct_len, layer_info_len, layer_len, terminal_id, ip_octets, info_next, info_last, infos, chunks,
  frame, wrap,
}

-- The sizes that the array types of a descriptor fix, and an IPv4 address.
pub record IsV4Descriptor (d : Descriptor) : Type 0 where
  pub id_20 : length d.node_id ≡ 20
  pub link_32 : length d.link_pub ≡ 32
  pub port_u16 : d.cell_addr.port < 2 ^ 16
  pub octets : Bytes
  pub ip_v4 : d.cell_addr.ip ≡ v4 octets
  pub octets_4 : length octets ≡ 4

abbrev pub All32 : List Bytes → Type 0
All32 = All (λ b. length b ≡ 32)

pub length-concat : (bs : List Bytes) → All32 bs → length (concat bs) ≡ length bs * 32
unfolding concat
length-concat [] h = refl
length-concat (b ∷ bs) h = omega (arith, length-append b (concat bs), length-concat bs h.1, h.0)

pub chunks-concat : (bs : List Bytes) → All32 bs → chunks (length bs) (concat bs) ≡ bs
unfolding chunks concat
chunks-concat [] h = refl
chunks-concat (b ∷ bs) h = ap₂ ◌∷◌ (take-append 32 b (concat bs) h.0) (
    ap (chunks (length bs))
      (drop-append 32 32 b (concat bs) h.0 (omega arith) ∙ drop_zero (concat bs))
    ∙ chunks-concat bs h.1)

module _ (d : Descriptor) (v : IsV4Descriptor d) (ct : Bytes) (full : length ct ≡ ct_len) where
  octets-eq : ip_octets d.cell_addr.ip ≡ v.octets
  unfolding ip_octets
  octets-eq = rw v.ip_v4

  info : Bytes
  info =
      d.node_id ++ (v.octets ++ (to_le 2 d.cell_addr.port ++ (d.link_pub ++ (replicate 6 0 ++ ct))))

  info_next-eq : info_next d ct ≡ info
  unfolding info_next info
  info_next-eq = rw octets-eq

  pub length-info_next : length (info_next d ct) ≡ layer_info_len
  unfolding info
  length-info_next =
      ap length info_next-eq
      ∙ omega (
        arith,
        length-append d.node_id
            (v.octets ++ (to_le 2 d.cell_addr.port ++ (d.link_pub ++ (replicate 6 0 ++ ct)))),
        length-append v.octets (to_le 2 d.cell_addr.port ++ (d.link_pub ++ (replicate 6 0 ++ ct))),
        length-append (to_le 2 d.cell_addr.port) (d.link_pub ++ (replicate 6 0 ++ ct)),
        length-append d.link_pub (replicate 6 0 ++ ct),
        length-append (replicate 6 0) ct,
        length-replicate {A = ℕ} 6 0,
        length-to_le 2 d.cell_addr.port,
        v.id_20,
        v.link_32,
        v.octets_4,
        full,
      )

  abbrev after_id : Bytes
  after_id = v.octets ++ (to_le 2 d.cell_addr.port ++ (d.link_pub ++ (replicate 6 0 ++ ct)))

  pub info_next-id : take 20 (info_next d ct) ≡ d.node_id
  unfolding info
  info_next-id = ap (take 20) info_next-eq ∙ take-append 20 d.node_id _ v.id_20

  pub info_next-ip : slice 20 4 (info_next d ct) ≡ v.octets
  unfolding info
  info_next-ip =
      ap (slice 20 4) info_next-eq
      ∙ slice-skip 20 4 20 d.node_id after_id v.id_20 (omega arith)
      ∙ slice-here 4 v.octets _ v.octets_4

  pub info_next-port : from_le (slice 24 2 (info_next d ct)) ≡ d.cell_addr.port
  unfolding info
  info_next-port =
      ap from_le (
        ap (slice 24 2) info_next-eq
        ∙ slice-skip 24 2 20 d.node_id after_id v.id_20 (omega arith)
        ∙ slice-skip 4 2 4 v.octets _ v.octets_4 (omega arith)
        ∙ slice-here 2 (to_le 2 d.cell_addr.port) _ (length-to_le 2 d.cell_addr.port))
      ∙ from_le-to_le 2 d.cell_addr.port v.port_u16

  pub info_next-ct : slice 64 ct_len (info_next d ct) ≡ ct
  unfolding info
  info_next-ct =
      ap (slice 64 ct_len) info_next-eq
      ∙ slice-skip 64 ct_len 20 d.node_id after_id v.id_20 (omega arith)
      ∙ slice-skip 44 ct_len 4 v.octets _ v.octets_4 (omega arith)
      ∙ slice-skip 40 ct_len 2 (to_le 2 d.cell_addr.port) _ (length-to_le 2 d.cell_addr.port)
          (omega arith)
      ∙ slice-skip 38 ct_len 32 d.link_pub _ v.link_32 (omega arith)
      ∙ slice-skip 6 ct_len 6 (replicate 6 0) ct (length-replicate 6 0) (omega arith)
      ∙ slice-last ct_len ct full

module _ (ct : Bytes) (full : length ct ≡ ct_len) where
  length-terminal_id : length terminal_id ≡ 20
  unfolding terminal_id
  length-terminal_id = refl

  pub length-info_last : length (info_last ct) ≡ layer_info_len
  unfolding info_last
  length-info_last = omega (
    arith,
    length-append terminal_id (replicate 44 0 ++ ct),
    length-append (replicate 44 0) ct,
    length-replicate {A = ℕ} 44 0,
    length-terminal_id,
    full,
  )

  pub info_last-id : take 20 (info_last ct) ≡ terminal_id
  unfolding info_last
  info_last-id = take-append 20 terminal_id _ length-terminal_id

  pub info_last-ct : slice 64 ct_len (info_last ct) ≡ ct
  unfolding info_last
  info_last-ct =
      slice-skip 64 ct_len 20 terminal_id _ length-terminal_id (omega arith)
      ∙ slice-skip 44 ct_len 44 (replicate 44 0) ct (length-replicate 44 0) (omega arith)
      ∙ slice-last ct_len ct full

-- Contents of the size that a layer has.
abbrev pub AllInfo : List Bytes → Type 0
AllInfo = All (λ i. length i ≡ layer_info_len)

pub infos-AllInfo :
    (ds : List Descriptor) (cts : List Bytes)
    → All IsV4Descriptor ds
    → All (λ ct. length ct ≡ ct_len) cts
    → AllInfo (infos ds cts)
unfolding infos
infos-AllInfo [] cts hd hc = tt
infos-AllInfo (d ∷ []) [] hd hc = tt
infos-AllInfo (d ∷ []) (ct ∷ cts) hd hc = (length-info_last ct hc.0, tt)
infos-AllInfo (d ∷ nd ∷ ds) [] hd hc = tt
infos-AllInfo (d ∷ nd ∷ ds) (ct ∷ cts) hd hc =
    (length-info_next nd (hd.1).0 ct hc.0, infos-AllInfo (nd ∷ ds) cts hd.1 hc.1)

pub length-infos :
    (ds : List Descriptor) (cts : List Bytes)
    → length cts ≡ length ds
    → length (infos ds cts) ≡ length ds
unfolding infos
length-infos [] cts h = refl
length-infos (d ∷ []) [] h = absurd (omega arith)
length-infos (d ∷ []) (ct ∷ cts) h = refl
length-infos (d ∷ nd ∷ ds) [] h = absurd (omega arith)
length-infos (d ∷ nd ∷ ds) (ct ∷ cts) h = omega (arith, length-infos (nd ∷ ds) cts (omega arith))

module _ (c : Suite) where
  -- The outermost blob of `n` layers has `n` times 1168 bytes.
  pub length-wrap :
      (tag : Bytes) (is sss : List Bytes)
      → AllInfo is
      → length sss ≡ length is
      → length (wrap c tag is sss) ≡ length is * layer_len
  unfolding wrap
  length-wrap tag [] sss hi hs = refl
  length-wrap tag (i ∷ is) [] hi hs = absurd (omega arith)
  length-wrap tag (i ∷ is) (ss ∷ sss) hi hs =
      length-seal c _ _ (i ++ wrap c tag is sss)
      ∙ omega (
        arith,
        length-append i (wrap c tag is sss),
        length-wrap tag is sss hi.1 (omega arith),
        hi.0,
      )

-- The parts of a frame.
module _ (n : ℕ) (tag : Bytes) (alphas : List Bytes) (blob : Bytes) (tag_16 : length tag ≡ 16)
    (alphas_32 : All32 alphas) where
  pub frame-tag : slice 2 16 (frame n tag alphas blob) ≡ tag
  unfolding frame
  frame-tag = slice-skip 2 16 2 (1 ∷ n ∷ []) _ refl (omega arith) ∙ slice-here 16 tag _ tag_16

  pub frame-body : drop 18 (frame n tag alphas blob) ≡ concat alphas ++ blob
  unfolding frame
  frame-body =
      drop-append 18 2 (1 ∷ n ∷ []) _ refl (omega arith)
      ∙ drop-append 16 16 tag _ tag_16 (omega arith)
      ∙ drop_zero _

  pub length-frame : length (frame n tag alphas blob) ≡ 18 + length alphas * 32 + length blob
  unfolding frame
  length-frame = omega (
    arith,
    length-append tag (concat alphas ++ blob),
    length-append (concat alphas) blob,
    length-concat alphas alphas_32,
    tag_16,
  )

  pub length-body : length (concat alphas ++ blob) ≡ length alphas * 32 + length blob
  length-body = omega (arith, length-append (concat alphas) blob, length-concat alphas alphas_32)
