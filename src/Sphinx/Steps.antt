-- ===== src/Sphinx/Steps.antt =====
-- One hop of a header that the origin has built (crates/nbf-crypto/src/sphinx.rs, `build_header`
-- against `process_header`).
use never_been_found.Prelude.{
  ℕ, suc, ◌*◌, ◌≡◌, ◌≢◌, refl, sym, ap, ap₂, ◌∙◌, false, List, [], ◌∷◌, ◌++◌, map, length,
  length-map, All, slice, Bytes, bytes_eq, bytes_eq_iff, bytes_eq_refl, ok, arith, Bool-cases, inl,
  inr,
}
use never_been_found.Suite.{Suite}
use never_been_found.Asym.{Asym}
use never_been_found.Descriptor.{Descriptor}
use never_been_found.Identity.{NodeIdentity, kem_decap}
use never_been_found.Kdf.{derive_hdr_key, derive_traffic_keys, hdr_nonce, seal}
use never_been_found.Sphinx.{
  terminal, relay, ct_len, layer_info_len, layer_len, terminal_id, frame, blinding, infos,
  info_next, info_last, secrets, wrap, process_header, record_addr,
}
use never_been_found.Sphinx.Layout.{
  IsV4Descriptor, info_next-id, info_next-ip, info_next-port, info_next-ct, info_last-id,
  info_last-ct, length-info_next, length-info_last, infos-AllInfo, length-infos, length-wrap,
}
use never_been_found.Sphinx.Peel.{outcome, process-layer}

-- The descriptor is the one of the node, it has an IPv4 address, and its id is not the mark of a
-- terminal.
pub record Owns (a : Asym) (i : NodeIdentity a) (d : Descriptor) : Type 0 where
  pub same_point : d.sphinx_pub ≡ i.sphinx_pub
  pub is_v4 : IsV4Descriptor d
  pub unmarked : d.node_id ≢ terminal_id
  -- the ML-KEM keys were generated together
  pub seed : a.Rng
  pub secret_key : i.kem_sk ≡ ((a.generate seed).0).0
  pub public_key : d.kem_pk ≡ ((a.generate seed).0).1

outcome-last :
    (c : Suite) (a : Asym) (tag ss_x k ct next : Bytes)
    → length ct ≡ ct_len
    → outcome c a tag ss_x k (info_last ct) next
      ≡ (let keys = derive_traffic_keys c ss_x k tag in terminal tag keys.0 keys.1)
outcome-last c a tag ss_x k ct next full = rw (info_last-id ct full, bytes_eq_refl terminal_id)

pub outcome-next :
    (c : Suite) (a : Asym) (nd : Descriptor) (tag ss_x k ct next : Bytes)
    → IsV4Descriptor nd
    → nd.node_id ≢ terminal_id
    → length ct ≡ ct_len
    → outcome c a tag ss_x k (info_next nd ct) next ≡ (
        let keys = derive_traffic_keys c ss_x k tag in
        relay tag keys.0 keys.1 nd.node_id nd.cell_addr next)
outcome-next c a nd tag ss_x k ct next v ne full =
    rw (info_next-id nd v ct full, info_next-ip nd v ct full, info_next-port nd v ct full, distinct)
      (ap (λ ad. relay tag keys.0 keys.1 nd.node_id ad next) addr)
  where
    keys : Bytes × Bytes
    keys = derive_traffic_keys c ss_x k tag

    distinct : bytes_eq nd.node_id terminal_id ≡ false
    distinct = elim (Bool-cases (bytes_eq nd.node_id terminal_id)) [
      | inl e ↦ absurd (ne ((bytes_eq_iff _ _).0 e))
      | inr e ↦ e
    ]

    addr : record_addr v.octets nd.cell_addr.port ≡ nd.cell_addr
    addr = λ i. record { ip = (sym v.ip_v4) i; port = nd.cell_addr.port }

-- What the origin and the hops hold for the ciphertexts of a route.
pub data Opens (a : Asym)
    : List (NodeIdentity a) → List Descriptor → List Bytes → List Bytes → Type 0 where
  nil : Opens a [] [] [] []
  cons :
      {i : NodeIdentity a} {is : List (NodeIdentity a)} {d : Descriptor} {ds : List Descriptor}
      {ct k : Bytes} {cts ks : List Bytes}
      → Owns a i d
      → length ct ≡ ct_len
      → kem_decap a i.kem_sk ct ≡ ok k
      → Opens a is ds cts ks
      → Opens a (i ∷ is) (d ∷ ds) (ct ∷ cts) (k ∷ ks)

module _ (c : Suite) (a : Asym) (tag : Bytes) (tag_16 : length tag ≡ 16) where
  abbrev pub scaled : a.Scalar → List a.Scalar → List a.Scalar
  scaled acc = map (λ x. a.mul x acc)

  scaled-scaled :
      (acc b : a.Scalar) (xs : List a.Scalar)
      → map (λ s. a.mul s b) (scaled acc xs) ≡ scaled (a.mul acc b) xs
  scaled-scaled acc b [] = refl
  scaled-scaled acc b (x ∷ xs) = ap₂ ◌∷◌ (a.mul_assoc x acc b) (scaled-scaled acc b xs)

  -- The header of a hop, from the blinding factor that has gathered so far.
  abbrev pub header_from : List Descriptor → a.Scalar → List a.Scalar → List Bytes → Bytes
  header_from ds acc xs cts =
      frame (length xs) tag (map a.to_bytes (scaled acc xs))
        (wrap c tag (infos ds cts) (secrets c a ds acc xs))

  pub last-step :
      (i : NodeIdentity a) (d : Descriptor) (acc x : a.Scalar) (ct k : Bytes)
      → Owns a i d
      → length ct ≡ ct_len
      → kem_decap a i.kem_sk ct ≡ ok k
      → let keys = derive_traffic_keys c (a.point_mul d.sphinx_pub (a.mul x acc)) k tag in
        process_header c a i (header_from (d ∷ []) acc (x ∷ []) (ct ∷ []))
        ≡ ok (terminal tag keys.0 keys.1)
  unfolding infos secrets wrap
  last-step i d acc x ct k own full dec = rw own.same_point (
      process-layer c a i (a.mul x acc) [] tag (info_last ct) [] k tag_16 (length-info_last ct full)
        refl (ap (kem_decap a i.kem_sk) (info_last-ct ct full) ∙ dec)
      ∙ ap ok (outcome-last c a tag _ k ct _ full))

  process-at :
      (i : NodeIdentity a) (point : Bytes) (s0 : a.Scalar) (ss : List a.Scalar)
      (info inner k : Bytes)
      → point ≡ i.sphinx_pub
      → length info ≡ layer_info_len
      → length inner ≡ length ss * layer_len
      → kem_decap a i.kem_sk (slice 64 ct_len info) ≡ ok k
      → let pt = a.point_mul point s0 in
        let n = suc (length ss) in
        process_header c a i (
          frame n tag
            (map a.to_bytes (s0 ∷ ss))
            (seal c (derive_hdr_key c pt tag) (hdr_nonce c tag n) (info ++ inner)))
        ≡ ok (
            outcome c a tag pt k info (
              frame
                (length ss)
                tag
                (map a.to_bytes (map (λ s. a.mul s (blinding c a pt (a.to_bytes s0))) ss))
                inner))
  process-at i point s0 ss info inner k e hi hn hk =
      rw e (process-layer c a i s0 ss tag info inner k tag_16 hi hn hk)

  header_from-cons :
      (d nd : Descriptor) (ds : List Descriptor) (acc x : a.Scalar) (xs : List a.Scalar)
      (ct : Bytes) (cts : List Bytes) (m : ℕ)
      → length xs ≡ m
      → length (infos (nd ∷ ds) cts) ≡ m
      → let eff = a.mul x acc in
        let pt = a.point_mul d.sphinx_pub eff in
        let b = blinding c a pt (a.to_bytes eff) in
        header_from (d ∷ nd ∷ ds) acc (x ∷ xs) (ct ∷ cts)
        ≡ frame (suc m) tag (a.to_bytes eff ∷ map a.to_bytes (scaled acc xs)) (
            seal c (derive_hdr_key c pt tag) (hdr_nonce c tag (suc m)) (
              info_next nd ct
              ++ wrap c tag (infos (nd ∷ ds) cts) (secrets c a (nd ∷ ds) (a.mul acc b) xs)))
  unfolding infos wrap secrets
  header_from-cons d nd ds acc x xs ct cts m e e' =
      let eff = a.mul x acc in
      let pt = a.point_mul d.sphinx_pub eff in
      let b = blinding c a pt (a.to_bytes eff) in
      ap₂
        (λ p q. frame (suc p) tag (a.to_bytes eff ∷ map a.to_bytes (scaled acc xs)) (
          seal c (derive_hdr_key c pt tag) (hdr_nonce c tag (suc q)) (
            info_next nd ct
            ++ wrap c tag (infos (nd ∷ ds) cts) (secrets c a (nd ∷ ds) (a.mul acc b) xs))))
        e e'

  pub length-secrets :
      (ds : List Descriptor) (acc : a.Scalar) (xs : List a.Scalar)
      → length ds ≡ length xs
      → length (secrets c a ds acc xs) ≡ length ds
  unfolding secrets
  length-secrets [] acc xs h = refl
  length-secrets (d ∷ ds) acc [] h = absurd (omega arith)
  length-secrets (d ∷ ds) acc (x ∷ xs) h = ap suc (length-secrets ds _ xs (omega arith))

  pub hop-step :
      (i : NodeIdentity a) (d nd : Descriptor) (ds : List Descriptor) (acc x : a.Scalar)
      (xs : List a.Scalar) (ct k : Bytes) (cts : List Bytes)
      → Owns a i d
      → nd.node_id ≢ terminal_id
      → All IsV4Descriptor (nd ∷ ds)
      → All (λ t. length t ≡ ct_len) cts
      → length ct ≡ ct_len
      → kem_decap a i.kem_sk ct ≡ ok k
      → length cts ≡ suc (length ds)
      → length xs ≡ suc (length ds)
      → let eff = a.mul x acc in
        let pt = a.point_mul d.sphinx_pub eff in
        let keys = derive_traffic_keys c pt k tag in
        let b = blinding c a pt (a.to_bytes eff) in
        process_header c a i (header_from (d ∷ nd ∷ ds) acc (x ∷ xs) (ct ∷ cts))
        ≡ ok (
            relay tag keys.0 keys.1 nd.node_id nd.cell_addr
              (header_from (nd ∷ ds) (a.mul acc b) xs cts))
  hop-step i d nd ds acc x xs ct k cts own ne vs fulls full dec hc hx =
      ap (process_header c a i)
        (header_from-cons d nd ds acc x xs ct cts m (sym em) (layers ∙ hx' ∙ sym em))
      ∙ process-at i d.sphinx_pub eff ss (info_next nd ct) inner k own.same_point
          (length-info_next nd vs.0 ct full)
          (length-wrap c tag (infos (nd ∷ ds) cts) (secrets c a (nd ∷ ds) (a.mul acc b) xs)
              (infos-AllInfo (nd ∷ ds) cts vs fulls)
              (length-secrets (nd ∷ ds) (a.mul acc b) xs (sym hx) ∙ sym layers)
            ∙ ap (λ n. n * layer_len) (layers ∙ hx' ∙ sym em))
          (ap (kem_decap a i.kem_sk) (info_next-ct nd vs.0 ct full) ∙ dec)
      ∙ ap ok (
          outcome-next c a nd tag pt k ct _ vs.0 ne full
          ∙ ap (relay tag keys.0 keys.1 nd.node_id nd.cell_addr)
              (ap₂ (λ n l. frame n tag (map a.to_bytes l) inner) em (scaled-scaled acc b xs)))
    where
      eff : a.Scalar
      eff = a.mul x acc

      pt : Bytes
      pt = a.point_mul d.sphinx_pub eff

      b : a.Scalar
      b = blinding c a pt (a.to_bytes eff)

      keys : Bytes × Bytes
      keys = derive_traffic_keys c pt k tag

      ss : List a.Scalar
      ss = scaled acc xs

      m : ℕ
      m = length ss

      inner : Bytes
      inner = wrap c tag (infos (nd ∷ ds) cts) (secrets c a (nd ∷ ds) (a.mul acc b) xs)

      em : length ss ≡ length xs
      em = length-map (λ y. a.mul y acc) xs

      layers : length (infos (nd ∷ ds) cts) ≡ suc (length ds)
      layers = length-infos (nd ∷ ds) cts hc

      hx' : suc (length ds) ≡ length xs
      hx' = sym hx
