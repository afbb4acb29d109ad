-- ===== src/Sphinx/Walk.antt =====
-- A header on its way: the origin builds it for a route, and each hop peels its layer and hands the
-- rest on (crates/nbf-crypto/src/sphinx.rs, `build_header` against `process_header`).
use never_been_found.Prelude.{
  ℕ, suc, ◌+◌, ◌*◌, ◌≡◌, refl, sym, ap, ◌∙◌, List, [], ◌∷◌, map, length, length-map, All, Bytes, ok,
  arith,
}
use never_been_found.Suite.{Suite}
use never_been_found.Asym.{Asym}
use never_been_found.Descriptor.{Descriptor}
use never_been_found.Identity.{NodeIdentity}
use never_been_found.Sphinx.{
  terminal, relay, ct_len, hdr_fixed, layer_len, blinding, infos, secrets, traffic, process_header,
}
use never_been_found.Sphinx.Layout.{
  length-frame, IsV4Descriptor, infos-AllInfo, length-infos, length-wrap,
}
use never_been_found.Sphinx.Peel.{to_bytes-All32}
use never_been_found.Sphinx.Steps.{
  scaled, Opens, nil, cons, header_from, hop-step, last-step, length-secrets,
}

-- Of a header with so many layers.
abbrev pub header_size : ℕ → ℕ
header_size n = hdr_fixed + n * (32 + layer_len)

module _ (c : Suite) (a : Asym) (tag : Bytes) where
  -- Every node of the route peels the header that it gets with the keys that the origin has for
  -- it: the last one finds itself the terminal, each other one finds the id and the address of its
  -- successor, which gets the new header. A header has one layer for each node that it is still to
  -- pass.
  pub data Walk
      : List (NodeIdentity a) → List Descriptor → Bytes → List Bytes → List Bytes → Type 0 where
    at_end :
        {i : NodeIdentity a} {d : Descriptor} {header k_fwd k_bwd : Bytes}
        → length header ≡ header_size 1
        → process_header c a i header ≡ ok (terminal tag k_fwd k_bwd)
        → Walk (i ∷ []) (d ∷ []) header (k_fwd ∷ []) (k_bwd ∷ [])
    at_hop :
        {i : NodeIdentity a} {is : List (NodeIdentity a)} {d nd : Descriptor} {ds : List Descriptor}
        {header k_fwd k_bwd : Bytes} {fwd bwd : List Bytes} (next : Bytes)
        → length header ≡ header_size (length (d ∷ nd ∷ ds))
        → process_header c a i header ≡ ok (relay tag k_fwd k_bwd nd.node_id nd.cell_addr next)
        → Walk is (nd ∷ ds) next fwd bwd
        → Walk (i ∷ is) (d ∷ nd ∷ ds) header (k_fwd ∷ fwd) (k_bwd ∷ bwd)

module _ (c : Suite) (a : Asym) (tag : Bytes) (tag_16 : length tag ≡ 16) where
  Opens-IsV4 :
      {is : List (NodeIdentity a)} {ds : List Descriptor} {cts ks : List Bytes}
      → Opens a is ds cts ks
      → All IsV4Descriptor ds
  Opens-IsV4 nil = tt
  Opens-IsV4 (cons own full dec os) = (own.is_v4, Opens-IsV4 os)

  Opens-cts :
      {is : List (NodeIdentity a)} {ds : List Descriptor} {cts ks : List Bytes}
      → Opens a is ds cts ks
      → All (λ t. length t ≡ ct_len) cts × (length cts ≡ length ds)
  Opens-cts nil = (tt, refl)
  Opens-cts (cons own full dec os) = let r = Opens-cts os in ((full, r.0), ap suc r.1)

  length-header_from :
      (acc : a.Scalar) (xs : List a.Scalar) {is : List (NodeIdentity a)} {ds : List Descriptor}
      {cts ks : List Bytes}
      → Opens a is ds cts ks
      → length ds ≡ length xs
      → length (header_from c a tag tag_16 ds acc xs cts) ≡ header_size (length ds)
  length-header_from acc xs {ds = ds} {cts = cts} os h =
      let alphas = scaled c a tag tag_16 acc xs in
      let (fulls, same) = Opens-cts os in
      let layers = length-infos ds cts same in
      length-frame (length xs) tag (map a.to_bytes alphas) _ tag_16 (to_bytes-All32 a alphas)
      ∙ omega (
        arith,
        h,
        layers,
        length-map a.to_bytes alphas,
        length-map (λ y. a.mul y acc) xs,
        length-wrap c tag (infos ds cts) (secrets c a ds acc xs)
            (infos-AllInfo ds cts (Opens-IsV4 os) fulls)
            (length-secrets c a tag tag_16 ds acc xs h ∙ sym layers),
      )

  pub header_from-Walk :
      (acc : a.Scalar) (x : a.Scalar) (xs : List a.Scalar) {is : List (NodeIdentity a)}
      {ds : List Descriptor} {cts ks : List Bytes}
      → Opens a is ds cts ks
      → length ds ≡ suc (length xs)
      → let keys = traffic c tag (secrets c a ds acc (x ∷ xs)) ks in
        Walk c a tag is ds
          (header_from c a tag tag_16 ds acc (x ∷ xs) cts)
          (map (λ k. k.0) keys)
          (map (λ k. k.1) keys)
  unfolding secrets traffic
  header_from-Walk acc x xs nil h = absurd (omega arith)
  header_from-Walk acc x [] (cons own full dec nil) h =
      at_end (length-header_from acc (x ∷ []) (cons own full dec nil) refl)
        (last-step c a tag tag_16 _ _ acc x _ _ own full dec)
  header_from-Walk acc x (y ∷ ys)
        (cons {i = i} {d = d} {ct = ct} {k = k} own full dec
          (cons {d = nd} {ds = ds} own' full' dec' os))
        h =
      let rest = cons own' full' dec' os in
      at_hop _ (length-header_from acc (x ∷ y ∷ ys) (cons own full dec rest) h)
        (hop-step c a tag tag_16 i d nd ds acc x (y ∷ ys) ct k _ own own'.unmarked (Opens-IsV4 rest)
          (Opens-cts rest).0 full dec (Opens-cts rest).1 (omega arith))
        (header_from-Walk
          (a.mul acc
            (blinding c a (a.point_mul d.sphinx_pub (a.mul x acc)) (a.to_bytes (a.mul x acc))))
          y ys rest (omega arith))
  header_from-Walk acc x (y ∷ ys) (cons own full dec nil) h = absurd (omega arith)
  header_from-Walk acc x [] (cons own full dec (cons own' full' dec' os)) h = absurd (omega arith)
