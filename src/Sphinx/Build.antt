-- ===== src/Sphinx/Build.antt =====
-- What `build_header` returns (crates/nbf-crypto/src/sphinx.rs).
use never_been_found.Prelude.{
  suc, ◌≤◌, ◌≡◌, refl, sym, ap, ap₂, subst, ◌∙◌, some, List, [], ◌∷◌, map, length, Bytes, ok,
  Result-cases, ok_or-eq-ok, arith, Bool-cases, inl, inr, ltb,
}
use never_been_found.Suite.{Suite}
use never_been_found.Asym.{Asym}
use never_been_found.Descriptor.{Descriptor}
use never_been_found.Identity.{NodeIdentity, kem_encap, kem_decap}
use never_been_found.Sphinx.{
  BuiltHeader, ct_len, max_hops, frame, infos, secrets, wrap, traffic, draw_scalars, encap_all,
  build_header,
}
use never_been_found.Sphinx.Steps.{Owns, Opens, nil, cons}
use never_been_found.Sphinx.Walk.{Walk, header_from-Walk}

-- The nodes of a route with their descriptors.
pub data Route (a : Asym) : List (NodeIdentity a) → List Descriptor → Type 0 where
  done : Route a [] []
  via :
      {i : NodeIdentity a} {is : List (NodeIdentity a)} {d : Descriptor} {ds : List Descriptor}
      → Owns a i d
      → Route a is ds
      → Route a (i ∷ is) (d ∷ ds)

module _ (c : Suite) (a : Asym) where
  length-draw :
      (ds : List Descriptor) (rng : a.Rng) → length (draw_scalars c a ds rng).0 ≡ length ds
  unfolding draw_scalars
  length-draw [] rng = refl
  length-draw (d ∷ ds) rng = ap suc (length-draw ds _)

  -- An encapsulation for a node of the route is one that the node opens.
  encap-opens :
      (i : NodeIdentity a) (d : Descriptor) (rng : a.Rng) (ct k : Bytes)
      → Owns a i d
      → (kem_encap a d.kem_pk rng).0 ≡ ok (ct, k)
      → (length ct ≡ ct_len) × (kem_decap a i.kem_sk ct ≡ ok k)
  unfolding kem_encap kem_decap
  encap-opens i d rng ct k own e =
      let f : (a.encapsulate d.kem_pk rng).0 ≡ some (ct, k) = ok_or-eq-ok _ _ _ e in
      let f' = subst (λ p. (a.encapsulate p rng).0 ≡ some (ct, k)) own.public_key f in
      (
        a.length-ciphertext d.kem_pk rng f,
        rw own.secret_key (rw (a.decapsulate-encapsulate own.seed rng f')),
      )

  encap_all-cons :
      (d : Descriptor) (ds : List Descriptor) (rng : a.Rng) (cts ks : List Bytes)
      → (encap_all c a (d ∷ ds) rng).0 ≡ ok (cts, ks)
      → (ct : Bytes) × (k : Bytes) × (cts' : List Bytes) × (ks' : List Bytes) × ((kem_encap a
            d.kem_pk rng).0
          ≡ ok (ct, k))
        × ((encap_all c a ds (kem_encap a d.kem_pk rng).1).0 ≡ ok (cts', ks'))
        × (cts ≡ ct ∷ cts')
        × (ks ≡ k ∷ ks')
  unfolding encap_all
  encap_all-cons d ds rng cts ks e = elim (Result-cases (kem_encap a d.kem_pk rng).0) [
    | inl ((ct, k), f) ↦ elim (Result-cases (encap_all c a ds (kem_encap a d.kem_pk rng).1).0) [
      | inl ((cts', ks'), g) ↦ (ct, k, cts', ks', f, g, ground arith, ground arith)
      | inr (x, g) ↦ absurd (ground arith)
    ]
    | inr (x, f) ↦ absurd (ground arith)
  ]

  encap_all-nil :
      (rng : a.Rng) (cts ks : List Bytes)
      → (encap_all c a [] rng).0 ≡ ok (cts, ks)
      → (cts ≡ []) × (ks ≡ [])
  unfolding encap_all
  encap_all-nil rng cts ks e = ground arith

  encap_all-Opens :
      {is : List (NodeIdentity a)} {ds : List Descriptor} (rng : a.Rng) (cts ks : List Bytes)
      → Route a is ds
      → (encap_all c a ds rng).0 ≡ ok (cts, ks)
      → Opens a is ds cts ks
  encap_all-Opens rng cts ks done e =
      rw ((encap_all-nil rng cts ks e).0, (encap_all-nil rng cts ks e).1) nil
  encap_all-Opens rng cts ks (via {i = i} {d = d} {ds = ds} own r) e =
      let (ct, k, cts', ks', f, g, ec, ek) = encap_all-cons d ds rng cts ks e in
      let opened = encap-opens i d rng ct k own f in
      rw (ec, ek) (cons own opened.0 opened.1 (encap_all-Opens _ cts' ks' r g))

  pub build_header-parts :
      (d : Descriptor) (ds : List Descriptor) (tag : Bytes) (rng : a.Rng) (built : BuiltHeader)
      → (build_header c a (d ∷ ds) tag rng).0 ≡ ok built
      → let xs = (draw_scalars c a (d ∷ ds) rng).0 in
        (length (d ∷ ds) ≤ max_hops)
        × (cts : List Bytes) × (ks : List Bytes) × ((encap_all c a
              (d ∷ ds)
              (draw_scalars c a (d ∷ ds) rng).1).0
            ≡ ok (cts, ks))
        × (built ≡ (
            let keys = traffic c tag (secrets c a (d ∷ ds) a.one xs) ks in
            record {
              header =
                  frame
                    (length (d ∷ ds))
                    tag
                    (map a.to_bytes xs)
                    (wrap c tag (infos (d ∷ ds) cts) (secrets c a (d ∷ ds) a.one xs));
              tag = tag;
              fwd_keys = map (λ k. k.0) keys;
              bwd_keys = map (λ k. k.1) keys;
              first_addr = d.cell_addr;
            }))
  unfolding build_header
  build_header-parts d ds tag rng built e = elim (Bool-cases (ltb max_hops (length (d ∷ ds)))) [
    | inl long ↦ absurd (ground arith)
    | inr short ↦ elim (Result-cases (encap_all c a (d ∷ ds) (draw_scalars c a (d ∷ ds) rng).1).0) [
      | inl ((cts, ks), f) ↦ (ground arith, cts, ks, f, ground arith)
      | inr (x, f) ↦ absurd (ground arith)
    ]
  ]

  scaled_one : (xs : List a.Scalar) → xs ≡ map (λ x. a.mul x a.one) xs
  scaled_one [] = refl
  scaled_one (x ∷ xs) = ap₂ ◌∷◌ (sym (a.mul_one x)) (scaled_one xs)

  -- Let the descriptors of a route belong to its nodes (their point and their ML-KEM key pair),
  -- with IPv4 addresses and ids that are not the terminal mark, and let the tag have 16 bytes. Any
  -- header that `build_header` returns for them can be walked: hop by hop, each node opens its
  -- layer with its own keys alone, gets the traffic keys that the origin keeps for it, and learns
  -- the id and the address of the next node; the last one finds itself the terminal. A header on
  -- its way has 18 bytes and 1200 more for each node that it is still to pass.
  pub build_header-Walk :
      (is : List (NodeIdentity a)) (d : Descriptor) (ds : List Descriptor) (tag : Bytes)
      (rng : a.Rng) (built : BuiltHeader)
      → Route a is (d ∷ ds)
      → length tag ≡ 16
      → (build_header c a (d ∷ ds) tag rng).0 ≡ ok built
      → Walk c a tag is (d ∷ ds) built.header built.fwd_keys built.bwd_keys
  unfolding draw_scalars
  build_header-Walk is d ds tag rng built r ht e =
      let x = (a.random_scalar rng).0 in
      let rng' = (a.random_scalar rng).1 in
      let xs = (draw_scalars c a ds rng').0 in
      let (short, cts, ks, f, is_built) = build_header-parts d ds tag rng built e in
      let count : length (d ∷ ds) ≡ suc (length xs) = ap suc (sym (length-draw ds rng')) in
      let walk = header_from-Walk c a tag ht a.one x xs (encap_all-Opens _ cts ks r f) count in
      let keys = traffic c tag (secrets c a (d ∷ ds) a.one (x ∷ xs)) ks in
      let same : frame (suc (length xs)) tag (map a.to_bytes (map (λ y. a.mul y a.one) (x ∷ xs)))
            (wrap c tag (infos (d ∷ ds) cts) (secrets c a (d ∷ ds) a.one (x ∷ xs)))
          ≡ built.header =
        ap₂
          (λ n l.
            frame n tag (map a.to_bytes l)
              (wrap c tag (infos (d ∷ ds) cts) (secrets c a (d ∷ ds) a.one (x ∷ xs))))
          (sym count) (sym (scaled_one (x ∷ xs)))
        ∙ sym (ap (λ b. b.header) is_built) in
      rw (ap (λ b. b.fwd_keys) is_built, ap (λ b. b.bwd_keys) is_built)
        (subst (λ h. Walk c a tag is (d ∷ ds) h (map (λ k. k.0) keys) (map (λ k. k.1) keys)) same
          walk)
