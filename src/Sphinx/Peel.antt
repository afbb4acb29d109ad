-- ===== src/Sphinx/Peel.antt =====
-- One hop: `process_header` on a header whose outermost layer is sealed for this hop
-- (crates/nbf-crypto/src/sphinx.rs).
use never_been_found.Prelude.{
  concat, ℕ, suc, ◌+◌, ◌-◌, ◌*◌, ◌/◌, ◌≤◌, ◌≡◌, refl, sym, ap, ap₂, ◌∙◌, Bool, true, false, List,
  [], ◌∷◌, ◌++◌, map, length, length-append, length-map, get_or, take, drop, slice, append_assoc,
  take-append, drop-append, drop_zero, slice-front, take-front, take_all, slice-skip, slice-here,
  Bytes, from_le, bytes_eq, Result, ok, arith, le→leb, ◌==◌, ==_iff, if◌then◌else◌,
}
use never_been_found.Suite.{Suite}
use never_been_found.Asym.{Asym}
use never_been_found.Identity.{NodeIdentity, kem_decap}
use never_been_found.Kdf.{
  derive_hdr_key, derive_traffic_keys, hdr_nonce, seal, open_aead, open_aead-seal, length-seal,
}
use never_been_found.Sphinx.{
  ProcessOutcome, terminal, relay, ct_len, layer_info_len, layer_len, terminal_id, chunks, frame,
  blinding, next_header, peel, open_layer, Layer, process_header, record_addr,
}
use never_been_found.Sphinx.Layout.{
  All32, frame-tag, frame-body, length-frame, length-body, length-concat, chunks-concat,
}

pub to_bytes-All32 : (a : Asym) (ss : List a.Scalar) → All32 (map a.to_bytes ss)
to_bytes-All32 a [] = tt
to_bytes-All32 a (s ∷ ss) = (a.length-to_bytes s, to_bytes-All32 a ss)

abbrev layer_of : ℕ → Bytes → Bytes → Bytes → Bytes → Layer
layer_of n tag body ss_x opened = record {
  n = n;
  tag = tag;
  body = body;
  ss_x = ss_x;
  opened = opened;
}

module _ (c : Suite) (a : Asym) (id : NodeIdentity a) where
  process_header-open :
      (header : Bytes) (l : Layer)
      → open_layer c a id.sphinx_pub header ≡ ok l
      → process_header c a id header ≡ peel c a id l.n l.tag l.body l.ss_x l.opened
  unfolding process_header
  process_header-open header l e = rw e

  layer-parts :
      (header tag body slot blob opened : Bytes) (n : ℕ)
      → 18 ≤ length header
      → get_or header 0 0 ≡ 1
      → get_or header 1 0 ≡ n
      → (n == 0) ≡ false
      → slice 2 16 header ≡ tag
      → drop 18 header ≡ body
      → length body ≡ n * 32 + n * layer_len
      → take 32 body ≡ slot
      → take (n * layer_len) (drop (n * 32) body) ≡ blob
      → (let ss_x = a.point_mul id.sphinx_pub (a.reduce slot) in
          open_aead c (derive_hdr_key c ss_x tag) (hdr_nonce c tag n) blob ≡ ok opened)
      → open_layer c a id.sphinx_pub header
        ≡ ok (layer_of n tag body (a.point_mul id.sphinx_pub (a.reduce slot)) opened)
  unfolding open_layer
  layer-parts header tag body slot blob opened n long ver num some_hop etag ebody size eslot eblob
        eopen =
      rw (le→leb _ _ long, ver, num, some_hop, etag, ebody, (==_iff _ _).1 size, eslot, eblob)
        (rw eopen)

  process-parts :
      (header tag body slot blob opened : Bytes) (n : ℕ)
      → 18 ≤ length header
      → get_or header 0 0 ≡ 1
      → get_or header 1 0 ≡ n
      → (n == 0) ≡ false
      → slice 2 16 header ≡ tag
      → drop 18 header ≡ body
      → length body ≡ n * 32 + n * layer_len
      → take 32 body ≡ slot
      → take (n * layer_len) (drop (n * 32) body) ≡ blob
      → (let ss_x = a.point_mul id.sphinx_pub (a.reduce slot) in
          open_aead c (derive_hdr_key c ss_x tag) (hdr_nonce c tag n) blob ≡ ok opened)
      → process_header c a id header
        ≡ peel c a id n tag body (a.point_mul id.sphinx_pub (a.reduce slot)) opened
  process-parts header tag body slot blob opened n long ver num some_hop etag ebody size eslot eblob
        eopen =
      process_header-open header _ (
        layer-parts header tag body slot blob opened n long ver num some_hop etag ebody size eslot
          eblob eopen)

ok-if {ℓ} :
    {E A : Type ℓ} (x y : A) (b : Bool)
    → ◌≡◌ {A = Result E A} (if b then ok x else ok y) (ok (if b then x else y))
ok-if x y true = refl
ok-if x y false = refl

-- What one hop makes of the contents `info` and the rest `inner` of its layer.
abbrev pub outcome : (c : Suite) (a : Asym) → Bytes → Bytes → Bytes → Bytes → Bytes → ProcessOutcome
outcome c a tag ss_x ss_kem info new_header =
    let keys = derive_traffic_keys c ss_x ss_kem tag in
    if bytes_eq (take 20 info) terminal_id
    then terminal tag keys.0 keys.1
    else relay tag keys.0 keys.1 (take 20 info)
        (record_addr (slice 20 4 info) (from_le (slice 24 2 info))) new_header

module _ (c : Suite) (a : Asym) (id : NodeIdentity a) where
  peel-parts :
      (n : ℕ) (tag body ss_x ss_kem info inner : Bytes)
      → length info ≡ layer_info_len
      → length inner ≡ (n - 1) * layer_len
      → kem_decap a id.kem_sk (slice 64 ct_len info) ≡ ok ss_kem
      → peel c a id n tag body ss_x (info ++ inner)
        ≡ ok (
            outcome c a tag ss_x ss_kem info
              (next_header c a n tag body (info ++ inner) (blinding c a ss_x (take 32 body))))
  unfolding peel
  peel-parts n tag body ss_x ss_kem info inner hi hn hk =
      rw
        (
          (==_iff _ _).1 size,
          slice-front 64 ct_len info inner (omega (arith, hi)),
          take-front 20 info inner (omega (arith, hi)),
          slice-front 20 4 info inner (omega (arith, hi)),
          slice-front 24 2 info inner (omega (arith, hi)),
        )
        (rw hk (ok-if _ _ (bytes_eq (take 20 info) terminal_id)))
    where
      size : length (info ++ inner) ≡ layer_info_len + (n - 1) * layer_len
      size = omega (arith, length-append info inner, hi, hn)

  abbrev pub alphas : List a.Scalar → List Bytes
  alphas = map a.to_bytes

  blind-alphas :
      (b : a.Scalar) (ss : List a.Scalar)
      → map (λ arr. a.to_bytes (a.mul (a.reduce arr) b)) (alphas ss)
        ≡ alphas (map (λ s. a.mul s b) ss)
  blind-alphas b [] = refl
  blind-alphas b (s ∷ ss) =
      ap₂ ◌∷◌ (ap (λ t. a.to_bytes (a.mul t b)) (a.reduce-to_bytes s)) (blind-alphas b ss)

  length-alphas : (ss : List a.Scalar) → length (concat (alphas ss)) ≡ length ss * 32
  length-alphas ss =
      length-concat (alphas ss) (to_bytes-All32 a ss) ∙ ap (λ n. n * 32) (length-map a.to_bytes ss)

  rest_alphas :
      (s0 : a.Scalar) (ss : List a.Scalar) (blob : Bytes)
      → slice 32 (suc (length ss) * 32 - 32) (concat (alphas (s0 ∷ ss)) ++ blob)
        ≡ concat (alphas ss)
  unfolding concat
  rest_alphas s0 ss blob =
      let e : suc (length ss) * 32 - 32 ≡ length ss * 32 = omega arith in
      ap (λ k. slice 32 k (concat (alphas (s0 ∷ ss)) ++ blob)) e
      ∙ ap (slice 32 (length ss * 32)) (append_assoc (a.to_bytes s0) (concat (alphas ss)) blob)
      ∙ slice-skip 32 (length ss * 32) 32 (a.to_bytes s0) _ (a.length-to_bytes s0) (omega arith)
      ∙ slice-here (length ss * 32) (concat (alphas ss)) blob (length-alphas ss)

  next_header-eq :
      (s0 b : a.Scalar) (ss : List a.Scalar) (tag blob info inner : Bytes)
      → length info ≡ layer_info_len
      → next_header c a (suc (length ss)) tag (concat (alphas (s0 ∷ ss)) ++ blob) (info ++ inner) b
        ≡ frame (length ss) tag (alphas (map (λ s. a.mul s b) ss)) inner
  unfolding next_header
  next_header-eq s0 b ss tag blob info inner hi =
      let count : length ss * 32 / 32 ≡ length ss = omega arith in
      let whole : length (alphas ss) ≡ length ss = length-map a.to_bytes ss in
      rw (rest_alphas s0 ss blob, length-alphas ss, count)
        (rw (drop-append layer_info_len layer_info_len info inner hi (omega arith), drop_zero inner)
          (ap₂ (λ n slots. frame n tag slots inner) (omega arith)
            (ap (map (λ arr. a.to_bytes (a.mul (a.reduce arr) b))) (
                ap (λ k. chunks k (concat (alphas ss))) (sym whole)
                ∙ chunks-concat (alphas ss) (to_bytes-All32 a ss))
              ∙ blind-alphas b ss)))

  -- The header whose outermost layer is sealed for this hop: the hop gets the secret `ss_x` of its
  -- point and the first slot, and the next header has the blinded slots and the inner layers.
  pub process-layer :
      (s0 : a.Scalar) (ss : List a.Scalar) (tag info inner ss_kem : Bytes)
      → length tag ≡ 16
      → length info ≡ layer_info_len
      → length inner ≡ length ss * layer_len
      → kem_decap a id.kem_sk (slice 64 ct_len info) ≡ ok ss_kem
      → let ss_x = a.point_mul id.sphinx_pub s0 in
        let n = suc (length ss) in
        let blob = seal c (derive_hdr_key c ss_x tag) (hdr_nonce c tag n) (info ++ inner) in
        let b = blinding c a ss_x (a.to_bytes s0) in
        process_header c a id (frame n tag (alphas (s0 ∷ ss)) blob)
        ≡ ok (
            outcome c a tag ss_x ss_kem info
              (frame (length ss) tag (alphas (map (λ s. a.mul s b) ss)) inner))
  process-layer s0 ss tag info inner ss_kem ht hi hn hk =
      process-parts c a id (frame n tag (alphas (s0 ∷ ss)) blob) tag body (a.to_bytes s0) blob
        (info ++ inner) n (omega (arith, length-frame n tag (alphas (s0 ∷ ss)) blob ht all32))
        (unfold frame in refl) (unfold frame in refl) some_hop (frame-tag n tag _ blob ht all32)
        (frame-body n tag _ blob ht all32)
        (omega (arith, length-body n tag (alphas (s0 ∷ ss)) blob ht all32, slots, size)) first
        (ap (take (n * layer_len)) tail ∙ take_all _ blob (omega (arith, size)))
        (rw (a.reduce-to_bytes s0) (open_aead-seal c _ _ (info ++ inner)))
      ∙ rw (a.reduce-to_bytes s0) (
          peel-parts n tag body ss_x ss_kem info inner hi (omega (arith, hn)) hk
          ∙ ap (λ x. ok (outcome c a tag ss_x ss_kem info x))
              (ap (λ t. next_header c a n tag body (info ++ inner) (blinding c a ss_x t)) first
                ∙ next_header-eq s0 (blinding c a ss_x (a.to_bytes s0)) ss tag blob info inner hi))
    where
      n : ℕ
      n = suc (length ss)

      some_hop : (n == 0) ≡ false
      some_hop = ground arith

      ss_x : Bytes
      ss_x = a.point_mul id.sphinx_pub s0

      blob : Bytes
      blob = seal c (derive_hdr_key c ss_x tag) (hdr_nonce c tag n) (info ++ inner)

      body : Bytes
      body = concat (alphas (s0 ∷ ss)) ++ blob

      all32 : All32 (alphas (s0 ∷ ss))
      all32 = to_bytes-All32 a (s0 ∷ ss)

      slots : length (alphas (s0 ∷ ss)) ≡ n
      slots = length-map a.to_bytes (s0 ∷ ss)

      size : length blob ≡ n * layer_len
      size = length-seal c _ _ (info ++ inner) ∙ omega (arith, length-append info inner, hi, hn)

      first : take 32 body ≡ a.to_bytes s0
      first =
          unfold concat in
          ap (take 32) (append_assoc (a.to_bytes s0) (concat (alphas ss)) blob)
          ∙ take-append 32 (a.to_bytes s0) _ (a.length-to_bytes s0)

      tail : drop (n * 32) body ≡ blob
      tail =
          drop-append (n * 32) (n * 32) (concat (alphas (s0 ∷ ss))) blob (length-alphas (s0 ∷ ss))
            (omega arith)
          ∙ ap (λ k. drop k blob) (omega arith)
          ∙ drop_zero blob
