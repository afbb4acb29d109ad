-- ===== src/Sphinx/Public.antt =====
-- What the layers of a header hide from those who have the public descriptors
-- (crates/nbf-crypto/src/sphinx.rs, `process_header`).
use never_been_found.Prelude.{
  ◌+◌, ◌-◌, ◌*◌, ◌≡◌, sym, ap, ◌∙◌, Bool, true, false, length, take, slice, Bytes, bytes_eq, Result,
  ok, guard, >>=-eq-ok, ◌==◌, if◌then◌else◌,
}
use never_been_found.Suite.{Suite}
use never_been_found.Asym.{Asym}
use never_been_found.Errors.{CryptoError, sphinx}
use never_been_found.Kdf.{derive_traffic_keys}
use never_been_found.Addr.{SocketAddr}
use never_been_found.Identity.{NodeIdentity, kem_decap}
use never_been_found.Sphinx.{
  ProcessOutcome, Layer, terminal, relay, ct_len, layer_info_len, layer_len, terminal_id,
  open_layer, peel, process_header,
}

same_hop :
    (z : Bool) (t f b id next t' f' b' id' next' : Bytes) (ad ad' : SocketAddr) (f1 b1 : Bytes)
    → ◌≡◌ {A = Result CryptoError ProcessOutcome}
        (if z then ok (terminal t f b) else ok (relay t f b id ad next))
        (ok (relay t' f' b' id' ad' next'))
    → ◌≡◌ {A = Result CryptoError ProcessOutcome}
        (if z then ok (terminal t f1 b1) else ok (relay t f1 b1 id ad next))
        (ok (relay t' f1 b1 id' ad' next'))
same_hop true t f b id next t' f' b' id' next' ad ad' f1 b1 e = cc
same_hop false t f b id next t' f' b' id' next' ad ad' f1 b1 e = cc

module _ (c : Suite) (a : Asym) (i j : NodeIdentity a) where
  peel-Public :
      (l : Layer) (tag f b id next : Bytes) (ad : SocketAddr)
      → ((ct : Bytes) → (k : Bytes) × (kem_decap a j.kem_sk ct ≡ ok k))
      → peel c a i l.n l.tag l.body l.ss_x l.opened ≡ ok (relay tag f b id ad next)
      → (f' : Bytes) × (b' : Bytes) × (peel c a j l.n l.tag l.body l.ss_x l.opened
          ≡ ok (relay tag f' b' id ad next))
  unfolding peel
  peel-Public l tag f b id next ad total e =
      let (u, g, e1) =
        >>=-eq-ok (guard (length l.opened == layer_info_len + (l.n - 1) * layer_len) sphinx) _ e in
      let (k, dk, e2) = >>=-eq-ok (kem_decap a i.kem_sk (slice 64 ct_len l.opened)) _ e1 in
      let (k', dk') = total (slice 64 ct_len l.opened) in
      let keys = derive_traffic_keys c l.ss_x k' l.tag in
      (
        keys.0,
        keys.1,
        rw (g, dk')
            (same_hop (bytes_eq (take 20 l.opened) terminal_id) _ _ _ _ _ _ _ _ _ _ _ _ keys.0
              keys.1 e2),
      )

  -- Take anyone who has the public point of a node's descriptor and some ML-KEM key of their own
  -- that never rejects. From a header that the node would pass on they read the id and the address
  -- of the next node and the next header, without any secret key of the node; only the traffic
  -- keys differ.
  pub process_header-public :
      (header tag f b id next : Bytes) (ad : SocketAddr)
      → i.sphinx_pub ≡ j.sphinx_pub
      → ((ct : Bytes) → (k : Bytes) × (kem_decap a j.kem_sk ct ≡ ok k))
      → process_header c a i header ≡ ok (relay tag f b id ad next)
      → (f' : Bytes) × (b' : Bytes) × (process_header c a j header
          ≡ ok (relay tag f' b' id ad next))
  unfolding process_header
  process_header-public header tag f b id next ad same total e =
      let (l, o, p) = >>=-eq-ok (open_layer c a i.sphinx_pub header) _ e in
      let (f', b', q) = peel-Public l tag f b id next ad total p in
      (f', b', rw (ap (λ x. open_layer c a x header) (sym same) ∙ o) q)
