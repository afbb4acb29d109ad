-- ===== src/Examples/Headers.antt =====
-- Headers for a concrete route of one node, and a layer for a hop.
use never_been_found.Prelude.{
  ℕ, ◌*◌, ◌≡◌, ◌≢◌, refl, ap, ◌∙◌, [], ◌∷◌, ◌++◌, length, length-replicate, slice, map, replicate,
  Bytes, ok, arith,
}
use never_been_found.Addr.{v4}
use never_been_found.Descriptor.{Descriptor}
use never_been_found.Identity.{NodeIdentity, kem_decap, kem_encap}
use never_been_found.Kdf.{derive_hdr_key, derive_traffic_keys, hdr_nonce, seal}
use never_been_found.Sphinx.{
  BuiltHeader, relay, terminal_id, ct_len, info_next, frame, wrap, traffic, infos, secrets,
  draw_scalars, encap_all, build_header, blinding, process_header,
}
use never_been_found.Sphinx.Layout.{IsV4Descriptor, length-info_next, info_next-ct}
use never_been_found.Sphinx.Peel.{process-layer, alphas}
use never_been_found.Sphinx.Steps.{Owns, outcome-next}
use never_been_found.Sphinx.Walk.{Walk}
use never_been_found.Sphinx.Build.{done, via, build_header-Walk}
use never_been_found.Sphinx.Public.{process_header-public}
use never_been_found.Examples.Toy.{suite, asym}

abbrev pub tag : Bytes
tag = replicate 16 1

abbrev pub key_pair : ℕ → NodeIdentity asym
key_pair k = record {
  ed = k;
  link_priv = replicate 32 k;
  link_pub = replicate 32 k;
  sphinx_priv = 2;
  sphinx_pub = 2 ∷ replicate 31 0;
  kem_sk = k;
  kem_pk = k ∷ [];
}

abbrev pub desc : Descriptor
desc = record {
  node_id = replicate 20 7;
  ed_pub = replicate 32 7;
  link_pub = replicate 32 7;
  sphinx_pub = 2 ∷ replicate 31 0;
  kem_pk = 7 ∷ [];
  cell_addr = record { ip = v4 (127 ∷ 0 ∷ 0 ∷ 1 ∷ []); port = 7001 };
  dht_port = 7002;
  ts = 0;
  sig = replicate 64 0;
}

desc-IsV4 : IsV4Descriptor desc
desc-IsV4 = record {
  id_20 = length-replicate {A = ℕ} 20 7;
  link_32 = length-replicate {A = ℕ} 32 7;
  port_u16 = omega arith;
  octets = 127 ∷ 0 ∷ 0 ∷ 1 ∷ [];
  ip_v4 = refl;
  octets_4 = refl;
}

abbrev pub head_of : Bytes → ℕ
head_of [] = 0
head_of (b ∷ bs) = b

desc_unmarked : desc.node_id ≢ terminal_id
unfolding terminal_id replicate
desc_unmarked e = let h = ap head_of e in absurd (omega arith)

pub desc-Owns : Owns asym (key_pair 7) desc
desc-Owns = record {
  same_point = refl;
  is_v4 = desc-IsV4;
  unmarked = desc_unmarked;
  seed = 7;
  secret_key = refl;
  public_key = refl;
}

abbrev built : BuiltHeader
built =
    let ct = 6 ∷ replicate 1087 0 in
    let ss = secrets suite asym (desc ∷ []) 1 (5 ∷ []) in
    let keys = traffic suite tag ss ((13 ∷ []) ∷ []) in
    record {
      header =
          frame 1 tag ((5 ∷ replicate 31 0) ∷ []) (wrap suite tag (infos (desc ∷ []) (ct ∷ [])) ss);
      tag = tag;
      fwd_keys = map (λ k. k.0) keys;
      bwd_keys = map (λ k. k.1) keys;
      first_addr = desc.cell_addr;
    }

build_header_runs : (build_header suite asym (desc ∷ []) tag 5).0 ≡ ok built
unfolding build_header draw_scalars encap_all kem_encap secrets wrap traffic
build_header_runs = refl

build_header-Walk_example :
    Walk suite asym tag (key_pair 7 ∷ []) (desc ∷ []) built.header built.fwd_keys built.bwd_keys
build_header-Walk_example =
    build_header-Walk suite asym (key_pair 7 ∷ []) desc [] tag 5 built (via desc-Owns done)
      (length-replicate {A = ℕ} 16 1) build_header_runs

abbrev cipher : Bytes
cipher = replicate 1088 0

abbrev layer : Bytes
layer = info_next desc cipher

abbrev inner : Bytes
inner = replicate 1168 0

abbrev ss_x : Bytes
ss_x = asym.point_mul (2 ∷ replicate 31 0) 5

abbrev header : Bytes
header =
    frame 2 tag (alphas suite asym (key_pair 9) (5 ∷ 3 ∷ []))
      (seal suite (derive_hdr_key suite ss_x tag) (hdr_nonce suite tag 2) (layer ++ inner))

abbrev onward : Bytes
onward =
    let b = blinding suite asym ss_x (5 ∷ replicate 31 0) in
    frame 1 tag (alphas suite asym (key_pair 9) ((3 * b) ∷ [])) inner

abbrev keys : Bytes × Bytes
keys = derive_traffic_keys suite ss_x (9 ∷ []) tag

decaps : (k : ℕ) (ct : Bytes) → (s : Bytes) × (kem_decap asym k ct ≡ ok s)
unfolding kem_decap
decaps k ct = (_, refl)

full : length cipher ≡ ct_len
full = length-replicate {A = ℕ} 1088 0

decapsulated : kem_decap asym 9 (slice 64 ct_len layer) ≡ ok (9 ∷ [])
unfolding kem_decap replicate
decapsulated = rw (info_next-ct desc desc-IsV4 cipher full)

header_passes :
    process_header suite asym (key_pair 9) header
    ≡ ok (relay tag keys.0 keys.1 desc.node_id desc.cell_addr onward)
header_passes =
    process-layer suite asym (key_pair 9) 5 (3 ∷ []) tag layer inner (9 ∷ [])
      (length-replicate {A = ℕ} 16 1) (length-info_next desc desc-IsV4 cipher full)
      (length-replicate {A = ℕ} 1168 0) decapsulated
    ∙ ap ok
        (outcome-next suite asym desc tag ss_x (9 ∷ []) cipher onward desc-IsV4 desc_unmarked full)

process_header-public_example :
    (f : Bytes) × (b : Bytes) × (process_header suite asym (key_pair 8) header
      ≡ ok (relay tag f b desc.node_id desc.cell_addr onward))
process_header-public_example =
    process_header-public suite asym (key_pair 9) (key_pair 8) header tag keys.0 keys.1 desc.node_id
      onward desc.cell_addr refl (decaps 8) header_passes
