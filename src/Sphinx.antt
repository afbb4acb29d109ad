-- ===== src/Sphinx.antt =====
-- The Sphinx header (crates/nbf-crypto/src/sphinx.rs): built in one pass by the origin, and peeled
-- by one layer at each hop.
pub mod Layout
pub mod Peel
pub mod Steps
pub mod Walk
pub mod Build
pub mod Public
use never_been_found.Prelude.{
  concat, ℕ, zero, suc, ◌+◌, ◌-◌, ◌*◌, ◌/◌, ◌≡◌, Bool, ◌||◌, not, Option, none, some, List, [], ◌∷◌,
  ◌++◌, map, length, get_or, take, drop, slice, replicate, Bytes, to_le, from_le, bytes_eq, Result,
  ok, err, ◌>>=◌, ◌>>◌, guard, map_err, ltb, leb, ◌==◌, if◌then◌else◌,
}
use never_been_found.Errors.{CryptoError, sphinx}
use never_been_found.Suite.{Suite}
use never_been_found.Asym.{Asym}
use never_been_found.Addr.{SocketAddr, IpAddr, v4, v6}
use never_been_found.Descriptor.{Descriptor}
use never_been_found.Identity.{NodeIdentity, kem_encap, kem_decap}
use never_been_found.Kdf.{derive_hdr_key, derive_traffic_keys, hdr_nonce, seal, open_aead}

abbrev pub ct_len : ℕ
ct_len = 1088

abbrev pub layer_info_len : ℕ
layer_info_len = 64 + ct_len

abbrev pub layer_len : ℕ
layer_len = 16 + layer_info_len

abbrev pub max_hops : ℕ
max_hops = 5

abbrev pub hdr_fixed : ℕ
hdr_fixed = 18

unfoldable pub terminal_id : Bytes
unfolding replicate
terminal_id = replicate 20 0xff

-- [next_id 20][next_ip 4][next_port 2][next_link_pub 32][pad 6][ct 1088]. An address that is not
-- IPv4 leaves the zeros of the array.
unfoldable pub ip_octets : IpAddr → Bytes
ip_octets (v4 o) = o
ip_octets (v6 o) = replicate 4 0

unfoldable pub info_next : Descriptor → Bytes → Bytes
info_next nd ct =
    nd.node_id
    ++ (ip_octets nd.cell_addr.ip
        ++ (to_le 2 nd.cell_addr.port ++ (nd.link_pub ++ (replicate 6 0 ++ ct))))

unfoldable pub info_last : Bytes → Bytes
info_last ct = terminal_id ++ (replicate 44 0 ++ ct)

-- The raw contents of each layer, for the route and its ciphertexts.
unfoldable pub infos : List Descriptor → List Bytes → List Bytes
infos (d ∷ nd ∷ ds) (ct ∷ cts) = info_next nd ct ∷ infos (nd ∷ ds) cts
infos (d ∷ []) (ct ∷ cts) = info_last ct ∷ []
infos (d ∷ ds) [] = []
infos [] cts = []

pub record BuiltHeader : Type 0 where
  pub header : Bytes
  pub tag : Bytes
  pub fwd_keys : List Bytes
  pub bwd_keys : List Bytes
  pub first_addr : SocketAddr

pub record Layer : Type 0 where
  pub n : ℕ
  pub tag : Bytes
  pub body : Bytes
  pub ss_x : Bytes
  pub opened : Bytes

pub data ProcessOutcome : Type 0 where
  -- tag, k_fwd, k_bwd
  terminal : Bytes → Bytes → Bytes → ProcessOutcome
  -- tag, k_fwd, k_bwd, next_id, next_addr, new_header
  relay : Bytes → Bytes → Bytes → Bytes → SocketAddr → Bytes → ProcessOutcome

abbrev pub record_addr : Bytes → ℕ → SocketAddr
record_addr ip port = record { ip = v4 ip; port = port }

-- `chunks_exact(32)` of `k` whole chunks
unfoldable pub chunks : ℕ → Bytes → List Bytes
chunks zero bs = []
chunks (suc k) bs = take 32 bs ∷ chunks k (drop 32 bs)

-- [ver][n][tag][alphas][outermost blob]
unfoldable pub frame : ℕ → Bytes → List Bytes → Bytes → Bytes
frame n tag alphas blob = 1 ∷ n ∷ (tag ++ (concat alphas ++ blob))

abbrev pub first_addr_of : List Descriptor → SocketAddr
first_addr_of [] = record { ip = v4 []; port = 0 }
first_addr_of (d ∷ ds) = d.cell_addr

module _ (c : Suite) where
  -- From the inside out: layer t is sealed over its contents and layer t + 1, under the number of
  -- hops from t on.
  unfoldable pub wrap : Bytes → List Bytes → List Bytes → Bytes
  wrap tag (info ∷ is) (ss ∷ sss) =
      seal c (derive_hdr_key c ss tag) (hdr_nonce c tag (length (info ∷ is)))
        (info ++ wrap tag is sss)
  wrap tag (info ∷ is) [] = []
  wrap tag [] sss = []

  unfoldable pub traffic : Bytes → List Bytes → List Bytes → List (Bytes × Bytes)
  traffic tag (ss ∷ sss) (k ∷ ks) = derive_traffic_keys c ss k tag ∷ traffic tag sss ks
  traffic tag (ss ∷ sss) [] = []
  traffic tag [] ks = []

module _ (c : Suite) (a : Asym) where
  -- b = H(ss_x ‖ alpha)
  unfoldable pub blinding : Bytes → Bytes → a.Scalar
  blinding ss_x alpha = a.from_hash (c.sha512 (ss_x ++ alpha))

  -- One random scalar for each hop, in the order of the route.
  unfoldable pub draw_scalars : List Descriptor → a.Rng → List a.Scalar × a.Rng
  draw_scalars [] rng = ([], rng)
  draw_scalars (d ∷ ds) rng =
      let (x, rng') = a.random_scalar rng in
      let (xs, rng'') = draw_scalars ds rng' in (x ∷ xs, rng'')

  -- `ss_x` of each hop, along the chain of blinding factors.
  unfoldable pub secrets : List Descriptor → a.Scalar → List a.Scalar → List Bytes
  secrets (d ∷ ds) blind_acc (x ∷ xs) =
      let eff = a.mul x blind_acc in
      let pt = a.point_mul d.sphinx_pub eff in
      pt ∷ secrets ds (a.mul blind_acc (blinding pt (a.to_bytes eff))) xs
  secrets (d ∷ ds) blind_acc [] = []
  secrets [] blind_acc xs = []

  -- Ciphertexts and shared secrets, until one encapsulation fails.
  unfoldable pub encap_all :
      List Descriptor → a.Rng → Result CryptoError (List Bytes × List Bytes) × a.Rng
  encap_all [] rng = (ok ([], []), rng)
  encap_all (d ∷ ds) rng =
      let r = kem_encap a d.kem_pk rng in
      let later = encap_all ds r.1 in
      elim r.0 [
        | err e ↦ (err e, r.1)
        | ok (ct, ss) ↦ elim later.0 [
          | err e ↦ (err e, later.1)
          | ok (cts, sss) ↦ (ok (ct ∷ cts, ss ∷ sss), later.1)
        ]
      ]

  unfoldable pub build_header :
      List Descriptor → Bytes → a.Rng → Result CryptoError BuiltHeader × a.Rng
  build_header route tag rng =
      if (length route == 0) || ltb max_hops (length route)
      then (err (CryptoError.bad_length (length route)), rng)
      else let (xs, rng1) = draw_scalars route rng in
        let ss_x = secrets route a.one xs in
        let r = encap_all route rng1 in
        elim r.0 [
          | err e ↦ (err e, r.1)
          | ok (cts, ss_kem) ↦
              let keys = traffic c tag ss_x ss_kem in
              (
                ok (record {
                  header =
                      frame (length route) tag (map a.to_bytes xs)
                        (wrap c tag (infos route cts) ss_x);
                  tag = tag;
                  fwd_keys = map (λ k. k.0) keys;
                  bwd_keys = map (λ k. k.1) keys;
                  first_addr = first_addr_of route;
                }),
                r.1,
              )
        ]

  -- What a hop hands on: the other alphas blinded, and what its own layer held.
  pub next_header : ℕ → Bytes → Bytes → Bytes → a.Scalar → Bytes
  next_header n tag body opened b =
      let rest = slice 32 (n * 32 - 32) body in
      frame (n - 1) tag
        (map (λ arr. a.to_bytes (a.mul (a.reduce arr) b)) (chunks (length rest / 32) rest))
        (drop layer_info_len opened)

  pub peel : NodeIdentity a → ℕ → Bytes → Bytes → Bytes → Bytes → Result CryptoError ProcessOutcome
  unfolding next_header
  peel id n tag body ss_x opened = do
    guard (length opened == layer_info_len + (n - 1) * layer_len) sphinx
    let next_id = take 20 opened
    ss_kem ← kem_decap a id.kem_sk (slice 64 ct_len opened)
    let keys = derive_traffic_keys c ss_x ss_kem tag
    let next_addr = record_addr (slice 20 4 opened) (from_le (slice 24 2 opened))
    let new_header = next_header n tag body opened (blinding ss_x (take 32 body))
    if bytes_eq next_id terminal_id
        then ok (terminal tag keys.0 keys.1)
        else ok (relay tag keys.0 keys.1 next_id next_addr new_header)

  -- What a hop has after it has opened its layer.
  pub open_layer : Bytes → Bytes → Result CryptoError Layer
  open_layer sphinx_pub header = do
    guard (leb hdr_fixed (length header)) sphinx
    let n = get_or header 1 0
    guard (not (not (get_or header 0 0 == 1) || (n == 0))) sphinx
    let tag = slice 2 16 header
    let body = drop hdr_fixed header
    guard (length body == n * 32 + n * layer_len) sphinx
    let ss_x = a.point_mul sphinx_pub (a.reduce (take 32 body))
    let my_blob = take (n * layer_len) (drop (n * 32) body)
    opened ←
        map_err (λ e. sphinx) (open_aead c (derive_hdr_key c ss_x tag) (hdr_nonce c tag n) my_blob)
    ok (record { n = n; tag = tag; body = body; ss_x = ss_x; opened = opened })

  pub process_header : NodeIdentity a → Bytes → Result CryptoError ProcessOutcome
  process_header id header = do
    l ← open_layer id.sphinx_pub header
    peel id l.n l.tag l.body l.ss_x l.opened
