-- ===== src/Rpc/Authentic.antt =====
-- The descriptors that arrive in messages of the distributed table (crates/nbf-dht/src/rpc.rs,
-- `rpc_decode`).
use never_been_found.Prelude.{
  ℕ, ◌≡◌, subst, not, Bool, true, false, Option, none, some, [], ◌∷◌, length, get_or, take, drop,
  slice, Bytes, from_le, bytes_eq, Result, ok, err, ◌>>=◌, ◌>>◌, >>=-eq-ok, guard, guard-eq-ok,
  map_err, leb, ◌==◌, if◌then◌else◌,
}
use never_been_found.Errors.{CryptoError, DhtError, bad_len, bad_desc}
use never_been_found.Suite.{Suite}
use never_been_found.Asym.{Asym}
use never_been_found.Identity.{node_id_from_ed_pub}
use never_been_found.Descriptor.{Descriptor, from_signed_bytes}
use never_been_found.Descriptor.Signed.{from_signed_bytes_sound}
use never_been_found.Rpc.{
  RpcType, RpcMsg, ping, pong, store, find, found, rpc_magic, rpc_try_from, read_contacts,
  read_value, decode_body, rpc_decode,
}

-- The descriptor that a message carries.
abbrev pub carried : RpcMsg → Option Descriptor
carried (ping k) = none
carried (pong k) = none
carried (store d) = some d
carried (find key want) = none
carried (found ks value) = value

map_err-eq-ok :
    (r : Result CryptoError Descriptor) (d : Descriptor) → map_err bad_desc r ≡ ok d → r ≡ ok d
map_err-eq-ok (ok x) d e = cc
map_err-eq-ok (err x) d e = cc

module _ (c : Suite) (a : Asym) where
  -- The id of the descriptor is the hash of its Ed25519 key, and that key verifies its signature.
  abbrev pub IsAuthentic : Descriptor → Type 0
  IsAuthentic d =
      (d.node_id ≡ node_id_from_ed_pub c d.ed_pub)
      × (w : Bytes) × (a.verify d.ed_pub (take 1321 w) d.sig ≡ true)

  abbrev pub AllAuthentic : Option Descriptor → Type 0
  AllAuthentic none = Unit {0}
  AllAuthentic (some d) = IsAuthentic d

  accepted-IsAuthentic :
      (w : Bytes) (d : Descriptor) → from_signed_bytes c a w ≡ ok d → IsAuthentic d
  accepted-IsAuthentic w d e =
      let (same, size, id, good) = from_signed_bytes_sound c a w d e in (id, w, good)

  moved :
      (x m : RpcMsg)
      → ◌≡◌ {A = Result DhtError RpcMsg} (ok x) (ok m)
      → AllAuthentic (carried x)
      → AllAuthentic (carried m)
  moved x m e h = let same : x ≡ m = cc in subst (λ y. AllAuthentic (carried y)) same h

  moved_value :
      (x v : Option Descriptor)
      → ◌≡◌ {A = Result DhtError (Option Descriptor)} (ok x) (ok v)
      → AllAuthentic x
      → AllAuthentic v
  moved_value x v e h = let same : x ≡ v = cc in subst AllAuthentic same h

  -- With the test of the flag byte taken out.
  flagged :
      (empty : Bool) (len : ℕ) (bs : Bytes) (v : Option Descriptor)
      → (if empty then ok none else do
        guard (leb 1385 (length bs)) (bad_len len)
        d ← map_err bad_desc (from_signed_bytes c a (take 1385 bs))
        ok (some d))
        ≡ ok v
      → AllAuthentic v
  flagged true len bs v e = moved_value none v e tt
  flagged false len bs v e =
      let (l, e1) = guard-eq-ok (leb 1385 (length bs)) _ _ e in
      let (d, ed, e2) = >>=-eq-ok (map_err bad_desc (from_signed_bytes c a (take 1385 bs))) _ e1 in
      moved_value (some d) v e2 (accepted-IsAuthentic (take 1385 bs) d (map_err-eq-ok _ d ed))

  value-AllAuthentic :
      (len : ℕ) (bs : Bytes) (v : Option Descriptor) → read_value c a len bs ≡ ok v → AllAuthentic v
  unfolding read_value
  value-AllAuthentic len [] v e = cc
  value-AllAuthentic len (b ∷ bs) v e = flagged (b == 0) len bs v e

  body-AllAuthentic :
      (t : RpcType) (body : Bytes) (m : RpcMsg)
      → decode_body c a t body ≡ ok m
      → AllAuthentic (carried m)
  unfolding decode_body
  body-AllAuthentic ping body m e =
      let (l, e1) = guard-eq-ok (length body == 8) _ _ e in moved (ping (from_le body)) m e1 tt
  body-AllAuthentic pong body m e =
      let (l, e1) = guard-eq-ok (length body == 8) _ _ e in moved (pong (from_le body)) m e1 tt
  body-AllAuthentic store body m e =
      let (d, ed, e1) = >>=-eq-ok (map_err bad_desc (from_signed_bytes c a body)) _ e in
      moved (store d) m e1 (accepted-IsAuthentic body d (map_err-eq-ok _ d ed))
  body-AllAuthentic find body m e =
      let (l, e1) = guard-eq-ok (leb 21 (length body)) _ _ e in
      moved (find (take 20 body) (not (get_or body 20 0 == 0))) m e1 tt
  body-AllAuthentic found body m e =
      let (l, e1) = guard-eq-ok (leb 3 (length body)) _ _ e in
      let (ks, ek, e2) =
        >>=-eq-ok (read_contacts (length body) (from_le (slice 0 2 body)) (drop 2 body)) _ e1 in
      let (v, ev, e3) = >>=-eq-ok (read_value c a (length body) ks.1) _ e2 in
      moved (found ks.0 v) m e3 (value-AllAuthentic (length body) ks.1 v ev)

  -- Whatever bytes arrive, a descriptor in a message that `rpc_decode` returns has the hash of its
  -- Ed25519 key as its id and, for some bytes, a signature that this key verifies.
  pub rpc_decode-AllAuthentic :
      (w : Bytes) (m : RpcMsg) → rpc_decode c a w ≡ ok m → AllAuthentic (carried m)
  unfolding rpc_decode
  rpc_decode-AllAuthentic w m e =
      let last = λ (t : RpcType). decode_body c a t (drop 5 w) in
      let (l, e1) = guard-eq-ok (leb 5 (length w)) _ _ e in
      let (g, e2) = guard-eq-ok (bytes_eq (take 4 w) rpc_magic) _ _ e1 in
      let (t, et, e3) = >>=-eq-ok (rpc_try_from (get_or w 4 0)) last e2 in
      body-AllAuthentic t (drop 5 w) m e3
