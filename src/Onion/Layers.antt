-- ===== src/Onion/Layers.antt =====
-- Layers put on and taken off (crates/nbf-net/src/cell.rs).
use never_been_found.Prelude.{
  ℕ, ◌+◌, ◌*◌, ◌≡◌, refl, ap, ◌∙◌, List, [], ◌∷◌, ◌++◌, length, length-reverse, reverse, Bytes, ok,
  arith,
}
use mathlib.Core.List.{reverse-cons}
use never_been_found.Suite.{Suite}
use never_been_found.Kdf.{relay_nonce, seal, open_aead-seal, length-seal, dir_fwd}
use never_been_found.Onion.{
  seal_loop, seal_onion, open_onion, seal_bwd, open_bwd, seal_onion_bwd, open_onion_bwd,
}

module _ (c : Suite) where
  seal_loop-append :
      (n : Bytes) (xs ys : List Bytes) (p : Bytes)
      → seal_loop c n (xs ++ ys) p ≡ seal_loop c n ys (seal_loop c n xs p)
  unfolding seal_loop
  seal_loop-append n [] ys p = refl
  seal_loop-append n (x ∷ xs) ys p = seal_loop-append n xs ys (seal c x n p)

  seal_loop-reverse :
      (n k : Bytes) (ks : List Bytes) (p : Bytes)
      → seal_loop c n (reverse (k ∷ ks)) p ≡ seal c k n (seal_loop c n (reverse ks) p)
  seal_loop-reverse n k ks p =
      ap (λ l. seal_loop c n l p) (reverse-cons k ks)
      ∙ seal_loop-append n (reverse ks) (k ∷ []) p
      ∙ unfold seal_loop in refl

  pub seal_onion-nil : (tag : Bytes) (seq : ℕ) (m : Bytes) → seal_onion c [] tag seq m ≡ m
  unfolding seal_onion seal_loop
  seal_onion-nil tag seq m = refl

  pub seal_onion_bwd-nil : (tag : Bytes) (seq : ℕ) (m : Bytes) → seal_onion_bwd c [] tag seq m ≡ m
  unfolding seal_onion_bwd seal_loop
  seal_onion_bwd-nil tag seq m = refl

  -- The first hop's layer is the outermost one.
  pub seal_onion-cons :
      (k : Bytes) (ks : List Bytes) (tag : Bytes) (seq : ℕ) (m : Bytes)
      → seal_onion c (k ∷ ks) tag seq m
        ≡ seal c k (relay_nonce c tag dir_fwd seq) (seal_onion c ks tag seq m)
  unfolding seal_onion
  seal_onion-cons k ks tag seq m = seal_loop-reverse _ k ks m

  pub seal_onion_bwd-cons :
      (k : Bytes) (ks : List Bytes) (tag : Bytes) (seq : ℕ) (m : Bytes)
      → seal_onion_bwd c (k ∷ ks) tag seq m ≡ seal_bwd c k tag seq (seal_onion_bwd c ks tag seq m)
  unfolding seal_onion_bwd seal_bwd
  seal_onion_bwd-cons k ks tag seq m = seal_loop-reverse _ k ks m

  -- Each hop on the way out takes off exactly its layer.
  pub open_onion-seal_onion :
      (k : Bytes) (ks : List Bytes) (tag : Bytes) (seq : ℕ) (m : Bytes)
      → open_onion c k tag seq (seal_onion c (k ∷ ks) tag seq m) ≡ ok (seal_onion c ks tag seq m)
  unfolding open_onion
  open_onion-seal_onion k ks tag seq m = rw (seal_onion-cons k ks tag seq m, open_aead-seal c k _ _)

  pub open_bwd-seal_bwd :
      (k tag : Bytes) (seq : ℕ) (m : Bytes) → open_bwd c k tag seq (seal_bwd c k tag seq m) ≡ ok m
  unfolding open_bwd seal_bwd
  open_bwd-seal_bwd k tag seq m = rw (open_aead-seal c k _ m)

  open_onion_bwd-cons :
      (k : Bytes) (ks : List Bytes) (tag : Bytes) (seq : ℕ) (m : Bytes)
      → open_onion_bwd c (k ∷ ks) tag seq (seal_bwd c k tag seq m) ≡ open_onion_bwd c ks tag seq m
  unfolding open_onion_bwd seal_bwd
  open_onion_bwd-cons k ks tag seq m = rw (open_aead-seal c k _ m)

  -- The origin opens a reply that every hop of the route has wrapped, the last hop first.
  pub open_onion_bwd-seal_onion_bwd :
      (ks : List Bytes) (tag : Bytes) (seq : ℕ) (m : Bytes)
      → open_onion_bwd c ks tag seq (seal_onion_bwd c ks tag seq m) ≡ ok m
  unfolding open_onion_bwd
  open_onion_bwd-seal_onion_bwd [] tag seq m = unfold seal_onion_bwd seal_loop in refl
  open_onion_bwd-seal_onion_bwd (k ∷ ks) tag seq m =
      rw (seal_onion_bwd-cons k ks tag seq m)
        (open_onion_bwd-cons k ks tag seq _ ∙ open_onion_bwd-seal_onion_bwd ks tag seq m)

  length-seal_loop :
      (n : Bytes) (ks : List Bytes) (p : Bytes)
      → length (seal_loop c n ks p) ≡ length p + 16 * length ks
  unfolding seal_loop
  length-seal_loop n [] p = omega arith
  length-seal_loop n (k ∷ ks) p =
      omega (arith, length-seal_loop n ks (seal c k n p), length-seal c k n p)

  -- Each layer adds 16 bytes.
  pub length-seal_onion :
      (ks : List Bytes) (tag : Bytes) (seq : ℕ) (m : Bytes)
      → length (seal_onion c ks tag seq m) ≡ length m + 16 * length ks
  unfolding seal_onion
  length-seal_onion ks tag seq m =
      omega
        (arith, length-seal_loop (relay_nonce c tag dir_fwd seq) (reverse ks) m, length-reverse ks)

  pub length-seal_bwd :
      (k tag : Bytes) (seq : ℕ) (m : Bytes) → length (seal_bwd c k tag seq m) ≡ length m + 16
  unfolding seal_bwd
  length-seal_bwd k tag seq m = length-seal c k _ m
