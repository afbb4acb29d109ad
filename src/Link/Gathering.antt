-- ===== src/Link/Gathering.antt =====
-- A handshake message of several datagrams, in any order (crates/nbf-net/src/link.rs, the fragments
-- of `send_hs_fragmented` in the receiving task).
use never_been_found.Prelude.{
  ℕ, zero, suc, ◌+◌, ◌*◌, ◌%◌, ◌^◌, ◌≤◌, ◌<◌, ◌≡◌, ◌≢◌, refl, ap, subst, ◌∙◌, inl, inr, true, none,
  some, List, [], ◌∷◌, ◌++◌, length, length-append, All, NoRepeat, drop, slice, slice-here,
  slice-skip, drop-append, drop_zero, chunk_at, chunks_from, Bytes, to_le, from_le, from_le-to_le,
  length-to_le, le→leb, ==_iff, arith, Map, lookup, insert, remove, nat_eq, lookup-insert,
  lookup-insert_self, eq_or_ne,
}
use never_been_found.Addr.{addr_eq_inst}
use never_been_found.Fragment.Delivery.{Occurs}
use never_been_found.Link.{hs_mark, hs_chunk, hs_count, hs_datagram, hs_join, is_handshake}

-- What the fragments of a handshake can carry.
abbrev pub HsFits : Bytes → Type 0
HsFits msg = length msg ≤ 65535 * hs_chunk

pub hs_count_bounds :
    (msg : Bytes) → HsFits msg → (hs_count msg < 2 ^ 16) × (length msg ≤ hs_count msg * hs_chunk)
unfolding hs_count
hs_count_bounds msg h = (omega arith, omega arith)

pub hs_count_pos : (msg : Bytes) → 1 ≤ hs_count msg
unfolding hs_count
hs_count_pos msg = omega arith

-- The fields of a datagram, read back.
module _ (n i : ℕ) (chunk : Bytes) (n_16 : n < 2 ^ 16) (i_16 : i < 2 ^ 16) where
  small : (k : ℕ) → k < 2 ^ 16 → from_le (to_le 2 (k % 2 ^ 16)) ≡ k
  small k h = ap (λ v. from_le (to_le 2 v)) {y = k} (omega arith) ∙ from_le-to_le 2 k (omega arith)

  pub datagram-total : from_le (slice 1 2 (hs_datagram n i chunk)) ≡ n
  unfolding hs_datagram
  datagram-total =
      ap from_le (
        slice-skip 1 2 1 (hs_mark ∷ []) _ refl (omega arith)
        ∙ slice-here 2 (to_le 2 (n % 2 ^ 16)) _ (length-to_le 2 (n % 2 ^ 16)))
      ∙ small n n_16

  pub datagram-index : from_le (slice 3 2 (hs_datagram n i chunk)) ≡ i
  unfolding hs_datagram
  datagram-index =
      ap from_le (
        slice-skip 3 2 1 (hs_mark ∷ []) _ refl (omega arith)
        ∙ slice-skip 2 2 2 (to_le 2 (n % 2 ^ 16)) _ (length-to_le 2 (n % 2 ^ 16)) (omega arith)
        ∙ slice-here 2 (to_le 2 (i % 2 ^ 16)) chunk (length-to_le 2 (i % 2 ^ 16)))
      ∙ small i i_16

  pub datagram-chunk : drop 5 (hs_datagram n i chunk) ≡ chunk
  unfolding hs_datagram
  datagram-chunk =
      drop-append 5 1 (hs_mark ∷ []) _ refl (omega arith)
      ∙ drop-append 4 2 (to_le 2 (n % 2 ^ 16)) _ (length-to_le 2 (n % 2 ^ 16)) (omega arith)
      ∙ drop-append 2 2 (to_le 2 (i % 2 ^ 16)) chunk (length-to_le 2 (i % 2 ^ 16)) (omega arith)
      ∙ drop_zero chunk

  pub datagram-handshake : is_handshake (hs_datagram n i chunk) ≡ true
  unfolding is_handshake hs_datagram
  datagram-handshake = le→leb 5 _ (
      omega (
        arith,
        length-append (to_le 2 (n % 2 ^ 16)) (to_le 2 (i % 2 ^ 16) ++ chunk),
        length-append (to_le 2 (i % 2 ^ 16)) chunk,
        length-to_le 2 (n % 2 ^ 16),
        length-to_le 2 (i % 2 ^ 16),
      ))

remove_missing : (k : ℕ) (m : Map ℕ Bytes) → lookup k m ≡ none → length (remove k m) ≡ length m
unfolding lookup remove
remove_missing k [] h = refl
remove_missing k ((j, v) ∷ m) h = ground (arith, remove_missing k m)

-- The parts that have come, the last one first.
module _ (msg : Bytes) where
  unfoldable pub parts_of : List ℕ → Map ℕ Bytes
  parts_of [] = []
  parts_of (i ∷ is) = insert i (chunk_at hs_chunk msg i) (parts_of is)

  parts_of-missing : (j : ℕ) (is : List ℕ) → All (λ i. j ≢ i) is → lookup j (parts_of is) ≡ none
  unfolding parts_of lookup
  parts_of-missing j [] h = refl
  parts_of-missing j (i ∷ is) (ne, h) =
      let later = parts_of-missing j is h in
      ground (arith, lookup-insert i j (chunk_at hs_chunk msg i) (parts_of is), ==_iff i j)

  parts_of-present :
      (j : ℕ) (is : List ℕ) → Occurs j is → lookup j (parts_of is) ≡ some (chunk_at hs_chunk msg j)
  unfolding parts_of
  parts_of-present j [] h = absurd h
  parts_of-present j (i ∷ is) h = elim (eq_or_ne i j) [
    | inl same ↦
        subst (λ k. lookup k (parts_of (i ∷ is)) ≡ some (chunk_at hs_chunk msg k)) same
          (lookup-insert_self i (chunk_at hs_chunk msg i) (parts_of is))
    | inr ne ↦ elim h [
      | inl same ↦ absurd (ne same)
      | inr later ↦
          let here = parts_of-present j is later in
          ground (arith, lookup-insert i j (chunk_at hs_chunk msg i) (parts_of is), ==_iff i j)
    ]
  ]

  pub length-parts_of : (is : List ℕ) → NoRepeat is → length (parts_of is) ≡ length is
  unfolding parts_of insert
  length-parts_of [] h = refl
  length-parts_of (i ∷ is) (ne, h) =
      ap suc (remove_missing i (parts_of is) (parts_of-missing i is ne) ∙ length-parts_of is h)

  pub join-parts_of :
      (is : List ℕ) (k n : ℕ)
      → ((j : ℕ) → j < k + n → Occurs j is)
      → hs_join k n (parts_of is) ≡ chunks_from hs_chunk msg k n
  unfolding hs_join chunks_from
  join-parts_of is k zero h = refl
  join-parts_of is k (suc n) h =
      rw (parts_of-present k is (h k (omega arith)), hs_join)
        (ap (◌++◌ (chunk_at hs_chunk msg k))
          (join-parts_of is (suc k) n (λ j lt. h j (omega arith))))
