-- ===== src/Link/Handshakes.antt =====
-- A link that gets the datagrams of one handshake message in any order (crates/nbf-net/src/link.rs,
-- the receiving task).
use never_been_found.Prelude.{
  ℕ, suc, ◌+◌, ◌≤◌, ◌<◌, ◌≡◌, ◌≢◌, refl, sym, ap, ◌∙◌, append-nil, ◌⊎◌, inl, inr, false, none, List,
  [], ◌∷◌, ◌++◌, map, length, All, NoRepeat, drop_zero, chunk_at, chunks_from-drop, Bytes, ◌==◌,
  ==_iff, if◌then◌else◌, arith, Map, lookup, insert, remove, nat_eq, lookup-insert,
  lookup-insert_self, lookup-remove, lookup-remove_self,
}
use never_been_found.Addr.{SocketAddr, addr_eq_ne, addr_eq_inst}
use never_been_found.Fragment.Delivery.{Occurs}
use never_been_found.Noise.{Noise}
use never_been_found.Link.{
  hs_chunk, hs_count, hs_datagram, hs_fragment, hs_join, hs_entry, Link, handle_hs, hs_part,
  receive_datagram,
}
use never_been_found.Link.Blocked.{not_empty, receive_each}
use never_been_found.Link.Gathering.{
  HsFits, hs_count_bounds, hs_count_pos, datagram-total, datagram-index, datagram-chunk,
  datagram-handshake, parts_of, length-parts_of, join-parts_of,
}

module _ (x : Noise) (src : SocketAddr) (msg : Bytes) (fits : HsFits msg) (entropy : ℕ) where
  abbrev n : ℕ
  n = hs_count msg

  abbrev Holding : List ℕ → Link x → Type 0
  Holding is l = hs_entry n (lookup src l.hs_buf) ≡ (n, parts_of msg is)

  hs_part-piece :
      (i : ℕ) (is : List ℕ) (l : Link x)
      → i < n
      → Holding is l
      → hs_part x src (hs_fragment msg i) entropy l ≡ (
          if length (parts_of msg (i ∷ is)) == n
          then handle_hs x src
              (hs_join 0 n (parts_of msg (i ∷ is)))
              entropy
              (record l { hs_buf = remove src l.hs_buf })
          else (record l { hs_buf = insert src (n, parts_of msg (i ∷ is)) l.hs_buf }, []))
  unfolding hs_part hs_fragment parts_of
  hs_part-piece i is l lt holds =
      let c = chunk_at hs_chunk msg i in
      let u = (hs_count_bounds msg fits).0 in
      rw (
        datagram-total n i c u (omega arith),
        datagram-index n i c u (omega arith),
        datagram-chunk n i c u (omega arith),
        holds,
      )

  receive_piece :
      (i : ℕ) (l : Link x)
      → i < n
      → receive_datagram x src (hs_fragment msg i) entropy l
        ≡ (let r = hs_part x src (hs_fragment msg i) entropy l in (r.0, r.1, none))
  unfolding receive_datagram hs_fragment
  receive_piece i l lt =
      let c = chunk_at hs_chunk msg i in
      let h =
        datagram-handshake n i c (hs_count_bounds msg fits).0
          (omega (arith, (hs_count_bounds msg fits).0)) in
      rw (not_empty (hs_datagram n i c) h, h)

  length-pieces :
      (i : ℕ) (is : List ℕ)
      → All (λ j. i ≢ j) is
      → NoRepeat is
      → length (parts_of msg (i ∷ is)) ≡ suc (length is)
  length-pieces i is new d = length-parts_of msg (i ∷ is) (new, d)

  -- What the last datagram does: the whole message is handled, its buffer is gone, and the buffers
  -- of other addresses are what they were.
  pub record Handled (l : Link x) (r : Link x × List (SocketAddr × Bytes)) : Type 0 where
    pub bufs : Map SocketAddr (ℕ × Map ℕ Bytes)
    pub emptied : lookup src bufs ≡ none
    pub others : (addr : SocketAddr) → src ≢ addr → lookup addr bufs ≡ lookup addr l.hs_buf
    pub handled : r ≡ handle_hs x src msg entropy (record l { hs_buf = bufs })

  other_addr :
      (addr : SocketAddr) (e : ℕ × Map ℕ Bytes) (m : Map SocketAddr (ℕ × Map ℕ Bytes))
      → src ≢ addr
      → (lookup addr (insert src e m) ≡ lookup addr m)
        × (lookup addr (remove src m) ≡ lookup addr m)
  other_addr addr e m ne =
      let apart = addr_eq_ne src addr ne in
      (lookup-insert src addr e m ∙ rw apart, lookup-remove src addr m ∙ rw apart)

  last_piece :
      (i : ℕ) (is : List ℕ) (l : Link x)
      → i < n
      → Holding is l
      → NoRepeat (i ∷ is)
      → suc (length is) ≡ n
      → ((j : ℕ) → j < n → Occurs j (i ∷ is))
      → Handled l (receive_each x src (hs_fragment msg i ∷ []) entropy l)
  unfolding receive_each
  last_piece i is l lt holds d full all =
      let size = length-parts_of msg (i ∷ is) d in
      let l' : Link x = record l { hs_buf = remove src l.hs_buf } in
      let whole : hs_join 0 n (parts_of msg (i ∷ is)) ≡ msg =
        join-parts_of msg (i ∷ is) 0 n (λ j lt. all j (omega arith))
        ∙ chunks_from-drop hs_chunk msg 0 n (omega (arith, (hs_count_bounds msg fits).1))
        ∙ drop_zero msg in
      record {
        bufs = remove src l.hs_buf;
        emptied = lookup-remove_self src l.hs_buf;
        others = λ addr ne. (other_addr addr (0, []) l.hs_buf ne).1;
        handled =
            ap {B = Link x × List (SocketAddr × Bytes)} (λ r. (r.0, r.1 ++ []))
              (receive_piece i l lt)
            ∙ ap {B = Link x × List (SocketAddr × Bytes)} (λ r. (r.0, r.1 ++ []))
                (hs_part-piece i is l lt holds)
            ∙ rw ((==_iff (length (parts_of msg (i ∷ is))) n).1 (size ∙ full), whole)
                (ap {B = Link x × List (SocketAddr × Bytes)}
                  (λ o. ((handle_hs x src msg entropy l').0, o)) (append-nil _));
      }

  next_piece :
      (i : ℕ) (is : List ℕ) (ds : List Bytes) (l : Link x)
      → i < n
      → Holding is l
      → NoRepeat (i ∷ is)
      → suc (length is) < n
      → receive_each x src (hs_fragment msg i ∷ ds) entropy l
        ≡ receive_each x src ds entropy
            (record l { hs_buf = insert src (n, parts_of msg (i ∷ is)) l.hs_buf })
  unfolding receive_each
  next_piece i is ds l lt holds d short =
      let size = length-parts_of msg (i ∷ is) d in
      let after = receive_each x src ds entropy in
      ap {B = Link x × List (SocketAddr × Bytes)}
        (λ r. let later = after r.0 in (later.0, r.1 ++ later.1)) (receive_piece i l lt)
      ∙ ap {B = Link x × List (SocketAddr × Bytes)}
          (λ r. let later = after r.0 in (later.0, r.1 ++ later.1)) (hs_part-piece i is l lt holds)
      ∙ rw (unequal size)
    where
      unequal :
          length (parts_of msg (i ∷ is)) ≡ suc (length is)
          → (length (parts_of msg (i ∷ is)) == n) ≡ false
      unequal e = ground (arith, ==_iff (length (parts_of msg (i ∷ is))) n)

  rest_arrives :
      (is order : List ℕ) (l : Link x)
      → All (λ i. i < n) order
      → Holding is l
      → NoRepeat is
      → NoRepeat order
      → All (λ i. All (λ j. i ≢ j) is) order
      → 1 ≤ length order
      → length is + length order ≡ n
      → ((j : ℕ) → j < n → Occurs j is ⊎ Occurs j order)
      → Handled l (receive_each x src (map (hs_fragment msg) order) entropy l)
  rest_arrives is [] l lt holds d d' new some_ full all = absurd (omega (arith, some_))
  rest_arrives is (i ∷ []) l (lt, lts) holds d d' (new, news) some_ full all =
      last_piece i is l lt holds (new, d) (omega arith)
        (λ j h. elim (all j h) [
          | inl before ↦ inr before
          | inr (inl here) ↦ inl here
          | inr (inr later) ↦ absurd later
        ])
  rest_arrives is (i ∷ k ∷ order) l (lt, lts) holds d (apart, d') (new, news) some_ full all =
      let l' : Link x = record l { hs_buf = insert src (n, parts_of msg (i ∷ is)) l.hs_buf } in
      let later =
        rest_arrives (i ∷ is) (k ∷ order) l' lts
          (ap (hs_entry n) (lookup-insert_self src (n, parts_of msg (i ∷ is)) l.hs_buf)) (new, d) d'
          (newer (k ∷ order) apart news) (omega arith) (omega (arith, full))
          (λ j h. elim (all j h) [
            | inl before ↦ inl (inr before)
            | inr (inl here) ↦ inl (inl here)
            | inr (inr after) ↦ inr after
          ]) in
      record {
        bufs = later.bufs;
        emptied = later.emptied;
        others = λ addr ne.
            later.others addr ne ∙ (other_addr addr (n, parts_of msg (i ∷ is)) l.hs_buf ne).0;
        handled =
            next_piece i is (map (hs_fragment msg) (k ∷ order)) l lt holds (new, d)
              (omega (arith, full))
            ∙ later.handled;
      }
    where
      newer :
          (xs : List ℕ)
          → All (λ y. i ≢ y) xs
          → All (λ y. All (λ j. y ≢ j) is) xs
          → All (λ y. All (λ j. y ≢ j) (i ∷ is)) xs
      newer [] a b = tt
      newer (y ∷ ys) a b = (((λ e. a.0 (sym e)), b.0), newer ys a.1 b.1)

  -- Let a link hold no fragments of an address. If the fragments of a handshake message of at most
  -- 65535 fragments arrive from there, each once and in any order, then nothing is done until the
  -- last one: that makes the link handle the message, unaltered, as it would have handled it alone.
  -- The buffer of the address is empty again, and those of other addresses are what they were.
  pub handshake_arrives :
      (order : List ℕ) (l : Link x)
      → lookup src l.hs_buf ≡ none
      → All (λ i. i < hs_count msg) order
      → NoRepeat order
      → length order ≡ hs_count msg
      → ((j : ℕ) → j < hs_count msg → Occurs j order)
      → Handled l (receive_each x src (map (hs_fragment msg) order) entropy l)
  handshake_arrives order l empty lt d full all =
      rest_arrives [] order l lt (ap (hs_entry n) empty ∙ unfold parts_of in refl) tt d
        (nothing_before order) (omega (arith, full, hs_count_pos msg)) (omega (arith, full))
        (λ j h. inr (all j h))
    where
      nothing_before : (xs : List ℕ) → All (λ i. All (λ j. i ≢ j) []) xs
      nothing_before [] = tt
      nothing_before (x ∷ xs) = (tt, nothing_before xs)
